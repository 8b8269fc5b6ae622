-- ===== src/Socks/Reader/Split.antt =====
-- A coalesced read is split into the datagrams that it was made of.
use outway.Base.{
  ℕ, zero, suc, ◌+◌, ◌-◌, ◌*◌, ◌/◌, ◌%◌, ◌≤◌, ◌<◌, ◌≡◌, ◌≢◌, ==_false, refl, sym, ap, ◌∙◌, arith,
  List, [], ◌∷◌, ◌++◌, false, ◌==◌, ltb, if◌then◌else◌, length, take, drop, length-take,
  length-drop, drop-take_add, take_of_append, drop_of_append, ==_cases, ltb_cases, inl, inr, All,
}
use native.Mathlib.Nat.{zero-add, suc-add, mul-le-mul_right, suc-mul, div-add-mod, mod-lt, mul_comm}
use outway.Socks.Runtime.{Runtime}
use outway.Socks.Gso.{segments}
use outway.Socks.Gso.Segments.{segments-more}
use outway.Socks.Inbound.{ReadPacket}
use outway.Socks.Reader.{
  Buffer, Message, gro_max_segments, segment_count, copied, split, whole, read_segments,
}

-- What the relay reads of a packet that lies behind the room for a header.
abbrev pub payload_at : ℕ → ReadPacket → List ℕ
payload_at offset p = take p.n (drop offset p.buffer)

abbrev pub payloads : ℕ → List ReadPacket → List (List ℕ)
payloads offset [] = []
payloads offset (p ∷ ps) = payload_at offset p ∷ payloads offset ps

-- The pooled buffers have room for a segment behind the offset.
abbrev pub Roomy : ℕ → ℕ → (ℕ → Buffer) → Type 0
Roomy offset size pooled = (i : ℕ) → offset + size ≤ length (pooled i).bytes

drop-drop : (n m : ℕ) (xs : List ℕ) → drop (n + m) xs ≡ drop m (drop n xs)
drop-drop zero m xs = rw zero-add refl
drop-drop (suc n) zero [] = rw suc-add refl
drop-drop (suc n) (suc m) [] = rw suc-add refl
drop-drop (suc n) m (x ∷ xs) = rw suc-add (drop-drop n m xs)

take-take : (n m : ℕ) (xs : List ℕ) → n ≤ m → take n (take m xs) ≡ take n xs
take-take zero m xs h = refl
take-take (suc n) (suc m) [] h = refl
take-take (suc n) zero xs h = absurd (omega (arith, h))
take-take (suc n) (suc m) (x ∷ xs) h = ap (◌∷◌ x) (take-take n m xs (omega (arith, h)))

take-long : (n : ℕ) (xs : List ℕ) → length xs ≤ n → take n xs ≡ xs
take-long zero [] h = refl
take-long (suc n) [] h = refl
take-long zero (x ∷ xs) h = absurd (omega (arith, h))
take-long (suc n) (x ∷ xs) h = ap (◌∷◌ x) (take-long n xs (omega (arith, h)))

segment_full : (n size i : ℕ) → 0 < size → i * size < n → i ≢ n / size → i * size + size ≤ n
segment_full n size i pos h other =
    let q = n / size in
    let whole : size * q + n % size ≡ n = div-add-mod n size in
    let small : n % size < size = mod-lt n pos in
    let swap = mul_comm size q in
    elim (ltb_cases i q) [
      | inl (e, before) ↦
          let le : suc i * size ≤ q * size =
            mul-le-mul_right {m = suc i} {n = q} size (omega (arith, before)) in
          omega (arith, le, suc-mul i size, whole, swap)
      | inr (e, behind) ↦
          let le : suc q * size ≤ i * size =
            mul-le-mul_right {m = suc q} {n = i} size (omega (arith, behind, other)) in
          absurd (omega (arith, le, suc-mul q size, whole, swap, small, h))
    ]

-- The i-th segment of the bytes read, as the loop finds it: its length is the size, or what is left.
segment_at :
    (offset size n i : ℕ) (bytes : List ℕ)
    → 0 < size
    → i * size < n
    → let len = if i == n / size then n % size else size in
      (take len (drop (offset + i * size) bytes)
        ≡ take size (drop (i * size) (take n (drop offset bytes))))
      × (len ≤ size)
      × (i * size + len ≤ n)
segment_at offset size n i bytes pos h =
    let rest = drop (i * size) (drop offset bytes) in
    let left = n - i * size in
    let shifted : drop (offset + i * size) bytes ≡ rest = drop-drop offset (i * size) bytes in
    let parts : i * size + left ≡ n = omega (arith, h) in
    let inside : drop (i * size) (take n (drop offset bytes)) ≡ take left rest =
      ap (λ k. drop (i * size) (take k (drop offset bytes))) (sym parts)
      ∙ drop-take_add (i * size) left (drop offset bytes) in
    let whole : size * (n / size) + n % size ≡ n = div-add-mod n size in
    let small : n % size < size = mod-lt n pos in
    elim (==_cases i (n / size)) [
      | inl (e, last) ↦
          let tail : left ≡ n % size =
            omega (arith, whole, mul_comm size (n / size), ap (λ k. k * size) last) in
          rw (e, shifted, inside, tail)
            (
              sym (
                  take-long size (take (n % size) rest)
                    (omega (arith, length-take (n % size) rest, small))),
              omega (arith, small),
              omega (arith, tail, parts),
            )
      | inr (e, before) ↦
          let full : size ≤ left = omega (arith, parts, segment_full n size i pos h before) in
          rw (e, shifted, inside)
            (sym (take-take size left rest full), omega arith, omega (arith, full, parts))
    ]

payload_at-copied :
    (offset size i : ℕ) (m : Message) (buf : Buffer) (len : ℕ)
    → offset + size ≤ length buf.bytes
    → len ≤ size
    → offset + (i * size + len) ≤ length m.bytes
    → payload_at offset (copied offset size i m buf len)
      ≡ take len (drop (offset + i * size) m.bytes)
payload_at-copied offset size i m buf len room short inside =
    let slice = take len (drop (offset + i * size) m.bytes) in
    let head : length (take offset buf.bytes) ≡ offset =
      omega (arith, length-take offset buf.bytes, room) in
    let size_of_slice : length slice ≡ len = omega (
      arith,
      length-take len (drop (offset + i * size) m.bytes),
      length-drop (offset + i * size) m.bytes,
      inside,
    ) in
    rw (drop_of_append (take offset buf.bytes) (slice ++ drop (offset + len) buf.bytes) head)
      (take_of_append slice (drop (offset + len) buf.bytes) size_of_slice)

split-segments :
    (offset size : ℕ) (pooled : ℕ → Buffer) (m : Message) (i k : ℕ)
    → 0 < size
    → Roomy offset size pooled
    → offset + m.n ≤ length m.bytes
    → i * size + k * size < m.n + size
    → (payloads offset (split offset size pooled m i k)
        ≡ segments size k (drop (i * size) (take m.n (drop offset m.bytes))))
      × (length (split offset size pooled m i k) ≡ k)
      × All (λ p. (p.truncated ≡ false) × (p.n ≤ size)) (split offset size pooled m i k)
unfolding split segments
split-segments offset size pooled m i zero pos roomy inside h = (refl, refl, tt)
split-segments offset size pooled m i (suc k) pos roomy inside h =
    let bytes = take m.n (drop offset m.bytes) in
    let before : i * size < m.n = omega (arith, h, suc-mul k size) in
    let here = segment_at offset size m.n i m.bytes pos before in
    let len = if i == m.n / size then m.n % size else size in
    let count : length bytes ≡ m.n =
      omega (arith, length-take m.n (drop offset m.bytes), length-drop offset m.bytes, inside) in
    let there : length (drop (i * size) bytes) ≢ 0 =
      omega (arith, length-drop (i * size) bytes, count, before) in
    let next : drop size (drop (i * size) bytes) ≡ drop (suc i * size) bytes =
      sym (drop-drop (i * size) size bytes) ∙ ap (λ j. drop j bytes) (sym (suc-mul i size)) in
    let rest =
      split-segments offset size pooled m (suc i) k pos roomy inside
        (omega (arith, h, suc-mul k size, suc-mul i size)) in
    let first =
      payload_at-copied offset size i m (pooled i) len (roomy i) (here.1)
        (omega (arith, inside, here.2)) in
    (
      rw (==_false (length (drop (i * size) bytes)) 0 there, next)
          (rw (first, here.0, rest.0) refl),
      omega (arith, rest.1),
      ((refl, here.1), rest.2),
    )

segment_count_bounds :
    (n size : ℕ)
    → 0 < size
    → (segment_count n size * size < n + size) × (n ≤ segment_count n size * size)
segment_count_bounds n size pos =
    let q = n / size in
    let whole : size * q + n % size ≡ n = div-add-mod n size in
    let small : n % size < size = mod-lt n pos in
    let swap = mul_comm size q in
    elim (ltb_cases 0 (n % size)) [
      | inl (e, h) ↦
          let step : (q + 1) * size ≡ suc q * size = ap (λ k. k * size) (omega arith) in
          rw e (
            omega (arith, whole, small, swap, suc-mul q size, step, h),
            omega (arith, whole, small, swap, suc-mul q size, step),
          )
      | inr (e, h) ↦ rw e (omega (arith, whole, swap, h, pos), omega (arith, whole, swap, h))
    ]

-- The datagrams of a coalesced read that the loop has fuel for.
abbrev pub segments_read : ℕ → ℕ → ℕ
segments_read n size =
    if ltb gro_max_segments (segment_count n size) then gro_max_segments else segment_count n size

-- The first segment stays in the buffer that was read into, and the others follow.
first_segments :
    (offset size : ℕ) (pooled : ℕ → Buffer) (m : Message) (k : ℕ)
    → 0 < size
    → size < m.n
    → Roomy offset size pooled
    → offset + m.n ≤ length m.bytes
    → 1 ≤ k
    → k * size < m.n + size
    → let ps = whole (pooled 0) m size false ∷ split offset size pooled m 1 (k - 1) in
      (payloads offset ps ≡ segments size k (take m.n (drop offset m.bytes)))
      × (length ps ≡ k)
      × All (λ p. (p.truncated ≡ false) × (p.n ≤ size)) ps
first_segments offset size pooled m zero pos several roomy inside h k = absurd (omega (arith, h))
first_segments offset size pooled m (suc j) pos several roomy inside h k =
    let bytes = take m.n (drop offset m.bytes) in
    let less : suc j - 1 ≡ j = omega arith in
    let one : 1 * size ≡ size = omega arith in
    let rest =
      split-segments offset size pooled m 1 j pos roomy inside (omega (arith, k, suc-mul j size)) in
    let head : take size bytes ≡ take size (drop offset m.bytes) =
      take-take size m.n (drop offset m.bytes) (omega (arith, several)) in
    let there : length bytes ≢ 0 =
      omega (
        arith,
        length-take m.n (drop offset m.bytes),
        length-drop offset m.bytes,
        inside,
        several,
      ) in
    let start : segments size (suc j) bytes ≡ take size bytes ∷ segments size j (drop size bytes) =
      unfold segments in rw (==_false (length bytes) 0 there) refl in
    let tail : payloads offset (split offset size pooled m 1 j)
        ≡ segments size j (drop size bytes) =
      rest.0 ∙ ap (λ n. segments size j (drop n bytes)) one in
    rw less (rw (start, head, tail) refl, omega (arith, rest.1), ((refl, omega arith), rest.2))

pub read_segments_lem :
    (offset size : ℕ) (pooled : ℕ → Buffer) (m : Message) (r : Runtime)
    → 0 < size
    → size < m.n
    → Roomy offset size pooled
    → offset + m.n ≤ length m.bytes
    → let ps = (read_segments offset size pooled m r).0 in
      (payloads offset ps ≡ segments size gro_max_segments (take m.n (drop offset m.bytes)))
      × (length ps ≡ segments_read m.n size)
      × All (λ p. (p.truncated ≡ false) × (p.n ≤ size)) ps
unfolding read_segments
read_segments_lem offset size pooled m r pos several roomy inside =
    let bytes = take m.n (drop offset m.bytes) in
    let count = segment_count m.n size in
    let bounds = segment_count_bounds m.n size pos in
    let all : length bytes ≡ m.n =
      omega (arith, length-take m.n (drop offset m.bytes), length-drop offset m.bytes, inside) in
    let some_count : count ≢ 0 = λ e.
      let none : count * size ≡ 0 * size = ap (λ k. k * size) e in
      omega (arith, none, bounds.1, several) in
    elim (ltb_cases gro_max_segments count) [
      | inl (e, over) ↦
          let fewer : gro_max_segments * size ≤ count * size =
            mul-le-mul_right {m = gro_max_segments} {n = count} size (omega (arith, over)) in
          rw e (
            first_segments offset size pooled m gro_max_segments pos several roomy inside
              (omega arith) (omega (arith, fewer, bounds.0)))
      | inr (e, within) ↦
          let done =
            first_segments offset size pooled m count pos several roomy inside
              (omega (arith, some_count)) (bounds.0) in
          let spare : count + (gro_max_segments - count) ≡ gro_max_segments =
            omega (arith, within) in
          let more : segments size gro_max_segments bytes ≡ segments size count bytes =
            ap (λ k. segments size k bytes) (sym spare)
            ∙ segments-more size count (gro_max_segments - count) bytes
                (omega (arith, all, bounds.1)) in
          rw e (done.0 ∙ sym more, done.1, done.2)
    ]
