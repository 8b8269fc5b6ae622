-- ===== src/Socks/Gso/Segments.antt =====
-- A batch sent in one call arrives as the datagrams that it was made of.
use outway.Base.{
  ℕ, zero, suc, ◌≤◌, ◌<◌, ◌≡◌, ◌≢◌, refl, ap, ◌∙◌, arith, List, [], ◌∷◌, ◌++◌, some, Bool, true,
  ==_false,
}
use outway.Base.{length, take, length-append, take_of_append, drop_of_append}
use outway.Base.{◌+◌, ◌*◌, drop, length-drop, All}
use native.Mathlib.Nat.{suc-mul}
use outway.Net.{AddrPort}
use outway.Socks.Gso.{WritePacket, gso_rest, gso_eligible, super_datagram, segments, buffers}

-- The last packet is not empty.
abbrev pub LastNonempty : List WritePacket → Type 0
LastNonempty [] = Unit
LastNonempty (p ∷ []) = 0 < length p.buffer
LastNonempty (p ∷ q ∷ ps) = LastNonempty (q ∷ ps)

-- As `gsoEligible` tests it: all but the last have `size` bytes, and the last no more.
abbrev pub Uniform : ℕ → List WritePacket → Type 0
Uniform size [] = Unit
Uniform size (p ∷ []) = length p.buffer ≤ size
Uniform size (p ∷ q ∷ ps) = (length p.buffer ≡ size) × Uniform size (q ∷ ps)

abbrev pub Filled : List WritePacket → Type 0
Filled = All (λ p. 0 < length p.buffer)

take_all : (n : ℕ) (xs : List ℕ) → length xs ≤ n → take n xs ≡ xs
take_all zero [] h = refl
take_all (suc n) [] h = refl
take_all zero (x ∷ xs) h = ground arith
take_all (suc n) (x ∷ xs) h = ap (◌∷◌ x) (take_all n xs (omega arith))

append_nil : (xs : List ℕ) → xs ++ [] ≡ xs
append_nil [] = refl
append_nil (x ∷ xs) = ap (◌∷◌ x) (append_nil xs)

one_segment :
    (size fuel : ℕ) (xs rest : List ℕ)
    → length xs ≡ size
    → 0 < size
    → segments size (suc fuel) (xs ++ rest) ≡ xs ∷ segments size fuel rest
unfolding segments
one_segment size fuel xs rest h pos =
    let some_bytes : length (xs ++ rest) ≢ 0 = omega (arith, length-append xs rest, h, pos) in
    rw (==_false (length (xs ++ rest)) 0 some_bytes)
      (rw (take_of_append xs rest h, drop_of_append xs rest h) refl)

pub Uniform-segments :
    (size : ℕ) (ps : List WritePacket)
    → 0 < size
    → Uniform size ps
    → Filled ps
    → segments size (length ps) (super_datagram ps) ≡ buffers ps
Uniform-segments size [] pos h f = unfold segments in refl
Uniform-segments size (p ∷ []) pos h f = rw (append_nil p.buffer) (
    unfold segments in
    rw (==_false (length p.buffer) 0 (omega (arith, f.0))) (rw (take_all size p.buffer h) refl))
Uniform-segments size (p ∷ q ∷ ps) pos h f =
    one_segment size (length (q ∷ ps)) p.buffer (super_datagram (q ∷ ps)) h.0 pos
    ∙ ap (◌∷◌ p.buffer) (Uniform-segments size (q ∷ ps) pos (h.1) (f.1))

pub Uniform-length :
    (size : ℕ) (ps : List WritePacket)
    → Uniform size ps
    → length (super_datagram ps) ≤ length ps * size
Uniform-length size [] h = omega arith
Uniform-length size (p ∷ []) h = omega (arith, length-append p.buffer [], suc-mul 0 size, h)
Uniform-length size (p ∷ q ∷ ps) h = omega (
  arith,
  length-append p.buffer (super_datagram (q ∷ ps)),
  suc-mul (length (q ∷ ps)) size,
  Uniform-length size (q ∷ ps) (h.1),
  h.0,
)

-- More fuel than the bytes need changes nothing.
pub segments-more :
    (size k j : ℕ) (bs : List ℕ)
    → length bs ≤ k * size
    → segments size (k + j) bs ≡ segments size k bs
unfolding segments
segments-more size zero zero bs h = refl
segments-more size zero (suc j) [] h =
    let unroll : 0 + suc j ≡ suc j = omega arith in rw unroll refl
segments-more size zero (suc j) (b ∷ bs) h = absurd (omega (arith, h))
segments-more size (suc k) j bs h =
    let less : length (drop size bs) ≤ k * size =
      omega (arith, length-drop size bs, suc-mul k size, h) in
    let rest = segments-more size k j (drop size bs) less in
    let unroll : suc k + j ≡ suc (k + j) = omega arith in rw unroll (rw rest refl)

pub gso_eligible-Uniform :
    (enabled : Bool) (ps : List WritePacket) (size : ℕ)
    → gso_eligible enabled ps ≡ some size
    → (0 < size) × Uniform size ps
unfolding gso_eligible
gso_eligible-Uniform enabled [] size h = ground arith
gso_eligible-Uniform enabled (p ∷ []) size h = ground arith
gso_eligible-Uniform enabled (p ∷ q ∷ ps) size h =
    let full : length p.buffer ≡ size = ground arith in
    let pos : 0 < size = ground arith in
    let more : gso_rest size p.addr (q ∷ ps) ≡ true = ground arith in
    (pos, (full, rest p.addr (q ∷ ps) more))
  where
    rest : (dst : AddrPort) (qs : List WritePacket) → gso_rest size dst qs ≡ true → Uniform size qs
    rest dst [] h = tt
    rest dst (q ∷ []) h = unfold gso_rest in ground arith
    rest dst (q ∷ r ∷ qs) h =
        unfold gso_rest in
        let full : length q.buffer ≡ size = ground arith in
        let more : gso_rest size dst (r ∷ qs) ≡ true = ground arith in
        (full, rest dst (r ∷ qs) more)

pub Uniform-Filled :
    (size : ℕ) (ps : List WritePacket) → 0 < size → Uniform size ps → LastNonempty ps → Filled ps
Uniform-Filled size [] pos h last = tt
Uniform-Filled size (p ∷ []) pos h last = (last, tt)
Uniform-Filled size (p ∷ q ∷ ps) pos h last =
    (omega (arith, h.0, pos), Uniform-Filled size (q ∷ ps) pos (h.1) last)

-- A batch that is eligible for one UDP_SEGMENT send, and does not end in an empty datagram, is cut
-- by the kernel into exactly its own datagrams, in order.
pub gso_eligible-segments :
    (enabled : Bool) (ps : List WritePacket) (size : ℕ)
    → gso_eligible enabled ps ≡ some size
    → LastNonempty ps
    → segments size (length ps) (super_datagram ps) ≡ buffers ps
gso_eligible-segments enabled ps size h last =
    let (pos, uniform) = gso_eligible-Uniform enabled ps size h in
    Uniform-segments size ps pos uniform (Uniform-Filled size ps pos uniform last)
