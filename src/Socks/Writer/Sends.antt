-- ===== src/Socks/Writer/Sends.antt =====
-- The sends of a batch in super-datagrams: within the kernel's limits, and complete.
use outway.Base.{
  ℕ, zero, suc, ◌+◌, ◌-◌, ◌*◌, ◌%◌, ◌^◌, ◌≤◌, ◌<◌, ◌≡◌, ◌≢◌, ◌⊎◌, ==_false, refl, sym, ap, ◌∙◌,
  arith, List, [], ◌∷◌, ◌++◌, Option, none, some, Bool, true, false, length, take, drop,
  length-append, take-append-drop, ltb_cases, inl, inr, All, All-take, All-drop,
}
use mathlib.Core.Path.{subst}
use native.Mathlib.Nat.{mod-eq_of_lt, mul-le-mul_right}
use outway.Net.{Addr, invalid, v4, v6, is4, is6}
use outway.Socks.Gso.{WritePacket, gso_eligible, super_datagram, segments, buffers}
use outway.Socks.Gso.Segments.{
  LastNonempty, Uniform, Filled, Uniform-segments, Uniform-length, segments-more,
  gso_eligible-Uniform, Uniform-Filled,
}
use outway.Socks.Writer.{
  gso_max_segments, gso_scratch_bytes, pack, Sendmsg, send_groups, send_udp_gso,
}

pack-take : (s t : ℕ) (ws : List WritePacket) → take (length (pack s t ws)) ws ≡ pack s t ws
unfolding pack
pack-take s t [] = refl
pack-take s t (w ∷ ws) = elim (ltb_cases s gso_max_segments) [
  | inr (e, _) ↦ rw e refl
  | inl (e, _) ↦ elim (ltb_cases gso_scratch_bytes (t + length w.buffer)) [
    | inl (f, _) ↦ rw (e, f) refl
    | inr (f, _) ↦ rw (e, f) (ap (◌∷◌ w) (pack-take (s + 1) (t + length w.buffer) ws))
  ]
]

-- A send stays within both limits.
pack-limits :
    (s t : ℕ) (ws : List WritePacket)
    → s ≤ gso_max_segments
    → t ≤ gso_scratch_bytes
    → (s + length (pack s t ws) ≤ gso_max_segments)
      × (t + length (super_datagram (pack s t ws)) ≤ gso_scratch_bytes)
unfolding pack
pack-limits s t [] h k = (omega (arith, h), omega (arith, k))
pack-limits s t (w ∷ ws) h k = elim (ltb_cases s gso_max_segments) [
  | inr (e, _) ↦ rw e (omega (arith, h), omega (arith, k))
  | inl (e, room) ↦ elim (ltb_cases gso_scratch_bytes (t + length w.buffer)) [
    | inl (f, _) ↦ rw (e, f) (omega (arith, h), omega (arith, k))
    | inr (f, fits) ↦
        let rest =
          pack-limits (s + 1) (t + length w.buffer) ws (omega (arith, room))
            (omega (arith, fits)) in
        rw (e, f)
          (
            omega (arith, rest.0),
            omega (
              arith,
              rest.1,
              length-append w.buffer (super_datagram (pack (s + 1) (t + length w.buffer) ws)),
            ),
          )
  ]
]

pack-some :
    (w : WritePacket) (ws : List WritePacket)
    → length w.buffer ≤ gso_scratch_bytes
    → 0 < length (pack 0 0 (w ∷ ws))
unfolding pack
pack-some w ws h = elim (ltb_cases gso_scratch_bytes (0 + length w.buffer)) [
  | inl (f, k) ↦ absurd (omega (arith, h, k))
  | inr (f, _) ↦ rw f (omega arith)
]

Uniform-take : (size k : ℕ) (ps : List WritePacket) → Uniform size ps → Uniform size (take k ps)
Uniform-take size zero ps h = tt
Uniform-take size (suc k) [] h = tt
Uniform-take size (suc zero) (p ∷ []) h = h
Uniform-take size (suc (suc k)) (p ∷ []) h = h
Uniform-take size (suc zero) (p ∷ q ∷ ps) h = omega (arith, h.0)
Uniform-take size (suc (suc k)) (p ∷ q ∷ ps) h = (h.0, Uniform-take size (suc k) (q ∷ ps) (h.1))

Uniform-drop : (size k : ℕ) (ps : List WritePacket) → Uniform size ps → Uniform size (drop k ps)
Uniform-drop size zero ps h = h
Uniform-drop size (suc k) [] h = tt
Uniform-drop size (suc zero) (p ∷ []) h = tt
Uniform-drop size (suc (suc k)) (p ∷ []) h = tt
Uniform-drop size (suc k) (p ∷ q ∷ ps) h = Uniform-drop size k (q ∷ ps) (h.1)

-- The datagrams that the kernel makes of the calls: at most as many of each as it allows.
abbrev pub received : List Sendmsg → List (List ℕ)
received [] = []
received (c ∷ cs) = segments c.segment_size gso_max_segments c.bytes ++ received cs

-- Each call is within the limits of the kernel and of the scratch buffer.
abbrev pub Allowed : Sendmsg → Type 0
Allowed c =
    (length c.bytes ≤ gso_scratch_bytes) × (length c.bytes ≤ gso_max_segments * c.segment_size)

buffers-append : (ps qs : List WritePacket) → buffers (ps ++ qs) ≡ buffers ps ++ buffers qs
buffers-append [] qs = refl
buffers-append (p ∷ ps) qs = ap (◌∷◌ p.buffer) (buffers-append ps qs)

group-received :
    (size : ℕ) (group : List WritePacket)
    → 0 < size
    → Uniform size group
    → Filled group
    → length group ≤ gso_max_segments
    → segments size gso_max_segments (super_datagram group) ≡ buffers group
group-received size group pos u f h =
    let spare = gso_max_segments - length group in
    let whole : length group + spare ≡ gso_max_segments = omega (arith, h) in
    ap (λ n. segments size n (super_datagram group)) (sym whole)
    ∙ segments-more size (length group) spare (super_datagram group) (Uniform-length size group u)
    ∙ Uniform-segments size group pos u f

Uniform-head :
    (size : ℕ) (w : WritePacket) (ws : List WritePacket)
    → Uniform size (w ∷ ws)
    → length w.buffer ≤ size
Uniform-head size w [] u = u
Uniform-head size w (v ∷ ws) u = omega (arith, u.0)

send_groups_lem :
    (kernel : Sendmsg → Option ℕ) (size fuel : ℕ) (ws : List WritePacket)
    → ((c : Sendmsg) → kernel c ≡ none)
    → 0 < size
    → size < 2 ^ 16
    → Uniform size ws
    → Filled ws
    → length ws ≤ fuel
    → let s = send_groups kernel size fuel ws in
      (s.sent ≡ length ws)
      × (s.error ≡ none)
      × (received s.calls ≡ buffers ws)
      × All Allowed s.calls
unfolding send_groups
send_groups_lem kernel size zero [] k pos small u f h = (refl, refl, refl, tt)
send_groups_lem kernel size (suc fuel) [] k pos small u f h = (refl, refl, refl, tt)
send_groups_lem kernel size zero (w ∷ ws) k pos small u f h = absurd (omega (arith, h))
send_groups_lem kernel size (suc fuel) (w ∷ ws) k pos small u f h =
    let group = pack 0 0 (w ∷ ws) in
    let n = length group in
    let left = drop n (w ∷ ws) in
    let call : Sendmsg = record { segment_size = size % 2 ^ 16; bytes = super_datagram group } in
    let rest = send_groups kernel size fuel left in
    let made : 0 < n = pack-some w ws (omega (arith, Uniform-head size w ws u, small)) in
    let prefix : take n (w ∷ ws) ≡ group = pack-take 0 0 (w ∷ ws) in
    let limits = pack-limits 0 0 (w ∷ ws) (omega arith) (omega arith) in
    let whole : group ++ left ≡ w ∷ ws =
      ap (λ g. g ++ left) (sym prefix) ∙ take-append-drop n (w ∷ ws) in
    let count : n + length left ≡ suc (length ws) =
      sym (length-append group left) ∙ ap length whole in
    let same : size % 2 ^ 16 ≡ size = mod-eq_of_lt small in
    let uniform : Uniform size group =
      subst (Uniform size) prefix (Uniform-take size n (w ∷ ws) u) in
    let filled : Filled group =
      subst Filled prefix (All-take (λ p. 0 < length p.buffer) n (w ∷ ws) f) in
    let others =
      send_groups_lem kernel size fuel left k pos small (Uniform-drop size n (w ∷ ws) u)
        (All-drop (λ p. 0 < length p.buffer) n (w ∷ ws) f) (omega (arith, h, count, made)) in
    let goes : send_groups kernel size (suc fuel) (w ∷ ws)
        ≡ record { sent = n + rest.sent; error = rest.error; calls = call ∷ rest.calls } =
      rw (==_false n 0 (omega (arith, made)), k call, send_groups) refl in
    let arrives : received (call ∷ rest.calls) ≡ buffers (w ∷ ws) = rw same (
      rw (group-received size group pos uniform filled (omega (arith, limits.0)), others.2)
        (sym (buffers-append group left) ∙ ap buffers whole)) in
    rw goes (
      omega (arith, others.0, count),
      others.1,
      arrives,
      (
        (
          omega (arith, limits.1),
          rw same (
              omega (
                arith,
                Uniform-length size group uniform,
                mul-le-mul_right {m = n} {n = gso_max_segments} size (omega (arith, limits.0)),
              )),
        ),
        others.3,
      ),
    )

family : (a : Addr) → a ≢ invalid → (is4 a ≡ true) ⊎ ((is4 a ≡ false) × (is6 a ≡ true))
family invalid h = absurd (h refl)
family (v4 x) h = inl refl
family (v6 x z) h = inr (refl, refl)

-- A batch that is eligible for UDP_SEGMENT, of datagrams that a UDP socket can send and the last not
-- empty, to an IPv4 or IPv6 address: where the kernel takes every send, all of the batch is said to
-- be sent and without an error; what arrives is exactly the datagrams of the batch, in order; and
-- no send has more bytes than the scratch buffer or more segments than the kernel allows.
pub send_udp_gso-received :
    (kernel : Sendmsg → Option ℕ) (enabled : Bool) (w : WritePacket) (ws : List WritePacket)
    (size : ℕ)
    → ((c : Sendmsg) → kernel c ≡ none)
    → gso_eligible enabled (w ∷ ws) ≡ some size
    → size < 2 ^ 16
    → LastNonempty (w ∷ ws)
    → w.addr.addr ≢ invalid
    → let s = send_udp_gso kernel (w ∷ ws) size in
      (s.sent ≡ length (w ∷ ws))
      × (s.error ≡ none)
      × (received s.calls ≡ buffers (w ∷ ws))
      × All Allowed s.calls
unfolding send_udp_gso
send_udp_gso-received kernel enabled w ws size k e small last known =
    let (pos, uniform) = gso_eligible-Uniform enabled (w ∷ ws) size e in
    let done =
      send_groups_lem kernel size (length (w ∷ ws)) (w ∷ ws) k pos small uniform
        (Uniform-Filled size (w ∷ ws) pos uniform last) (omega arith) in
    elim (family w.addr.addr known) [ inl e4 ↦ rw e4 done | inr (e4, e6) ↦ rw (e4, e6) done ]
