-- ===== src/Socks/Writer/Progress.antt =====
-- The loop of sendmmsg ends, and where the kernel takes messages it writes them all.
use outway.Base.{
  ℕ, zero, suc, ◌+◌, ◌≤◌, ◌<◌, ◌≡◌, ◌⊎◌, ==_false, refl, ap, arith, List, [], ◌∷◌, none, some, Bool,
  false, length, drop, length-drop, Bool-cases, ==_cases, ltb_cases, inl, inr,
}
use outway.Socks.Gso.{WritePacket}
use outway.Socks.Writer.{WriteBatch, write_messages, write}

-- Documented of sendmmsg: it never says that it took more messages than it was given.
abbrev pub Bounded : WriteBatch → Type 0
Bounded call = (ms : List WritePacket) → (call ms).0 ≤ length ms

-- It takes at least one of the messages, without an error.
abbrev pub Willing : WriteBatch → Type 0
Willing call =
    (m : WritePacket) (ms : List WritePacket)
    → ((call (m ∷ ms)).1 ≡ false) × (0 < (call (m ∷ ms)).0)

-- Whatever the calls give, the loop ends: any fuel from the number of messages on gives the same.
pub write_messages-fuel :
    (call : WriteBatch) (fuel more : ℕ) (ms : List WritePacket)
    → length ms ≤ fuel
    → length ms ≤ more
    → write_messages call fuel ms ≡ write_messages call more ms
unfolding write_messages
write_messages-fuel call zero zero [] h k = refl
write_messages-fuel call zero (suc more) [] h k = refl
write_messages-fuel call (suc fuel) zero [] h k = refl
write_messages-fuel call (suc fuel) (suc more) [] h k = refl
write_messages-fuel call zero more (m ∷ ms) h k = absurd (omega (arith, h))
write_messages-fuel call (suc fuel) zero (m ∷ ms) h k = absurd (omega (arith, k))
write_messages-fuel call (suc fuel) (suc more) (m ∷ ms) h k =
    let n = (call (m ∷ ms)).0 in
    let left = drop n (m ∷ ms) in
    elim (==_cases n 0) [
      | inl (f, _) ↦ rw f refl
      | inr (f, some_taken) ↦
          let size = length-drop n (m ∷ ms) in
          let same : write_messages call fuel left ≡ write_messages call more left =
            write_messages-fuel call fuel more left (omega (arith, h, size, some_taken))
              (omega (arith, k, size, some_taken)) in
          rw (f, same) refl
    ]

write_messages-bounds :
    (call : WriteBatch) (fuel : ℕ) (ms : List WritePacket)
    → Bounded call
    → (write_messages call fuel ms).0 ≤ length ms
unfolding write_messages
write_messages-bounds call zero ms b = omega arith
write_messages-bounds call (suc fuel) [] b = omega arith
write_messages-bounds call (suc fuel) (m ∷ ms) b =
    let n = (call (m ∷ ms)).0 in
    let rest = write_messages-bounds call fuel (drop n (m ∷ ms)) b in
    elim (Bool-cases (call (m ∷ ms)).1) [
      | inl e ↦ rw e (b (m ∷ ms))
      | inr e ↦ elim (==_cases n 0) [
        | inl (f, _) ↦ rw (e, f) (omega arith)
        | inr (f, _) ↦ rw (e, f) (omega (arith, rest, length-drop n (m ∷ ms), b (m ∷ ms)))
      ]
    ]

write_messages-all :
    (call : WriteBatch) (fuel : ℕ) (ms : List WritePacket)
    → Bounded call
    → Willing call
    → length ms ≤ fuel
    → write_messages call fuel ms ≡ (length ms, false)
unfolding write_messages
write_messages-all call zero [] b w h = refl
write_messages-all call (suc fuel) [] b w h = refl
write_messages-all call zero (m ∷ ms) b w h = absurd (omega (arith, h))
write_messages-all call (suc fuel) (m ∷ ms) b w h =
    let n = (call (m ∷ ms)).0 in
    let (fine, some_taken) = w m ms in
    let rest : write_messages call fuel (drop n (m ∷ ms)) ≡ (length (drop n (m ∷ ms)), false) =
      write_messages-all call fuel (drop n (m ∷ ms)) b w
        (omega (arith, h, some_taken, length-drop n (m ∷ ms))) in
    let total : n + length (drop n (m ∷ ms)) ≡ suc (length ms) =
      omega (arith, length-drop n (m ∷ ms), b (m ∷ ms)) in
    elim (==_cases n 0) [
      | inl (f, g) ↦ absurd (omega (arith, g, some_taken))
      | inr (f, _) ↦ rw (fine, f, rest) (ap (λ k. (k, false)) total)
    ]

-- A batch within the writer's capacity is written to the end, where each call takes at least one
-- message without an error and never more than it was given.
pub write_complete :
    (call : WriteBatch) (size : ℕ) (ps : List WritePacket)
    → Bounded call
    → Willing call
    → length ps ≤ size
    → write call size ps ≡ some (length ps, false)
unfolding write
write_complete call size [] b w h = refl
write_complete call size (p ∷ ps) b w h = elim (ltb_cases size (length (p ∷ ps))) [
  | inl (e, k) ↦ absurd (omega (arith, h, k))
  | inr (e, _) ↦
      rw (e, ==_false (length (p ∷ ps)) 0 (omega arith))
        (ap some (write_messages-all call (length (p ∷ ps)) (p ∷ ps) b w (omega arith)))
]

-- Whatever the calls give, `Write` panics exactly past its capacity, and where it does not, it says
-- of no more packets than it was given that they are written.
pub write_bounds :
    (call : WriteBatch) (size : ℕ) (ps : List WritePacket)
    → Bounded call
    → ((size < length ps) × (write call size ps ≡ none))
      ⊎ ((length ps ≤ size) × ((r : ℕ × Bool) × (write call size ps ≡ some r) × (r.0 ≤ length ps)))
unfolding write
write_bounds call size [] b = inr (omega arith, ((0, false), refl, omega arith))
write_bounds call size (p ∷ ps) b = elim (ltb_cases size (length (p ∷ ps))) [
  | inl (e, k) ↦ inl (k, rw (==_false (length (p ∷ ps)) 0 (omega arith), e) refl)
  | inr (e, k) ↦ inr (
    omega (arith, k),
    (
      write_messages call (length (p ∷ ps)) (p ∷ ps),
      rw (==_false (length (p ∷ ps)) 0 (omega arith), e) refl,
      write_messages-bounds call (length (p ∷ ps)) (p ∷ ps) b,
    ),
  )
]
