-- ===== src/Connect/Race/Addresses.antt =====
-- The race over resolved addresses: it always waits for something, and tries every address.
use outway.Base.{
  ℕ, suc, ◌+◌, ◌≤◌, ◌<◌, ◌≡◌, refl, ◌∙◌, arith, List, [], ◌∷◌, true, Bool-cases, ==_cases,
  ltb_cases, inl, inr, ◌⊎◌, length,
}
use outway.Connect.Race.{
  DialResult, conn, err, Message, result, timer, cancelled, Loop, going, connected, failed,
  no_address, AnyRace, any_start, any_step, start_next, run, continue_with, connect_any,
}
use outway.Net.{AddrPort}
use mathlib.Core.Path.{subst}
use native.Mathlib.Nat.{zero-add}
use outway.Connect.Race.Fallback.{AllFail, errors, last_error, last_error_unchanged}

-- A dial runs, of no more than there are addresses, and while some are not tried the timer runs.
abbrev pub IsAnyRace : ℕ → AnyRace → Type 0
IsAnyRace total s =
    (s.completed < s.started) × (s.started ≤ total) × ((s.started ≡ total) ⊎ (s.armed ≡ true))

-- What the loop may stand at after `k` failures of `total`, the last one `e`.
abbrev pub Standing : ℕ → ℕ → ℕ → Loop AnyRace → Type 0
Standing total k e (going s) = IsAnyRace total s × (s.completed ≡ k) × (k < total)
Standing total k e (failed d) = (k ≡ total) × (d ≡ e)
Standing total k e (connected c) = ⊥
Standing total k e no_address = ⊥

step-error :
    (total e : ℕ) (s : AnyRace)
    → IsAnyRace total s
    → Standing total (suc s.completed) e (any_step total (result (err e)) s)
unfolding any_step start_next
step-error total e s v = elim (==_cases (suc s.completed) total) [
  | inl (p, q) ↦ rw (p, any_step) (q, refl)
  | inr (p, q) ↦
      rw (p, any_step)
        (elim (==_cases (suc s.completed) s.started) [
          | inr (f, g) ↦ rw f (ground arith)
          | inl (f, g) ↦ rw f (elim (ltb_cases s.started total) [
            | inr (a, b) ↦ rw a (ground arith)
            | inl (a, b) ↦ rw a (elim (ltb_cases (suc s.started) total) [
              | inl (c, d) ↦ rw c (ground arith)
              | inr (c, d) ↦ rw c (ground arith)
            ])
          ])
        ])
]

step-timer :
    (total e : ℕ) (s : AnyRace)
    → IsAnyRace total s
    → Standing total s.completed e (any_step total timer s)
unfolding any_step start_next
step-timer total e s v = elim (Bool-cases s.armed) [
  | inr a ↦ rw (a, any_step) (ground arith)
  | inl a ↦
      rw (a, any_step)
        (elim (ltb_cases s.started total) [
          | inr (c, d) ↦ rw c (ground arith)
          | inl (c, d) ↦ rw c (elim (ltb_cases (suc s.started) total) [
            | inl (f, g) ↦ rw f (ground arith)
            | inr (f, g) ↦ rw f (ground arith)
          ])
        ])
]

module _ (total : ℕ) where
  -- The rest of the messages, from where the loop stands.
  resumed :
      (ms : List Message) (l : Loop AnyRace) (k e : ℕ)
      → AllFail ms
      → ((t : AnyRace)
          → IsAnyRace total t
          → t.completed + errors ms ≤ total
          → Standing total (t.completed + errors ms) (last_error e ms) (run (any_step total) ms t))
      → Standing total k e l
      → k + errors ms ≤ total
      → Standing total (k + errors ms) (last_error e ms) (continue_with l (run (any_step total) ms))
  resumed ms (going s) k e h rest v room = rw (← v.1) (rest s (v.0) (omega (arith, v.1, room)))
  resumed ms (failed d) k e h rest v room =
      let none_left : errors ms ≡ 0 = omega (arith, v.0, room) in
      (omega (arith, v.0, none_left), v.1 ∙ last_error_unchanged ms e h none_left)
  resumed ms (connected c) k e h rest v room = elim v [ ]
  resumed ms no_address k e h rest v room = elim v [ ]

  continued :
      (ms : List Message) (s : AnyRace) (e : ℕ)
      → AllFail ms
      → IsAnyRace total s
      → s.completed + errors ms ≤ total
      → Standing total (s.completed + errors ms) (last_error e ms) (run (any_step total) ms s)
  continued [] s e h v all = (v, omega arith, omega (arith, v.0, v.1))
  continued (timer ∷ ms) s e h v all =
      resumed ms (any_step total timer s) s.completed e h (λ t. continued ms t e h)
        (step-timer total e s v) all
  continued (result (err d) ∷ ms) s e h v all =
      let moved : suc s.completed + errors ms ≡ s.completed + suc (errors ms) = omega arith in
      rw (← moved) (
        resumed ms (any_step total (result (err d)) s) (suc s.completed) d h
          (λ t. continued ms t d h) (step-error total d s v) (omega (arith, moved, all)))
  continued (result (conn c) ∷ ms) s e h v all = elim h [ ]
  continued (cancelled c ∷ ms) s e h v all = elim h [ ]

-- The race over two or more addresses, while the dials only fail: after fewer failures than
-- there are addresses it still goes on, with a dial running, and with the timer running or every
-- address dialled; after as many failures as addresses it ends with the last error.
pub connect_any-Standing :
    (a b : AddrPort) (rest : List AddrPort) (plain : DialResult) (ms : List Message)
    → AllFail ms
    → errors ms ≤ length (a ∷ b ∷ rest)
    → Standing
        (length (a ∷ b ∷ rest))
        (errors ms)
        (last_error 0 ms)
        (connect_any (a ∷ b ∷ rest) plain ms)
unfolding connect_any
connect_any-Standing a b rest plain ms h all =
    subst
      (λ k.
        Standing (length (a ∷ b ∷ rest)) k (last_error 0 ms)
          (run (any_step (length (a ∷ b ∷ rest))) ms any_start))
      (zero-add (errors ms))
      (continued (length (a ∷ b ∷ rest)) ms any_start 0 h (omega arith, omega arith, inr refl)
        (omega (arith, all)))
