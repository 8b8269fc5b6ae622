-- ===== src/Connect/Race/Fallback.antt =====
-- The race of a CIDR source with a fallback source: nothing is lost and nothing waits for ever.
use outway.Base.{
  ℕ, suc, ◌≤◌, ◌≡◌, refl, ap, arith, List, [], ◌∷◌, Bool, true, false, inl, inr, ◌⊎◌, ◌++◌,
  ==_cases,
}
use outway.Connect.Race.{
  conn, err, Message, result, timer, cancelled, going, connected, failed, race_start, race_step,
  run,
}

-- Messages that only report failed dials and the timer, and the number of failed dials.
abbrev pub AllFail : List Message → Type 0
AllFail [] = Unit
AllFail (result (conn c) ∷ ms) = ⊥
AllFail (result (err e) ∷ ms) = AllFail ms
AllFail (timer ∷ ms) = AllFail ms
AllFail (cancelled e ∷ ms) = ⊥

abbrev pub errors : List Message → ℕ
errors [] = 0
errors (result (err e) ∷ ms) = suc (errors ms)
errors (m ∷ ms) = errors ms

-- The last failure reported, `e` if there is none.
abbrev pub last_error : ℕ → List Message → ℕ
last_error e [] = e
last_error e (result (err d) ∷ ms) = last_error d ms
last_error e (m ∷ ms) = last_error e ms

pub last_error_unchanged :
    (ms : List Message) (d : ℕ) → AllFail ms → errors ms ≡ 0 → d ≡ last_error d ms
last_error_unchanged [] d h n = refl
last_error_unchanged (timer ∷ ms) d h n = last_error_unchanged ms d h n
last_error_unchanged (result (err b) ∷ ms) d h n = ground arith
last_error_unchanged (result (conn c) ∷ ms) d h n = elim h [ ]
last_error_unchanged (cancelled b ∷ ms) d h n = elim h [ ]

after_one :
    (ms : List Message) (f : Bool)
    → AllFail ms
    → errors ms ≡ 0
    → run race_step ms (record { fallback_started = true; failures = 1 })
      ≡ going (record { fallback_started = true; failures = 1 })
unfolding race_step
after_one [] f h n = refl
after_one (timer ∷ ms) f h n = after_one ms f h n
after_one (result (err e) ∷ ms) f h n = ground arith
after_one (result (conn c) ∷ ms) f h n = elim h [ ]
after_one (cancelled e ∷ ms) f h n = elim h [ ]

one_more :
    (ms : List Message) (e : ℕ)
    → AllFail ms
    → errors ms ≡ 1
    → run race_step ms (record { fallback_started = true; failures = 1 }) ≡ failed (last_error e ms)
unfolding race_step
one_more [] e h n = ground arith
one_more (timer ∷ ms) e h n = one_more ms e h n
one_more (result (err d) ∷ ms) e h n = ap failed (last_error_unchanged ms d h (ground arith))
one_more (result (conn c) ∷ ms) e h n = elim h [ ]
one_more (cancelled b ∷ ms) e h n = elim h [ ]

-- When both dials fail, in whatever order with the timer, the race ends with the error of the
-- dial that failed last, never sooner and never with another.
pub race-both_fail :
    (ms : List Message) (started : Bool)
    → AllFail ms
    → errors ms ≡ 2
    → run race_step ms (record { fallback_started = started; failures = 0 })
      ≡ failed (last_error 0 ms)
unfolding race_step
race-both_fail [] started h n = ground arith
race-both_fail (timer ∷ ms) started h n = race-both_fail ms true h n
race-both_fail (result (err e) ∷ ms) true h n = one_more ms e h (ground arith)
race-both_fail (result (err e) ∷ ms) false h n = one_more ms e h (ground arith)
race-both_fail (result (conn c) ∷ ms) started h n = elim h [ ]
race-both_fail (cancelled e ∷ ms) started h n = elim h [ ]

-- While fewer than two dials have failed, the first connection made wins, whichever dial made it;
-- a failure of the preferred dial has by then started the fallback.
pub race-first_connection :
    (ms rest : List Message) (c : ℕ)
    → AllFail ms
    → errors ms ≤ 1
    → (run race_step (ms ++ result (conn c) ∷ rest) race_start ≡ connected c)
      × ((errors ms ≡ 0)
          ⊎ (run race_step ms race_start
              ≡ going (record { fallback_started = true; failures = 1 })))
unfolding race_step
race-first_connection ms rest c h few = (wins ms false h few, by_errors)
  where
    second :
        (ms : List Message)
        → AllFail ms
        → errors ms ≡ 0
        → run race_step
            (ms ++ result (conn c) ∷ rest)
            (record { fallback_started = true; failures = 1 })
          ≡ connected c
    second [] h n = refl
    second (timer ∷ ms) h n = second ms h n
    second (result (err e) ∷ ms) h n = ground arith
    second (result (conn d) ∷ ms) h n = elim h [ ]
    second (cancelled e ∷ ms) h n = elim h [ ]

    wins :
        (ms : List Message) (f : Bool)
        → AllFail ms
        → errors ms ≤ 1
        → run race_step
            (ms ++ result (conn c) ∷ rest)
            (record { fallback_started = f; failures = 0 })
          ≡ connected c
    wins [] f h n = refl
    wins (timer ∷ ms) f h n = wins ms true h n
    wins (result (err e) ∷ ms) true h n = second ms h (omega arith)
    wins (result (err e) ∷ ms) false h n = second ms h (omega arith)
    wins (result (conn d) ∷ ms) f h n = elim h [ ]
    wins (cancelled e ∷ ms) f h n = elim h [ ]

    once :
        (ms : List Message) (f : Bool)
        → AllFail ms
        → errors ms ≡ 1
        → run race_step ms (record { fallback_started = f; failures = 0 })
          ≡ going (record { fallback_started = true; failures = 1 })
    once [] f h n = ground arith
    once (timer ∷ ms) f h n = once ms true h n
    once (result (err e) ∷ ms) true h n = after_one ms true h (ground arith)
    once (result (err e) ∷ ms) false h n = after_one ms true h (ground arith)
    once (result (conn d) ∷ ms) f h n = elim h [ ]
    once (cancelled e ∷ ms) f h n = elim h [ ]

    by_errors :
        (errors ms ≡ 0)
        ⊎ (run race_step ms race_start ≡ going (record { fallback_started = true; failures = 1 }))
    by_errors = elim (==_cases (errors ms) 0) [
      | inl (_, p) ↦ inl p
      | inr (_, p) ↦ inr (once ms false h (omega (arith, p, few)))
    ]
