-- ===== src/Server/Gate/Laws.antt =====
-- The gates keep their limits.
use outway.Base.{
  ℕ, ◌+◌, ◌≤◌, ◌<◌, ◌⊎◌, ◌≡◌, refl, arith, Option, none, some, Bool, true, false, ltb_cases, inl,
  inr, ==_false, ap, if◌then◌else◌,
}
use outway.Server.Gate.{
  ConnectionGate, new_connection_gate, tls_handshake_limit, new_tls_handshake_gate, send_token,
  receive_token, acquire_until,
}

-- A gate of capacity `n` that holds `held` tokens.
abbrev pub limited : ℕ → ℕ → ConnectionGate
limited n held = record { tokens = some n; held = held }

-- The gate of TLS handshakes is limited whatever the machine and the configuration: to at least
-- one and at most 1024 handshakes, and to no more than the connections allowed, where they are.
pub new_tls_handshake_gate_lem :
    (procs max : ℕ)
    → let n = tls_handshake_limit procs max in
      (new_tls_handshake_gate procs max ≡ limited n 0)
      × (1 ≤ n)
      × (n ≤ 1024)
      × ((max ≡ 0) ⊎ (n ≤ max))
unfolding new_tls_handshake_gate new_connection_gate tls_handshake_limit
new_tls_handshake_gate_lem procs max = (
  rw (==_false (tls_handshake_limit procs max) 0 (ground arith)) refl,
  ground arith,
  ground arith,
  ground arith,
)

-- What a call of `AcquireUntil` may end in: it blocks, returns true, or returns false.
abbrev pub Outcome : ℕ → ℕ → Bool → Bool → Option (Bool × ConnectionGate) → Type 0
Outcome n held woken done none = (held ≡ n) × (woken ≡ false)
Outcome n held woken done (some (true, g)) =
    (done ≡ false) × (g ≡ limited n (held + 1)) × (held + 1 ≤ n)
Outcome n held woken done (some (false, g)) = g ≡ limited n held

-- On a limited gate, `AcquireUntil` that returns true has taken one token of the capacity, and
-- one that returns false leaves the gate as it was, even if shutdown won after a token was taken.
-- It blocks only on a full gate whose select does not see shutdown.
pub acquire_until_lem :
    (n held : ℕ) (woken done : Bool)
    → held ≤ n
    → Outcome n held woken done (acquire_until woken done (limited n held))
unfolding acquire_until send_token
acquire_until_lem n held woken done room = elim (ltb_cases held n) [
  | inl (e, free) ↦ rw (e, acquire_until, send_token) (taken done free)
  | inr (e, full) ↦ rw (e, acquire_until, send_token) (blocked woken full)
]
  where
    taken :
        (done : Bool)
        → held < n
        → Outcome n held woken done (
            some (
              if done
              then (false, receive_token (limited n (held + 1)))
              else (true, limited n (held + 1))))
    taken true h = ap (limited n) (omega arith)
    taken false h = (refl, refl, omega (arith, h))

    blocked :
        (woken : Bool)
        → n ≤ held
        → Outcome n held woken done (if woken then some (false, limited n held) else none)
    blocked true h = refl
    blocked false h = (omega (arith, h, room), refl)
