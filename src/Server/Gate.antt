-- ===== src/Server/Gate.antt =====
-- internal/serverbase/serverbase.go: the gates that limit connections and TLS handshakes. A
-- channel of tokens is its capacity and the number of tokens in it; no capacity is the nil
-- channel, for no limit.
pub mod Laws
use outway.Base.{
  ℕ, ◌+◌, ◌-◌, ◌*◌, Option, none, some, Bool, true, false, not, ◌&&◌, if◌then◌else◌, ltb, ◌==◌,
}

pub record ConnectionGate : Type 0 where
  pub tokens : Option ℕ
  pub held : ℕ

unfoldable pub new_connection_gate : ℕ → ConnectionGate
new_connection_gate max = record { tokens = if max == 0 then none else some max; held = 0 }

-- `procs` is `runtime.GOMAXPROCS(0)`.
unfoldable pub tls_handshake_limit : ℕ → ℕ → ℕ
tls_handshake_limit procs max_connections =
    let scaled = procs * 32 in
    let raised = if ltb scaled 64 then 64 else scaled in
    let capped = if ltb 1024 raised then 1024 else raised in
    let fitted =
      if ltb 0 max_connections && ltb max_connections capped then max_connections else capped in
    if ltb fitted 1 then 1 else fitted

unfoldable pub new_tls_handshake_gate : ℕ → ℕ → ConnectionGate
unfolding tls_handshake_limit new_connection_gate
new_tls_handshake_gate procs max_connections =
    new_connection_gate (tls_handshake_limit procs max_connections)

-- A send on the channel: `none` while it is full.
unfoldable pub send_token : ConnectionGate → Option ConnectionGate
send_token g = elim g.tokens [
  | none ↦ none
  | some n ↦ if ltb g.held n then some (record g { held = g.held + 1 }) else none
]

abbrev pub receive_token : ConnectionGate → ConnectionGate
receive_token g = record g { held = g.held - 1 }

-- `Acquire`: `none` while it blocks.
unfoldable pub acquire : ConnectionGate → Option ConnectionGate
unfolding send_token
acquire g = elim g.tokens [ none ↦ some g | some n ↦ send_token g ]

-- `AcquireUntil` at a moment: `none` while it blocks. `woken` says that the select on a full
-- channel sees shutdown, `done` that the test after it does.
unfoldable pub acquire_until : Bool → Bool → ConnectionGate → Option (Bool × ConnectionGate)
unfolding send_token
acquire_until woken done g = elim g.tokens [
  | none ↦ some (not done, g)
  | some n ↦ elim (send_token g) [
    | none ↦ if woken then some (false, g) else none
    | some taken ↦ some (if done then (false, receive_token taken) else (true, taken))
  ]
]

unfoldable pub release : ConnectionGate → ConnectionGate
release g = elim g.tokens [ none ↦ g | some n ↦ receive_token g ]
