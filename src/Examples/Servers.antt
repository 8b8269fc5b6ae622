-- ===== src/Examples/Servers.antt =====
-- internal/serverbase/serverbase.go: gates, registered connections and listeners.
use outway.Base.{
  ℕ, ◌+◌, ◌≤◌, ◌≡◌, ◌⊎◌, refl, arith, [], ◌∷◌, some, true, false, codes, length, ltb, ◌&&◌,
  if◌then◌else◌,
}
use outway.Server.Gate.{ConnectionGate, tls_handshake_limit, new_tls_handshake_gate, acquire_until}
use outway.Server.Gate.Laws.{limited}
use outway.Server.Registry.{
  new_connection_set, shard_for, member, add, close_all, closes, CloseOutcome, shard_at,
}
use outway.Server.Registry.Laws.{tracked, IsConnectionSet, close_all_lem}
use outway.Server.Listen.{Listener, Listen, listen_first, listen_tcp_shards}
use outway.Server.Listen.Laws.{AllOrNothing, opened, listen_tcp_shards-AllOrNothing}
use outway.Server.Accept.{Server, new_server, accept, step, fresh, after}
use outway.Server.Accept.Limit.{Reachable-IsServer_new}

fresh-IsConnectionSet : IsConnectionSet new_connection_set
unfolding new_connection_set
fresh-IsConnectionSet = refl

fresh_open : (shard_at new_connection_set.shards (shard_for 64)).closed ≡ false
unfolding new_connection_set shard_for
fresh_open = refl

abbrev closing : ℕ → CloseOutcome
closing conn = closes

close_all_lem_example :
    let r = close_all closing new_connection_set in
    ((tracked 64 new_connection_set ≡ false) ⊎ (member 64 (r.1) ≡ true))
    × (tracked 64 (r.2) ≡ false)
    × (add 64 (r.2)).0 ≡ false
close_all_lem_example = close_all_lem closing new_connection_set 64 fresh-IsConnectionSet

-- A system that gives each attempt its own socket.
abbrev listening : Listen
listening attempt reuse network addr =
    some (record { socket = attempt; network = network; addr = addr })

abbrev first_socket : Listener
first_socket = record { socket = 0; network = codes "tcp4"; addr = codes "127.0.0.1:1080" }

first_opened :
    listen_first listening (ltb 1 3 && true) (codes "tcp4") (codes "127.0.0.1:1080")
    ≡ some first_socket
unfolding listen_first
first_opened = refl

listen_tcp_shards-AllOrNothing_example :
    AllOrNothing
      (if ltb 1 3 && true then 3 else 1)
      (opened listening (ltb 1 3 && true) 3 first_socket)
      (listen_tcp_shards listening true (codes "tcp4") (codes "127.0.0.1:1080") 3)
listen_tcp_shards-AllOrNothing_example =
    listen_tcp_shards-AllOrNothing listening true (codes "tcp4") (codes "127.0.0.1:1080") 3
      first_socket first_opened

abbrev one_accepted : Server
one_accepted = record (new_server 2) { gate = limited 2 1; accepted = 77 ∷ [] }

accepted_one : step (accept 77 false) (new_server 2) ≡ some one_accepted
unfolding step new_server acquire_until outway.Server.Gate.new_connection_gate
    outway.Server.Gate.send_token new_connection_set
accepted_one = refl

Reachable-IsServer_new_example :
    (length one_accepted.accepted + length one_accepted.handling ≤ 2)
    × (one_accepted.gate.held ≡ length one_accepted.accepted + length one_accepted.handling)
Reachable-IsServer_new_example =
    Reachable-IsServer_new 2 one_accepted (omega arith) (after (accept 77 false) fresh accepted_one)
