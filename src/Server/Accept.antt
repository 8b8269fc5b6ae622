-- ===== src/Server/Accept.antt =====
-- internal/server/socks/server.go: the accept loops and the handlers that they start, which share
-- the connection gate and the set of connections.
pub mod Limit
use outway.Base.{
  ℕ, ◌+◌, ◌≡◌, List, [], ◌∷◌, ◌++◌, Option, none, some, Bool, true, false, if◌then◌else◌, set,
}
use outway.Server.Gate.{ConnectionGate, new_connection_gate, acquire_until, release}
use outway.Server.Registry.{
  ConnectionSet, new_connection_set, member, remove, add, delete, shard_at, closed_shard,
}

-- `accepted` connections hold a token and are not registered yet; `handling` ones have a handler.
pub record Server : Type 0 where
  pub gate : ConnectionGate
  pub conns : ConnectionSet
  pub accepted : List ℕ
  pub handling : List ℕ
  pub closed : List ℕ

unfoldable pub new_server : ℕ → Server
new_server concurrent = record {
  gate = new_connection_gate concurrent;
  conns = new_connection_set;
  accepted = [];
  handling = [];
  closed = [];
}

-- What the goroutines of a server do to it: an accepted connection asks the gate, is registered,
-- and its handler ends; shutdown closes `done` and then one shard after the other.
pub data Event : Type 0 where
  accept : ℕ → Bool → Event
  register : ℕ → Event
  leave : ℕ → Event
  shut_down : Event
  close_shard : ℕ → Event

abbrev pub admit : ℕ → Server → Bool × ConnectionGate → Server
admit conn s (true, g) = record s { gate = g; accepted = conn ∷ s.accepted }
admit conn s (false, g) = record s { gate = g; closed = conn ∷ s.closed }

abbrev pub enrol : ℕ → Server → Bool × ConnectionSet → Server
enrol conn s (true, set) = record s {
  conns = set;
  accepted = remove conn s.accepted;
  handling = conn ∷ s.handling;
}
enrol conn s (false, set) = record s {
  conns = set;
  accepted = remove conn s.accepted;
  gate = release s.gate;
  closed = conn ∷ s.closed;
}

-- One step; `none` where the event cannot happen.
unfoldable pub step : Event → Server → Option Server
unfolding acquire_until add delete release
step (accept conn woken) s = elim (acquire_until woken s.conns.done s.gate) [
  | none ↦ none
  | some r ↦ some (admit conn s r)
]
step (register conn) s =
    if member conn s.accepted then some (enrol conn s (add conn s.conns)) else none
step (leave conn) s =
    if member conn s.handling
    then some (record s {
      conns = delete conn s.conns;
      handling = remove conn s.handling;
      gate = release s.gate;
      closed = conn ∷ s.closed;
    })
    else none
step shut_down s = some (record s { conns = record s.conns { done = true } })
step (close_shard i) s =
    let shard = shard_at s.conns.shards i in
    some (record s {
      conns = record s.conns { shards = set s.conns.shards i (closed_shard shard) };
      closed = shard.conns ++ s.closed;
    })

-- The servers that a new one can become.
pub data Reachable (start : Server) : Server → Type 0 where
  fresh : Reachable start start
  after : {s t : Server} (e : Event) → Reachable start s → step e s ≡ some t → Reachable start t
