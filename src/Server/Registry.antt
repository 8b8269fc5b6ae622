-- ===== src/Server/Registry.antt =====
-- internal/serverbase/serverbase.go: the sharded set of open connections. A connection is its
-- identity pointer; a shard's map of connections is a list without repetition.
pub mod Laws
use outway.Base.{
  ℕ, zero, suc, ◌+◌, ◌-◌, ◌*◌, ◌/◌, ◌%◌, ◌^◌, List, [], ◌∷◌, ◌++◌, Option, none, some, Bool, true,
  false, not, ◌&&◌, if◌then◌else◌, ◌==◌,
}
use outway.Base.{length, get_elem?, set, replicate}

pub record Shard : Type 0 where
  pub closed : Bool
  pub conns : List ℕ

-- `done` says that the channel `done` is closed.
pub record ConnectionSet : Type 0 where
  pub done : Bool
  pub shards : List Shard

abbrev pub fresh_shard : Shard
fresh_shard = record { closed = false; conns = [] }

unfoldable pub new_connection_set : ConnectionSet
new_connection_set = record { done = false; shards = replicate 32 fresh_shard }

-- The high bits of the Fibonacci hash of the pointer.
abbrev pub fibonacci : ℕ → ℕ
fibonacci conn = conn * 0x9e3779b97f4a7c15 % 2 ^ 64

unfoldable pub shard_for : ℕ → ℕ
shard_for conn = fibonacci conn / 2 ^ (64 - 5)

-- `LifetimeShards.For`: which of the eight contexts.
unfoldable pub lifetime_for : ℕ → ℕ
lifetime_for conn = fibonacci conn / 2 ^ (64 - 3)

unfoldable pub member : ℕ → List ℕ → Bool
member c [] = false
member c (d ∷ ds) = if d == c then true else member c ds

unfoldable pub remove : ℕ → List ℕ → List ℕ
remove c [] = []
remove c (d ∷ ds) = if d == c then ds else d ∷ remove c ds

abbrev pub shard_at : List Shard → ℕ → Shard
shard_at [] i = fresh_shard
shard_at (s ∷ ss) zero = s
shard_at (s ∷ ss) (suc i) = shard_at ss i

unfoldable pub add_to : ℕ → Shard → Bool × Shard
unfolding member
add_to conn s =
    if s.closed
    then (false, s)
    else (true, record s { conns = if member conn s.conns then s.conns else conn ∷ s.conns })

unfoldable pub add : ℕ → ConnectionSet → Bool × ConnectionSet
unfolding shard_for add_to
add conn s =
    let i = shard_for conn in
    let r = add_to conn (shard_at s.shards i) in (r.0, record s { shards = set s.shards i (r.1) })

-- `delete` on the map, which is nil, and so empty, once the shard is closed.
unfoldable pub delete : ℕ → ConnectionSet → ConnectionSet
unfolding shard_for remove
delete conn s =
    let i = shard_for conn in
    let shard = shard_at s.shards i in
    record s { shards = set s.shards i (record shard { conns = remove conn shard.conns }) }

abbrev pub closed_shard : Shard → Shard
closed_shard s = record { closed = true; conns = [] }

-- The shards after `CloseAll` and the connections that it closes, in order.
unfoldable pub close_shards : List Shard → List Shard × List ℕ
close_shards [] = ([], [])
close_shards (s ∷ ss) = let rest = close_shards ss in (closed_shard s ∷ rest.0, s.conns ++ rest.1)

-- The outcome of `Close` on a connection: fine, already closed, or another error.
pub data CloseOutcome : Type 0 where
  closes already_closed : CloseOutcome
  fails : ℕ → CloseOutcome

unfoldable pub close_errors : (ℕ → CloseOutcome) → List ℕ → List ℕ
close_errors close [] = []
close_errors close (c ∷ cs) = elim (close c) [
  | closes ↦ close_errors close cs
  | already_closed ↦ close_errors close cs
  | fails e ↦ e ∷ close_errors close cs
]

-- `CloseAll`: the errors joined, the connections closed, and the set.
unfoldable pub close_all : (ℕ → CloseOutcome) → ConnectionSet → List ℕ × List ℕ × ConnectionSet
unfolding close_shards close_errors
close_all close s =
    let r = close_shards s.shards in
    (close_errors close (r.1), r.1, record { done = true; shards = r.0 })
