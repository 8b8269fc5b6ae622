-- ===== src/Server/Listen.antt =====
-- internal/serverbase/serverbase.go: how many listeners a server opens, and opening them. The
-- operating system is an argument: what each attempt to listen on a network and an address gives.
pub mod Laws
use outway.Base.{
  ℕ, zero, suc, ◌+◌, ◌-◌, List, [], ◌∷◌, ◌++◌, Option, none, some, Bool, true, false, ◌&&◌, not,
  ◌||◌, if◌then◌else◌, ltb, text_eq, codes,
}

-- `procs` is `runtime.GOMAXPROCS(0)`, `supported` the platform's `reusePortSupported`.
unfoldable pub accept_shards : ℕ → Bool → Bool → ℕ
accept_shards procs supported reuse_port =
    if not reuse_port || not supported
    then 1
    else if ltb procs 1
    then 1
    else if ltb 16 procs
    then 16
    else procs

-- A socket, with the concrete network and address that it got.
pub record Listener : Type 0 where
  pub socket : ℕ
  pub network : List ℕ
  pub addr : List ℕ

-- The attempt's number, whether it sets SO_REUSEPORT, its network and its address.
abbrev pub Listen : Type 0
Listen = ℕ → Bool → List ℕ → List ℕ → Option Listener

-- What came of it: the listeners, or none, and the sockets closed again.
pub record Opened : Type 0 where
  pub listeners : Option (List Listener)
  pub closed : List Listener

-- The loop over the remaining shards.
unfoldable pub listen_rest : Listen → ℕ → ℕ → Listener → List Listener → Opened
listen_rest listen attempt zero first listeners = record { listeners = some listeners; closed = [] }
listen_rest listen attempt (suc n) first listeners =
    elim (listen attempt true first.network first.addr) [
      | none ↦ record { listeners = none; closed = listeners }
      | some ln ↦ listen_rest listen (suc attempt) n first (listeners ++ ln ∷ [])
    ]

unfoldable pub listen_first : Listen → Bool → List ℕ → List ℕ → Option Listener
listen_first listen sharded network addr = elim (listen 0 sharded network addr) [
  | some first ↦ some first
  | none ↦ if text_eq network (codes "tcp6") then listen 1 sharded (codes "tcp") addr else none
]

-- Once the first socket is open, where it is.
unfoldable pub open_rest : Listen → Bool → ℕ → Option Listener → Opened
unfolding listen_rest
open_rest listen sharded shards none = record { listeners = none; closed = [] }
open_rest listen sharded shards (some first) =
    if sharded
    then listen_rest listen 2 (shards - 1) first (first ∷ [])
    else record { listeners = some (first ∷ []); closed = [] }

unfoldable pub listen_tcp_shards : Listen → Bool → List ℕ → List ℕ → ℕ → Opened
unfolding listen_first open_rest
listen_tcp_shards listen supported network addr shards =
    let sharded = ltb 1 shards && supported in
    open_rest listen sharded shards (listen_first listen sharded network addr)
