-- ===== src/Auto.antt =====
-- internal/server/auto.go: a connection to the port that serves every protocol. The first byte that
-- the client sends says which; HTTP requests are then served one after the other.
pub mod Serving
use outway.Base.{
  ℕ, ◌+◌, List, [], ◌∷◌, ◌++◌, Option, none, some, Bool, true, false, not, ◌==◌, ltb, if◌then◌else◌,
}
use outway.Http.Auth.{Authenticator}
use outway.Http.Transports.{TransportPool}
use outway.Http.Handler.{Request, Network, Effect, Outcome, proxy}

pub data Protocol : Type 0 where
  socks5 https http : Protocol

-- The switch of `accept`.
unfoldable pub protocol_of : ℕ → Protocol
protocol_of first = if first == 0x05 then socks5 else if ltb first 0x41 then https else http

-- What one connection does: deadlines, the gate of TLS handshakes, and what it is handed to.
-- `proxied` are the effects of one request.
pub data Action : Type 0 where
  set_deadline clear_deadline : Action
  hand_to_socks : Action
  acquire_tls release_tls handshake : Action
  proxied : List Effect → Action
  close_connection : Action

-- A request that was read, the time of it, and what the network does for it.
pub record Turn : Type 0 where
  pub now : ℕ
  pub request : Request
  pub network : Network

-- The loop of `serveHTTP` and `serveHTTPS`, over the requests that are read; the next read fails
-- where there are no more.
unfoldable pub serve :
    (List ℕ → Option (List ℕ))
    → Authenticator
    → List Turn
    → TransportPool
    → List Action × TransportPool
unfolding proxy
serve decode auth [] pool = (set_deadline ∷ close_connection ∷ [], pool)
serve decode auth (t ∷ turns) pool =
    let o = proxy t.now decode auth t.network t.request pool in
    let rest = serve decode auth turns o.pool in
    let before = set_deadline ∷ clear_deadline ∷ proxied o.effects ∷ [] in
    if o.keep_alive then (before ++ rest.0, rest.1) else (before ++ close_connection ∷ [], o.pool)

-- `serveHTTPS`: whether the gate lets the handshake begin, and whether it succeeds.
unfoldable pub serve_https :
    (List ℕ → Option (List ℕ))
    → Authenticator
    → Bool
    → Bool
    → List Turn
    → TransportPool
    → List Action × TransportPool
unfolding serve
serve_https decode auth admitted shaken turns pool =
    let served = serve decode auth turns pool in
    let opening = set_deadline ∷ acquire_tls ∷ handshake ∷ release_tls ∷ [] in
    if not admitted
    then (set_deadline ∷ close_connection ∷ [], pool)
    else if not shaken
    then (opening ++ close_connection ∷ [], pool)
    else (opening ++ clear_deadline ∷ served.0, served.1)

abbrev after_peek : List Action → List Action × TransportPool → List Action × TransportPool
after_peek before (actions, pool) = (before ++ actions, pool)

-- `accept`, with the byte that `Peek` gives, none where it fails; the plain and the TLS handler
-- authenticate alike and share the pool.
unfoldable pub accept :
    (List ℕ → Option (List ℕ))
    → Authenticator
    → Option ℕ
    → Bool
    → Bool
    → List Turn
    → TransportPool
    → List Action × TransportPool
unfolding protocol_of serve serve_https
accept decode auth none admitted shaken turns pool = (set_deadline ∷ close_connection ∷ [], pool)
accept decode auth (some first) admitted shaken turns pool =
    after_peek (set_deadline ∷ clear_deadline ∷ []) (elim (protocol_of first) [
      | socks5 ↦ (hand_to_socks ∷ [], pool)
      | https ↦ serve_https decode auth admitted shaken turns pool
      | http ↦ serve decode auth turns pool
    ])
