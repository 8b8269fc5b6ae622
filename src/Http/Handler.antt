-- ===== src/Http/Handler.antt =====
-- internal/server/http/server.go: the handling of one request. `net.SplitHostPort`, the dial of a
-- target and the round trip of a transport are parameters; what is done is a list of effects.
pub mod Paths
use outway.Base.{
  ℕ, ◌+◌, ◌*◌, ◌-◌, List, [], ◌∷◌, ◌++◌, Option, none, some, Bool, true, false, not, ◌&&◌, ◌||◌,
  ◌==◌, leb, ltb, if◌then◌else◌, codes, text_eq,
}
use outway.Ext.{Extension, parse_uint}
use outway.Http.Auth.{
  Authenticator, AuthError, proxy_auth_required, forbidden, Verdict, granted, denied, authenticate,
}
use outway.Http.Headers.{Header, get_header, remove_hop_headers}
use outway.Http.Transports.{Transport, TransportPool, get}

unfoldable pub parse_port : List ℕ → Option ℕ
parse_port s = parse_uint s 16

abbrev pub with_port : Option (List ℕ × List ℕ) → Option (List ℕ × ℕ)
with_port none = none
with_port (some (host, port)) = elim (parse_port port) [ none ↦ none | some n ↦ some (host, n) ]

unfoldable pub has_byte : ℕ → List ℕ → Bool
has_byte b [] = false
has_byte b (c ∷ s) = c == b || has_byte b s

-- `splitHostPort`, with `net.SplitHostPort` as `split`.
unfoldable pub split_host_port : (List ℕ → Option (List ℕ × List ℕ)) → List ℕ → Option (List ℕ × ℕ)
unfolding has_byte parse_port
split_host_port split target = if has_byte 58 target then with_port (split target) else none

-- The parts of a URL that the handler reads or writes.
pub record Url : Type 0 where
  pub scheme : List ℕ
  pub host : List ℕ

pub record Request : Type 0 where
  pub method : List ℕ
  pub url : Url
  pub host : List ℕ
  pub header : Header
  pub at_least_1_1 : Bool
  pub close : Bool

pub record Response : Type 0 where
  pub header : Header
  pub at_least_1_1 : Bool
  pub close : Bool

-- What the network does: whether a dial succeeds, what a round trip gives, how many bytes of the
-- client are buffered, whether they can be copied, and whether a response can be written.
pub record Network : Type 0 where
  pub split : List ℕ → Option (List ℕ × List ℕ)
  pub connects : Extension → List ℕ → ℕ → Bool
  pub round_trip : Transport → Url → Header → Option Response
  pub buffered : ℕ
  pub copies : Bool
  pub writes : Bool

-- `dial` says whether it succeeded.
pub data Effect : Type 0 where
  respond : ℕ → Effect
  dial : Extension → List ℕ → ℕ → Bool → Effect
  established copy_buffered tunnel : Effect
  close_write_outbound close_outbound close_write_client : Effect
  exchange : Transport → Url → Header → Effect
  write_response : Header → Effect

-- Whether the connection is kept, whether there was an error, what was done, and the pool.
pub record Outcome : Type 0 where
  pub keep_alive : Bool
  pub failed : Bool
  pub effects : List Effect
  pub pool : TransportPool

abbrev outcome : Bool → Bool → List Effect → TransportPool → Outcome
outcome keep_alive failed effects pool = record {
  keep_alive = keep_alive;
  failed = failed;
  effects = effects;
  pool = pool;
}

abbrev pub connect_target : Request → List ℕ
connect_target req = if text_eq req.url.host [] then req.host else req.url.host

abbrev pub closing : List Effect
closing = tunnel ∷ close_write_outbound ∷ close_outbound ∷ close_write_client ∷ []

-- `handleConnect` once the target is known.
abbrev pub connect_to : Network → Extension → Option (List ℕ × ℕ) → TransportPool → Outcome
connect_to net e none pool = outcome false false (respond 400 ∷ []) pool
connect_to net e (some (host, port)) pool =
    if not (net.connects e host port)
    then outcome false true (dial e host port false ∷ respond 502 ∷ []) pool
    else if net.buffered == 0
    then outcome false false (dial e host port true ∷ established ∷ closing) pool
    else if net.copies
    then outcome false false (dial e host port true ∷ established ∷ copy_buffered ∷ closing) pool
    else outcome false true
        (dial e host port true ∷ established ∷ copy_buffered ∷ close_outbound ∷ []) pool

unfoldable pub handle_connect : Network → Extension → Request → TransportPool → Outcome
unfolding split_host_port
handle_connect net e req pool =
    if text_eq (connect_target req) []
    then outcome false false (respond 400 ∷ []) pool
    else connect_to net e (split_host_port net.split (connect_target req)) pool

-- The URL of the request sent on: `IsAbs` is that there is a scheme.
unfoldable pub outbound_url : Request → Url
outbound_url req = if not (text_eq req.url.scheme []) then req.url else record {
  scheme = codes "http";
  host = if text_eq req.host [] then req.url.host else req.host;
}

abbrev pub answered : Network → Request → List Effect → Option Response → TransportPool → Outcome
answered net req done none pool = outcome false true (done ++ respond 502 ∷ []) pool
answered net req done (some resp) pool =
    let all = done ++ write_response (remove_hop_headers resp.header) ∷ [] in
    if net.writes
    then outcome (req.at_least_1_1 && resp.at_least_1_1 && not req.close && not resp.close) false
        all pool
    else outcome false true all pool

unfoldable pub forward_request : Network → Extension → Request → TransportPool → Outcome
unfolding outbound_url get remove_hop_headers
forward_request net e req pool =
    let url = outbound_url req in
    let header = remove_hop_headers req.header in
    let taken = get e pool in
    answered net req (exchange (taken.0) url header ∷ []) (net.round_trip (taken.0) url header)
      (taken.1)

abbrev pub status_of : AuthError → ℕ
status_of proxy_auth_required = 407
status_of forbidden = 403

abbrev pub served : Network → Verdict → Request → TransportPool → Outcome
served net (denied e) req pool = outcome false false (respond (status_of e) ∷ []) pool
served net (granted e) req pool =
    if text_eq req.method (codes "CONNECT")
    then handle_connect net e req pool
    else forward_request net e req pool

abbrev pub authorization_name : List ℕ
authorization_name = codes "Proxy-Authorization"

-- `Proxy`, at the time `now` and with base64 as `decode`.
unfoldable pub proxy :
    ℕ → (List ℕ → Option (List ℕ)) → Authenticator → Network → Request → TransportPool → Outcome
unfolding handle_connect forward_request authenticate
proxy now decode auth net req pool =
    served net (authenticate now decode auth (get_header authorization_name req.header)) req pool
