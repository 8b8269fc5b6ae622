-- ===== src/Examples/Proxies.antt =====
-- internal/server/http and internal/server/auto.go: requests of the HTTP proxy.
use outway.Base.{
  ℕ, zero, suc, ==_cases, inl, inr, ◌≤◌, ◌≡◌, ◌≢◌, ◌⊎◌, refl, arith, List, [], ◌∷◌, ◌++◌, Option,
  none, some, true, false, if◌then◌else◌, length, map, codes, All,
}
use outway.Ext.{Extension, ext_session, try_from}
use outway.Handshake.{UsernamePassword}
use outway.Socks.Auth.{accepts}
use outway.Http.Auth.{
  password_auth, no_auth, AuthError, granted, denied, forbidden, basic_prefix, authenticate,
}
use outway.Http.Auth.Credentials.{authenticate-accepts, authenticate-colon}
use outway.Http.Transports.{
  max_transport_entries, Transport, TransportEntry, TransportPool, new_transport,
  new_transport_pool, find, get,
}
use outway.Http.Transports.Eviction.{In, NotOlder, Keyed}
use outway.Http.Transports.Reuse.{IsPool, pool_after, get-sticky, get-evicts}
use outway.Http.Transports.Entries.{Distinct}
use outway.Http.Headers.{Header, get_header, trim_space, remove_hop_headers}
use outway.Http.Headers.Removal.{CommaList, end_to_end, remove_hop_headers-end_to_end}
use outway.Http.Handler.{Request, Network, respond, status_of, authorization_name, proxy}
use outway.Http.Handler.Paths.{DialsWith, proxy-authorized}
use outway.Auto.{Turn, accept}
use outway.Auto.Serving.{Balanced, accept-Balanced}

abbrev session : ℕ → Extension
session n = record { type = ext_session; value = n }

get-sticky_example :
    (((get (session 7) (pool_after (session 3 ∷ []))).0).extension ≡ session 7)
    × ((get (session 7) ((get (session 7) (pool_after (session 3 ∷ []))).1)).0
        ≡ (get (session 7) (pool_after (session 3 ∷ []))).0)
    × (length ((get (session 7) (pool_after (session 3 ∷ []))).1).entries ≤ max_transport_entries)
get-sticky_example = get-sticky (session 3 ∷ []) (session 7) refl

-- The entries of the sessions below a number.
abbrev used_below : ℕ → List (Extension × TransportEntry)
used_below zero = []
used_below (suc n) =
    (session n, (record { transport = new_transport (session n) n; last_used = n })) ∷ used_below n

-- A pool with as many entries as it keeps.
abbrev full_pool : TransportPool
full_pool = record new_transport_pool { entries = used_below 128; clock = 200 }

find-used_below : (m n : ℕ) → n ≤ m → find (session m) (used_below n) ≡ none
unfolding find outway.Http.Transports.extension_eq
find-used_below m zero h = refl
find-used_below m (suc n) h = elim (==_cases n m) [
  | inl (_, same) ↦ absurd (omega (arith, h, same))
  | inr (e, _) ↦ rw e (find-used_below m n (omega (arith, h)))
]

used_below-Distinct : (n : ℕ) → Distinct (used_below n)
used_below-Distinct zero = tt
used_below-Distinct (suc n) = (find-used_below n n (omega arith), used_below-Distinct n)

used_below-Keyed : (n : ℕ) → Keyed (used_below n)
unfolding new_transport
used_below-Keyed zero = tt
used_below-Keyed (suc n) = (refl, used_below-Keyed n)

full_pool-IsPool : IsPool full_pool
full_pool-IsPool = record {
  few = omega arith;
  keyed = used_below-Keyed 128;
  distinct = used_below-Distinct 128;
}

get-evicts_example :
    let (t, q) = get (session 200) full_pool in
    (y : Extension × TransportEntry) × In y full_pool.entries
    × All (NotOlder y) full_pool.entries
    × (q.closed ≡ (y.1).transport ∷ full_pool.closed)
    × (find (y.0) q.entries ≡ none)
    × (find (session 200) q.entries ≡ some (record { transport = t; last_used = 201 }))
    × ((find (session 9) q.entries ≡ find (session 9) full_pool.entries)
        ⊎ ((y.0 ≡ session 9) ⊎ (session 200 ≡ session 9)))
    × (length q.entries ≡ length full_pool.entries)
get-evicts_example =
    get-evicts (session 200) (session 9) full_pool full_pool-IsPool refl
      (find-used_below 200 128 (omega arith)) (omega arith)

abbrev headers : Header
headers =
    (codes "Connection", codes "X-Trace, close" ∷ [])
    ∷ (codes "X-Trace", codes "1" ∷ [])
    ∷ (codes "Accept", codes "*/*" ∷ [])
    ∷ []

remove_hop_headers-end_to_end_example :
    (parts : List (List ℕ)) × CommaList parts (get_header (codes "Connection") headers)
    × (remove_hop_headers headers ≡ end_to_end (map trim_space parts) headers)
remove_hop_headers-end_to_end_example = remove_hop_headers-end_to_end headers

abbrev shouts : List ℕ → Option (List ℕ)
shouts s = some (codes "joe:secret")

abbrev joe : UsernamePassword
joe = record { username = codes "joe"; password = codes "secret" }

authenticate-accepts_example :
    authenticate 0 shouts
      (password_auth (codes "joe") (codes "secret"))
      (basic_prefix ++ codes "xyz")
    ≡ (if accepts (codes "joe") (codes "secret") joe
        then granted (try_from 0 (codes "joe") (codes "joe"))
        else denied forbidden)
authenticate-accepts_example =
    authenticate-accepts 0 shouts (codes "joe") (codes "secret") (codes "xyz") joe refl refl

authenticate-colon_example :
    (authenticate 0 shouts (password_auth (codes "joe") (codes "a:b")) (codes "Basic xyz")
      ≢ granted (session 1))
    × (accepts
          (codes "joe")
          (codes "a:b")
          (record { username = codes "joe"; password = codes "a:b" })
        ≡ true)
authenticate-colon_example =
    authenticate-colon 0 shouts (codes "joe") (codes "a:b") (codes "Basic xyz") (session 1) refl

abbrev offline : Network
offline = record {
  split = λ s. none;
  connects = λ e host port. false;
  round_trip = λ t url header. none;
  buffered = 0;
  copies = true;
  writes = true;
}

abbrev plain : Request
plain = record {
  method = codes "GET";
  url = record { scheme = codes "http"; host = codes "example.org" };
  host = codes "example.org";
  header = headers;
  at_least_1_1 = true;
  close = false;
}

proxy-authorized_example :
    ((e : AuthError) × (authenticate 0 shouts no_auth (get_header authorization_name plain.header)
        ≡ denied e)
      × ((proxy 0 shouts no_auth offline plain new_transport_pool).effects
          ≡ respond (status_of e) ∷ [])
      × ((proxy 0 shouts no_auth offline plain new_transport_pool).keep_alive ≡ false)
      × ((proxy 0 shouts no_auth offline plain new_transport_pool).pool ≡ new_transport_pool))
    ⊎ ((e : Extension) × (authenticate 0 shouts no_auth (get_header authorization_name plain.header)
          ≡ granted e)
        × DialsWith e new_transport_pool
            (proxy 0 shouts no_auth offline plain new_transport_pool).effects)
proxy-authorized_example = proxy-authorized 0 shouts no_auth offline plain new_transport_pool

abbrev turn : Turn
turn = record { now = 0; request = plain; network = offline }

accept-Balanced_example :
    Balanced ((accept shouts no_auth (some 71) true true (turn ∷ []) new_transport_pool).0)
accept-Balanced_example =
    accept-Balanced shouts no_auth (some 71) true true (turn ∷ []) new_transport_pool
