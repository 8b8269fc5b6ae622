-- ===== src/Http/Handler/Paths.antt =====
-- What every path of the handler does.
use outway.Base.{
  ℕ, ◌+◌, ◌≡◌, ◌⊎◌, refl, List, [], ◌∷◌, Option, none, some, true, false, ◌==◌, codes, text_eq,
  Bool-cases, inl, inr,
}
use outway.Ext.{Extension}
use outway.Http.Auth.{Authenticator, AuthError, Verdict, granted, denied, authenticate}
use outway.Http.Headers.{Header, get_header, remove_hop_headers}
use outway.Http.Transports.{Transport, TransportPool, get}
use outway.Http.Handler.{
  Url, Request, Response, Network, Effect, respond, dial, established, close_outbound, exchange,
  write_response, Outcome, connect_target, connect_to, handle_connect, split_host_port,
  outbound_url, answered, forward_request, status_of, served, authorization_name, proxy,
}

-- The answers to the client, the connections opened to targets, and those closed.
abbrev pub answers : List Effect → ℕ
answers [] = 0
answers (respond s ∷ es) = 1 + answers es
answers (established ∷ es) = 1 + answers es
answers (write_response h ∷ es) = 1 + answers es
answers (_ ∷ es) = answers es

abbrev pub opened : List Effect → ℕ
opened [] = 0
opened (dial e host port true ∷ es) = 1 + opened es
opened (_ ∷ es) = opened es

abbrev pub closed : List Effect → ℕ
closed [] = 0
closed (close_outbound ∷ es) = 1 + closed es
closed (_ ∷ es) = closed es

abbrev pub Tidy : Outcome → Type 0
Tidy o = (answers o.effects ≡ 1) × (opened o.effects ≡ closed o.effects)

connect_to-Tidy :
    (net : Network) (e : Extension) (t : Option (List ℕ × ℕ)) (pool : TransportPool)
    → Tidy (connect_to net e t pool)
connect_to-Tidy net e none pool = (refl, refl)
connect_to-Tidy net e (some (host, port)) pool = elim (Bool-cases (net.connects e host port)) [
  | inr f ↦ rw f (refl, refl)
  | inl f ↦ elim (Bool-cases (net.buffered == 0)) [
    | inl g ↦ rw (f, g) (refl, refl)
    | inr g ↦ elim (Bool-cases net.copies) [
      | inl h ↦ rw (f, g, h) (refl, refl)
      | inr h ↦ rw (f, g, h) (refl, refl)
    ]
  ]
]

handle_connect-Tidy :
    (net : Network) (e : Extension) (req : Request) (pool : TransportPool)
    → Tidy (handle_connect net e req pool)
unfolding handle_connect
handle_connect-Tidy net e req pool = elim (Bool-cases (text_eq (connect_target req) [])) [
  | inl f ↦ rw (f, handle_connect) (refl, refl)
  | inr f ↦
      rw (f, handle_connect)
        (connect_to-Tidy net e (split_host_port net.split (connect_target req)) pool)
]

answered-Tidy :
    (net : Network) (req : Request) (t : Transport) (url : Url) (header : Header)
    (o : Option Response) (pool : TransportPool)
    → Tidy (answered net req (exchange t url header ∷ []) o pool)
answered-Tidy net req t url header none pool = (refl, refl)
answered-Tidy net req t url header (some resp) pool = elim (Bool-cases net.writes) [
  | inl f ↦ rw f (refl, refl)
  | inr f ↦ rw f (refl, refl)
]

forward_request-Tidy :
    (net : Network) (e : Extension) (req : Request) (pool : TransportPool)
    → Tidy (forward_request net e req pool)
unfolding forward_request
forward_request-Tidy net e req pool =
    let url = outbound_url req in
    let header = remove_hop_headers req.header in
    let taken = get e pool in
    unfold outbound_url get remove_hop_headers in
    answered-Tidy net req (taken.0) url header (net.round_trip (taken.0) url header) (taken.1)

-- Every request is answered once, on every path; and every connection that was opened to its target
-- is closed again.
pub proxy-Tidy :
    (now : ℕ) (decode : List ℕ → Option (List ℕ)) (auth : Authenticator) (net : Network)
    (req : Request) (pool : TransportPool)
    → Tidy (proxy now decode auth net req pool)
unfolding proxy
proxy-Tidy now decode auth net req pool =
    serves (authenticate now decode auth (get_header authorization_name req.header))
  where
    serves : (v : Verdict) → Tidy (served net v req pool)
    serves (denied e) = (refl, refl)
    serves (granted e) = elim (Bool-cases (text_eq req.method (codes "CONNECT"))) [
      | inl f ↦ rw f (handle_connect-Tidy net e req pool)
      | inr f ↦ rw f (forward_request-Tidy net e req pool)
    ]

-- Every dial is with the extension, and every exchange over its transport.
abbrev pub DialsWith : Extension → TransportPool → List Effect → Type 0
DialsWith e pool [] = Unit
DialsWith e pool (dial f host port ok ∷ es) = (f ≡ e) × DialsWith e pool es
DialsWith e pool (exchange t url header ∷ es) = (t ≡ (get e pool).0) × DialsWith e pool es
DialsWith e pool (_ ∷ es) = DialsWith e pool es

connect_to-DialsWith :
    (net : Network) (e : Extension) (t : Option (List ℕ × ℕ)) (pool : TransportPool)
    → DialsWith e pool (connect_to net e t pool).effects
connect_to-DialsWith net e none pool = tt
connect_to-DialsWith net e (some (host, port)) pool = elim (Bool-cases (net.connects e host port)) [
  | inr f ↦ rw f (refl, tt)
  | inl f ↦ elim (Bool-cases (net.buffered == 0)) [
    | inl g ↦ rw (f, g) (refl, tt)
    | inr g ↦ elim (Bool-cases net.copies) [
      | inl h ↦ rw (f, g, h) (refl, tt)
      | inr h ↦ rw (f, g, h) (refl, tt)
    ]
  ]
]

handle_connect-DialsWith :
    (net : Network) (e : Extension) (req : Request) (pool : TransportPool)
    → DialsWith e pool (handle_connect net e req pool).effects
unfolding handle_connect
handle_connect-DialsWith net e req pool = elim (Bool-cases (text_eq (connect_target req) [])) [
  | inl f ↦ rw (f, handle_connect) tt
  | inr f ↦
      rw (f, handle_connect)
        (connect_to-DialsWith net e (split_host_port net.split (connect_target req)) pool)
]

answered-DialsWith :
    (net : Network) (req : Request) (e : Extension) (url : Url) (header : Header)
    (o : Option Response) (pool after : TransportPool)
    → DialsWith e pool (answered net req (exchange (get e pool).0 url header ∷ []) o after).effects
answered-DialsWith net req e url header none pool after = (refl, tt)
answered-DialsWith net req e url header (some resp) pool after = elim (Bool-cases net.writes) [
  | inl f ↦ rw f (refl, tt)
  | inr f ↦ rw f (refl, tt)
]

forward_request-DialsWith :
    (net : Network) (e : Extension) (req : Request) (pool : TransportPool)
    → DialsWith e pool (forward_request net e req pool).effects
unfolding forward_request
forward_request-DialsWith net e req pool =
    let url = outbound_url req in
    let header = remove_hop_headers req.header in
    answered-DialsWith net req e url header (net.round_trip (get e pool).0 url header) pool
      (get e pool).1

served-DialsWith :
    (net : Network) (e : Extension) (req : Request) (pool : TransportPool)
    → DialsWith e pool (served net (granted e) req pool).effects
served-DialsWith net e req pool = elim (Bool-cases (text_eq req.method (codes "CONNECT"))) [
  | inl f ↦ rw f (handle_connect-DialsWith net e req pool)
  | inr f ↦ rw f (forward_request-DialsWith net e req pool)
]

-- Nothing is dialled and nothing is sent on for a request that is not let through: it is answered by
-- 407 or 403 alone, the connection is not kept, and the pool is as before. One that is let through
-- dials, or takes its transport from the pool, with the extension that it was granted.
pub proxy-authorized :
    (now : ℕ) (decode : List ℕ → Option (List ℕ)) (auth : Authenticator) (net : Network)
    (req : Request) (pool : TransportPool)
    → let o = proxy now decode auth net req pool in
      let v = authenticate now decode auth (get_header authorization_name req.header) in
      ((e : AuthError) × (v ≡ denied e)
        × (o.effects ≡ respond (status_of e) ∷ [])
        × (o.keep_alive ≡ false)
        × (o.pool ≡ pool))
      ⊎ ((e : Extension) × (v ≡ granted e) × DialsWith e pool o.effects)
unfolding proxy
proxy-authorized now decode auth net req pool =
    serves (authenticate now decode auth (get_header authorization_name req.header))
  where
    serves :
        (v : Verdict)
        → ((e : AuthError) × (v ≡ denied e)
            × ((served net v req pool).effects ≡ respond (status_of e) ∷ [])
            × ((served net v req pool).keep_alive ≡ false)
            × ((served net v req pool).pool ≡ pool))
          ⊎ ((e : Extension) × (v ≡ granted e) × DialsWith e pool (served net v req pool).effects)
    serves (denied e) = inl (e, refl, refl, refl, refl)
    serves (granted e) = inr (e, refl, served-DialsWith net e req pool)
