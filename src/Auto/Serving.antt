-- ===== src/Auto/Serving.antt =====
-- What every path of a connection does.
use outway.Base.{
  ℕ, ◌+◌, ◌≡◌, ◌≤◌, refl, arith, List, [], ◌∷◌, Option, none, some, Bool, length, Bool-cases, inl,
  inr,
}
use outway.Http.Auth.{Authenticator}
use outway.Http.Transports.{TransportPool}
use outway.Http.Handler.{proxy}
use outway.Http.Handler.Paths.{answers, proxy-Tidy}
use outway.Auto.{
  Protocol, socks5, https, http, protocol_of, Action, hand_to_socks, acquire_tls, release_tls,
  proxied, close_connection, Turn, serve, serve_https, accept,
}

abbrev pub closes : List Action → ℕ
closes [] = 0
closes (close_connection ∷ acts) = 1 + closes acts
closes (hand_to_socks ∷ acts) = 1 + closes acts
closes (_ ∷ acts) = closes acts

abbrev pub acquired : List Action → ℕ
acquired [] = 0
acquired (acquire_tls ∷ acts) = 1 + acquired acts
acquired (_ ∷ acts) = acquired acts

abbrev pub released : List Action → ℕ
released [] = 0
released (release_tls ∷ acts) = 1 + released acts
released (_ ∷ acts) = released acts

-- The requests handled, and the answers to them.
abbrev pub handled : List Action → ℕ
handled [] = 0
handled (proxied es ∷ acts) = 1 + handled acts
handled (_ ∷ acts) = handled acts

abbrev pub answered : List Action → ℕ
answered [] = 0
answered (proxied es ∷ acts) = answers es + answered acts
answered (_ ∷ acts) = answered acts

abbrev pub Balanced : List Action → Type 0
Balanced acts = (closes acts ≡ 1) × (acquired acts ≡ released acts) × (answered acts ≡ handled acts)

serve-Balanced :
    (decode : List ℕ → Option (List ℕ)) (auth : Authenticator) (turns : List Turn)
    (pool : TransportPool)
    → Balanced ((serve decode auth turns pool).0)
      × (handled ((serve decode auth turns pool).0) ≤ length turns)
unfolding serve
serve-Balanced decode auth [] pool = ((refl, refl, refl), omega arith)
serve-Balanced decode auth (t ∷ turns) pool =
    let o = proxy t.now decode auth t.network t.request pool in
    let once = (proxy-Tidy t.now decode auth t.network t.request pool).0 in
    let rest = serve-Balanced decode auth turns o.pool in
    elim (Bool-cases o.keep_alive) [
      | inl e ↦
          rw (e, serve) ((rest.0.0, rest.0.1, omega (arith, once, rest.0.2)), omega (arith, rest.1))
      | inr e ↦ rw (e, serve) ((refl, refl, omega (arith, once)), omega arith)
    ]

serve_https-Balanced :
    (decode : List ℕ → Option (List ℕ)) (auth : Authenticator) (admitted shaken : Bool)
    (turns : List Turn) (pool : TransportPool)
    → Balanced ((serve_https decode auth admitted shaken turns pool).0)
unfolding serve_https
serve_https-Balanced decode auth admitted shaken turns pool = elim (Bool-cases admitted) [
  | inr e ↦ rw (e, serve_https) (refl, refl, refl)
  | inl e ↦ elim (Bool-cases shaken) [
    | inr f ↦ rw (e, f, serve_https) (refl, refl, refl)
    | inl f ↦
        let served = (serve-Balanced decode auth turns pool).0 in
        rw (e, f, serve_https) (served.0, omega (arith, served.1), served.2)
  ]
]

-- On every path a connection is closed once or handed to the SOCKS5 server, which owns it from then
-- on; the gate of TLS handshakes gets back what was taken from it; and every HTTP request that is
-- handled is answered once.
pub accept-Balanced :
    (decode : List ℕ → Option (List ℕ)) (auth : Authenticator) (first : Option ℕ)
    (admitted shaken : Bool) (turns : List Turn) (pool : TransportPool)
    → Balanced ((accept decode auth first admitted shaken turns pool).0)
unfolding accept
accept-Balanced decode auth none admitted shaken turns pool = (refl, refl, refl)
accept-Balanced decode auth (some first) admitted shaken turns pool =
    by_protocol (protocol_of first) refl
  where
    by_protocol :
        (p : Protocol)
        → protocol_of first ≡ p
        → Balanced ((accept decode auth (some first) admitted shaken turns pool).0)
    by_protocol socks5 e = rw (e, accept) (refl, refl, refl)
    by_protocol https e =
        rw (e, accept) (serve_https-Balanced decode auth admitted shaken turns pool)
    by_protocol http e = rw (e, accept) (serve-Balanced decode auth turns pool).0
