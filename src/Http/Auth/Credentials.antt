-- ===== src/Http/Auth/Credentials.antt =====
-- The credentials that the HTTP proxy accepts, and those of the SOCKS5 server.
use outway.Base.{
  ℕ, ◌≡◌, ◌≢◌, refl, sym, ap, ◌∙◌, arith, List, [], ◌∷◌, ◌++◌, Option, none, some, Bool, true,
  false, not, ◌||◌, ◌==◌, if◌then◌else◌, text_eq, text_eq_sound, text_eq_refl, has_prefix,
  trim_prefix, cut_prefix, cut_prefix-append, Bool-cases, ==_refl, inl, inr,
}
use outway.Ext.{Extension, try_from}
use outway.Handshake.{UsernamePassword}
use outway.Socks.Auth.{accepts}
use outway.Http.Auth.{
  password_auth, forbidden, proxy_auth_required, Verdict, granted, denied, colon, split_last_colon,
  basic_prefix, compare_with, decoded_credentials, authenticate_password, authenticate,
}

abbrev pub has_colon : List ℕ → Bool
has_colon [] = false
has_colon (c ∷ s) = c == colon || has_colon s

split_none : (s : List ℕ) → has_colon s ≡ false → split_last_colon s ≡ none
unfolding split_last_colon
split_none [] h = refl
split_none (c ∷ s) h =
    let first : (c == colon) ≡ false = ground arith in
    let rest : has_colon s ≡ false = ground arith in rw (split_none s rest, first) refl

split_append :
    (user pass : List ℕ)
    → has_colon pass ≡ false
    → split_last_colon (user ++ colon ∷ pass) ≡ some (user, pass)
unfolding split_last_colon
split_append [] pass h = rw (split_none pass h) refl
split_append (c ∷ user) pass h = rw (split_append user pass h) refl

-- What lies behind the last colon has no colon.
abbrev Clean : List ℕ → Option (List ℕ × List ℕ) → Type 0
Clean s none = has_colon s ≡ false
Clean s (some up) = has_colon (up.1) ≡ false

split-Clean : (s : List ℕ) → Clean s (split_last_colon s)
unfolding split_last_colon
split-Clean [] = refl
split-Clean (c ∷ s) = extend (split_last_colon s) (split-Clean s)
  where
    extend :
        (o : Option (List ℕ × List ℕ))
        → Clean s o
        → Clean (c ∷ s) (elim o [
          | some up ↦ some (c ∷ up.0, up.1)
          | none ↦ if c == colon then some ([], s) else none
        ])
    extend (some up) h = h
    extend none h = elim (Bool-cases (c == colon)) [ inl e ↦ rw e h | inr e ↦ rw (e) (rw e h) ]

basic_prefix-header :
    (s : List ℕ)
    → (has_prefix basic_prefix (basic_prefix ++ s) ≡ true)
      × (trim_prefix basic_prefix (basic_prefix ++ s) ≡ s)
unfolding has_prefix trim_prefix
basic_prefix-header s =
    let cut = cut_prefix-append basic_prefix s in (rw cut refl, rw (cut, trim_prefix) refl)

cut_self : (s : List ℕ) → cut_prefix s s ≡ some []
unfolding cut_prefix
cut_self [] = refl
cut_self (c ∷ s) = rw ==_refl (cut_self s)

-- The header "Basic " with credentials that decode to a username, a colon and a password without a
-- colon: the HTTP proxy grants it exactly when the SOCKS5 server accepts that username and password,
-- and with the same extension; otherwise the request is forbidden.
pub authenticate-accepts :
    (now : ℕ) (decode : List ℕ → Option (List ℕ)) (u p encoded : List ℕ) (up : UsernamePassword)
    → decode encoded ≡ some (up.username ++ colon ∷ up.password)
    → has_colon up.password ≡ false
    → authenticate now decode (password_auth u p) (basic_prefix ++ encoded)
      ≡ (if accepts u p up then granted (try_from now u up.username) else denied forbidden)
unfolding authenticate authenticate_password accepts text_eq
authenticate-accepts now decode u p encoded up e h =
    let (has, trims) = basic_prefix-header encoded in
    let split = split_append up.username up.password h in
    let goes : decoded_credentials now u p
          (decode (trim_prefix basic_prefix (basic_prefix ++ encoded)))
        ≡ compare_with now u p (some (up.username, up.password)) =
      rw (trims, e) (ap (compare_with now u p) split) in
    rw has goes

-- Not that of a request let through.
abbrev Refused : Extension → Verdict → Type 0
Refused e v = v ≢ granted e

either :
    (e : Extension) (b : Bool) (v w : Verdict)
    → Refused e v
    → Refused e w
    → Refused e (if b then v else w)
either e true v w h k = h
either e false v w h k = k

compare_with-colon :
    (now : ℕ) (u p s : List ℕ) (e : Extension) (o : Option (List ℕ × List ℕ))
    → has_colon p ≡ true
    → Clean s o
    → Refused e (compare_with now u p o)
compare_with-colon now u p s e none h clean = λ q. cc q
compare_with-colon now u p s e (some (user, pass)) h clean = elim (Bool-cases (text_eq pass p)) [
  | inl same ↦
      let equal : pass ≡ p = text_eq_sound pass p same in
      let clean_too : has_colon p ≡ false = ap has_colon (sym equal) ∙ clean in
      let clash : true ≡ false = sym h ∙ clean_too in absurd (cc clash)
  | inr other ↦ elim (Bool-cases (has_prefix u user)) [
    | inl f ↦ rw (f, other) (λ q. cc q)
    | inr f ↦ rw (f) (λ q. cc q)
  ]
]

decoded-colon :
    (now : ℕ) (u p : List ℕ) (e : Extension) (o : Option (List ℕ))
    → has_colon p ≡ true
    → Refused e (decoded_credentials now u p o)
decoded-colon now u p e none h = λ q. cc q
decoded-colon now u p e (some s) h =
    compare_with-colon now u p s e (split_last_colon s) h (split-Clean s)

own_credentials : (u p : List ℕ) → accepts u p (record { username = u; password = p }) ≡ true
unfolding accepts has_prefix
own_credentials u p = rw (cut_self u) (text_eq_refl p)

-- A configured password with a colon in it is never accepted, whatever the header, although the
-- SOCKS5 server takes it: the colon is where the header is split.
pub authenticate-colon :
    (now : ℕ) (decode : List ℕ → Option (List ℕ)) (u p header : List ℕ) (e : Extension)
    → has_colon p ≡ true
    → (authenticate now decode (password_auth u p) header ≢ granted e)
      × (accepts u p (record { username = u; password = p }) ≡ true)
unfolding authenticate authenticate_password
authenticate-colon now decode u p header e h =
    let missing : Refused e (denied proxy_auth_required) = λ q. cc q in
    (
      either e (text_eq header []) _ _ missing (
          either e (not (has_prefix basic_prefix header)) _ _ missing
            (decoded-colon now u p e (decode (trim_prefix basic_prefix header)) h)),
      own_credentials u p,
    )
