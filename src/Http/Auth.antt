-- ===== src/Http/Auth.antt =====
-- internal/server/http/auth.go: Basic authentication of a proxy request.
pub mod Credentials
use outway.Base.{
  ℕ, List, [], ◌∷◌, Option, none, some, Bool, true, false, not, ◌&&◌, ◌==◌, if◌then◌else◌, codes,
  text_eq, has_prefix, trim_prefix,
}
use outway.Ext.{Extension, no_extension, try_from}

pub data Authenticator : Type 0 where
  no_auth : Authenticator
  password_auth : List ℕ → List ℕ → Authenticator

pub data AuthError : Type 0 where
  proxy_auth_required forbidden : AuthError

pub data Verdict : Type 0 where
  granted : Extension → Verdict
  denied : AuthError → Verdict

abbrev pub colon : ℕ
colon = 58

-- What lies before and behind the last colon, as `strings.LastIndex` finds it.
unfoldable pub split_last_colon : List ℕ → Option (List ℕ × List ℕ)
split_last_colon [] = none
split_last_colon (c ∷ s) = elim (split_last_colon s) [
  | some up ↦ some (c ∷ up.0, up.1)
  | none ↦ if c == colon then some ([], s) else none
]

abbrev pub basic_prefix : List ℕ
basic_prefix = codes "Basic "

-- The comparison with the configured username and password.
abbrev pub compare_with : ℕ → List ℕ → List ℕ → Option (List ℕ × List ℕ) → Verdict
compare_with now username password none = denied proxy_auth_required
compare_with now username password (some (user, pass)) =
    if has_prefix username user && text_eq pass password
    then granted (try_from now username user)
    else denied forbidden

abbrev pub decoded_credentials : ℕ → List ℕ → List ℕ → Option (List ℕ) → Verdict
decoded_credentials now username password none = denied proxy_auth_required
decoded_credentials now username password (some s) =
    compare_with now username password (split_last_colon s)

-- `header` is the value of Proxy-Authorization, empty where there is none; `decode` is
-- `base64.StdEncoding.DecodeString`.
unfoldable pub authenticate_password :
    ℕ → (List ℕ → Option (List ℕ)) → List ℕ → List ℕ → List ℕ → Verdict
unfolding split_last_colon
authenticate_password now decode username password header =
    if text_eq header []
    then denied proxy_auth_required
    else if not (has_prefix basic_prefix header)
    then denied proxy_auth_required
    else decoded_credentials now username password (decode (trim_prefix basic_prefix header))

unfoldable pub authenticate : ℕ → (List ℕ → Option (List ℕ)) → Authenticator → List ℕ → Verdict
unfolding authenticate_password
authenticate now decode no_auth header = granted no_extension
authenticate now decode (password_auth u p) header = authenticate_password now decode u p header
