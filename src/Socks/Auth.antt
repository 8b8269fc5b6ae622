-- ===== src/Socks/Auth.antt =====
-- internal/server/socks/auth.go and conn.go: method selection and authentication of a connection.
pub mod Branches
use outway.Base.{ℕ, List, [], ◌∷◌, Bool, true, false, ◌&&◌, if◌then◌else◌, text_eq, has_prefix}
use outway.Wire.{
  Result, ok, err, M, ◌>>=◌, ◌>>◌, return, fail, incorrect_credentials, no_acceptable_methods, Conn,
}
use outway.Handshake.{
  method_no_auth, method_password, method_no_acceptable, evaluate_method, read_methods,
  marshal_method_to, read_credentials, marshal_status_to, status_succeeded, status_failed,
  UsernamePassword,
}
use outway.Ext.{Extension, no_extension, try_from}

-- `AuthAdaptor`: without authentication, or with a username prefix and a password.
pub data AuthAdaptor : Type 0 where
  no_auth : AuthAdaptor
  password_auth : List ℕ → List ℕ → AuthAdaptor

unfoldable pub method : AuthAdaptor → ℕ
method (password_auth u p) = method_password
method no_auth = method_no_auth

-- `equal` of `executePassword`.
unfoldable pub accepts : List ℕ → List ℕ → UsernamePassword → Bool
accepts u p up = has_prefix u up.username && text_eq up.password p

unfoldable pub execute_password : ℕ → List ℕ → List ℕ → M Extension
unfolding accepts
execute_password now u p = do
  up ← read_credentials
  marshal_status_to (if accepts u p up then status_succeeded else status_failed)
  if accepts u p up then return (try_from now u up.username) else fail incorrect_credentials

unfoldable pub execute : ℕ → AuthAdaptor → M Extension
unfolding execute_password
execute now (password_auth u p) = execute_password now u p
execute now no_auth = return no_extension

-- The result of a write that the code ignores.
abbrev pub ignoring : M (Unit {0}) → M (Unit {0})
ignoring m c = (ok tt, (m c).1)

unfoldable pub select_method : ℕ → AuthAdaptor → List ℕ → M Extension
unfolding method execute
select_method now a methods =
    if evaluate_method methods (method a)
    then marshal_method_to (method a) >> execute now a
    else ignoring (marshal_method_to method_no_acceptable) >> fail no_acceptable_methods

unfoldable pub authenticate : ℕ → AuthAdaptor → M Extension
unfolding select_method
authenticate now a = do methods ← read_methods; select_method now a methods
