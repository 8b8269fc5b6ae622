-- ===== src/Handshake.antt =====
-- internal/server/socks/proto/handshake: method selection, and its child package password, the
-- username and password sub-negotiation.
pub mod RoundTrip
use outway.Base.{
  ℕ, suc, ◌+◌, ◌%◌, List, [], ◌∷◌, ◌++◌, map, length, take, drop, Bool, true, false, ◌==◌,
}
use outway.Base.{if◌then◌else◌, leb, ◌&&◌}
use outway.Wire.{
  unsupported_subnegotiation, invalid_status, Result, ok, err, M, ◌>>=◌, ◌>>◌, return, fail, lift,
  read_full, read_u8, write_all, version5, check_version,
}
use outway.Proto.Udp.{byte_at}

abbrev pub subnegotiation_version : ℕ
subnegotiation_version = 1

-- `Method` is its byte.
abbrev pub method_no_auth : ℕ
method_no_auth = 0

abbrev pub method_gss_api : ℕ
method_gss_api = 1

abbrev pub method_password : ℕ
method_password = 2

abbrev pub method_no_acceptable : ℕ
method_no_acceptable = 255

unfoldable pub method_from_byte : ℕ → ℕ
method_from_byte b =
    if b == 0
    then method_no_auth
    else if b == 1
    then method_gss_api
    else if b == 2
    then method_password
    else if b == 255
    then method_no_acceptable
    else if leb 3 b && leb b 127
    then b
    else b

-- `EvaluateMethod`: whether the client offered the method.
unfoldable pub evaluate_method : List ℕ → ℕ → Bool
evaluate_method [] m = false
evaluate_method (offered ∷ methods) m = if offered == m then true else evaluate_method methods m

-- The methods that a selection request offers.
unfoldable pub read_methods : M (List ℕ)
unfolding method_from_byte check_version
read_methods = do
  ver ← read_u8
  lift (check_version ver)
  nmethods ← read_u8
  buf ← read_full nmethods
  return (map method_from_byte buf)

unfoldable pub marshal_method_to : ℕ → M (Unit {0})
marshal_method_to m = write_all (version5 ∷ m ∷ [])

pub record UsernamePassword : Type 0 where
  pub username : List ℕ
  pub password : List ℕ

unfoldable pub read_credentials : M UsernamePassword
read_credentials = do
  ver ← read_u8
  if ver == subnegotiation_version then return tt else fail (unsupported_subnegotiation ver)
  ulen ← read_u8
  buf ← read_full (ulen + 1)
  let plen = byte_at buf ulen
  pwd ← read_full plen
  return (record { username = take ulen buf; password = pwd })

-- The length bytes are `byte(len(…))`: they wrap at 256.
unfoldable pub credentials_bytes : UsernamePassword → List ℕ
credentials_bytes up =
    subnegotiation_version ∷ length up.username % 256 ∷ up.username
    ++ (length up.password % 256 ∷ up.password)

unfoldable pub marshal_credentials_to : UsernamePassword → M (Unit {0})
unfolding credentials_bytes
marshal_credentials_to up = write_all (credentials_bytes up)

abbrev pub status_succeeded : ℕ
status_succeeded = 0

abbrev pub status_failed : ℕ
status_failed = 255

unfoldable pub marshal_status_to : ℕ → M (Unit {0})
marshal_status_to s = write_all (subnegotiation_version ∷ s ∷ [])

unfoldable pub parse_status : ℕ → Result ℕ
parse_status b =
    if b == 0
    then ok status_succeeded
    else if b == 255
    then ok status_failed
    else err (invalid_status b)
