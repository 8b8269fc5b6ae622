-- ===== src/Proto/Address.antt =====
-- internal/server/socks/proto/address.go: destination addresses and their wire form.
pub mod RoundTrip
pub mod Stream
use outway.Base.{ℕ, zero, suc, ◌+◌, ◌-◌, ◌*◌, ◌/◌, ◌%◌, ◌^◌, ◌≤◌, ◌<◌, ◌≡◌, refl, arith}
use outway.Base.{
  List, [], ◌∷◌, ◌++◌, length, take, drop, ltb, leb, ◌==◌, if◌then◌else◌, All, IsByte,
}
use outway.Base.{be_bytes, be_value, Bool, true, false}
use outway.Net.{
  Addr, invalid, v4, v6, AddrPort, is4, as4, as16, addr_from4, addr_from16, ipv4_unspecified,
}
use outway.Wire.{
  Error, unexpected_eof, unsupported_address_type, domain_too_long, Result, ok, err, M, ◌>>=◌, ◌>>◌,
  return, fail, lift, read_full, read_u8, write_all, first_byte,
}

-- `AddrIPv4`, `AddrDomain` and `AddrIPv6`.
abbrev pub addr_ipv4 : ℕ
addr_ipv4 = 1

abbrev pub addr_domain : ℕ
addr_domain = 3

abbrev pub addr_ipv6 : ℕ
addr_ipv6 = 4

-- An `Address` whose `Socket` is set, or one with a domain and a port.
pub data Address : Type 0 where
  socket : AddrPort → Address
  domain : List ℕ → ℕ → Address

abbrev pub unspecified : Address
unspecified = socket (record { addr = ipv4_unspecified; port = 0 })

abbrev pub max_serialized_len : ℕ
max_serialized_len = 1 + 1 + 255 + 2

unfoldable pub len : Address → ℕ
len (socket ap) = if is4 ap.addr then 1 + 4 + 2 else 1 + 16 + 2
len (domain d port) = 1 + 1 + length d + 2

unfoldable pub append_to : Address → List ℕ → Result (List ℕ)
append_to (socket ap) b =
    if is4 ap.addr
    then ok (b ++ (addr_ipv4 ∷ as4 ap.addr ++ be_bytes 2 ap.port))
    else ok (b ++ (addr_ipv6 ∷ as16 ap.addr ++ be_bytes 2 ap.port))
append_to (domain d port) b =
    if ltb 255 (length d)
    then err (domain_too_long (length d))
    else ok (b ++ (addr_domain ∷ length d % 256 ∷ d ++ be_bytes 2 port))

unfoldable pub marshal_to : Address → M (Unit {0})
marshal_to a = do b ← lift (append_to a []); write_all b

-- The bytes after the type byte, for each type.
unfoldable pub parse_ipv4 : List ℕ → Result (Address × ℕ)
parse_ipv4 body =
    if ltb (1 + length body) (1 + 4 + 2)
    then err unexpected_eof
    else ok (
      socket (record { addr = addr_from4 (take 4 body); port = be_value (take 2 (drop 4 body)) }),
      1 + 4 + 2,
    )

unfoldable pub parse_ipv6 : List ℕ → Result (Address × ℕ)
parse_ipv6 body =
    if ltb (1 + length body) (1 + 16 + 2)
    then err unexpected_eof
    else ok (
      socket
          (record { addr = addr_from16 (take 16 body); port = be_value (take 2 (drop 16 body)) }),
      1 + 16 + 2,
    )

unfoldable pub parse_domain : List ℕ → Result (Address × ℕ)
parse_domain [] = err unexpected_eof
parse_domain (n ∷ body) =
    if ltb (2 + length body) (2 + n + 2)
    then err unexpected_eof
    else ok (domain (take n body) (be_value (take 2 (drop n body))), 2 + n + 2)

unfoldable pub parse_address : List ℕ → Result (Address × ℕ)
unfolding parse_ipv4 parse_ipv6 parse_domain
parse_address [] = err unexpected_eof
parse_address (t ∷ body) =
    if t == addr_ipv4
    then parse_ipv4 body
    else if t == addr_ipv6
    then parse_ipv6 body
    else if t == addr_domain
    then parse_domain body
    else err (unsupported_address_type t)

-- `ReadAddress`, a reader for each type.
unfoldable pub read_ipv4 : M Address
read_ipv4 = do
  buf ← read_full 6
  return (socket (record { addr = addr_from4 (take 4 buf); port = be_value (drop 4 buf) }))

unfoldable pub read_ipv6 : M Address
read_ipv6 = do
  buf ← read_full 18
  return (socket (record { addr = addr_from16 (take 16 buf); port = be_value (drop 16 buf) }))

unfoldable pub read_domain : M Address
read_domain = do
  ln ← read_u8
  buf ← read_full (ln + 2)
  return (domain (take ln buf) (be_value (drop ln buf)))

unfoldable pub read_body : ℕ → M Address
unfolding read_ipv4 read_ipv6 read_domain
read_body t =
    if t == addr_ipv4
    then read_ipv4
    else if t == addr_domain
    then read_domain
    else if t == addr_ipv6
    then read_ipv6
    else fail (unsupported_address_type t)

unfoldable pub read_address : M Address
unfolding read_body
read_address = do t ← read_u8; read_body t

-- An address that the wire format can carry: in range, without a zone, a domain of at most 255
-- bytes, a 16-bit port.
abbrev pub IsWireAddr : Addr → Type 0
IsWireAddr invalid = ⊥
IsWireAddr (v4 x) = x < 2 ^ 32
IsWireAddr (v6 x z) = (x < 2 ^ 128) × (z ≡ [])

abbrev pub IsWire : Address → Type 0
IsWire (socket ap) = IsWireAddr ap.addr × (ap.port < 2 ^ 16)
IsWire (domain d port) = (length d ≤ 255) × (port < 2 ^ 16)
