-- ===== src/Net.antt =====
-- What the source uses of Go's net/netip: addresses, socket addresses and prefixes. An IPv4
-- address is its 32-bit number, an IPv6 address its 128-bit number with a zone (empty for most).
use outway.Base.{ℕ, ◌+◌, ◌-◌, ◌*◌, ◌/◌, ◌%◌, ◌^◌, ◌<◌, ◌≡◌}
use outway.Base.{
  List, [], Bool, true, false, ◌&&◌, ◌==◌, text_eq, be_bytes, be_value, if◌then◌else◌,
}

-- `invalid` is the zero `netip.Addr`.
pub data Addr : Type 0 where
  invalid : Addr
  v4 : ℕ → Addr
  v6 : ℕ → List ℕ → Addr

pub record AddrPort : Type 0 where
  pub addr : Addr
  pub port : ℕ

pub record Prefix : Type 0 where
  pub addr : Addr
  pub bits : ℕ

abbrev pub is4 : Addr → Bool
is4 (v4 x) = true
is4 _ = false

abbrev pub is6 : Addr → Bool
is6 (v6 x z) = true
is6 _ = false

-- An IPv4 address mapped into ::ffff:0:0/96.
abbrev pub is4_in6 : Addr → Bool
is4_in6 (v6 x z) = x / 2 ^ 32 == 0xffff
is4_in6 _ = false

abbrev pub unmap : Addr → Addr
unmap (v6 x z) = if x / 2 ^ 32 == 0xffff then v4 (x % 2 ^ 32) else v6 x z
unmap a = a

abbrev pub addr_eq : Addr → Addr → Bool
addr_eq invalid invalid = true
addr_eq (v4 x) (v4 y) = x == y
addr_eq (v6 x z) (v6 y w) = x == y && text_eq z w
addr_eq _ _ = false

abbrev pub is_unspecified : Addr → Bool
is_unspecified (v4 x) = x == 0
is_unspecified (v6 x z) = x == 0 && text_eq z []
is_unspecified invalid = false

abbrev pub is_valid : Addr → Bool
is_valid invalid = false
is_valid _ = true

abbrev pub bit_len : Addr → ℕ
bit_len (v4 x) = 32
bit_len (v6 x z) = 128
bit_len invalid = 0

-- `As4` and `As16` as numbers; `As4` of a mapped address is its low half, of any other panics.
abbrev pub number4 : Addr → ℕ
number4 (v4 x) = x
number4 (v6 x z) = x % 2 ^ 32
number4 invalid = 0

abbrev pub number16 : Addr → ℕ
number16 (v4 x) = 0xffff * 2 ^ 32 + x
number16 (v6 x z) = x
number16 invalid = 0

abbrev pub as4 : Addr → List ℕ
as4 a = be_bytes 4 (number4 a)

abbrev pub as16 : Addr → List ℕ
as16 a = be_bytes 16 (number16 a)

abbrev pub addr_from4 : List ℕ → Addr
addr_from4 bs = v4 (be_value bs)

abbrev pub addr_from16 : List ℕ → Addr
addr_from16 bs = v6 (be_value bs) []

-- `Prefix.Masked().Addr()`: the host bits cleared.
abbrev pub mask_host : ℕ → Addr → Addr
mask_host n (v4 x) = v4 (x / 2 ^ (32 - n) * 2 ^ (32 - n))
mask_host n (v6 x z) = v6 (x / 2 ^ (128 - n) * 2 ^ (128 - n)) []
mask_host n invalid = invalid

abbrev pub masked : Prefix → Addr
masked p = mask_host p.bits p.addr

abbrev pub ipv4_unspecified : Addr
ipv4_unspecified = v4 0

-- An address is in range of its family.
abbrev pub IsAddr : Addr → Type 0
IsAddr invalid = Unit
IsAddr (v4 x) = x < 2 ^ 32
IsAddr (v6 x z) = x < 2 ^ 128

-- Two addresses of one family agree in their first `n` bits.
abbrev pub AgreeOn : ℕ → Addr → Addr → Type 0
AgreeOn n (v4 x) (v4 y) = x / 2 ^ (32 - n) ≡ y / 2 ^ (32 - n)
AgreeOn n (v6 x z) (v6 y w) = x / 2 ^ (128 - n) ≡ y / 2 ^ (128 - n)
AgreeOn n _ _ = ⊥

-- `Prefix.Contains`, as a proposition.
abbrev pub Contains : Prefix → Addr → Type 0
Contains p a = AgreeOn p.bits p.addr a
