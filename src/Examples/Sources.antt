-- ===== src/Examples/Sources.antt =====
-- internal/connect/connect.go and internal/ext/ext.go: choices of source addresses.
use outway.Base.{
  ℕ, ◌+◌, ◌-◌, ◌*◌, ◌/◌, ◌%◌, ◌^◌, ◌≤◌, ◌<◌, ◌≡◌, ◌≢◌, ◌↔◌, ◌⊎◌, refl, arith, inr, List, [], ◌∷◌,
  ◌++◌, Option, none, some, codes, contains, Bool, true, false, pos, be_bytes,
}
use outway.Net.{AddrPort, Prefix, v4, v6, Contains, AgreeOn, is4}
use outway.Ext.{
  Extension, ext_ttl, ext_range, ext_session, try_from, parse_uint, fx_hash64, session_marker,
}
use outway.Ext.Window.{try_from-ttl}
use outway.Config.{BootArgs, validate, default_boot_args}
use outway.Config.Valid.{IsBootArgs, validate-IsBootArgs}
use outway.Connect.Uint128.{Uint128, mod_uint128}
use outway.Connect.Source.{Random, assign_ipv4_from_extension, assign_ipv6_from_extension}
use outway.Connect.Source.Ipv4.Policy.{assign_ipv4_from_extension-Contains, assign_ipv4_range_agree}
use outway.Connect.Source.Ipv6.Policy.{
  assign_ipv6_from_extension-Contains, assign_ipv6_range_agree, assign_ipv6_sticky_lem,
}
use outway.Connect.Dial.{new, connect_addr}
use outway.Connect.Dial.Policy.{Sourced, validate-Sourced}

-- 10.0.0.0/8 and 2001:db8::/64.
abbrev ten : ℕ
ten = 0x0a000000

abbrev net10 : Prefix
net10 = record { addr = v4 ten; bits = 8 }

abbrev doc : ℕ
doc = 0x20010db8000000000000000000000000

abbrev net_doc : Prefix
net_doc = record { addr = v6 doc []; bits = 64 }

abbrev one_random : Random
one_random = record { u32 = 0xdeadbeef; u64 = 0x0123456789abcdef; high = 7; low = 9 }

abbrev other_random : Random
other_random = record { u32 = 77; u64 = 88; high = 1; low = 2 }

abbrev ranged : Extension
ranged = record { type = ext_range; value = 0x1234 }

assign_ipv4_from_extension-Contains_example :
    Contains net10 (assign_ipv4_from_extension net10 (some 24) ranged one_random)
assign_ipv4_from_extension-Contains_example =
    assign_ipv4_from_extension-Contains ten 8 (omega arith) (omega arith) (some 24) ranged
      one_random (omega arith)

assign_ipv4_range_agree_example :
    let choose = assign_ipv4_from_extension net10 (some 24) ranged in
    AgreeOn 24 (choose one_random) (choose other_random)
    × AgreeOn 24
        (choose one_random)
        (v4 ((ten / 2 ^ (32 - 8) * 2 ^ (24 - 8) + 0x1234 % 2 ^ 32 % 2 ^ (24 - 8)) * 2 ^ (32 - 24)))
assign_ipv4_range_agree_example =
    assign_ipv4_range_agree ten 8 (omega arith) (omega arith) 24 0x1234 one_random other_random
      (omega arith) (omega arith)

assign_ipv6_from_extension-Contains_example :
    Contains net_doc (assign_ipv6_from_extension net_doc (some 96) ranged one_random)
assign_ipv6_from_extension-Contains_example =
    assign_ipv6_from_extension-Contains doc 64 (omega arith) (omega arith) (some 96) ranged
      one_random (omega arith, omega arith) (omega arith) (omega arith) (omega arith)

assign_ipv6_range_agree_example :
    let choose = assign_ipv6_from_extension net_doc (some 96) ranged in
    AgreeOn 96 (choose one_random) (choose other_random)
    × AgreeOn 96
        (choose one_random)
        (v6 ((doc / 2 ^ (128 - 64) * 2 ^ (96 - 64) + 0x1234 % 2 ^ (96 - 64)) * 2 ^ (128 - 96)) [])
assign_ipv6_range_agree_example =
    assign_ipv6_range_agree doc 64 (omega arith) (omega arith) 96 0x1234 one_random other_random
      (omega arith) (omega arith) (omega arith) (omega arith) (omega arith) (omega arith)

assign_ipv6_sticky_lem_example :
    (assign_ipv6_from_extension net_doc none (record { type = ext_ttl; value = 99 }) one_random
      ≡ v6 (doc / 2 ^ (128 - 64) * 2 ^ (128 - 64) + 99 % (2 ^ (128 - 64) - 1)) [])
    × (99 % (2 ^ (128 - 64) - 1) + 1 < 2 ^ (128 - 64))
assign_ipv6_sticky_lem_example =
    assign_ipv6_sticky_lem doc 64 (omega arith) (omega arith) none 99 one_random ext_ttl (inr refl)
      (omega arith) (omega arith) (omega arith)

-- The default configuration with 10.0.0.0/8 as its CIDR.
abbrev ten_args : BootArgs
ten_args = record default_boot_args { cidr = some net10; cidr_range = some 24 }

abbrev target4 : AddrPort
target4 = record { addr = v4 0x08080808; port = 53 }

ten_args_valid : validate ten_args ≡ none
unfolding validate outway.Base.text_eq
ten_args_valid = refl

validate-Sourced_example :
    Sourced net10 none (is4 target4.addr) (connect_addr (new ten_args) ranged one_random target4)
validate-Sourced_example =
    validate-Sourced ten 8 (omega arith) (omega arith) ten_args ranged one_random target4
      ten_args_valid refl

validate-IsBootArgs_example : (validate ten_args ≡ none) ↔ IsBootArgs ten_args
validate-IsBootArgs_example = validate-IsBootArgs ten_args

default_valid : validate default_boot_args ≡ none
unfolding validate outway.Base.text_eq
default_valid = refl

ten_seconds : parse_uint (codes "10") 64 ≡ some 10
unfolding parse_uint
ten_seconds = refl

no_session : contains session_marker (codes "user-ttl-10") ≡ false
unfolding contains outway.Base.cut_prefix
no_session = refl

try_from-ttl_example :
    try_from 1234 (codes "user") (codes "user-ttl-10")
    ≡ record { type = ext_ttl; value = fx_hash64 (be_bytes 8 (10 * (1234 / 10))) }
try_from-ttl_example =
    try_from-ttl 1234 10 (codes "user") (codes "10") ten_seconds (omega arith) no_session

session_kind :
    (now : ℕ) → (try_from now (codes "user") (codes "user-session-abc")).type ≡ ext_session
unfolding try_from outway.Base.cut_prefix contains
session_kind now = refl

not_ttl : (now : ℕ) → (try_from now (codes "user") (codes "user-session-abc")).type ≢ ext_ttl
not_ttl now h = cc (session_kind now, h)

-- The remainder loop for numbers above 64 bits does not compute the remainder: 5 modulo
-- 2 ^ 80 - 1 is 5.
wide_remainder :
    mod_uint128 (record { hi = 0; lo = 5 }) (record { hi = 0xffff; lo = 2 ^ 64 - 1 })
    ≡ record { hi = 0; lo = 0x440000000000 }
unfolding mod_uint128 outway.Connect.Uint128.mod_loop outway.Connect.Uint128.mod_round
wide_remainder = refl
