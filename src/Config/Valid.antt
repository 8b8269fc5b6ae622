-- ===== src/Config/Valid.antt =====
-- What a configuration that passes validation is.
use outway.Base.{
  ℕ, ◌^◌, ◌≤◌, ◌≡◌, ◌≢◌, ◌↔◌, refl, arith, List, [], ◌∷◌, Option, none, some, Bool, true, false,
  not,
}
use outway.Base.{
  ◌||◌, ◌&&◌, if◌then◌else◌, ltb, ◌==◌, text_eq, ℤ, pos, negsuc, below, above, is_zero, Between,
  AtLeast, ◌⊎◌,
}
use outway.Net.{Prefix, bit_len}
use outway.Config.{BootArgs, UdpConfig, Invalid, differ, validate, validate_udp, validate_range}

-- Both texts are given, or neither.
abbrev pub BothOrNeither : List ℕ → List ℕ → Type 0
BothOrNeither [] [] = Unit
BothOrNeither (c ∷ s) (d ∷ t) = Unit
BothOrNeither _ _ = ⊥

-- Zero, for the system's default, or a size between 4 KiB and 1 GiB.
abbrev pub BufferSize : ℤ → Type 0
BufferSize (pos a) = (a ≡ 0) ⊎ ((4096 ≤ a) × (a ≤ 2 ^ 30))
BufferSize (negsuc a) = ⊥

abbrev pub IsUdpConfig : UdpConfig → Type 0
IsUdpConfig u =
    Between 512 65535 u.max_packet_size
    × Between 1 1024 u.batch_size
    × AtLeast 0 u.batch_buffer_budget
    × AtLeast 1 u.send_queue_size
    × Between 0 4096 u.send_workers
    × BufferSize u.socket_buffer_bytes

-- A range is given only with a CIDR, and lies between its prefix length and its address length.
abbrev pub IsRange : Option Prefix → Option ℕ → Type 0
IsRange cidr none = Unit
IsRange none (some m) = ⊥
IsRange (some p) (some m) = (p.bits ≤ m) × (m ≤ bit_len p.addr)

abbrev pub IsBootArgs : BootArgs → Type 0
IsBootArgs a =
    (a.concurrent ≢ 0)
    × (a.connect_timeout ≢ 0)
    × AtLeast 0 a.workers
    × IsUdpConfig a.udp
    × (a.udp.max_associations ≤ a.concurrent)
    × BothOrNeither a.proxy.auth.username a.proxy.auth.password
    × BothOrNeither a.proxy.tls_cert a.proxy.tls_key
    × IsRange a.cidr a.cidr_range

-- A chain of tests ends without an error when a test fails and the rest does.
passes :
    {b : Bool} (e : Invalid) {r : Option Invalid}
    → (if b then some e else r) ≡ none
    → (b ≡ false) × (r ≡ none)
passes {b = true} e h = cc
passes {b = false} e h = (refl, h)

pass :
    {b : Bool} (e : Invalid) {r : Option Invalid}
    → b ≡ false
    → r ≡ none
    → (if b then some e else r) ≡ none
pass {b = true} e p h = cc
pass {b = false} e p h = h

between_lem : (lo hi : ℕ) (i : ℤ) → ((below i lo || above i hi) ≡ false) ↔ Between lo hi i
between_lem lo hi (pos a) = ground arith
between_lem lo hi (negsuc a) = ground arith

at_least_lem : (lo : ℕ) (i : ℤ) → (below i lo ≡ false) ↔ AtLeast lo i
at_least_lem lo (pos a) = ground arith
at_least_lem lo (negsuc a) = ground arith

buffer_lem :
    (i : ℤ) → ((not (is_zero i) && (below i 4096 || above i (2 ^ 30))) ≡ false) ↔ BufferSize i
buffer_lem (pos a) = ground arith
buffer_lem (negsuc a) = ground arith

both_lem : (s t : List ℕ) → (differ (text_eq s []) (text_eq t []) ≡ false) ↔ BothOrNeither s t
unfolding text_eq
both_lem [] [] = ground arith
both_lem [] (d ∷ t) = ground arith
both_lem (c ∷ s) [] = ground arith
both_lem (c ∷ s) (d ∷ t) = ground arith

nonzero_lem : (a : ℕ) → ((a == 0) ≡ false) ↔ (a ≢ 0)
nonzero_lem a = ground arith

not_above_lem : (a b : ℕ) → (ltb a b ≡ false) ↔ (b ≤ a)
not_above_lem a b = ground arith

range_lem : (c : Option Prefix) (m : Option ℕ) → (validate_range c m ≡ none) ↔ IsRange c m
unfolding validate_range
range_lem none none = ground arith
range_lem (some p) none = ground arith
range_lem none (some m) = ground arith
range_lem (some p) (some m) = ground arith

udp_lem :
    (u : UdpConfig) (rest : Option Invalid)
    → (validate_udp u rest ≡ none) ↔ (IsUdpConfig u × (rest ≡ none))
unfolding validate_udp
udp_lem u rest = (there, back)
  where
    there : validate_udp u rest ≡ none → IsUdpConfig u × (rest ≡ none)
    there h =
        let one = passes _ h in
        let two = passes _ one.1 in
        let three = passes _ two.1 in
        let four = passes _ three.1 in
        let five = passes _ four.1 in
        let six = passes _ five.1 in
        (
          (
            (between_lem 512 65535 u.max_packet_size).0 one.0,
            (between_lem 1 1024 u.batch_size).0 two.0,
            (at_least_lem 0 u.batch_buffer_budget).0 three.0,
            (at_least_lem 1 u.send_queue_size).0 four.0,
            (between_lem 0 4096 u.send_workers).0 five.0,
            (buffer_lem u.socket_buffer_bytes).0 six.0,
          ),
          six.1,
        )

    back : IsUdpConfig u × (rest ≡ none) → validate_udp u rest ≡ none
    back (v, r) = pass _ ((between_lem 512 65535 u.max_packet_size).1 v.0) (
        pass _ ((between_lem 1 1024 u.batch_size).1 v.1) (
          pass _ ((at_least_lem 0 u.batch_buffer_budget).1 v.2) (
            pass _ ((at_least_lem 1 u.send_queue_size).1 v.3) (
              pass _ ((between_lem 0 4096 u.send_workers).1 v.4)
                (pass _ ((buffer_lem u.socket_buffer_bytes).1 v.5) r)))))

-- `Validate` gives no error exactly when the configuration is well formed: a limit and a timeout
-- that are not zero, sizes between their bounds, no more associations than connections,
-- credentials and TLS files in pairs, and a range that lies within its CIDR.
pub validate-IsBootArgs : (a : BootArgs) → (validate a ≡ none) ↔ IsBootArgs a
unfolding validate
validate-IsBootArgs a = (there, back)
  where
    there : validate a ≡ none → IsBootArgs a
    there h =
        let one = passes _ h in
        let two = passes _ one.1 in
        let three = passes _ two.1 in
        let relay = (udp_lem a.udp _).0 three.1 in
        let five = passes _ relay.1 in
        let six = passes _ five.1 in
        let seven = passes _ six.1 in
        (
          (nonzero_lem a.concurrent).0 one.0,
          (nonzero_lem a.connect_timeout).0 two.0,
          (at_least_lem 0 a.workers).0 three.0,
          relay.0,
          (not_above_lem a.concurrent a.udp.max_associations).0 five.0,
          (both_lem a.proxy.auth.username a.proxy.auth.password).0 six.0,
          (both_lem a.proxy.tls_cert a.proxy.tls_key).0 seven.0,
          (range_lem a.cidr a.cidr_range).0 seven.1,
        )

    back : IsBootArgs a → validate a ≡ none
    back v = pass _ ((nonzero_lem a.concurrent).1 v.0) (
        pass _ ((nonzero_lem a.connect_timeout).1 v.1) (
          pass _ ((at_least_lem 0 a.workers).1 v.2) (
            (udp_lem a.udp _).1 (
              v.3,
              pass _ ((not_above_lem a.concurrent a.udp.max_associations).1 v.4) (
                  pass _ ((both_lem a.proxy.auth.username a.proxy.auth.password).1 v.5) (
                    pass _ ((both_lem a.proxy.tls_cert a.proxy.tls_key).1 v.6)
                      ((range_lem a.cidr a.cidr_range).1 v.7))),
            ))))
