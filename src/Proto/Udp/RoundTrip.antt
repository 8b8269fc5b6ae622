-- ===== src/Proto/Udp/RoundTrip.antt =====
-- Building a relayed datagram and parsing its header.
use outway.Base.{
  ℕ, suc, ◌+◌, ◌%◌, ◌≤◌, ◌<◌, ◌≡◌, ◌≢◌, refl, arith, List, [], ◌∷◌, ◌++◌, length, drop, ap,
}
use outway.Base.{
  be_bytes, length-append, drop_of_append, ltb, ltb-false, Bool-cases, inl, inr, length-take,
}
use mathlib.Core.Path.{subst, sym, ◌∙◌}
use outway.Net.{Addr, invalid, v4, v6}
use outway.Wire.{Result, ok, err}
use outway.Proto.Address
use outway.Proto.Address.{
  addr_domain, Address, socket, domain, IsWire, IsWireAddr, parse_address, parse_domain,
}
use outway.Proto.Address.RoundTrip.{wire, parse_address-append_to}
use outway.Proto.Udp.{UdpHeader, len, inline_address, build_udp_packet, parse_udp_header, with_frag}

inline_address-wire : (a : Address) → IsWire a → inline_address a ≡ wire a
unfolding inline_address
inline_address-wire (socket ap) h = of_addr ap.addr h.0
  where
    of_addr :
        (x : Addr)
        → IsWireAddr x
        → inline_address (socket (record { addr = x; port = ap.port }))
          ≡ wire (socket (record { addr = x; port = ap.port }))
    of_addr (v4 x) hx = refl
    of_addr (v6 x z) hx = refl
    of_addr invalid hx = absurd hx
inline_address-wire (domain d port) h = refl

parse_udp_header-cons :
    (r s f : ℕ) (rest : List ℕ)
    → parse_udp_header (r ∷ s ∷ f ∷ rest) ≡ with_frag f (parse_address rest)
unfolding parse_udp_header
parse_udp_header-cons r s f rest = rw (ltb-false (suc (suc (suc (length rest)))) 3 (omega arith))

-- A datagram built for an address that the wire can carry parses back to its fragment number and
-- address; the header is as long as `Len` says, and the payload is what follows it.
pub parse_udp_header-build :
    (frag : ℕ) (from : Address) (payload : List ℕ)
    → IsWire from
    → let h : UdpHeader = record { frag = frag; address = from } in
      (parse_udp_header (build_udp_packet frag from payload) ≡ ok (h, len h))
      × (drop (len h) (build_udp_packet frag from payload) ≡ payload)
      × (length (build_udp_packet frag from payload) ≡ len h + length payload)
unfolding build_udp_packet with_frag len
parse_udp_header-build frag from payload h =
    let (_, size, parsed) = parse_address-append_to from [] payload h in
    let three : 3 + Address.len from ≡ suc (suc (suc (Address.len from))) = omega arith in
    rw (inline_address-wire from h) (
      rw (parse_udp_header-cons, parsed),
      rw three (drop_of_append (wire from) payload size),
      omega (arith, length-append (wire from) payload),
    )

abbrev NameWithin : ℕ → Address → Type 0
NameWithin k (socket ap) = Unit
NameWithin k (domain d port) = length d ≤ k

abbrev HeaderWithin : ℕ → Result (UdpHeader × ℕ) → Type 0
HeaderWithin k (ok (h, n)) = NameWithin k h.address
HeaderWithin k (err e) = Unit

-- A parsed name is no longer than its length byte says.
parse_domain-HeaderWithin :
    (f k : ℕ) (body : List ℕ) → HeaderWithin k (with_frag f (parse_domain (k ∷ body)))
unfolding parse_domain with_frag
parse_domain-HeaderWithin f k body = elim (Bool-cases (ltb (2 + length body) (2 + k + 2))) [
  | inl short ↦ rw short tt
  | inr enough ↦ rw enough (omega (arith, length-take k body))
]

-- A domain longer than 255 bytes is not refused: the length byte wraps, and the datagram never
-- parses back to the address that it was built for.
pub build_udp_packet_long_domain :
    (frag : ℕ) (name : List ℕ) (port : ℕ) (payload : List ℕ) (n : ℕ)
    → 255 < length name
    → parse_udp_header (build_udp_packet frag (domain name port) payload)
      ≢ ok (record { frag = frag; address = domain name port }, n)
unfolding build_udp_packet parse_address
build_udp_packet_long_domain frag name port payload n h e =
    let k : ℕ = length name % 256 in
    let body = (name ++ be_bytes 2 port) ++ payload in
    let within : length name ≤ length name % 256 =
      subst (HeaderWithin k) (sym (parse_udp_header-cons 0 0 frag (addr_domain ∷ k ∷ body)) ∙ e)
        (parse_domain-HeaderWithin frag k body) in
    absurd (omega arith)
