-- ===== src/Proto/Address/RoundTrip.antt =====
-- Encoding an address and parsing it back.
use outway.Base.{ℕ, suc, ◌+◌, ◌%◌, ◌^◌, ◌≤◌, ◌<◌, ◌≡◌, refl, arith, sym, ap}
use outway.Base.{List, [], ◌∷◌, ◌++◌, length, take, drop, ltb, ltb-false, All, IsByte}
use outway.Base.{be_bytes, be_value, length-be_bytes, be_value-be_bytes, be_bytes-be_value}
use outway.Base.{length-append, take_of_append, drop_of_append, All-take, All-drop, take-add}
use outway.Base.{be_value-lt, length-take, length-drop, Bool-cases, inl, inr, ==_cases}
use mathlib.Core.List.{append_assoc}
use mathlib.Core.Path.{subst}
use outway.Net.{Addr, invalid, v4, v6, as4, as16}
use outway.Wire.{Result, ok, err}
use outway.Proto.Address.{
  Address, socket, domain, addr_ipv4, addr_ipv6, addr_domain, len, append_to, parse_address,
  parse_ipv4, parse_ipv6, parse_domain, IsWire, IsWireAddr,
}

-- The bytes of an address on the wire.
abbrev wire_socket : Addr → ℕ → List ℕ
wire_socket (v4 x) port = addr_ipv4 ∷ as4 (v4 x) ++ be_bytes 2 port
wire_socket a port = addr_ipv6 ∷ as16 a ++ be_bytes 2 port

abbrev pub wire : Address → List ℕ
wire (socket ap) = wire_socket ap.addr ap.port
wire (domain d port) = addr_domain ∷ length d % 256 ∷ d ++ be_bytes 2 port

-- The number in a field of `n` bytes that stands between two others.
field_back :
    (n : ℕ) (xs rest : List ℕ) (port : ℕ)
    → length xs ≡ n
    → port < 2 ^ 16
    → (take n ((xs ++ be_bytes 2 port) ++ rest) ≡ xs)
      × (be_value (take 2 (drop n ((xs ++ be_bytes 2 port) ++ rest))) ≡ port)
field_back n xs rest port e h = rw append_assoc (
  take_of_append xs (be_bytes 2 port ++ rest) e,
  rw (drop_of_append xs (be_bytes 2 port ++ rest) e) (
      rw (take_of_append (be_bytes 2 port) rest (length-be_bytes 2 port))
        (be_value-be_bytes 2 port h)),
)

-- How long the three fields are together.
field_length :
    (n : ℕ) (xs rest : List ℕ) (port : ℕ)
    → length xs ≡ n
    → length ((xs ++ be_bytes 2 port) ++ rest) ≡ n + 2 + length rest
field_length n xs rest port e = omega (
  arith,
  length-append (xs ++ be_bytes 2 port) rest,
  length-append xs (be_bytes 2 port),
  length-be_bytes 2 port,
)

parse_v4 :
    (x port : ℕ) (rest : List ℕ)
    → x < 2 ^ 32
    → port < 2 ^ 16
    → parse_address (wire_socket (v4 x) port ++ rest)
      ≡ ok (socket (record { addr = v4 x; port = port }), 7)
unfolding parse_address
parse_v4 x port rest hx hp =
    let back = field_back 4 (be_bytes 4 x) rest port (length-be_bytes 4 x) hp in
    let long = field_length 4 (be_bytes 4 x) rest port (length-be_bytes 4 x) in
    rw (ltb-false (1 + length ((be_bytes 4 x ++ be_bytes 2 port) ++ rest)) 7 (omega arith))
      (rw (back.0, back.1, be_value-be_bytes 4 x hx))

parse_v6 :
    (x port : ℕ) (rest : List ℕ)
    → x < 2 ^ 128
    → port < 2 ^ 16
    → parse_address (wire_socket (v6 x []) port ++ rest)
      ≡ ok (socket (record { addr = v6 x []; port = port }), 19)
unfolding parse_address
parse_v6 x port rest hx hp =
    let back = field_back 16 (be_bytes 16 x) rest port (length-be_bytes 16 x) hp in
    let long = field_length 16 (be_bytes 16 x) rest port (length-be_bytes 16 x) in
    rw (ltb-false (1 + length ((be_bytes 16 x ++ be_bytes 2 port) ++ rest)) 19 (omega arith))
      (rw (back.0, back.1, be_value-be_bytes 16 x hx))

parse_name :
    (d : List ℕ) (port : ℕ) (rest : List ℕ)
    → length d ≤ 255
    → port < 2 ^ 16
    → parse_address (wire (domain d port) ++ rest) ≡ ok (domain d port, 2 + length d + 2)
unfolding parse_address
parse_name d port rest hd hp =
    let fits : length d % 256 ≡ length d = omega arith in
    let back = field_back (length d) d rest port refl hp in
    let long = field_length (length d) d rest port refl in
    rw fits (
      rw (ltb-false (2 + length ((d ++ be_bytes 2 port) ++ rest)) (2 + length d + 2) (omega arith))
        (rw (back.0, back.1)))

-- Appending an address that the wire can carry writes exactly `len` bytes behind the buffer, and
-- parsing them, whatever follows, gives the address back and that length.
pub parse_address-append_to :
    (a : Address) (b rest : List ℕ)
    → IsWire a
    → (append_to a b ≡ ok (b ++ wire a))
      × (length (wire a) ≡ len a)
      × (parse_address (wire a ++ rest) ≡ ok (a, len a))
unfolding append_to len
parse_address-append_to (socket ap) b rest h = of_socket ap.addr ap.port h.0 h.1
  where
    of_socket :
        (x : Addr) (port : ℕ)
        → IsWireAddr x
        → port < 2 ^ 16
        → (append_to (socket (record { addr = x; port = port })) b ≡ ok (b ++ wire_socket x port))
          × (length (wire_socket x port) ≡ len (socket (record { addr = x; port = port })))
          × (parse_address (wire_socket x port ++ rest)
              ≡ ok (
                socket (record { addr = x; port = port }),
                len (socket (record { addr = x; port = port })),
              ))
    of_socket (v4 x) port hx hp = (
      refl,
      omega (
        arith,
        length-append (be_bytes 4 x) (be_bytes 2 port),
        length-be_bytes 4 x,
        length-be_bytes 2 port,
      ),
      parse_v4 x port rest hx hp,
    )
    of_socket (v6 x z) port hx hp = rw hx.1 (
      refl,
      omega (
        arith,
        length-append (be_bytes 16 x) (be_bytes 2 port),
        length-be_bytes 16 x,
        length-be_bytes 2 port,
      ),
      parse_v6 x port rest hx.0 hp,
    )
    of_socket invalid port hx hp = absurd hx
parse_address-append_to (domain d port) b rest h = (
  rw (ltb-false 255 (length d) h.0),
  omega (arith, length-append d (be_bytes 2 port), length-be_bytes 2 port),
  parse_name d port rest h.0 h.1,
)

-- What a successful parse means: the bytes consumed are there, they are the address's own
-- encoding, and the address is one that the wire can carry.
abbrev pub Reencodes : List ℕ → Result (Address × ℕ) → Type 0
Reencodes buf (err e) = Unit
Reencodes buf (ok (a, n)) =
    IsWire a × (n ≡ len a) × (n ≤ length buf) × (append_to a [] ≡ ok (take n buf))

parse_ipv4-Reencodes :
    (body : List ℕ) → All IsByte body → Reencodes (addr_ipv4 ∷ body) (parse_ipv4 body)
unfolding parse_ipv4 append_to len
parse_ipv4-Reencodes body h = elim (Bool-cases (ltb (1 + length body) 7)) [
  | inl short ↦ rw short tt
  | inr enough ↦
      let room : 7 ≤ 1 + length body = ground arith in
      let ip : length (take 4 body) ≡ 4 = omega (arith, length-take 4 body) in
      let port : length (take 2 (drop 4 body)) ≡ 2 =
        omega (arith, length-take 2 (drop 4 body), length-drop 4 body) in
      let ip_bytes = All-take IsByte 4 body h in
      let port_bytes = All-take IsByte 2 (drop 4 body) (All-drop IsByte 4 body h) in
      rw enough (
        (
          be_value-lt 4 (take 4 body) ip ip_bytes,
          be_value-lt 2 (take 2 (drop 4 body)) port port_bytes,
        ),
        refl,
        omega arith,
        rw
            (
              be_bytes-be_value 4 (take 4 body) ip ip_bytes,
              be_bytes-be_value 2 (take 2 (drop 4 body)) port port_bytes,
            )
            (ap (λ (t : List ℕ). ok (addr_ipv4 ∷ t)) (sym (take-add 4 2 body))),
      )
]

parse_ipv6-Reencodes :
    (body : List ℕ) → All IsByte body → Reencodes (addr_ipv6 ∷ body) (parse_ipv6 body)
unfolding parse_ipv6 append_to len
parse_ipv6-Reencodes body h = elim (Bool-cases (ltb (1 + length body) 19)) [
  | inl short ↦ rw short tt
  | inr enough ↦
      let room : 19 ≤ 1 + length body = ground arith in
      let ip : length (take 16 body) ≡ 16 = omega (arith, length-take 16 body) in
      let port : length (take 2 (drop 16 body)) ≡ 2 =
        omega (arith, length-take 2 (drop 16 body), length-drop 16 body) in
      let ip_bytes = All-take IsByte 16 body h in
      let port_bytes = All-take IsByte 2 (drop 16 body) (All-drop IsByte 16 body h) in
      rw enough (
        (
          (be_value-lt 16 (take 16 body) ip ip_bytes, refl),
          be_value-lt 2 (take 2 (drop 16 body)) port port_bytes,
        ),
        refl,
        omega arith,
        rw
            (
              be_bytes-be_value 16 (take 16 body) ip ip_bytes,
              be_bytes-be_value 2 (take 2 (drop 16 body)) port port_bytes,
            )
            (ap (λ (t : List ℕ). ok (addr_ipv6 ∷ t)) (sym (take-add 16 2 body))),
      )
]

parse_domain-Reencodes :
    (body : List ℕ) → All IsByte body → Reencodes (addr_domain ∷ body) (parse_domain body)
unfolding parse_domain append_to len
parse_domain-Reencodes [] h = tt
parse_domain-Reencodes (n ∷ body) h = elim (Bool-cases (ltb (2 + length body) (2 + n + 2))) [
  | inl short ↦ rw short tt
  | inr enough ↦
      let room : 2 + n + 2 ≤ 2 + length body = ground arith in
      let name : length (take n body) ≡ n = omega (arith, length-take n body) in
      let port : length (take 2 (drop n body)) ≡ 2 =
        omega (arith, length-take 2 (drop n body), length-drop n body) in
      let port_bytes = All-take IsByte 2 (drop n body) (All-drop IsByte n body h.1) in
      let small : n % 256 ≡ n = omega (arith, h.0) in
      let steps : 2 + n + 2 ≡ suc (suc (n + 2)) = omega arith in
      rw enough (
        (omega (arith, h.0), be_value-lt 2 (take 2 (drop n body)) port port_bytes),
        omega arith,
        omega arith,
        rw (
          name,
          ltb-false 255 n (omega (arith, h.0)),
          small,
          steps,
          be_bytes-be_value 2 (take 2 (drop n body)) port port_bytes,
          take-add n 2 body,
        ),
      )
]

parse_address-Reencodes : (buf : List ℕ) → All IsByte buf → Reencodes buf (parse_address buf)
unfolding parse_address
parse_address-Reencodes [] h = tt
parse_address-Reencodes (t ∷ body) h = elim (==_cases t addr_ipv4) [
  | inl (e, p) ↦ rw e (rw p (parse_ipv4-Reencodes body h.1))
  | inr (e, _) ↦ rw e (elim (==_cases t addr_ipv6) [
    | inl (e6, p) ↦ rw e6 (rw p (parse_ipv6-Reencodes body h.1))
    | inr (e6, _) ↦ rw e6 (elim (==_cases t addr_domain) [
      | inl (ed, p) ↦ rw ed (rw p (parse_domain-Reencodes body h.1))
      | inr (ed, _) ↦ rw ed tt
    ])
  ])
]

-- A successful parse of bytes yields an address that the wire can carry, consumes its length and
-- no more than the buffer, and what it consumed is exactly the encoding of that address.
pub append_to-parse_address :
    (buf : List ℕ) (a : Address) (n : ℕ)
    → All IsByte buf
    → parse_address buf ≡ ok (a, n)
    → IsWire a × (n ≡ len a) × (n ≤ length buf) × (append_to a [] ≡ ok (take n buf))
append_to-parse_address buf a n h e = subst (Reencodes buf) e (parse_address-Reencodes buf h)
