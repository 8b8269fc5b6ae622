-- ===== src/Examples/Messages.antt =====
-- internal/server/socks: messages and datagrams of the protocol.
use outway.Base.{
  false, ℕ, ◌+◌, ◌≤◌, ◌<◌, ◌≡◌, ◌≢◌, refl, arith, List, [], ◌∷◌, ◌++◌, Option, none, some, codes,
  All, IsByte, length, take, drop, replicate, if◌then◌else◌,
}
use outway.Net.{v4}
use outway.Net.{v6, AddrPort, unmap, addr_eq}
use outway.Base.{◌*◌, ◌^◌, true}
use outway.Socks.Relay.{is_authorized}
use outway.Socks.Relay.Laws.{is_authorized-unmap}
use outway.Socks.Gso.{WritePacket, gso_eligible, segments, super_datagram}
use outway.Wire.{Conn, eof, ok, err, incorrect_credentials, no_acceptable_methods}
use outway.Wire.Reads.{at, wrote}
use outway.Proto.Address.{
  Address, socket, domain, IsWire, append_to, len, parse_address, read_address,
}
use outway.Proto.Address.RoundTrip.{wire, parse_address-append_to, append_to-parse_address}
use outway.Proto.Address.Stream.{Agrees, read_address-parse_address}
use outway.Proto.Udp.{UdpHeader, build_udp_packet, parse_udp_header}
use outway.Proto.Udp.RoundTrip.{parse_udp_header-build}
use outway.Proto.Message.{Request, Response, cmd_connect, host_unreachable, command_byte}
use outway.Handshake.{UsernamePassword, credentials_bytes, evaluate_method}
use outway.Ext.{try_from}
use outway.Socks.Auth.{authenticate, password_auth, accepts}
use outway.Socks.Auth.Branches.{authenticate-password}
use outway.Socks.Negotiate.{negotiate}
use outway.Socks.Negotiate.Laws.{negotiate-password}

abbrev site : Address
site = domain (codes "example.org") 443

abbrev host : Address
host = socket (record { addr = v4 0x7f000001; port = 1080 })

site-IsWire : IsWire site
site-IsWire = (omega arith, omega arith)

host-IsWire : IsWire host
host-IsWire = (omega arith, omega arith)

abbrev quiet : Conn
quiet = record { pending = []; final = eof; sent = []; failures = [] }

parse_address-append_to_example :
    (append_to site (7 ∷ []) ≡ ok ((7 ∷ []) ++ wire site))
    × (length (wire site) ≡ len site)
    × (parse_address (wire site ++ (1 ∷ 2 ∷ [])) ≡ ok (site, len site))
parse_address-append_to_example = parse_address-append_to site (7 ∷ []) (1 ∷ 2 ∷ []) site-IsWire

abbrev some_bytes : List ℕ
some_bytes = 1 ∷ 127 ∷ 0 ∷ 0 ∷ 1 ∷ 4 ∷ 56 ∷ 9 ∷ []

some_bytes-IsByte : All IsByte some_bytes
some_bytes-IsByte = omega arith

some_bytes_parsed : parse_address some_bytes ≡ ok (host, 7)
unfolding parse_address outway.Base.be_value
some_bytes_parsed = refl

append_to-parse_address_example :
    IsWire host
    × (7 ≡ len host)
    × (7 ≤ length some_bytes)
    × (append_to host [] ≡ ok (take 7 some_bytes))
append_to-parse_address_example =
    append_to-parse_address some_bytes host 7 some_bytes-IsByte some_bytes_parsed

read_address-parse_address_example :
    Agrees quiet some_bytes (read_address (at quiet some_bytes)) (parse_address some_bytes)
read_address-parse_address_example = read_address-parse_address quiet some_bytes

parse_udp_header-build_example :
    let h : UdpHeader = record { frag = 0; address = site } in
    (parse_udp_header (build_udp_packet 0 site (codes "query")) ≡ ok (h, outway.Proto.Udp.len h))
    × (drop (outway.Proto.Udp.len h) (build_udp_packet 0 site (codes "query")) ≡ codes "query")
    × (length (build_udp_packet 0 site (codes "query"))
        ≡ outway.Proto.Udp.len h + length (codes "query"))
parse_udp_header-build_example = parse_udp_header-build 0 site (codes "query") site-IsWire

abbrev long_name : List ℕ
long_name = replicate 256 97

abbrev connect_request : Request
connect_request = record { command = cmd_connect; address = site }

abbrev unreachable : Response
unreachable = record { reply = host_unreachable; address = host }

abbrev credentials : UsernamePassword
credentials = record { username = codes "user-ttl-10"; password = codes "pass" }

authenticate-password_example :
    authenticate 1234
      (password_auth (codes "user") (codes "pass"))
      (at quiet (5 ∷ length {A = ℕ} (2 ∷ []) ∷ (2 ∷ []) ++ (credentials_bytes credentials ++ [])))
    ≡ (if evaluate_method (2 ∷ []) 2
        then (if accepts (codes "user") (codes "pass") credentials
            then (
              ok (try_from 1234 (codes "user") credentials.username),
              wrote (wrote (at quiet []) (5 ∷ 2 ∷ [])) (1 ∷ 0 ∷ []),
            )
            else (
              err incorrect_credentials,
              wrote (wrote (at quiet []) (5 ∷ 2 ∷ [])) (1 ∷ 255 ∷ []),
            ))
        else (
          err no_acceptable_methods,
          wrote (at quiet (credentials_bytes credentials ++ [])) (5 ∷ 255 ∷ []),
        ))
authenticate-password_example =
    authenticate-password quiet refl 1234 (codes "user") (codes "pass") (2 ∷ []) credentials []
      (omega arith) (omega arith)

abbrev mapped_source : AddrPort
mapped_source = record { addr = v6 (0xffff * 2 ^ 32 + 0x0a000001) []; port = 4000 }

is_authorized-unmap_example :
    is_authorized mapped_source (v4 0x0a000001)
    ≡ addr_eq (unmap mapped_source.addr) (unmap (v4 0x0a000001))
is_authorized-unmap_example = is_authorized-unmap mapped_source.addr 4000 (v4 0x0a000001) refl tt

abbrev to_host : List ℕ → WritePacket
to_host bs = record {
  buffer = bs;
  owner = 1;
  addr = record { addr = v4 1; port = 53 };
  batch_slot = false;
}

abbrev batch : List WritePacket
batch = to_host (1 ∷ 2 ∷ 3 ∷ []) ∷ to_host (4 ∷ 5 ∷ 6 ∷ []) ∷ to_host (7 ∷ []) ∷ []

batch_eligible : gso_eligible true batch ≡ some 3
unfolding gso_eligible
batch_eligible = refl

-- An empty datagram at the end is eligible and is not among the segments.
abbrev empty_last : List WritePacket
empty_last = to_host (1 ∷ 2 ∷ []) ∷ to_host [] ∷ []

empty_last_lost :
    (gso_eligible true empty_last ≡ some 2)
    × (segments 2 2 (super_datagram empty_last) ≡ (1 ∷ 2 ∷ []) ∷ [])
unfolding gso_eligible segments
empty_last_lost = (refl, refl)

offers_password : evaluate_method (2 ∷ []) 2 ≡ true
unfolding evaluate_method
offers_password = refl

right_password : accepts (codes "user") (codes "pass") credentials ≡ true
unfolding accepts outway.Base.has_prefix outway.Base.cut_prefix outway.Base.text_eq
right_password = refl

negotiate-password_example :
    negotiate 1234 (password_auth (codes "user") (codes "pass")) (
      at quiet (
        5 ∷ 1 ∷ (2 ∷ [])
        ++ (credentials_bytes credentials
            ++ (5 ∷ command_byte cmd_connect ∷ 0 ∷ wire site ++ (9 ∷ [])))))
    ≡ (
      ok (connect_request, try_from 1234 (codes "user") credentials.username),
      wrote (wrote (at quiet (9 ∷ [])) (5 ∷ 2 ∷ [])) (1 ∷ 0 ∷ []),
    )
negotiate-password_example =
    negotiate-password quiet 1234 (codes "user") (codes "pass") (2 ∷ []) credentials connect_request
      (9 ∷ []) refl (omega arith) (omega arith) site-IsWire offers_password right_password
