-- ===== src/Socks/Responder/Headers.antt =====
-- The header that is put in front of an answer is the one of `BuildUdpPacket`.
use outway.Base.{
  length-be_bytes, take-add, take-length-append, drop-length-append, ℕ, ◌+◌, ◌-◌, ◌≤◌, ◌≡◌, refl,
  ◌∙◌, arith, List, ◌++◌, Bool-cases, leb_cases, inl, inr, length, length-append, length-take,
  length-drop, take, drop, drop_of_append, be_bytes,
}
use outway.Net.{AddrPort, is4, as4, as16}
use outway.Proto.Address.{socket, IsWire}
use outway.Wire.{ok}
use outway.Proto.Udp.{
  UdpHeader, len, udp_header_max_len, inline_address, build_udp_packet, parse_udp_header,
}
use outway.Proto.Udp.RoundTrip.{parse_udp_header-build}
use outway.Socks.Responder.{unmapped, response_header, header_length, prepare_udp_response}

length-response_header : (r : AddrPort) → length (response_header r) ≡ header_length r
unfolding response_header header_length
length-response_header r = elim (Bool-cases (is4 r.addr)) [
  | inl e ↦ rw e (
      omega (
        arith,
        length-append (as4 r.addr) (be_bytes 2 r.port),
        length-be_bytes 4 _,
        length-be_bytes 2 r.port,
      ))
  | inr e ↦ rw e (
      omega (
        arith,
        length-append (as16 r.addr) (be_bytes 2 r.port),
        length-be_bytes 16 _,
        length-be_bytes 2 r.port,
      ))
]

header_length-le : (r : AddrPort) → header_length r ≤ udp_header_max_len
unfolding header_length
header_length-le r = elim (Bool-cases (is4 r.addr)) [
  | inl e ↦ rw e (omega arith)
  | inr e ↦ rw e (omega arith)
]

response_header-inline :
    (r : AddrPort) (payload : List ℕ)
    → response_header r ++ payload ≡ build_udp_packet 0 (socket r) payload
unfolding response_header build_udp_packet inline_address
response_header-inline r payload = elim (Bool-cases (is4 r.addr)) [
  | inl e ↦ rw e refl
  | inr e ↦ rw e refl
]

-- A header written into a buffer just before the place `at`, and the slice from its start on.
slice_of_written :
    (buf hdr : List ℕ) (at n start : ℕ)
    → start + length hdr ≡ at
    → at ≤ length buf
    → take (at + n - start) (drop start (take start buf ++ (hdr ++ drop at buf)))
      ≡ hdr ++ take n (drop at buf)
slice_of_written buf hdr at n start e h =
    let before : length (take start buf) ≡ start = omega (arith, length-take start buf, e, h) in
    let size : at + n - start ≡ length hdr + n = omega (arith, e) in
    rw
      (
        drop_of_append (take start buf) (hdr ++ drop at buf) before,
        size,
        take-add (length hdr) n (hdr ++ drop at buf),
        take-length-append hdr (drop at buf),
        drop-length-append hdr (drop at buf),
      )
      refl

-- The answer that is prepared in place is the packet that `BuildUdpPacket` builds from the
-- remote's address, unmapped, and the payload, whenever the payload lies in the buffer behind the
-- room for the longest header.
pub prepare_udp_response-build :
    (buffer : List ℕ) (n : ℕ) (remote : AddrPort)
    → udp_header_max_len + n ≤ length buffer
    → let payload = take n (drop udp_header_max_len buffer) in
      prepare_udp_response payload buffer remote
      ≡ build_udp_packet 0 (socket (unmapped remote)) payload
unfolding prepare_udp_response
prepare_udp_response-build buffer n remote h =
    let u = unmapped remote in
    let payload = take n (drop udp_header_max_len buffer) in
    let start = udp_header_max_len - header_length u in
    let size : length payload ≡ n = omega (
      arith,
      length-take n (drop udp_header_max_len buffer),
      length-drop udp_header_max_len buffer,
      h,
    ) in
    let fits : start + length (response_header u) ≡ udp_header_max_len =
      omega (arith, length-response_header u, header_length-le u) in
    elim (leb_cases (udp_header_max_len + length payload) (length buffer)) [
      | inl (e, _) ↦ rw e (
          rw size (
            slice_of_written buffer (response_header u) udp_header_max_len n start fits
              (omega (arith, h)))
          ∙ response_header-inline u payload)
      | inr (e, k) ↦ absurd (omega (arith, size, h, k))
    ]

-- Where the payload stands in the buffer behind the room for the longest header, and the unmapped
-- address of the remote is one that the wire can carry (no zone, its numbers in range), the client
-- reads back that unmapped address, and behind it the payload.
pub parse_udp_header-prepare :
    (buffer : List ℕ) (n : ℕ) (remote : AddrPort)
    → udp_header_max_len + n ≤ length buffer
    → IsWire (socket (unmapped remote))
    → let h : UdpHeader = record { frag = 0; address = socket (unmapped remote) } in
      let payload = take n (drop udp_header_max_len buffer) in
      let answer = prepare_udp_response payload buffer remote in
      (parse_udp_header answer ≡ ok (h, len h)) × (drop (len h) answer ≡ payload)
parse_udp_header-prepare buffer n remote h wire =
    let payload = take n (drop udp_header_max_len buffer) in
    let parsed = parse_udp_header-build 0 (socket (unmapped remote)) payload wire in
    rw (prepare_udp_response-build buffer n remote h) (parsed.0, parsed.1)
