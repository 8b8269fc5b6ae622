-- ===== src/Proto/Message/RoundTrip.antt =====
-- Requests and replies through the wire.
use outway.Base.{ℕ, ◌≡◌, refl, List, [], ◌∷◌, ◌++◌, drop_of_append}
use outway.Wire.{Conn, ok, check_version}
use outway.Wire.Reads.{at, wrote, read_u8-cons, read_full-append, write_all-wrote}
use outway.Proto.Address.{Address, IsWire, read_address, marshal_to}
use outway.Proto.Address.RoundTrip.{wire, parse_address-append_to}
use outway.Proto.Address.Stream.{read_address-parse_address, Agrees}
use outway.Proto.Message.{
  Command, cmd_connect, cmd_bind, cmd_udp_associate, parse_command, command_byte, Reply,
  parse_reply, reply_byte, Request, Response, read_request, marshal_request_to, marshal_response_to,
  succeeded,
}
use mathlib.Core.Path.{subst}

-- Reading an encoded address takes exactly its bytes off the stream.
pub read_address-wire :
    (c : Conn) (a : Address) (rest : List ℕ)
    → IsWire a
    → read_address (at c (wire a ++ rest)) ≡ (ok a, at c rest)
read_address-wire c a rest h =
    let (_, size, parsed) = parse_address-append_to a [] rest h in
    rw
      (subst (Agrees c (wire a ++ rest) (read_address (at c (wire a ++ rest)))) parsed
        (read_address-parse_address c (wire a ++ rest)))
      (rw (drop_of_append (wire a) rest size))

parse_command-command_byte : (cmd : Command) → parse_command (command_byte cmd) ≡ ok cmd
unfolding parse_command
parse_command-command_byte cmd_connect = refl
parse_command-command_byte cmd_bind = refl
parse_command-command_byte cmd_udp_associate = refl

-- What `MarshalTo` sends for a request, `ReadRequest` reads back, and it leaves what follows.
pub read_request-marshal_request_to :
    (c : Conn) (req : Request) (rest : List ℕ)
    → IsWire req.address
    → c.failures ≡ []
    → (marshal_request_to req c
        ≡ (ok tt, wrote (wrote c (5 ∷ command_byte req.command ∷ 0 ∷ [])) (wire req.address)))
      × (read_request (at c (5 ∷ command_byte req.command ∷ 0 ∷ wire req.address ++ rest))
          ≡ (ok req, at c rest))
unfolding read_request marshal_request_to marshal_to check_version
read_request-marshal_request_to c req rest h f = (
  rw (write_all-wrote (5 ∷ command_byte req.command ∷ 0 ∷ []) c f) (
      rw ((parse_address-append_to req.address [] rest h).0)
        (write_all-wrote (wire req.address) (wrote c (5 ∷ command_byte req.command ∷ 0 ∷ [])) f)),
  rw read_u8-cons (
      rw (read_full-append c (command_byte req.command ∷ 0 ∷ []) (wire req.address ++ rest) refl) (
        rw (parse_command-command_byte req.command) (rw (read_address-wire c req.address rest h)))),
)

parse_reply-reply_byte : (r : Reply) → parse_reply (reply_byte r) ≡ ok r
unfolding parse_reply
parse_reply-reply_byte succeeded = refl
parse_reply-reply_byte r = refl

-- A reply goes out in a single write of version, code, a zero byte and the encoded address, and a
-- client that reads these fields recovers the code and the address.
pub marshal_response_to_lem :
    (c : Conn) (resp : Response) (rest : List ℕ)
    → IsWire resp.address
    → c.failures ≡ []
    → (marshal_response_to resp c
        ≡ (ok tt, wrote c (5 ∷ reply_byte resp.reply ∷ 0 ∷ wire resp.address)))
      × (parse_reply (reply_byte resp.reply) ≡ ok resp.reply)
      × (read_address (at c (wire resp.address ++ rest)) ≡ (ok resp.address, at c rest))
unfolding marshal_response_to
marshal_response_to_lem c resp rest h f = (
  rw ((parse_address-append_to resp.address (5 ∷ reply_byte resp.reply ∷ 0 ∷ []) rest h).0)
      (write_all-wrote (5 ∷ reply_byte resp.reply ∷ 0 ∷ wire resp.address) c f),
  parse_reply-reply_byte resp.reply,
  read_address-wire c resp.address rest h,
)
