-- ===== src/Proto/Message.antt =====
-- internal/server/socks/proto: command.go, reply.go, request.go and response.go.
pub mod RoundTrip
use outway.Base.{ℕ, suc, ◌+◌, List, [], ◌∷◌, ◌++◌, ◌==◌, if◌then◌else◌}
use outway.Wire.{
  unsupported_command, unsupported_reply, Result, ok, err, M, ◌>>=◌, ◌>>◌, return, fail, lift,
  read_full, read_u8, write_all, version5, check_version,
}
use outway.Proto.Address.{Address, append_to, read_address, marshal_to}
use outway.Proto.Udp.{byte_at}

pub data Command : Type 0 where
  cmd_connect cmd_bind cmd_udp_associate : Command

unfoldable pub parse_command : ℕ → Result Command
parse_command b =
    if b == 1
    then ok cmd_connect
    else if b == 2
    then ok cmd_bind
    else if b == 3
    then ok cmd_udp_associate
    else err (unsupported_command b)

abbrev pub command_byte : Command → ℕ
command_byte cmd_connect = 1
command_byte cmd_bind = 2
command_byte cmd_udp_associate = 3

pub data Reply : Type 0 where
  succeeded general_failure connection_not_allowed network_unreachable host_unreachable : Reply
  connection_refused ttl_expired command_not_supported address_type_not_supported : Reply

unfoldable pub parse_reply : ℕ → Result Reply
parse_reply b =
    if b == 0
    then ok succeeded
    else if b == 1
    then ok general_failure
    else if b == 2
    then ok connection_not_allowed
    else if b == 3
    then ok network_unreachable
    else if b == 4
    then ok host_unreachable
    else if b == 5
    then ok connection_refused
    else if b == 6
    then ok ttl_expired
    else if b == 7
    then ok command_not_supported
    else if b == 8
    then ok address_type_not_supported
    else err (unsupported_reply b)

abbrev pub reply_byte : Reply → ℕ
reply_byte succeeded = 0
reply_byte general_failure = 1
reply_byte connection_not_allowed = 2
reply_byte network_unreachable = 3
reply_byte host_unreachable = 4
reply_byte connection_refused = 5
reply_byte ttl_expired = 6
reply_byte command_not_supported = 7
reply_byte address_type_not_supported = 8

pub record Request : Type 0 where
  pub command : Command
  pub address : Address

unfoldable pub read_request : M Request
unfolding parse_command check_version
read_request = do
  ver ← read_u8
  lift (check_version ver)
  buf ← read_full 2
  cmd ← lift (parse_command (byte_at buf 0))
  addr ← read_address
  return (record { command = cmd; address = addr })

unfoldable pub marshal_request_to : Request → M (Unit {0})
marshal_request_to req = do
  write_all (version5 ∷ command_byte req.command ∷ 0 ∷ [])
  marshal_to req.address

pub record Response : Type 0 where
  pub reply : Reply
  pub address : Address

abbrev pub new_response : Reply → Address → Response
new_response reply addr = record { reply = reply; address = addr }

-- One write for header and address.
unfoldable pub marshal_response_to : Response → M (Unit {0})
marshal_response_to resp = do
  b ← lift (append_to resp.address (version5 ∷ reply_byte resp.reply ∷ 0 ∷ []))
  write_all b
