-- ===== src/Socks/Commands.antt =====
-- internal/server/socks/server.go: the commands of a SOCKS5 request as what they do, in order. What
-- the sockets give is a parameter; a deferred close stands where its function returns.
pub mod Paths
use outway.Base.{
  ℕ, ◌+◌, List, [], ◌∷◌, ◌++◌, Option, none, some, Bool, true, false, not, ◌&&◌, ◌==◌,
  if◌then◌else◌,
}
use outway.Net.{Addr, v4, AddrPort, is_unspecified}
use outway.Proto.Address.{Address, socket, domain, unspecified}
use outway.Proto.Message.{
  Reply, succeeded, general_failure, connection_not_allowed, host_unreachable,
}

-- `reply` says whether it could be written.
pub data Action : Type 0 where
  reply : Reply → Address → Bool → Action
  open_outbound close_outbound close_write_outbound : Action
  open_listener close_listener : Action
  open_inbound close_inbound : Action
  close_client close_write_client : Action
  copy_buffered tunnel : Action

-- The bytes of the client that are buffered, and whether they can be copied to the outbound
-- connection.
pub record Buffered : Type 0 where
  pub count : ℕ
  pub copies : Bool

abbrev pub copy_of : Buffered → List Action
copy_of b = if b.count == 0 then [] else copy_buffered ∷ []

abbrev pub copied : Buffered → Bool
copied b = if b.count == 0 then true else b.copies

-- `handleConnect`: whether the dial succeeds, and whether the reply can be written.
unfoldable pub handle_connect : Bool → Bool → Buffered → List Action
handle_connect dialled written b =
    if not dialled
    then reply host_unreachable unspecified true ∷ close_write_client ∷ close_client ∷ []
    else if not written
    then open_outbound ∷ reply succeeded unspecified false ∷ close_outbound ∷ close_client ∷ []
    else open_outbound ∷ reply succeeded unspecified true ∷ copy_of b
      ++ (if copied b
          then tunnel ∷ close_write_outbound ∷ close_outbound ∷ close_write_client ∷ close_client
            ∷ []
          else close_outbound ∷ close_client ∷ [])

-- What the accept of a bound listener comes to: a connection, an error, or the end of the server's
-- lifetime, with whether a connection was accepted all the same.
pub data Accepted : Type 0 where
  connection : AddrPort → Accepted
  accept_failed : Accepted
  ended : Bool → Accepted

abbrev pub late : Bool → List Action
late true = open_outbound ∷ close_outbound ∷ []
late false = []

-- `handleBind` from the accept on; the second reply and the copy may fail.
abbrev pub bound : Bool → Buffered → Accepted → List Action
bound written b (ended arrived) = close_listener ∷ late arrived ++ close_client ∷ []
bound written b accept_failed =
    reply general_failure unspecified true ∷ close_client ∷ close_listener ∷ []
bound written b (connection remote) =
    if not written
    then open_outbound
      ∷ reply succeeded (socket remote) false
      ∷ close_client
      ∷ close_outbound
      ∷ close_listener
      ∷ []
    else open_outbound ∷ reply succeeded (socket remote) true ∷ copy_of b
      ++ (if copied b
          then tunnel ∷ close_write_client ∷ close_write_outbound ∷ close_client ∷ close_outbound
            ∷ close_listener ∷ []
          else close_client ∷ close_outbound ∷ close_listener ∷ [])

-- `handleBind`: the address to listen on, none where there is none, and the address of the
-- listener, none where listening fails.
unfoldable pub handle_bind :
    Option AddrPort → Option AddrPort → Bool → Accepted → Bool → Buffered → List Action
handle_bind none listening first accepted second b =
    reply general_failure unspecified true ∷ close_client ∷ []
handle_bind (some ip) none first accepted second b =
    reply general_failure unspecified true ∷ close_client ∷ []
handle_bind (some ip) (some at) first accepted second b =
    if not first
    then open_listener ∷ reply succeeded (socket at) false ∷ close_client ∷ close_listener ∷ []
    else open_listener ∷ reply succeeded (socket at) true ∷ bound second b accepted

-- The authorized sender of a UDP association: the address of the request, if it has a specified one,
-- and the peer of the control connection otherwise.
abbrev peer_or_any : Option Addr → Addr
peer_or_any none = v4 0
peer_or_any (some ip) = ip

unfoldable pub source_ip : Address → Option Addr → Addr
source_ip (socket ap) peer = if not (is_unspecified ap.addr) then ap.addr else peer_or_any peer
source_ip (domain name port) peer = peer_or_any peer

-- The outbound sockets of an association: none where they cannot be opened, and whether there is a
-- fallback.
abbrev pub outbound_opened : Bool → List Action
outbound_opened fallback = open_outbound ∷ (if fallback then open_outbound ∷ [] else [])

abbrev pub outbound_closed : Bool → List Action
outbound_closed fallback = close_outbound ∷ (if fallback then close_outbound ∷ [] else [])

-- `handleUDP` around the relay: whether the association begins, the address of the inbound socket,
-- whether the reply can be written, and the outbound sockets.
unfoldable pub handle_udp : Bool → Option AddrPort → Bool → Option Bool → List Action
handle_udp false inbound written outbound = reply connection_not_allowed unspecified true ∷ []
handle_udp true none written outbound = reply general_failure unspecified true ∷ close_client ∷ []
handle_udp true (some at) false outbound =
    open_inbound ∷ reply succeeded (socket at) false ∷ close_inbound ∷ close_client ∷ []
handle_udp true (some at) true none =
    open_inbound ∷ reply succeeded (socket at) true ∷ close_inbound ∷ close_client ∷ []
handle_udp true (some at) true (some fallback) =
    open_inbound ∷ reply succeeded (socket at) true ∷ outbound_opened fallback
    ++ (tunnel ∷ close_client ∷ close_inbound ∷ outbound_closed fallback)
