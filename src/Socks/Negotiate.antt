-- ===== src/Socks/Negotiate.antt =====
-- internal/server/socks/server.go: what `handle` reads of a connection before it carries out a
-- command. The deadlines are left out.
pub mod Laws
use outway.Base.{ℕ}
use outway.Wire.{M, ◌>>=◌, return}
use outway.Ext.{Extension}
use outway.Proto.Message.{Request, read_request}
use outway.Socks.Auth.{AuthAdaptor, authenticate}

-- The request, and the extension that its command is carried out with.
unfoldable pub negotiate : ℕ → AuthAdaptor → M (Request × Extension)
unfolding authenticate read_request
negotiate now auth = do
  extension ← authenticate now auth
  req ← read_request
  return (req, extension)
