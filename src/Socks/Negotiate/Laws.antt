-- ===== src/Socks/Negotiate/Laws.antt =====
-- A client that sends its whole negotiation at once is understood.
use outway.Base.{ℕ, ◌≤◌, ◌≡◌, ◌∙◌, refl, List, [], ◌∷◌, ◌++◌, true, length}
use outway.Wire.{Conn, ok}
use outway.Wire.Reads.{at, wrote}
use outway.Ext.{try_from}
use outway.Handshake.{UsernamePassword, credentials_bytes, evaluate_method}
use outway.Proto.Address.{IsWire}
use outway.Proto.Address.RoundTrip.{wire}
use outway.Proto.Message.{Request, command_byte}
use outway.Proto.Message.RoundTrip.{read_request-marshal_request_to}
use outway.Socks.Auth.{password_auth, accepts, authenticate}
use outway.Socks.Auth.Branches.{authenticate-password}
use outway.Socks.Negotiate.{negotiate}

-- A client that offers method 2, sends accepted credentials and then a request, all without waiting
-- for the answers: the server answers 2 and then status 0, reads exactly that request with the
-- extension of the username, and leaves what follows for the data of the command.
pub negotiate-password :
    (c : Conn) (now : ℕ) (u p methods : List ℕ) (up : UsernamePassword) (req : Request)
    (rest : List ℕ)
    → c.failures ≡ []
    → length up.username ≤ 255
    → length up.password ≤ 255
    → IsWire req.address
    → evaluate_method methods 2 ≡ true
    → accepts u p up ≡ true
    → let request = 5 ∷ command_byte req.command ∷ 0 ∷ wire req.address ++ rest in
      negotiate now
        (password_auth u p)
        (at c (5 ∷ length methods ∷ methods ++ (credentials_bytes up ++ request)))
      ≡ (ok (req, try_from now u up.username), wrote (wrote (at c rest) (5 ∷ 2 ∷ [])) (1 ∷ 0 ∷ []))
unfolding negotiate
negotiate-password c now u p methods up req rest f hu hp h offered good =
    let request = 5 ∷ command_byte req.command ∷ 0 ∷ wire req.address ++ rest in
    let first : authenticate now (password_auth u p)
          (at c (5 ∷ length methods ∷ methods ++ (credentials_bytes up ++ request)))
        ≡ (
          ok (try_from now u up.username),
          wrote (wrote (at c request) (5 ∷ 2 ∷ [])) (1 ∷ 0 ∷ []),
        ) =
      authenticate-password c f now u p methods up request hu hp ∙ rw (offered, good) refl in
    let sent = wrote (wrote c (5 ∷ 2 ∷ [])) (1 ∷ 0 ∷ []) in
    let second = (read_request-marshal_request_to sent req rest h f).1 in rw first (rw second refl)
