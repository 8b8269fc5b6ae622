-- ===== src/Socks/Auth/Branches.antt =====
-- Every outcome of authentication against a client that sends well-formed messages.
use outway.Base.{ℕ, ◌≤◌, ◌≡◌, List, [], ◌∷◌, ◌++◌, length, Bool-cases, inl, inr, if◌then◌else◌}
use outway.Wire.{Conn, ok, err, incorrect_credentials, no_acceptable_methods}
use outway.Wire.Reads.{at, wrote, write_all-wrote}
use outway.Handshake.{
  UsernamePassword, credentials_bytes, evaluate_method, marshal_method_to, marshal_status_to,
}
use outway.Handshake.RoundTrip.{read_methods-offer, read_credentials-marshal}
use outway.Ext.{try_from}
use outway.Socks.Auth.{password_auth, accepts, execute_password, authenticate}

module _ (c : Conn) (f : c.failures ≡ []) where
  -- With a password configured, the outcome is decided by two tests alone. If the client did
  -- not offer method 2, it is told 255 and refused; else it is told 2, and its credentials, a
  -- username that begins with the configured one and the very password, are answered with
  -- status 0 and give the username's extension, any other with status 255 and the error.
  pub authenticate-password :
      (now : ℕ) (u p : List ℕ) (methods : List ℕ) (up : UsernamePassword) (rest : List ℕ)
      → length up.username ≤ 255
      → length up.password ≤ 255
      → authenticate now
          (password_auth u p)
          (at c (5 ∷ length methods ∷ methods ++ (credentials_bytes up ++ rest)))
        ≡ (if evaluate_method methods 2
            then (if accepts u p up
                then (
                  ok (try_from now u up.username),
                  wrote (wrote (at c rest) (5 ∷ 2 ∷ [])) (1 ∷ 0 ∷ []),
                )
                else (
                  err incorrect_credentials,
                  wrote (wrote (at c rest) (5 ∷ 2 ∷ [])) (1 ∷ 255 ∷ []),
                ))
            else (
              err no_acceptable_methods,
              wrote (at c (credentials_bytes up ++ rest)) (5 ∷ 255 ∷ []),
            ))
  unfolding authenticate execute_password marshal_method_to marshal_status_to
  authenticate-password now u p methods up rest hu hp =
      rw (read_methods-offer c methods (credentials_bytes up ++ rest))
        (elim (Bool-cases (evaluate_method methods 2)) [
          | inr none_offered ↦
              rw none_offered
                (rw (write_all-wrote (5 ∷ 255 ∷ []) (at c (credentials_bytes up ++ rest)) f))
          | inl offered ↦
              let sent = wrote c (5 ∷ 2 ∷ []) in
              rw offered (
                rw (write_all-wrote (5 ∷ 2 ∷ []) (at c (credentials_bytes up ++ rest)) f) (
                  rw ((read_credentials-marshal sent up rest hu hp f).1)
                    (elim (Bool-cases (accepts u p up)) [
                      | inl good ↦ rw good (rw (write_all-wrote (1 ∷ 0 ∷ []) (at sent rest) f))
                      | inr bad ↦ rw bad (rw (write_all-wrote (1 ∷ 255 ∷ []) (at sent rest) f))
                    ])))
        ])
