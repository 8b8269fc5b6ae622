-- ===== src/Handshake/RoundTrip.antt =====
-- Method selection and credentials through the wire.
use outway.Base.{ℕ, ◌+◌, ◌%◌, ◌≤◌, ◌≡◌, refl, arith, List, [], ◌∷◌, ◌++◌, map, length}
use outway.Base.{length-append, take_of_append, drop_of_append}
use mathlib.Core.List.{append_assoc}
use outway.Wire.{Conn, ok}
use outway.Wire.Reads.{at, wrote, read_u8-cons, read_full-append, write_all-wrote}
use outway.Handshake.{
  method_from_byte, read_methods, UsernamePassword, read_credentials, credentials_bytes,
  marshal_credentials_to,
}

method_from_byte_same : (b : ℕ) → method_from_byte b ≡ b
unfolding method_from_byte
method_from_byte_same b = ground arith

map_same : (xs : List ℕ) → map method_from_byte xs ≡ xs
map_same [] = refl
map_same (x ∷ xs) = rw (method_from_byte_same x, map_same xs)

-- A selection request that offers `methods` is read back as these methods.
pub read_methods-offer :
    (c : Conn) (methods rest : List ℕ)
    → read_methods (at c (5 ∷ length methods ∷ methods ++ rest)) ≡ (ok methods, at c rest)
unfolding read_methods
read_methods-offer c methods rest =
    rw read_u8-cons
      (rw read_u8-cons (rw (read_full-append c methods rest refl) (rw (map_same methods))))

-- A client's credentials of at most 255 bytes each are sent in one write and read back as they
-- were, and what follows them stays on the stream.
pub read_credentials-marshal :
    (c : Conn) (up : UsernamePassword) (rest : List ℕ)
    → length up.username ≤ 255
    → length up.password ≤ 255
    → c.failures ≡ []
    → (marshal_credentials_to up c ≡ (ok tt, wrote c (credentials_bytes up)))
      × (read_credentials (at c (credentials_bytes up ++ rest)) ≡ (ok up, at c rest))
unfolding read_credentials credentials_bytes marshal_credentials_to
read_credentials-marshal c up rest hu hp f = (
  write_all-wrote _ c f,
  rw (small up.username hu, small up.password hp)
      (rw read_u8-cons (
        rw (read_u8-cons, shape)
          (rw
            (read_full-append c (up.username ++ length up.password ∷ []) (up.password ++ rest) size)
            (rw (drop_of_append up.username (length up.password ∷ []) refl) (
              rw (read_full-append c up.password rest refl)
                (rw (take_of_append up.username (length up.password ∷ []) refl))))))),
)
  where
    small : (xs : List ℕ) → length xs ≤ 255 → length xs % 256 ≡ length xs
    small xs h = omega arith

    shape :
        (up.username ++ (length up.password ∷ up.password)) ++ rest
        ≡ (up.username ++ length up.password ∷ []) ++ (up.password ++ rest)
    shape = simp append_assoc

    size : length (up.username ++ length up.password ∷ []) ≡ length up.username + 1
    size = omega (arith, length-append up.username (length up.password ∷ []))
