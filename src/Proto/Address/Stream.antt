-- ===== src/Proto/Address/Stream.antt =====
-- `ReadAddress` against `ParseAddress`: the reader and the slice parser agree.
use outway.Base.{
  ℕ, suc, ◌+◌, ◌≡◌, ◌≢◌, ◌==◌, if◌then◌else◌, false, refl, sym, ap, arith, List, [], ◌∷◌, length,
  drop,
}
use outway.Base.{inl, inr, ◌⊎◌, ==_cases, ltb_cases, take-take_add, drop-take_add}
use outway.Wire.{Conn, Result, ok, err, Error, unexpected_eof, short_read}
use outway.Wire.Reads.{at, read_full-at, read_full_short, read_u8-cons, read_u8-nil}
use outway.Proto.Address.{
  Address, addr_ipv4, addr_ipv6, addr_domain, read_address, read_body, read_ipv4, read_ipv6,
  read_domain, parse_address, parse_ipv4, parse_ipv6, parse_domain,
}

-- The error of a read that meets the end of the stream, which ends with `final`, in a buffer too
-- short for an address: that of the read of the type, of the length of a domain, or of what follows,
-- for which the bytes left are too few.
abbrev pub short_error : List ℕ → Error → Error
short_error [] final = final
short_error (t ∷ []) final = final
short_error (t ∷ n ∷ body) final =
    if t == addr_domain then short_read body final else short_read (n ∷ body) final

-- The outcome of a reader on `c` with `buf` pending, against that of the parser on `buf`: the
-- same address, with the bytes consumed gone; or both fail, with the same error unless the
-- buffer is too short, where the reader has the error of the short read.
abbrev pub Agrees : Conn → List ℕ → Result Address × Conn → Result (Address × ℕ) → Type 0
Agrees c buf read (ok (a, n)) = read ≡ (ok a, at c (drop n buf))
Agrees c buf read (err e) =
    ((e ≡ unexpected_eof) × (read.0 ≡ err (short_error buf c.final)))
    ⊎ ((e ≢ unexpected_eof) × (read.0 ≡ err e))

-- Behind the type of an address of fixed size the rest is read at once.
short_error_fixed :
    (t : ℕ) (body : List ℕ) (final : Error)
    → (t == addr_domain) ≡ false
    → short_error (t ∷ body) final ≡ short_read body final
unfolding short_read
short_error_fixed t [] final e = refl
short_error_fixed t (n ∷ body) final e = rw e refl

read_ipv4-Agrees :
    (c : Conn) (body : List ℕ)
    → Agrees c (addr_ipv4 ∷ body) (read_ipv4 (at c body)) (parse_ipv4 body)
unfolding read_ipv4 parse_ipv4
read_ipv4-Agrees c body = elim (ltb_cases (1 + length body) 7) [
  | inl (e, h) ↦ rw e (
      rw (read_full_short 6 c body (omega arith))
        (inl (refl, ap err (sym (short_error_fixed addr_ipv4 body c.final refl)))))
  | inr (e, h) ↦ rw e (
      rw (read_full-at 6 c body (omega arith))
        (rw (take-take_add 4 2 body, drop-take_add 4 2 body)))
]

read_ipv6-Agrees :
    (c : Conn) (body : List ℕ)
    → Agrees c (addr_ipv6 ∷ body) (read_ipv6 (at c body)) (parse_ipv6 body)
unfolding read_ipv6 parse_ipv6
read_ipv6-Agrees c body = elim (ltb_cases (1 + length body) 19) [
  | inl (e, h) ↦ rw e (
      rw (read_full_short 18 c body (omega arith))
        (inl (refl, ap err (sym (short_error_fixed addr_ipv6 body c.final refl)))))
  | inr (e, h) ↦ rw e (
      rw (read_full-at 18 c body (omega arith))
        (rw (take-take_add 16 2 body, drop-take_add 16 2 body)))
]

read_domain-Agrees :
    (c : Conn) (body : List ℕ)
    → Agrees c (addr_domain ∷ body) (read_domain (at c body)) (parse_domain body)
unfolding read_domain parse_domain
read_domain-Agrees c [] = rw read_u8-nil (inl (refl, refl))
read_domain-Agrees c (n ∷ body) = elim (ltb_cases (2 + length body) (2 + n + 2)) [
  | inl (e, h) ↦
      rw (e, read_u8-cons) (rw (read_full_short (n + 2) c body (omega arith)) (inl (refl, refl)))
  | inr (e, h) ↦
      let steps : 2 + n + 2 ≡ suc (suc (n + 2)) = omega arith in
      rw (e, read_u8-cons)
        (rw (read_full-at (n + 2) c body (omega arith))
          (rw (take-take_add n 2 body, drop-take_add n 2 body, steps)))
]

read_body-Agrees :
    (c : Conn) (t : ℕ) (body : List ℕ)
    → Agrees c (t ∷ body) (read_body t (at c body)) (parse_address (t ∷ body))
unfolding read_body parse_address
read_body-Agrees c t body = elim (==_cases t addr_ipv4) [
  | inl (e, p) ↦ rw e (rw p (read_ipv4-Agrees c body))
  | inr (e, _) ↦ rw e (elim (==_cases t addr_ipv6) [
    | inl (e6, p) ↦ rw e6 (rw p (read_ipv6-Agrees c body))
    | inr (e6, _) ↦ rw e6 (elim (==_cases t addr_domain) [
      | inl (ed, p) ↦ rw ed (rw p (read_domain-Agrees c body))
      | inr (ed, _) ↦ rw ed (inr ((λ p. cc p), refl))
    ])
  ])
]

-- `ReadAddress` and `ParseAddress` agree on every input: the same address, leaving on the stream
-- what the parser did not consume; or both fail, with the same error unless the parser ran out of
-- buffer. Then the error of the reader is that of its last read: how the stream ends, or, where that
-- is io.EOF and some but not all bytes of that read are there, io.ErrUnexpectedEOF.
pub read_address-parse_address :
    (c : Conn) (buf : List ℕ) → Agrees c buf (read_address (at c buf)) (parse_address buf)
unfolding read_address parse_address
read_address-parse_address c [] = rw read_u8-nil (inl (refl, refl))
read_address-parse_address c (t ∷ body) = rw read_u8-cons (read_body-Agrees c t body)
