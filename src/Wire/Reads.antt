-- ===== src/Wire/Reads.antt =====
-- What a read gives on a connection whose pending bytes are known.
use outway.Base.{ℕ, ◌≤◌, ◌<◌, ◌≡◌, refl, arith, List, [], ◌∷◌, ◌++◌}
use outway.Base.{
  length, take, drop, le→leb, leb-false, take_of_append, drop_of_append, length-append,
}
use outway.Wire.{Conn, ok, err, read_full, read_u8, short_read, write_all}

-- The connection `c` with other bytes still to come.
abbrev pub at : Conn → List ℕ → Conn
at c buf = record c { pending = buf }

-- The connection after a successful write.
abbrev pub wrote : Conn → List ℕ → Conn
wrote c b = record c { sent = c.sent ++ b ∷ [] }

pub read_full-at :
    (n : ℕ) (c : Conn) (buf : List ℕ)
    → n ≤ length buf
    → read_full n (at c buf) ≡ (ok (take n buf), at c (drop n buf))
unfolding read_full
read_full-at n c buf h = rw (le→leb n (length buf) h)

pub read_full_short :
    (n : ℕ) (c : Conn) (buf : List ℕ)
    → length buf < n
    → read_full n (at c buf) ≡ (err (short_read buf c.final), at c [])
unfolding read_full
read_full_short n c buf h = rw (leb-false n (length buf) h)

pub read_full-append :
    (c : Conn) (xs rest : List ℕ) {n : ℕ}
    → length xs ≡ n
    → read_full n (at c (xs ++ rest)) ≡ (ok xs, at c rest)
read_full-append c xs rest {n} e =
    rw (read_full-at n c (xs ++ rest) (omega (arith, length-append xs rest)))
      (rw (take_of_append xs rest e, drop_of_append xs rest e))

pub read_u8-cons :
    (c : Conn) (b : ℕ) (rest : List ℕ) → read_u8 (at c (b ∷ rest)) ≡ (ok b, at c rest)
unfolding read_u8
read_u8-cons c b rest = rw (read_full-append c (b ∷ []) rest refl)

pub read_u8-nil : (c : Conn) → read_u8 (at c []) ≡ (err c.final, at c [])
unfolding read_u8 read_full
read_u8-nil c = refl

-- With no failure to come, a write succeeds.
pub write_all-wrote : (b : List ℕ) (c : Conn) → c.failures ≡ [] → write_all b c ≡ (ok tt, wrote c b)
unfolding write_all
write_all-wrote b c h = ground arith
