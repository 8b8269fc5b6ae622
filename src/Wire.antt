-- ===== src/Wire.antt =====
-- Byte streams as the protocol code sees them (internal/server/socks/proto/proto.go): reads that
-- take exactly the bytes asked for, writes that may fail, and the errors of the whole protocol.
pub mod Reads
use outway.Base.{ℕ, List, [], ◌∷◌, ◌++◌, Option, none, some}
use outway.Base.{length, take, drop, leb, ◌==◌, if◌then◌else◌, be_value}

pub data Error : Type 0 where
  eof unexpected_eof : Error
  transport : ℕ → Error
  unsupported_address_type : ℕ → Error
  domain_too_long : ℕ → Error
  unsupported_version : ℕ → Error
  unsupported_command : ℕ → Error
  unsupported_reply : ℕ → Error
  unsupported_subnegotiation : ℕ → Error
  invalid_status : ℕ → Error
  incorrect_credentials : Error
  no_acceptable_methods : Error

pub data Result {ℓ} (A : Type ℓ) : Type ℓ where
  ok : A → Result A
  err : Error → Result A

-- One end of a connection: the bytes that still arrive, the error that reads give after them
-- (io.EOF at an orderly close), the writes made so far, and the outcomes of the writes to come
-- (all succeed past the end of the list).
pub record Conn : Type 0 where
  pub pending : List ℕ
  pub final : Error
  pub sent : List (List ℕ)
  pub failures : List (Option Error)

abbrev pub M {ℓ} : Type ℓ → Type ℓ
M A = Conn → Result A × Conn

abbrev pub continue_with {ℓ κ} :
    {A : Type ℓ} {B : Type κ} → Result A × Conn → (A → M B) → Result B × Conn
continue_with (ok a, c) f = f a c
continue_with (err e, c) f = (err e, c)

infixl 5 ◌>>=◌ ◌>>◌
abbrev pub ◌>>=◌ {ℓ κ} : {A : Type ℓ} {B : Type κ} → M A → (A → M B) → M B
◌>>=◌ m f c = continue_with (m c) f

abbrev pub ◌>>◌ {ℓ} : {B : Type ℓ} → M (Unit {0}) → M B → M B
m >> k = m >>= λ _. k

abbrev pub return {ℓ} : {A : Type ℓ} → A → M A
return a c = (ok a, c)

abbrev pub fail {ℓ} : {A : Type ℓ} → Error → M A
fail e c = (err e, c)

-- `err` of a pure function, passed on.
abbrev pub lift {ℓ} : {A : Type ℓ} → Result A → M A
lift r c = (r, c)

-- What `io.ReadFull` gives when the stream ends early: the stream's own error if not a byte came
-- or it is no io.EOF, and io.ErrUnexpectedEOF otherwise.
unfoldable pub short_read : List ℕ → Error → Error
short_read [] e = e
short_read (b ∷ bs) eof = unexpected_eof
short_read (b ∷ bs) e = e

-- `readFull` for a buffer of `n` bytes: the bytes read.
unfoldable pub read_full : ℕ → M (List ℕ)
unfolding short_read
read_full n c =
    if leb n (length c.pending)
    then (ok (take n c.pending), record c { pending = drop n c.pending })
    else (err (short_read c.pending c.final), record c { pending = [] })

-- The first byte of a buffer.
abbrev pub first_byte : List ℕ → ℕ
first_byte [] = 0
first_byte (b ∷ bs) = b

unfoldable pub read_u8 : M ℕ
unfolding read_full
read_u8 = do bs ← read_full 1; return (first_byte bs)

unfoldable pub read_u16 : M ℕ
unfolding read_full
read_u16 = do bs ← read_full 2; return (be_value bs)

-- `w.Write(b)`. What a failed write may have sent is not recorded.
unfoldable pub write_all : List ℕ → M (Unit {0})
write_all b c = elim c.failures [
  | [] ↦ (ok tt, record c { sent = c.sent ++ b ∷ [] })
  | none ∷ fs ↦ (ok tt, record c { sent = c.sent ++ b ∷ []; failures = fs })
  | some e ∷ fs ↦ (err e, record c { failures = fs })
]

abbrev pub version5 : ℕ
version5 = 5

unfoldable pub check_version : ℕ → Result (Unit {0})
check_version v = if v == version5 then ok tt else err (unsupported_version v)
