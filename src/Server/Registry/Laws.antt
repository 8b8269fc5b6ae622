-- ===== src/Server/Registry/Laws.antt =====
-- What the set of connections promises to the servers.
use outway.Base.{
  ℕ, zero, suc, ◌/◌, ◌<◌, ◌⊎◌, ◌≡◌, ◌≢◌, refl, ap, sym, ◌∙◌, arith, List, [], ◌∷◌, ◌++◌,
}
use outway.Base.{
  Bool, true, false, Bool-cases, ==_cases, ==_false, inl, inr, length, length-set, set, ◌||◌, ◌==◌,
}
use outway.Server.Registry.{
  Shard, ConnectionSet, shard_for, lifetime_for, member, remove, shard_at, add_to, add,
  close_shards, CloseOutcome, close_all,
}

-- Every connection has one of the 32 lock shards and one of the eight lifetimes, and those that
-- share a lock share the lifetime.
pub shard_for-lt :
    (conn : ℕ)
    → (shard_for conn < 32) × (lifetime_for conn < 8) × (lifetime_for conn ≡ shard_for conn / 4)
unfolding shard_for lifetime_for
shard_for-lt conn = omega arith

-- The set has its 32 shards, and a closed shard is empty: `CloseAll` has taken its map.
abbrev pub IsConnectionSet : ConnectionSet → Type 0
IsConnectionSet s = length s.shards ≡ 32

shard_at-set : (ss : List Shard) (i : ℕ) (s : Shard) → i < length ss → shard_at (set ss i s) i ≡ s
shard_at-set [] i s h = ground arith
shard_at-set (r ∷ ss) zero s h = refl
shard_at-set (r ∷ ss) (suc i) s h = shard_at-set ss i s (omega arith)

shard_at-set_other :
    (ss : List Shard) (i j : ℕ) (s : Shard) → i ≢ j → shard_at (set ss i s) j ≡ shard_at ss j
shard_at-set_other [] i j s h = refl
shard_at-set_other (r ∷ ss) zero zero s h = ground arith
shard_at-set_other (r ∷ ss) zero (suc j) s h = refl
shard_at-set_other (r ∷ ss) (suc i) zero s h = refl
shard_at-set_other (r ∷ ss) (suc i) (suc j) s h = shard_at-set_other ss i j s (omega arith)

-- Whether a connection is registered.
abbrev pub tracked : ℕ → ConnectionSet → Bool
tracked conn s = member conn ((shard_at s.shards (shard_for conn)).conns)

shard_closed :
    (ss : List Shard) (i : ℕ)
    → i < length ss
    → shard_at ((close_shards ss).0) i ≡ record { closed = true; conns = [] }
unfolding close_shards
shard_closed [] i h = ground arith
shard_closed (s ∷ ss) zero h = refl
shard_closed (s ∷ ss) (suc i) h = shard_closed ss i (omega arith)

length-close_shards : (ss : List Shard) → length ((close_shards ss).0) ≡ length ss
unfolding close_shards
length-close_shards [] = refl
length-close_shards (s ∷ ss) = omega (arith, length-close_shards ss)

member-append : (c : ℕ) (xs ys : List ℕ) → member c (xs ++ ys) ≡ (member c xs || member c ys)
unfolding member
member-append c [] ys = refl
member-append c (x ∷ xs) ys = elim (==_cases x c) [
  | inl (e, _) ↦ rw e refl
  | inr (e, _) ↦ rw e (member-append c xs ys)
]

member_closed :
    (c : ℕ) (ss : List Shard) (i : ℕ)
    → member c ((shard_at ss i).conns) ≡ true
    → member c ((close_shards ss).1) ≡ true
unfolding close_shards member
member_closed c [] i h = ground arith
member_closed c (s ∷ ss) zero h = rw (member-append c s.conns ((close_shards ss).1)) (rw h refl)
member_closed c (s ∷ ss) (suc i) h =
    let rest = member_closed c ss i h in
    rw (member-append c s.conns ((close_shards ss).1))
      (elim (Bool-cases (member c s.conns)) [ inl e ↦ rw e refl | inr e ↦ rw e rest ])

-- `CloseAll` closes every registered connection, and after it none is registered and none is
-- accepted any more.
pub close_all_lem :
    (close : ℕ → CloseOutcome) (s : ConnectionSet) (conn : ℕ)
    → IsConnectionSet s
    → let r = close_all close s in
      ((tracked conn s ≡ false) ⊎ (member conn (r.1) ≡ true))
      × (tracked conn (r.2) ≡ false)
      × (add conn (r.2)).0 ≡ false
unfolding close_all add add_to member
close_all_lem close s conn size =
    let inside : shard_for conn < length s.shards = omega (arith, shard_for-lt conn, size) in
    let gone = shard_closed s.shards (shard_for conn) inside in
    (
      elim (Bool-cases (tracked conn s)) [
        | inr e ↦ inl e
        | inl e ↦ inr (member_closed conn s.shards (shard_for conn) e)
      ],
      ap (λ (t : Shard). member conn t.conns) gone,
      ap (λ (t : Shard). (add_to conn t).0) gone,
    )

member-remove_other : (c d : ℕ) (xs : List ℕ) → d ≢ c → member d (remove c xs) ≡ member d xs
unfolding member remove
member-remove_other c d [] h = refl
member-remove_other c d (x ∷ xs) h = elim (==_cases x c) [
  | inl (e, p) ↦ elim (==_cases x d) [ inl (f, q) ↦ ground arith | inr (f, q) ↦ rw (e, f) refl ]
  | inr (e, p) ↦ rw e (elim (==_cases x d) [
    | inl (f, q) ↦ rw f refl
    | inr (f, q) ↦ rw f (member-remove_other c d xs h)
  ])
]

member-add_to :
    (conn other : ℕ) (t : Shard)
    → t.closed ≡ false
    → member other (((add_to conn t).1).conns) ≡ (conn == other || member other t.conns)
unfolding add_to member
member-add_to conn other t open_shard = elim (Bool-cases (member conn t.conns)) [
  | inr e ↦
      rw (open_shard, e, add_to)
        (elim (Bool-cases (conn == other)) [ inl f ↦ rw f refl | inr f ↦ rw f refl ])
  | inl e ↦
      rw (open_shard, e, add_to)
        (elim (==_cases conn other) [ inl (f, q) ↦ rw f (rw (← q) e) | inr (f, _) ↦ rw f refl ])
]

-- Registering a connection while its shard is open succeeds and registers it, and registers no
-- other and forgets none.
pub add_lem :
    (conn other : ℕ) (s : ConnectionSet)
    → IsConnectionSet s
    → (shard_at s.shards (shard_for conn)).closed ≡ false
    → let r = add conn s in
      (r.0 ≡ true)
      × (tracked other (r.1) ≡ (conn == other || tracked other s))
      × IsConnectionSet (r.1)
unfolding add add_to member
add_lem conn other s size open_shard =
    let i = shard_for conn in
    let inside : shard_for conn < length s.shards = omega (arith, shard_for-lt conn, size) in
    let next = (add_to conn (shard_at s.shards i)).1 in
    let same = shard_at-set s.shards i next inside in
    (
      rw (open_shard, add_to) refl,
      elim (==_cases i (shard_for other)) [
        | inl (_, p) ↦
            ap (λ (j : ℕ). member other ((shard_at (set s.shards i next) j).conns)) (sym p)
            ∙ ap (λ (t : Shard). member other t.conns) same
            ∙ member-add_to conn other (shard_at s.shards i) open_shard
            ∙ ap (λ (j : ℕ). conn == other || member other ((shard_at s.shards j).conns)) p
        | inr (_, p) ↦
            let apart : (conn == other) ≡ false = ==_false conn other (λ q. p (ap shard_for q)) in
            rw (shard_at-set_other s.shards i (shard_for other) next p, apart) refl
      ],
      length-set s.shards i next ∙ size,
    )
