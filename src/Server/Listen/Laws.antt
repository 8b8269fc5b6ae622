-- ===== src/Server/Listen/Laws.antt =====
-- A server has all its listeners or keeps none.
use outway.Base.{
  ℕ, zero, suc, ◌+◌, ◌-◌, ◌≤◌, ◌<◌, ◌⊎◌, ◌≡◌, refl, sym, ap, arith, List, [], ◌∷◌, ◌++◌, length,
  length-append, Option, none, some, Option-cases,
}
use outway.Base.{Bool, true, false, inl, inr, ltb, ◌&&◌, if◌then◌else◌}
use outway.Server.Listen.{
  accept_shards, Listener, Listen, Opened, listen_rest, listen_first, open_rest, listen_tcp_shards,
}

-- The number of accept loops is between one and sixteen, one without SO_REUSEPORT, and never more
-- than the processors where there is one.
pub accept_shards-le :
    (procs : ℕ) (supported reuse_port : Bool)
    → let n = accept_shards procs supported reuse_port in
      (1 ≤ n) × (n ≤ 16) × ((procs ≡ 0) ⊎ (n ≤ procs)) × ((reuse_port ≡ true) ⊎ (n ≡ 1))
unfolding accept_shards
accept_shards-le procs true true = ground arith
accept_shards-le procs true false = ground arith
accept_shards-le procs false true = ground arith
accept_shards-le procs false false = ground arith

-- The sockets that the system opens in the next `n` attempts, up to the first that fails.
unfoldable pub opened_from : Listen → ℕ → ℕ → Listener → List Listener
opened_from listen attempt zero first = []
opened_from listen attempt (suc n) first = elim (listen attempt true first.network first.addr) [
  | none ↦ []
  | some ln ↦ ln ∷ opened_from listen (suc attempt) n first
]

-- The first socket and, for a sharded server, those that the system opens after it.
unfoldable pub opened : Listen → Bool → ℕ → Listener → List Listener
unfolding opened_from
opened listen true shards first = first ∷ opened_from listen 2 (shards - 1) first
opened listen false shards first = first ∷ []

-- All or nothing, for `n` listeners wanted of which those of the list were opened.
abbrev pub Complete : ℕ → List Listener → List Listener → Option (List Listener) → Type 0
Complete n all closed none = (closed ≡ all) × (length all < n)
Complete n all closed (some ls) = (ls ≡ all) × (length all ≡ n) × (closed ≡ [])

abbrev pub AllOrNothing : ℕ → List Listener → Opened → Type 0
AllOrNothing n all o = Complete n all o.closed o.listeners

append_nil : (xs : List Listener) → xs ++ [] ≡ xs
append_nil [] = refl
append_nil (x ∷ xs) = ap (◌∷◌ x) (append_nil xs)

append_one : (xs ys : List Listener) (y : Listener) → (xs ++ y ∷ []) ++ ys ≡ xs ++ y ∷ ys
append_one [] ys y = refl
append_one (x ∷ xs) ys y = ap (◌∷◌ x) (append_one xs ys y)

listen_rest_lem :
    (listen : Listen) (attempt n : ℕ) (first : Listener) (acc : List Listener)
    → AllOrNothing
        (length acc + n)
        (acc ++ opened_from listen attempt n first)
        (listen_rest listen attempt n first acc)
unfolding listen_rest opened_from
listen_rest_lem listen attempt zero first acc = rw (append_nil acc) (refl, omega arith, refl)
listen_rest_lem listen attempt (suc n) first acc =
    elim (Option-cases (listen attempt true first.network first.addr)) [
      | inl e ↦
          let none_more : acc ++ opened_from listen attempt (suc n) first ≡ acc =
            rw (e, opened_from) (append_nil acc) in
          rw (none_more) (rw (e, listen_rest) (refl, omega arith))
      | inr (ln, e) ↦
          let longer : length (acc ++ ln ∷ []) + n ≡ length acc + suc n =
            omega (arith, length-append acc (ln ∷ [])) in
          let one_more : acc ++ opened_from listen attempt (suc n) first
              ≡ (acc ++ ln ∷ []) ++ opened_from listen (suc attempt) n first =
            rw (e, opened_from)
              (sym (append_one acc (opened_from listen (suc attempt) n first) ln)) in
          rw (one_more) (
            rw (e, listen_rest)
              (rw (← longer) (listen_rest_lem listen (suc attempt) n first (acc ++ ln ∷ []))))
    ]

-- Once the first socket is open, opening the shards gives either all the listeners wanted, as many
-- as the shards or one where the server is not sharded: the first and then what the system opened
-- after it, in that order, with no socket closed. Or it gives none, the system having opened fewer
-- than were wanted, and closes every socket that was opened.
pub listen_tcp_shards-AllOrNothing :
    (listen : Listen) (supported : Bool) (network addr : List ℕ) (shards : ℕ) (first : Listener)
    → listen_first listen (ltb 1 shards && supported) network addr ≡ some first
    → AllOrNothing
        (if ltb 1 shards && supported then shards else 1)
        (opened listen (ltb 1 shards && supported) shards first)
        (listen_tcp_shards listen supported network addr shards)
unfolding listen_tcp_shards open_rest opened
listen_tcp_shards-AllOrNothing listen supported network addr shards first h =
    rw h (by_sharding (ltb 1 shards && supported) refl)
  where
    resized :
        {a b : ℕ} (all : List Listener) (o : Opened)
        → a ≡ b
        → AllOrNothing a all o
        → AllOrNothing b all o
    resized all o p v = rw (← p) v

    by_sharding :
        (sharded : Bool)
        → (ltb 1 shards && supported) ≡ sharded
        → AllOrNothing
            (if sharded then shards else 1)
            (opened listen sharded shards first)
            (open_rest listen sharded shards (some first))
    by_sharding true e =
        let many : 1 < shards = ground arith in
        resized _ _ (omega (arith, many)) (listen_rest_lem listen 2 (shards - 1) first (first ∷ []))
    by_sharding false e = (refl, refl, refl)
