-- ===== src/Socks/Runtime/Order.antt =====
-- The queues of the workers, seen as one queue for each association.
use outway.Base.{
  ℕ, zero, suc, ◌%◌, ◌<◌, ◌≡◌, ◌≢◌, refl, sym, ap, ◌∙◌, arith, List, [], ◌∷◌, ◌++◌, Option, none,
  some, Bool, true, false, ◌==◌, if◌then◌else◌, length, set, length-set, All, Bool-cases, ltb_cases,
  ==_cases, ==_false, inl, inr,
}
use mathlib.Core.Path.{subst}
use outway.Socks.Runtime.Shards.{queue_at-inside}
use outway.Socks.Runtime.{
  size_of, Runtime, Job, Queue, queue_at, new_queues, start_dispatcher, started, enqueue,
}

-- The jobs of one association, in their order.
unfoldable pub jobs_of : ℕ → List Job → List Job
jobs_of a [] = []
jobs_of a (j ∷ js) = if j.association == a then j ∷ jobs_of a js else jobs_of a js

abbrev pub queued : ℕ → List Queue → List Job
queued a qs = jobs_of a ((queue_at qs (a % length qs)).jobs)

-- The abstract view of the runtime: for each association, the jobs that wait.
abbrev pub waiting : ℕ → Option (List Queue) → List Job
waiting a none = []
waiting a (some qs) = queued a qs

-- Every job waits in the queue of its association.
abbrev pub Placed : List Queue → Type 0
Placed qs = (i : ℕ) → All (λ j. j.association % length qs ≡ i) ((queue_at qs i).jobs)

pub append_assoc : (xs ys zs : List Job) → (xs ++ ys) ++ zs ≡ xs ++ (ys ++ zs)
append_assoc [] ys zs = refl
append_assoc (x ∷ xs) ys zs = ap (◌∷◌ x) (append_assoc xs ys zs)

pub jobs_of-append :
    (a : ℕ) (xs ys : List Job) → jobs_of a (xs ++ ys) ≡ jobs_of a xs ++ jobs_of a ys
unfolding jobs_of
jobs_of-append a [] ys = refl
jobs_of-append a (x ∷ xs) ys = elim (Bool-cases (x.association == a)) [
  | inl e ↦ rw e (ap (◌∷◌ x) (jobs_of-append a xs ys))
  | inr e ↦ rw e (jobs_of-append a xs ys)
]

All-append : (P : Job → Type 0) (xs : List Job) (j : Job) → All P xs → P j → All P (xs ++ j ∷ [])
All-append P [] j h p = (p, tt)
All-append P (x ∷ xs) j h p = (h.0, All-append P xs j (h.1) p)

queue_at-set : (qs : List Queue) (i : ℕ) (q : Queue) → i < length qs → queue_at (set qs i q) i ≡ q
queue_at-set [] i q h = absurd (omega (arith, h))
queue_at-set (p ∷ qs) zero q h = refl
queue_at-set (p ∷ qs) (suc i) q h = queue_at-set qs i q (omega (arith, h))

queue_at-set_other :
    (qs : List Queue) (i k : ℕ) (q : Queue) → k ≢ i → queue_at (set qs i q) k ≡ queue_at qs k
queue_at-set_other [] i k q h = refl
queue_at-set_other (p ∷ qs) zero zero q h = absurd (h refl)
queue_at-set_other (p ∷ qs) zero (suc k) q h = refl
queue_at-set_other (p ∷ qs) (suc i) zero q h = refl
queue_at-set_other (p ∷ qs) (suc i) (suc k) q h = queue_at-set_other qs i k q (λ e. h (ap suc e))

-- A queue put in place of one of the queues.
module _ (qs : List Queue) (i : ℕ) (q : Queue) (inside : i < length qs) where
  Placed-set : Placed qs → All (λ j. j.association % length qs ≡ i) q.jobs → Placed (set qs i q)
  Placed-set h here k = elim (==_cases k i) [
    | inl (_, e) ↦
        subst (λ n. All (λ j. j.association % n ≡ k) ((queue_at (set qs i q) k).jobs))
          (sym (length-set qs i q))
          (subst (λ m. All (λ j. j.association % length qs ≡ m) ((queue_at (set qs i q) m).jobs))
            (sym e) (rw (queue_at-set qs i q inside) here))
    | inr (_, e) ↦
        subst (λ n. All (λ j. j.association % n ≡ k) ((queue_at (set qs i q) k).jobs))
          (sym (length-set qs i q)) (rw (queue_at-set_other qs i k q e) (h k))
  ]

  queued-set : (a : ℕ) → a % length qs ≡ i → queued a (set qs i q) ≡ jobs_of a q.jobs
  queued-set a e =
      let place : a % length (set qs i q) ≡ i = ap (λ n. a % n) (length-set qs i q) ∙ e in
      ap (λ k. jobs_of a ((queue_at (set qs i q) k).jobs)) place
      ∙ ap (λ p. jobs_of a p.jobs) (queue_at-set qs i q inside)

  queued-set_other : (a : ℕ) → a % length qs ≢ i → queued a (set qs i q) ≡ queued a qs
  queued-set_other a e =
      let place : a % length (set qs i q) ≡ a % length qs = ap (λ n. a % n) (length-set qs i q) in
      ap (λ k. jobs_of a ((queue_at (set qs i q) k).jobs)) place
      ∙ ap (λ p. jobs_of a p.jobs) (queue_at-set_other qs i (a % length qs) q e)

abbrev pub PlacedIn : Option (List Queue) → Type 0
PlacedIn none = Unit
PlacedIn (some qs) = Placed qs

pub append_nil : (xs : List Job) → xs ++ [] ≡ xs
append_nil [] = refl
append_nil (x ∷ xs) = ap (◌∷◌ x) (append_nil xs)

capacity-inside : (qs : List Queue) (i : ℕ) → 0 < (queue_at qs i).capacity → i < length qs
capacity-inside [] i h = absurd (omega (arith, h))
capacity-inside (p ∷ qs) zero h = omega arith
capacity-inside (p ∷ qs) (suc i) h = omega (arith, capacity-inside qs i h)

new_queues-jobs : (p e i n k : ℕ) → (queue_at (new_queues p e i n) k).jobs ≡ []
unfolding new_queues
new_queues-jobs p e i zero k = refl
new_queues-jobs p e i (suc n) zero = refl
new_queues-jobs p e i (suc n) (suc k) = new_queues-jobs p e (suc i) n k

start_dispatcher-jobs :
    (procs configured size k : ℕ) → (queue_at (start_dispatcher procs configured size) k).jobs ≡ []
unfolding start_dispatcher
start_dispatcher-jobs procs configured size k = new_queues-jobs _ _ _ _ k

-- The dispatcher starts with what was waiting.
started-waiting :
    (r : Runtime) (o : Option (List Queue)) (a : ℕ)
    → r.shards ≡ o
    → PlacedIn o
    → (queued a (started r) ≡ waiting a o) × Placed (started r)
unfolding started jobs_of
started-waiting r (some qs) a e h = rw (e, started) (refl, h)
started-waiting r none a e h =
    let empty = λ (k : ℕ).
      start_dispatcher-jobs r.procs (size_of r.config.send_workers)
        (size_of r.config.send_queue_size) k in
    rw (e, started) (ap (jobs_of a) (empty _), λ k. rw (empty k) tt)

abbrev pub taken_in : Bool → Job → List Job
taken_in true job = job ∷ []
taken_in false job = []

other_job : (a : ℕ) (job : Job) → job.association ≢ a → jobs_of a (job ∷ []) ≡ []
unfolding jobs_of
other_job a job h = rw (==_false job.association a h) refl

enqueue-waiting :
    (job : Job) (qs : List Queue) (r : Runtime) (a : ℕ)
    → Placed qs
    → (waiting a ((enqueue job qs r).1).shards
        ≡ queued a qs ++ jobs_of a (taken_in ((enqueue job qs r).0) job))
      × PlacedIn ((enqueue job qs r).1).shards
unfolding enqueue
enqueue-waiting job qs r a h =
    let i = job.association % length qs in
    let q = queue_at qs i in
    let longer : Queue = record q { jobs = q.jobs ++ job ∷ [] } in
    elim (ltb_cases (length q.jobs) q.capacity) [
      | inr (e, _) ↦ rw e (unfold jobs_of in sym (append_nil (queued a qs)), h)
      | inl (e, room) ↦
          let inside = capacity-inside qs i (omega (arith, room)) in
          let placed =
            Placed-set qs i longer inside h
              (All-append (λ j. j.association % length qs ≡ i) q.jobs job (h i) refl) in
          let grown : queued a (set qs i longer) ≡ queued a qs ++ jobs_of a (job ∷ []) =
            elim (==_cases (a % length qs) i) [
              | inl (_, same) ↦
                  queued-set qs i longer inside a same
                  ∙ jobs_of-append a q.jobs (job ∷ [])
                  ∙ ap (λ k. jobs_of a ((queue_at qs k).jobs) ++ jobs_of a (job ∷ [])) (sym same)
              | inr (_, other) ↦
                  let apart : job.association ≢ a = λ p. other (ap (λ k. k % length qs) (sym p)) in
                  queued-set_other qs i longer inside a other
                  ∙ sym (append_nil (queued a qs))
                  ∙ ap (λ xs. queued a qs ++ xs) (sym (other_job a job apart))
            ] in
          rw e (grown, placed)
    ]

pub send-waiting :
    (job : Job) (r : Runtime) (a : ℕ)
    → PlacedIn r.shards
    → let (queued_it, s) = enqueue job (started r) r in
      (waiting a s.shards ≡ waiting a r.shards ++ jobs_of a (taken_in queued_it job))
      × PlacedIn s.shards
send-waiting job r a h =
    let ready = started-waiting r r.shards a refl h in
    let done = enqueue-waiting job (started r) r a (ready.1) in
    (
      done.0 ∙ ap (λ xs. xs ++ jobs_of a (taken_in ((enqueue job (started r) r).0) job)) (ready.0),
      done.1,
    )

pub receive-waiting :
    (i : ℕ) (qs : List Queue) (r : Runtime) (job : Job) (rest : List Job) (a : ℕ)
    → (queue_at qs i).jobs ≡ job ∷ rest
    → Placed qs
    → let q : Queue = record (queue_at qs i) { jobs = rest } in
      (queued a qs ≡ jobs_of a (job ∷ []) ++ queued a (set qs i q)) × Placed (set qs i q)
receive-waiting i qs r job rest a e h =
    let q : Queue = record (queue_at qs i) { jobs = rest } in
    let inside = queue_at-inside qs i (omega (arith, ap length e)) in
    let here : All (λ j. j.association % length qs ≡ i) (job ∷ rest) =
      subst (All (λ j. j.association % length qs ≡ i)) e (h i) in
    let shrunk : queued a qs ≡ jobs_of a (job ∷ []) ++ queued a (set qs i q) =
      elim (==_cases (a % length qs) i) [
        | inl (_, same) ↦
            ap (λ k. jobs_of a ((queue_at qs k).jobs)) same
            ∙ ap (jobs_of a) e
            ∙ jobs_of-append a (job ∷ []) rest
            ∙ ap (λ xs. jobs_of a (job ∷ []) ++ xs) (sym (queued-set qs i q inside a same))
        | inr (_, other) ↦
            let apart : job.association ≢ a =
              λ p. other (ap (λ k. k % length qs) (sym p) ∙ here.0) in
            sym (queued-set_other qs i q inside a other)
            ∙ ap (λ xs. xs ++ queued a (set qs i q)) (sym (other_job a job apart))
      ] in
    (shrunk, Placed-set qs i q inside h (here.1))
