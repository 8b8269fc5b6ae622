-- ===== src/Socks/Runtime/Fifo.antt =====
-- The datagrams of one association are sent in the order in which they were queued.
use outway.Base.{
  ℕ, ◌≡◌, refl, sym, ap, ◌∙◌, List, [], ◌∷◌, ◌++◌, Option, none, some, Bool, true, false, set,
  Bool-cases, inl, inr,
}
use mathlib.Core.Path.{subst}
use outway.Config.{UdpConfig}
use outway.Socks.Runtime.{
  try_acquire_batch_buffer, batch_free, new_udp_runtime, Runtime, Job, Queue, queue_at, started,
  enqueue, receive_job, run_send_job, release_buffer, count_dispatched,
}
use outway.Socks.Runtime.Steps.{
  System, new_system, Event, enter, claim, count_drop, recheck, back_out, count_active, count_total,
  number, leave, count_left, acquire_batch, release_batch, test_lifetime, send, count_queued,
  count_refused, receive, count_received, work, shut_down, when, job_at, send_job, taken_by,
  receive_from, count_taken, finish_job, step,
}
use outway.Socks.Runtime.Order.{
  jobs_of, queued, waiting, Placed, PlacedIn, append_assoc, append_nil, jobs_of-append, taken_in,
  send-waiting, receive-waiting,
}

-- A system with what was accepted from its associations and taken by its workers, in order.
pub record Log : Type 0 where
  pub system : System
  pub accepted : List Job
  pub sent : List Job

abbrev pub accepted_by : Event → System → List Job
accepted_by (send job) s = taken_in ((enqueue job (started s.runtime) s.runtime).0) job
accepted_by _ s = []

abbrev pub head_of : List Job → List Job
head_of [] = []
head_of (j ∷ js) = j ∷ []

abbrev pub sent_by : Event → Option (List Queue) → List Job
sent_by (receive i) (some qs) = head_of ((queue_at qs i).jobs)
sent_by _ o = []

pub data Logged (start : System) : Log → Type 0 where
  untouched : Logged start (record { system = start; accepted = []; sent = [] })
  followed :
      {l : Log} {t : System} (e : Event)
      → Logged start l
      → step e l.system ≡ some t
      → Logged start (record {
        system = t;
        accepted = l.accepted ++ accepted_by e l.system;
        sent = l.sent ++ sent_by e l.system.runtime.shards;
      })

-- One step keeps the order: what waited, and what is accepted, is what is taken and then waits.
abbrev Kept : Event → System → System → ℕ → Type 0
Kept e s t a =
    (waiting a s.runtime.shards ++ jobs_of a (accepted_by e s)
      ≡ jobs_of a (sent_by e s.runtime.shards) ++ waiting a t.runtime.shards)
    × PlacedIn t.runtime.shards

-- A step that leaves the queues alone.
quiet :
    (x t s : System) (a : ℕ)
    → some x ≡ some t
    → x.runtime.shards ≡ s.runtime.shards
    → PlacedIn s.runtime.shards
    → (waiting a s.runtime.shards ++ jobs_of a [] ≡ jobs_of a [] ++ waiting a t.runtime.shards)
      × PlacedIn t.runtime.shards
unfolding jobs_of
quiet x t s a p e h =
    let same : x ≡ t = cc in
    let kept : s.runtime.shards ≡ t.runtime.shards = sym e ∙ ap (λ y. y.runtime.shards) same in
    (append_nil (waiting a s.runtime.shards) ∙ ap (waiting a) kept, subst PlacedIn kept h)

goes_on : (b : Bool) (x t : System) → when b x ≡ some t → some x ≡ some t
goes_on true x t p = p
goes_on false x t p = absurd (cc p)

quiet_when :
    (b : Bool) (x t s : System) (a : ℕ)
    → when b x ≡ some t
    → x.runtime.shards ≡ s.runtime.shards
    → PlacedIn s.runtime.shards
    → (waiting a s.runtime.shards ++ jobs_of a [] ≡ jobs_of a [] ++ waiting a t.runtime.shards)
      × PlacedIn t.runtime.shards
quiet_when b x t s a p = quiet x t s a (goes_on b x t p)

acquire-shards : (r : Runtime) → ((try_acquire_batch_buffer r).1).shards ≡ r.shards
unfolding try_acquire_batch_buffer
acquire-shards r = elim (Bool-cases (batch_free r.batch_slots r.batch_held)) [
  | inl e ↦ rw e refl
  | inr e ↦ rw e refl
]

run-shards :
    (cancelled ok : Bool) (job : Job) (r : Runtime)
    → (run_send_job cancelled ok job r).shards ≡ r.shards
unfolding run_send_job release_buffer
run-shards true ok job r = refl
run-shards false true job r = refl
run-shards false false job r = refl

receive-Kept :
    (i : ℕ) (s t : System) (qs : List Queue) (js : List Job) (a : ℕ)
    → (queue_at qs i).jobs ≡ js
    → Placed qs
    → taken_by s (receive_job i qs s.runtime) ≡ some t
    → (queued a qs ++ jobs_of a [] ≡ jobs_of a (head_of js) ++ waiting a t.runtime.shards)
      × PlacedIn t.runtime.shards
unfolding receive_job
receive-Kept i s t qs [] a e h p =
    let stuck : taken_by s (receive_job i qs s.runtime) ≡ none = rw (e, receive_job) refl in
    let clash : none ≡ some t = sym stuck ∙ p in absurd (cc clash)
receive-Kept i s t qs (job ∷ rest) a e h p =
    let after : List Queue = set qs i (record (queue_at qs i) { jobs = rest }) in
    let left : System = record s {
      runtime = record s.runtime { shards = some after };
      received = job ∷ s.received;
    } in
    let goes : taken_by s (receive_job i qs s.runtime) ≡ some left = rw (e, receive_job) refl in
    let same : left ≡ t = cc in
    let kept : some after ≡ t.runtime.shards = ap (λ y. y.runtime.shards) same in
    let done = receive-waiting i qs s.runtime job rest a e h in
    (
      unfold jobs_of in
          append_nil (queued a qs) ∙ done.0 ∙ ap (λ o. jobs_of a (job ∷ []) ++ waiting a o) kept,
      subst PlacedIn kept (done.1),
    )

receive_from-Kept :
    (i : ℕ) (s t : System) (o : Option (List Queue)) (a : ℕ)
    → PlacedIn o
    → receive_from i s o ≡ some t
    → (waiting a o ++ jobs_of a []
        ≡ jobs_of a (sent_by (receive i) o) ++ waiting a t.runtime.shards)
      × PlacedIn t.runtime.shards
receive_from-Kept i s t none a h p = absurd (cc p)
receive_from-Kept i s t (some qs) a h p = receive-Kept i s t qs ((queue_at qs i).jobs) a refl h p

count_taken-shards :
    (i : ℕ) (s t : System) (o : Option Job)
    → count_taken i s o ≡ some t
    → (x : System) × (some x ≡ some t) × (x.runtime.shards ≡ s.runtime.shards)
count_taken-shards i s t none p = absurd (cc p)
count_taken-shards i s t (some job) p = (_, p, refl)

finish_job-shards :
    (i : ℕ) (cancelled ok : Bool) (s t : System) (o : Option Job)
    → finish_job i cancelled ok s o ≡ some t
    → (x : System) × (some x ≡ some t) × (x.runtime.shards ≡ s.runtime.shards)
finish_job-shards i cancelled ok s t none p = absurd (cc p)
finish_job-shards i cancelled ok s t (some job) p = (_, p, run-shards cancelled ok job s.runtime)

step-Kept :
    (e : Event) (s t : System) (a : ℕ)
    → PlacedIn s.runtime.shards
    → step e s ≡ some t
    → Kept e s t a
unfolding step
step-Kept enter s t a h p = quiet_when _ _ t s a p refl h
step-Kept claim s t a h p = quiet_when _ _ t s a p refl h
step-Kept count_drop s t a h p = quiet_when _ _ t s a p refl h
step-Kept recheck s t a h p = quiet_when _ _ t s a p refl h
step-Kept back_out s t a h p = quiet_when _ _ t s a p refl h
step-Kept count_active s t a h p = quiet_when _ _ t s a p refl h
step-Kept count_total s t a h p = quiet_when _ _ t s a p refl h
step-Kept number s t a h p = quiet_when _ _ t s a p refl h
step-Kept leave s t a h p = quiet_when _ _ t s a p refl h
step-Kept count_left s t a h p = quiet_when _ _ t s a p refl h
step-Kept test_lifetime s t a h p = quiet_when _ _ t s a p refl h
step-Kept acquire_batch s t a h p = quiet _ t s a p (acquire-shards s.runtime) h
step-Kept (release_batch buf) s t a h p = unfold release_buffer in quiet_when _ _ t s a p refl h
step-Kept (send job) s t a h p =
    let done = send-waiting job s.runtime a h in
    let same : send_job job s ≡ t = cc (goes_on _ _ t p) in
    let kept : ((enqueue job (started s.runtime) s.runtime).1).shards ≡ t.runtime.shards =
      ap (λ y. y.runtime.shards) same in
    unfold jobs_of in (sym (done.0) ∙ ap (waiting a) kept, subst PlacedIn kept (done.1))
step-Kept count_queued s t a h p = unfold count_dispatched in quiet_when _ _ t s a p refl h
step-Kept count_refused s t a h p = unfold count_dispatched in quiet_when _ _ t s a p refl h
step-Kept (receive i) s t a h p = receive_from-Kept i s t s.runtime.shards a h p
step-Kept (count_received i) s t a h p =
    let (x, q, same) = count_taken-shards i s t (job_at i s.received) p in quiet x t s a q same h
step-Kept (work i cancelled ok) s t a h p =
    let (x, q, same) = finish_job-shards i cancelled ok s t (job_at i s.working) p in
    quiet x t s a q same h
step-Kept shut_down s t a h p = quiet _ t s a p refl h

Logged-Kept :
    (start : System) (l : Log) (a : ℕ)
    → start.runtime.shards ≡ none
    → Logged start l
    → (jobs_of a l.accepted ≡ jobs_of a l.sent ++ waiting a l.system.runtime.shards)
      × PlacedIn l.system.runtime.shards
Logged-Kept start l a fresh untouched = unfold jobs_of in rw fresh (refl, tt)
Logged-Kept start l a fresh (followed {l = k} {t = t} e before p) =
    let (order, placed) = Logged-Kept start k a fresh before in
    let s = k.system in
    let (kept, still) = step-Kept e s t a placed p in
    let new = accepted_by e s in
    let gone = sent_by e s.runtime.shards in
    (
      jobs_of-append a k.accepted new
          ∙ ap (λ xs. xs ++ jobs_of a new) order
          ∙ append_assoc (jobs_of a k.sent) (waiting a s.runtime.shards) (jobs_of a new)
          ∙ ap (λ xs. jobs_of a k.sent ++ xs) kept
          ∙ sym (append_assoc (jobs_of a k.sent) (jobs_of a gone) (waiting a t.runtime.shards))
          ∙ ap (λ xs. xs ++ waiting a t.runtime.shards) (sym (jobs_of-append a k.sent gone)),
      still,
    )

-- However associations and workers take turns, the queues of the workers together behave as one
-- queue for each association: of its jobs, those taken by workers and those that still wait are,
-- in this order, exactly those that the dispatcher accepted.
pub Logged-InOrder :
    (cfg : UdpConfig) (concurrent procs : ℕ) (l : Log) (a : ℕ)
    → Logged (new_system (new_udp_runtime cfg concurrent procs)) l
    → jobs_of a l.accepted ≡ jobs_of a l.sent ++ waiting a l.system.runtime.shards
Logged-InOrder cfg concurrent procs l a path =
    (Logged-Kept (new_system (new_udp_runtime cfg concurrent procs)) l a
      (unfold new_system in unfold new_udp_runtime in refl) path).0
