-- ===== src/Socks/Runtime/Limits.antt =====
-- The limits that the shared runtime keeps, whatever the associations and workers do.
use outway.Base.{ℕ, ◌+◌, ◌≤◌, ◌≡◌, refl, sym, ◌∙◌, arith, List, [], ◌∷◌, set, length}
use outway.Base.{
  Option, none, some, Bool, true, false, ltb_cases, inl, inr, ltb, ◌==◌, if◌then◌else◌,
}
use mathlib.Core.Path.{subst}
use outway.Config.{UdpConfig}
use outway.Socks.Runtime.{
  Job, Queue, size_of, new_udp_runtime, normalize_udp_config, receive_job, queue_at,
  count_dispatched,
}
use outway.Socks.Runtime.Steps.{
  System, new_system, Event, enter, claim, count_drop, recheck, back_out, count_active, count_total,
  number, leave, count_left, acquire_batch, release_batch, test_lifetime, send, count_queued,
  count_refused, receive, count_received, work, shut_down, when, job_at, taken_by, receive_from,
  count_taken, finish_job, step, Reachable, fresh, after,
}
use outway.Socks.Runtime.Shards.{backlog-le-room}
use outway.Socks.Runtime.Bounds.{
  IsBudget, IsQueues, waiting_in, IsSystem, claim-IsSystem, recheck-IsSystem, acquire-IsSystem,
  release-IsSystem,
}
use outway.Socks.Runtime.Work.{send-IsSystem, received-IsSystem, counted-IsSystem, run-IsSystem}

module _ (limit size : ℕ) (some_slots : 1 ≤ size) where
  landed : (x t : System) → some x ≡ some t → IsSystem limit size x → IsSystem limit size t
  landed x t e v = let same : x ≡ t = cc in subst (IsSystem limit size) same v

  landed_when :
      (b : Bool) (x t : System)
      → when b x ≡ some t
      → (b ≡ true → IsSystem limit size x)
      → IsSystem limit size t
  landed_when true x t e v = landed x t e (v refl)
  landed_when false x t e v = absurd (cc e)

  receive-IsSystem :
      (i : ℕ) (s t : System) (o : Option (List Queue))
      → s.runtime.shards ≡ o
      → IsSystem limit size s
      → receive_from i s o ≡ some t
      → IsSystem limit size t
  unfolding receive_job
  receive-IsSystem i s t none e v p = absurd (cc p)
  receive-IsSystem i s t (some qs) e v p = by_jobs ((queue_at qs i).jobs) refl
    where
      by_jobs : (js : List Job) → (queue_at qs i).jobs ≡ js → IsSystem limit size t
      by_jobs [] f =
          let stuck : taken_by s (receive_job i qs s.runtime) ≡ none = rw (f, receive_job) refl in
          let clash : none ≡ some t = sym stuck ∙ p in absurd (cc clash)
      by_jobs (job ∷ rest) f =
          let left : System = record s {
            runtime = record s.runtime {
              shards = some (set qs i (record (queue_at qs i) { jobs = rest }));
            };
            received = job ∷ s.received;
          } in
          let goes : taken_by s (receive_job i qs s.runtime) ≡ some left =
            rw (f, receive_job) refl in
          landed left t (sym goes ∙ p)
            (received-IsSystem limit size some_slots i qs s job rest e f v)

  count-IsSystem :
      (i : ℕ) (s t : System) (o : Option Job)
      → job_at i s.received ≡ o
      → IsSystem limit size s
      → count_taken i s o ≡ some t
      → IsSystem limit size t
  count-IsSystem i s t none e v p = absurd (cc p)
  count-IsSystem i s t (some job) e v p =
      landed _ t p (counted-IsSystem limit size some_slots i s job e v)

  finish-IsSystem :
      (i : ℕ) (cancelled sent : Bool) (s t : System) (o : Option Job)
      → IsSystem limit size s
      → finish_job i cancelled sent s o ≡ some t
      → IsSystem limit size t
  finish-IsSystem i cancelled sent s t none v p = absurd (cc p)
  finish-IsSystem i cancelled sent s t (some job) v p =
      landed _ t p (run-IsSystem limit size some_slots i cancelled sent job s v)

  step-IsSystem :
      (e : Event) (s t : System) → IsSystem limit size s → step e s ≡ some t → IsSystem limit size t
  unfolding step
  step-IsSystem enter s t v p = landed_when _ _ t p (λ e. ground arith)
  step-IsSystem claim s t v p = landed_when _ _ t p (claim-IsSystem limit size some_slots s v)
  step-IsSystem count_drop s t v p = landed_when _ _ t p (λ e. ground arith)
  step-IsSystem recheck s t v p = landed_when _ _ t p (recheck-IsSystem limit size some_slots s v)
  step-IsSystem back_out s t v p = landed_when _ _ t p (λ e. ground arith)
  step-IsSystem count_active s t v p = landed_when _ _ t p (λ e. ground arith)
  step-IsSystem count_total s t v p = landed_when _ _ t p (λ e. ground arith)
  step-IsSystem number s t v p = landed_when _ _ t p (λ e. ground arith)
  step-IsSystem leave s t v p = landed_when _ _ t p (λ e. ground arith)
  step-IsSystem count_left s t v p = landed_when _ _ t p (λ e. ground arith)
  step-IsSystem acquire_batch s t v p = landed _ t p (acquire-IsSystem limit size some_slots s v)
  step-IsSystem (release_batch buf) s t v p =
      landed_when _ _ t p (λ e. release-IsSystem limit size some_slots buf true s v)
  step-IsSystem test_lifetime s t v p = landed_when _ _ t p (λ e. ground arith)
  step-IsSystem (send job) s t v p =
      landed_when _ _ t p (send-IsSystem limit size some_slots job s v)
  step-IsSystem count_queued s t v p =
      unfold count_dispatched in landed_when _ _ t p (λ e. ground arith)
  step-IsSystem count_refused s t v p =
      unfold count_dispatched in landed_when _ _ t p (λ e. ground arith)
  step-IsSystem (receive i) s t v p = receive-IsSystem i s t s.runtime.shards refl v p
  step-IsSystem (count_received i) s t v p = count-IsSystem i s t (job_at i s.received) refl v p
  step-IsSystem (work i cancelled sent) s t v p =
      finish-IsSystem i cancelled sent s t (job_at i s.working) v p
  step-IsSystem shut_down s t v p = landed _ t p (ground arith)

  Reachable-IsSystem :
      (start s : System) → IsSystem limit size start → Reachable start s → IsSystem limit size s
  Reachable-IsSystem start s v fresh = v
  Reachable-IsSystem start t v (after {s = s} e before p) =
      step-IsSystem e s t (Reachable-IsSystem start s v before) p

new_system-IsSystem :
    (cfg : UdpConfig) (concurrent procs : ℕ)
    → IsSystem
        ((new_udp_runtime cfg concurrent procs).max_associations)
        (size_of (normalize_udp_config cfg).send_queue_size)
        (new_system (new_udp_runtime cfg concurrent procs))
unfolding new_udp_runtime new_system
new_system-IsSystem cfg concurrent procs = record {
  limited = refl;
  slots = omega arith;
  held = refl;
  active = refl;
  total = refl;
  budget = within (size_of cfg.batch_buffer_budget);
  sized = refl;
  queues = tt;
  depth = refl;
}
  where
    within : (n : ℕ) → IsBudget (if ltb 0 n then some n else none) 0
    within n = elim (ltb_cases 0 n) [ inl (e, _) ↦ rw e (omega arith) | inr (e, _) ↦ rw e refl ]

-- However the goroutines of the associations, the dispatchers and the workers of a server with a
-- send queue take turns, each operation on a channel or a counter being a step of its own: the slots
-- taken are never more than the limit, which is the configured one or, where that is 0, the limit of
-- connections; the associations that run or are counted and not yet numbered hold a slot each, and
-- they and those that gave theirs back without being counted as gone are the active ones counted;
-- the batch buffers held are within the capacity of their channel, none where it is nil; the queues
-- have the configured size in all and none holds more than its own; and the depth counted, with the
-- jobs sent but not yet counted, is the jobs that wait with those received but not yet counted,
-- those that wait being at most the configured size.
pub Reachable-Limits :
    (cfg : UdpConfig) (concurrent procs : ℕ) (s : System)
    → 1 ≤ size_of (normalize_udp_config cfg).send_queue_size
    → Reachable (new_system (new_udp_runtime cfg concurrent procs)) s
    → let size = size_of (normalize_udp_config cfg).send_queue_size in
      let active = s.runtime.metrics.active_associations in
      let depth = s.runtime.metrics.queue_depth in
      (s.runtime.association_slots
        ≤ (if cfg.max_associations == 0 then concurrent else cfg.max_associations))
      × (s.counted + s.numbering + s.running ≤ s.runtime.association_slots)
      × (active.added ≡ active.taken + s.counted + s.numbering + s.running + s.leaving)
      × IsBudget s.runtime.batch_slots s.runtime.batch_held
      × IsQueues size s.runtime.shards
      × (depth.added + s.posted ≡ depth.taken + length s.received + waiting_in s.runtime.shards)
      × (waiting_in s.runtime.shards ≤ size)
unfolding new_udp_runtime
Reachable-Limits cfg concurrent procs s h path =
    let size = size_of (normalize_udp_config cfg).send_queue_size in
    let start = new_udp_runtime cfg concurrent procs in
    let v =
      Reachable-IsSystem start.max_associations size h (new_system start) s
        (new_system-IsSystem cfg concurrent procs) path in
    (
      omega (arith, v.slots, v.limited),
      omega (arith, v.held),
      v.active,
      v.budget,
      v.queues,
      v.depth,
      bounded size s.runtime.shards v.queues,
    )
  where
    bounded : (size : ℕ) (o : Option (List Queue)) → IsQueues size o → waiting_in o ≤ size
    bounded size none h = omega arith
    bounded size (some qs) h = omega (arith, h.1, backlog-le-room qs (h.0))
