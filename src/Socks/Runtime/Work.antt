-- ===== src/Socks/Runtime/Work.antt =====
-- Sending a job to a worker, and what the worker does with it, keep the runtime within its limits.
use outway.Base.{
  ℕ, zero, suc, ◌+◌, ◌%◌, ◌≤◌, ◌<◌, ◌≡◌, refl, ap, ◌∙◌, arith, List, [], ◌∷◌, ◌++◌, length,
  length-append, set, length-set,
}
use outway.Base.{Option, none, some, Bool, true, false, ltb_cases, inl, inr, ltb}
use native.Mathlib.Nat.{mod-lt}
use mathlib.Core.Path.{subst}
use outway.Socks.Runtime.{
  Runtime, Job, Queue, size_of, release_buffer, started, enqueue, run_send_job, queue_at, one_down,
}
use outway.Socks.Runtime.Steps.{System, send_job, job_at, drop_at}
use outway.Socks.Runtime.Shards.{
  backlog, start_dispatcher_lem, backlog-set, room-set, Within-set, Within-queue_at,
  queue_at-inside,
}
use outway.Socks.Runtime.Bounds.{IsQueues, waiting_in, IsSystem, release-IsSystem}

length-drop_at :
    (i : ℕ) (js : List Job) (job : Job)
    → job_at i js ≡ some job
    → suc (length (drop_at i js)) ≡ length js
length-drop_at i [] job e = absurd (cc e)
length-drop_at zero (j ∷ js) job e = refl
length-drop_at (suc i) (j ∷ js) job e = omega (arith, length-drop_at i js job e)

module _ (limit size : ℕ) (some_slots : 1 ≤ size) where
  started-IsQueues :
      (r : Runtime) (o : Option (List Queue))
      → r.shards ≡ o
      → size_of r.config.send_queue_size ≡ size
      → IsQueues size o
      → IsQueues size (some (started r)) × (backlog (started r) ≡ waiting_in o)
  unfolding started
  started-IsQueues r (some qs) e sized h = rw (e, started) (h, refl)
  started-IsQueues r none e sized h =
      let start = start_dispatcher_lem r.procs (size_of r.config.send_workers) size some_slots in
      rw (e, started) (rw sized ((start.5, start.2, start.0), start.4))

  pub send-IsSystem :
      (job : Job) (s : System)
      → IsSystem limit size s
      → ltb 0 s.dispatching ≡ true
      → IsSystem limit size (send_job job s)
  unfolding enqueue
  send-IsSystem job s v e =
      let qs = started s.runtime in
      let (h, same) = started-IsQueues s.runtime s.runtime.shards refl v.sized v.queues in
      let i = job.association % length qs in
      let q = queue_at qs i in
      let longer : Queue = record q { jobs = q.jobs ++ job ∷ [] } in
      let inside : i < length qs = mod-lt job.association (omega (arith, h.2)) in
      let count = length-append q.jobs (job ∷ []) in
      elim (ltb_cases (length q.jobs) q.capacity) [
        | inr (f, _) ↦ rw f (record {
          limited = v.limited;
          slots = v.slots;
          held = v.held;
          active = v.active;
          total = v.total;
          budget = v.budget;
          sized = v.sized;
          queues = h;
          depth = omega (arith, v.depth, same);
        })
        | inl (f, free) ↦ rw f (record {
          limited = v.limited;
          slots = v.slots;
          held = v.held;
          active = v.active;
          total = v.total;
          budget = v.budget;
          sized = v.sized;
          queues = (
            Within-set qs i longer (h.0) (omega (arith, count, free)),
            room-set qs i longer refl ∙ h.1,
            omega (arith, length-set qs i longer, h.2),
          );
          depth = omega (arith, v.depth, same, backlog-set qs i longer inside, count);
        })
      ]

  pub received-IsSystem :
      (i : ℕ) (qs : List Queue) (s : System) (job : Job) (rest : List Job)
      → s.runtime.shards ≡ some qs
      → (queue_at qs i).jobs ≡ job ∷ rest
      → IsSystem limit size s
      → IsSystem limit size (record s {
        runtime = record s.runtime {
          shards = some (set qs i (record (queue_at qs i) { jobs = rest }));
        };
        received = job ∷ s.received;
      })
  received-IsSystem i qs s job rest t e v =
      let h : IsQueues size (some qs) = subst (IsQueues size) t v.queues in
      let now : waiting_in s.runtime.shards ≡ backlog qs = ap waiting_in t in
      let shorter : Queue = record (queue_at qs i) { jobs = rest } in
      let count : length ((queue_at qs i).jobs) ≡ suc (length rest) = ap length e in
      let inside = queue_at-inside qs i (omega (arith, count)) in
      record {
        limited = v.limited;
        slots = v.slots;
        held = v.held;
        active = v.active;
        total = v.total;
        budget = v.budget;
        sized = v.sized;
        queues = (
          Within-set qs i shorter (h.0) (omega (arith, count, Within-queue_at qs i (h.0))),
          room-set qs i shorter refl ∙ h.1,
          omega (arith, length-set qs i shorter, h.2),
        );
        depth = omega (arith, v.depth, now, backlog-set qs i shorter inside, count);
      }

  pub counted-IsSystem :
      (i : ℕ) (s : System) (job : Job)
      → job_at i s.received ≡ some job
      → IsSystem limit size s
      → IsSystem limit size (record s {
        runtime = record s.runtime {
          metrics = record s.runtime.metrics {
            queue_depth = one_down s.runtime.metrics.queue_depth;
          };
        };
        received = drop_at i s.received;
        working = job ∷ s.working;
      })
  counted-IsSystem i s job e v = record {
    limited = v.limited;
    slots = v.slots;
    held = v.held;
    active = v.active;
    total = v.total;
    budget = v.budget;
    sized = v.sized;
    queues = v.queues;
    depth = omega (arith, v.depth, length-drop_at i s.received job e);
  }

  -- What does not touch the counts of associations and jobs.
  pub metrics-IsSystem :
      (i : ℕ) (s : System)
      → IsSystem limit size s
      → IsSystem limit size (record s {
        runtime = record s.runtime {
          metrics = record s.runtime.metrics { errors = s.runtime.metrics.errors + 1 };
        };
      })
  metrics-IsSystem i s v = ground arith

  idle_workers :
      (i : ℕ) (s : System)
      → IsSystem limit size s
      → IsSystem limit size (record s { working = drop_at i s.working })
  idle_workers i s v = ground arith

  pub run-IsSystem :
      (i : ℕ) (cancelled sent : Bool) (job : Job) (s : System)
      → IsSystem limit size s
      → IsSystem limit size (record s {
        runtime = run_send_job cancelled sent job s.runtime;
        working = drop_at i s.working;
      })
  unfolding run_send_job
  run-IsSystem i true sent job s v =
      idle_workers i (record s { runtime = release_buffer job.owner job.batch_slot s.runtime })
        (release-IsSystem limit size some_slots job.owner job.batch_slot s v)
  run-IsSystem i false true job s v =
      idle_workers i (record s { runtime = release_buffer job.owner job.batch_slot s.runtime })
        (release-IsSystem limit size some_slots job.owner job.batch_slot s v)
  run-IsSystem i false false job s v =
      let failed : System = record s {
        runtime = record s.runtime {
          metrics = record s.runtime.metrics { errors = s.runtime.metrics.errors + 1 };
        };
      } in
      idle_workers i
        (record failed { runtime = release_buffer job.owner job.batch_slot failed.runtime })
        (release-IsSystem limit size some_slots job.owner job.batch_slot failed
          (metrics-IsSystem i s v))
