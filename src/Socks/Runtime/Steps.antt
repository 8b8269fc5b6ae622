-- ===== src/Socks/Runtime/Steps.antt =====
-- internal/server/socks/udp_runtime.go: what the associations, the dispatchers and the send workers
-- do to the shared runtime, a goroutine at a time. Each operation on a channel, a counter or the
-- lifetime context is a step of its own, and other goroutines may come between any two. Starting the
-- dispatcher, which `sync.Once` makes one step for all, is taken with the first send: until that the
-- queues are empty.
use outway.Base.{
  ℕ, zero, suc, ◌+◌, ◌-◌, ◌≡◌, List, [], ◌∷◌, Option, none, some, Bool, true, false, not,
  if◌then◌else◌, ltb,
}
use outway.Socks.Runtime.{
  Runtime, Queue, Job, one_up, one_down, try_acquire_batch_buffer, release_buffer, started, enqueue,
  count_dispatched, receive_job, run_send_job,
}

-- The runtime and, for each place in the code between two of its steps, how many goroutines are
-- there. `beginAssociation`: the first test of the lifetime has passed (`entering`); the slot was
-- not free (`turned_away`); it is taken (`claimed`); the second test has failed (`backing_out`) or
-- passed (`admitted`); the active associations are counted (`counted`) and the total (`numbering`).
-- `running` associations have begun. `endAssociation`: the slot is given back (`leaving`).
-- `dispatch`: the test has passed (`dispatching`); the job is sent (`posted`) or not (`refused`).
-- `received` are the jobs that workers have taken and not counted, `working` those counted.
pub record System : Type 0 where
  pub runtime : Runtime
  pub entering : ℕ
  pub turned_away : ℕ
  pub claimed : ℕ
  pub backing_out : ℕ
  pub admitted : ℕ
  pub counted : ℕ
  pub numbering : ℕ
  pub running : ℕ
  pub leaving : ℕ
  pub dispatching : ℕ
  pub posted : ℕ
  pub refused : ℕ
  pub received : List Job
  pub working : List Job

unfoldable pub new_system : Runtime → System
new_system r = record {
  runtime = r;
  entering = 0;
  turned_away = 0;
  claimed = 0;
  backing_out = 0;
  admitted = 0;
  counted = 0;
  numbering = 0;
  running = 0;
  leaving = 0;
  dispatching = 0;
  posted = 0;
  refused = 0;
  received = [];
  working = [];
}

pub data Event : Type 0 where
  enter claim count_drop recheck back_out count_active count_total number : Event
  leave count_left : Event
  acquire_batch : Event
  release_batch : ℕ → Event
  test_lifetime : Event
  send : Job → Event
  count_queued count_refused : Event
  receive : ℕ → Event
  count_received : ℕ → Event
  work : ℕ → Bool → Bool → Event
  shut_down : Event

abbrev pub when : Bool → System → Option System
when true s = some s
when false s = none

abbrev pub job_at : ℕ → List Job → Option Job
job_at i [] = none
job_at zero (j ∷ js) = some j
job_at (suc i) (j ∷ js) = job_at i js

abbrev pub drop_at : ℕ → List Job → List Job
drop_at i [] = []
drop_at zero (j ∷ js) = js
drop_at (suc i) (j ∷ js) = j ∷ drop_at i js

-- The steps of `beginAssociation` that write to the runtime.
abbrev pub claim_slot : System → System
claim_slot s =
    let free = ltb s.runtime.association_slots s.runtime.max_associations in
    record s {
      runtime = record s.runtime {
        association_slots =
            if free then s.runtime.association_slots + 1 else s.runtime.association_slots;
      };
      entering = s.entering - 1;
      claimed = if free then s.claimed + 1 else s.claimed;
      turned_away = if free then s.turned_away else s.turned_away + 1;
    }

abbrev pub recheck_lifetime : System → System
recheck_lifetime s = record s {
  claimed = s.claimed - 1;
  backing_out = if s.runtime.ended then s.backing_out + 1 else s.backing_out;
  admitted = if s.runtime.ended then s.admitted else s.admitted + 1;
}

-- A send on the channel of the job's worker, the dispatcher started where it is not.
abbrev pub send_job : Job → System → System
send_job job s =
    let r = enqueue job (started s.runtime) s.runtime in
    record s {
      runtime = r.1;
      dispatching = s.dispatching - 1;
      posted = if r.0 then s.posted + 1 else s.posted;
      refused = if r.0 then s.refused else s.refused + 1;
    }

abbrev pub taken_by : System → Option (Job × Runtime) → Option System
taken_by s none = none
taken_by s (some (job, r)) = some (record s { runtime = r; received = job ∷ s.received })

abbrev pub receive_from : ℕ → System → Option (List Queue) → Option System
receive_from i s none = none
receive_from i s (some qs) = taken_by s (receive_job i qs s.runtime)

abbrev pub count_taken : ℕ → System → Option Job → Option System
count_taken i s none = none
count_taken i s (some job) = some (record s {
  runtime = record s.runtime {
    metrics = record s.runtime.metrics { queue_depth = one_down s.runtime.metrics.queue_depth };
  };
  received = drop_at i s.received;
  working = job ∷ s.working;
})

abbrev pub finish_job : ℕ → Bool → Bool → System → Option Job → Option System
finish_job i cancelled sent s none = none
finish_job i cancelled sent s (some job) = some (record s {
  runtime = run_send_job cancelled sent job s.runtime;
  working = drop_at i s.working;
})

-- One step; `none` where no goroutine can take it: a receive from an empty channel blocks.
unfoldable pub step : Event → System → Option System
unfolding try_acquire_batch_buffer release_buffer started enqueue count_dispatched receive_job
    run_send_job
step enter s = when (not s.runtime.ended) (record s { entering = s.entering + 1 })
step claim s = when (ltb 0 s.entering) (claim_slot s)
step count_drop s = when (ltb 0 s.turned_away) (record s {
  runtime = record s.runtime {
    metrics = record s.runtime.metrics {
      association_drops = s.runtime.metrics.association_drops + 1;
    };
  };
  turned_away = s.turned_away - 1;
})
step recheck s = when (ltb 0 s.claimed) (recheck_lifetime s)
step back_out s = when (ltb 0 s.backing_out) (record s {
  runtime = record s.runtime { association_slots = s.runtime.association_slots - 1 };
  backing_out = s.backing_out - 1;
})
step count_active s = when (ltb 0 s.admitted) (record s {
  runtime = record s.runtime {
    metrics = record s.runtime.metrics {
      active_associations = one_up s.runtime.metrics.active_associations;
    };
  };
  admitted = s.admitted - 1;
  counted = s.counted + 1;
})
step count_total s = when (ltb 0 s.counted) (record s {
  runtime = record s.runtime {
    metrics = record s.runtime.metrics {
      total_associations = s.runtime.metrics.total_associations + 1;
    };
  };
  counted = s.counted - 1;
  numbering = s.numbering + 1;
})
step number s = when (ltb 0 s.numbering) (record s {
  runtime = record s.runtime { sequence = s.runtime.sequence + 1 };
  numbering = s.numbering - 1;
  running = s.running + 1;
})
step leave s = when (ltb 0 s.running) (record s {
  runtime = record s.runtime { association_slots = s.runtime.association_slots - 1 };
  running = s.running - 1;
  leaving = s.leaving + 1;
})
step count_left s = when (ltb 0 s.leaving) (record s {
  runtime = record s.runtime {
    metrics = record s.runtime.metrics {
      active_associations = one_down s.runtime.metrics.active_associations;
    };
  };
  leaving = s.leaving - 1;
})
step acquire_batch s = some (record s { runtime = (try_acquire_batch_buffer s.runtime).1 })
step (release_batch buf) s =
    when (ltb 0 s.runtime.batch_held) (record s { runtime = release_buffer buf true s.runtime })
step test_lifetime s = when (not s.runtime.ended) (record s { dispatching = s.dispatching + 1 })
step (send job) s = when (ltb 0 s.dispatching) (send_job job s)
step count_queued s =
    when (ltb 0 s.posted)
      (record s { runtime = count_dispatched true s.runtime; posted = s.posted - 1 })
step count_refused s =
    when (ltb 0 s.refused)
      (record s { runtime = count_dispatched false s.runtime; refused = s.refused - 1 })
step (receive i) s = receive_from i s s.runtime.shards
step (count_received i) s = count_taken i s (job_at i s.received)
step (work i cancelled sent) s = finish_job i cancelled sent s (job_at i s.working)
step shut_down s = some (record s { runtime = record s.runtime { ended = true } })

pub data Reachable (start : System) : System → Type 0 where
  fresh : Reachable start start
  after : {s t : System} (e : Event) → Reachable start s → step e s ≡ some t → Reachable start t
