-- ===== src/Socks/Inbound/Owners.antt =====
-- Where a pooled buffer is: put back, in the job of a send worker, or in a batch.
use outway.Base.{
  Bool, true, false, ℕ, zero, suc, ◌+◌, ◌%◌, ◌<◌, ◌≡◌, refl, ap, arith, List, [], ◌∷◌, ◌++◌, Option,
  none, some, ◌==◌, if◌then◌else◌, length, set, Bool-cases, ltb_cases, inl, inr,
}
use outway.Socks.Gso.{WritePacket}
use outway.Socks.Runtime.{
  Runtime, Job, Queue, queue_at, new_queues, start_dispatcher, started, enqueue, count_dispatched,
  dispatch, release_buffer,
}
use outway.Socks.Inbound.{
  ReadPacket, InboundPacket, Association, Pump, job_of, refused, Batch, packets, failed,
}

-- One where the two names are the same.
unfoldable pub hit : ℕ → ℕ → ℕ
hit b owner = if b == owner then 1 else 0

-- How often the buffer `b` is in a list, in jobs, in queues, and in batches.
abbrev pub in_list : ℕ → List ℕ → ℕ
in_list b [] = 0
in_list b (x ∷ xs) = hit b x + in_list b xs

abbrev pub in_jobs : ℕ → List Job → ℕ
in_jobs b [] = 0
in_jobs b (j ∷ js) = hit b j.owner + in_jobs b js

abbrev pub in_queues : ℕ → List Queue → ℕ
in_queues b [] = 0
in_queues b (q ∷ qs) = in_jobs b q.jobs + in_queues b qs

abbrev pub in_shards : ℕ → Option (List Queue) → ℕ
in_shards b none = 0
in_shards b (some qs) = in_queues b qs

abbrev pub in_writes : ℕ → List WritePacket → ℕ
in_writes b [] = 0
in_writes b (w ∷ ws) = hit b w.owner + in_writes b ws

abbrev pub in_reads : ℕ → List ReadPacket → ℕ
in_reads b [] = 0
in_reads b (p ∷ ps) = hit b p.owner + in_reads b ps

-- How often the runtime has it: put back, or in the job of a worker to come.
abbrev pub in_runtime : ℕ → Runtime → ℕ
in_runtime b r = in_list b r.pool + in_shards b r.shards

abbrev pub in_pump : ℕ → Pump → ℕ
in_pump b p = in_runtime b p.runtime + in_writes b p.preferred + in_writes b p.fallback

in_jobs-append :
    (b : ℕ) (js : List Job) (j : Job) → in_jobs b (js ++ j ∷ []) ≡ in_jobs b js + hit b j.owner
in_jobs-append b [] j = omega arith
in_jobs-append b (k ∷ js) j = omega (arith, in_jobs-append b js j)

pub in_writes-append :
    (b : ℕ) (ws : List WritePacket) (w : WritePacket)
    → in_writes b (ws ++ w ∷ []) ≡ in_writes b ws + hit b w.owner
in_writes-append b [] w = omega arith
in_writes-append b (v ∷ ws) w = omega (arith, in_writes-append b ws w)

-- A queue with a slot is one of the queues, and putting another in its place changes the count
-- by the difference.
in_queues-set :
    (b : ℕ) (qs : List Queue) (i : ℕ) (q : Queue)
    → 0 < (queue_at qs i).capacity
    → in_queues b (set qs i q) + in_jobs b ((queue_at qs i).jobs)
      ≡ in_queues b qs + in_jobs b q.jobs
in_queues-set b [] i q h = ground arith
in_queues-set b (p ∷ qs) zero q h = omega arith
in_queues-set b (p ∷ qs) (suc i) q h = omega (arith, in_queues-set b qs i q h)

in_queues-new : (b p e i n : ℕ) → in_queues b (new_queues p e i n) ≡ 0
unfolding new_queues
in_queues-new b p e i zero = refl
in_queues-new b p e i (suc n) = omega (arith, in_queues-new b p e (suc i) n)

in_queues-started :
    (b : ℕ) (r : Runtime) (o : Option (List Queue))
    → r.shards ≡ o
    → in_queues b (started r) ≡ in_shards b r.shards
unfolding started start_dispatcher
in_queues-started b r none e = rw (e, started) (in_queues-new b _ _ _ _)
in_queues-started b r (some qs) e = rw (e, started) refl

-- A job that is taken holds its buffer, and one that is not leaves it to be put back.
in_runtime-enqueue :
    (b : ℕ) (pkt : InboundPacket) (job : Job) (qs : List Queue) (r : Runtime)
    → job.owner ≡ pkt.owner
    → in_runtime b (refused pkt (enqueue job qs r))
      ≡ in_list b r.pool + in_queues b qs + hit b pkt.owner
unfolding enqueue release_buffer
in_runtime-enqueue b pkt job qs r e =
    let i = job.association % length qs in
    let q = queue_at qs i in
    let longer : Queue = record q { jobs = q.jobs ++ job ∷ [] } in
    let same : hit b job.owner ≡ hit b pkt.owner = ap (hit b) e in
    elim (ltb_cases (length q.jobs) q.capacity) [
      | inl (t, h) ↦ rw t (
          omega (
            arith,
            in_queues-set b qs i longer (omega (arith, h)),
            in_jobs-append b q.jobs job,
            same,
          ))
      | inr (t, _) ↦ rw t (omega arith)
    ]

-- Counting it moves no buffer.
in_runtime-counted :
    (b : ℕ) (pkt : InboundPacket) (x : Bool × Runtime)
    → in_runtime b (refused pkt (x.0, count_dispatched (x.0) (x.1))) ≡ in_runtime b (refused pkt x)
unfolding count_dispatched release_buffer
in_runtime-counted b pkt (true, r) = refl
in_runtime-counted b pkt (false, r) = refl

pub in_runtime-dispatch :
    (b : ℕ) (a : Association) (pkt : InboundPacket) (r : Runtime)
    → in_runtime b (refused pkt (dispatch (job_of a pkt) r)) ≡ in_runtime b r + hit b pkt.owner
unfolding dispatch release_buffer job_of
in_runtime-dispatch b a pkt r = elim (Bool-cases r.ended) [
  | inl e ↦ rw e (omega arith)
  | inr e ↦
      let job = job_of a pkt in
      let tried = enqueue job (started r) r in
      let queued : dispatch job r ≡ (tried.0, count_dispatched (tried.0) (tried.1)) =
        rw (e, dispatch) refl in
      rw (queued) (
        omega (
          arith,
          in_runtime-counted b pkt tried,
          in_runtime-enqueue b pkt job (started r) r refl,
          in_queues-started b r r.shards refl,
        ))
]

-- The buffers of a batch; a failed read has none.
abbrev pub in_batch : ℕ → Batch → ℕ
in_batch b (packets ps) = in_reads b ps
in_batch b (failed quiet) = 0
