-- ===== src/Socks/Runtime.antt =====
-- internal/server/socks/udp_runtime.go: what the UDP associations of a server share: the slots of
-- associations and of batch buffers, and the queues of the send workers. A channel is its
-- capacity and what it holds; a counter that is added to atomically is a number. The operations here
-- are what one goroutine does, in its order; Steps splits them where others may come between.
pub mod Shards
pub mod Steps
pub mod Bounds
pub mod Work
pub mod Limits
pub mod Order
pub mod Fifo
use outway.Base.{
  ℕ, zero, suc, ◌+◌, ◌-◌, ◌*◌, ◌/◌, ◌%◌, ◌≡◌, List, [], ◌∷◌, ◌++◌, Option, none, some, Bool, true,
  false, not, ◌&&◌, if◌then◌else◌, ltb, ◌==◌,
}
use outway.Base.{length, set, ℤ, pos, negsuc, is_zero}
use outway.Config.{UdpConfig}

-- A size of a channel: `Validate` excludes negative ones, for which `make` panics.
abbrev pub size_of : ℤ → ℕ
size_of (pos n) = n
size_of (negsuc n) = 0

unfoldable pub normalize_udp_config : UdpConfig → UdpConfig
normalize_udp_config cfg = record cfg {
  max_packet_size = if is_zero cfg.max_packet_size then pos 65507 else cfg.max_packet_size;
  batch_size = if is_zero cfg.batch_size then pos 32 else cfg.batch_size;
  send_queue_size = if is_zero cfg.send_queue_size then pos 4096 else cfg.send_queue_size;
}

-- The part of a `udpSendJob` that the runtime reads; `owner` names the pooled buffer of the packet.
pub record Job : Type 0 where
  pub association : ℕ
  pub owner : ℕ
  pub batch_slot : Bool

pub record Queue : Type 0 where
  pub capacity : ℕ
  pub jobs : List Job

-- A counter that goes up and down, by what was added to it and what was taken from it: its value is
-- the difference, which may be negative for a moment.
pub record Counter : Type 0 where
  pub added : ℕ
  pub taken : ℕ

abbrev pub one_up : Counter → Counter
one_up c = record c { added = c.added + 1 }

abbrev pub one_down : Counter → Counter
one_down c = record c { taken = c.taken + 1 }

pub record Metrics : Type 0 where
  pub active_associations : Counter
  pub total_associations : ℕ
  pub in_packets : ℕ
  pub in_bytes : ℕ
  pub out_packets : ℕ
  pub out_bytes : ℕ
  pub queue_drops : ℕ
  pub truncated_drops : ℕ
  pub malformed_drops : ℕ
  pub fragment_drops : ℕ
  pub unauthorized_drops : ℕ
  pub association_drops : ℕ
  pub errors : ℕ
  pub queue_depth : Counter
  pub batch_fallbacks : ℕ
  pub gro_coalesced_reads : ℕ
  pub gro_truncated_reads : ℕ

-- `batch_slots` is the capacity of that channel, none where it is nil; `shards` is none until the
-- dispatcher is started; `ended` says that the lifetime context is done; `pool` lists the buffers
-- put back, by name.
pub record Runtime : Type 0 where
  pub config : UdpConfig
  pub pool : List ℕ
  pub procs : ℕ
  pub max_associations : ℕ
  pub association_slots : ℕ
  pub batch_slots : Option ℕ
  pub batch_held : ℕ
  pub sequence : ℕ
  pub shards : Option (List Queue)
  pub ended : Bool
  pub metrics : Metrics

abbrev pub no_metrics : Metrics
no_metrics = record {
  active_associations = record { added = 0; taken = 0 };
  total_associations = 0;
  in_packets = 0;
  in_bytes = 0;
  out_packets = 0;
  out_bytes = 0;
  queue_drops = 0;
  truncated_drops = 0;
  malformed_drops = 0;
  fragment_drops = 0;
  unauthorized_drops = 0;
  association_drops = 0;
  errors = 0;
  queue_depth = record { added = 0; taken = 0 };
  batch_fallbacks = 0;
  gro_coalesced_reads = 0;
  gro_truncated_reads = 0;
}

unfoldable pub new_udp_runtime : UdpConfig → ℕ → ℕ → Runtime
unfolding normalize_udp_config
new_udp_runtime cfg concurrent procs =
    let budget = size_of cfg.batch_buffer_budget in
    record {
      config = normalize_udp_config cfg;
      pool = [];
      procs = procs;
      max_associations = if cfg.max_associations == 0 then concurrent else cfg.max_associations;
      association_slots = 0;
      batch_slots = if ltb 0 budget then some budget else none;
      batch_held = 0;
      sequence = 0;
      shards = none;
      ended = false;
      metrics = no_metrics;
    }

-- Whether a send on the channel of batch slots goes through at once.
abbrev pub batch_free : Option ℕ → ℕ → Bool
batch_free none held = false
batch_free (some n) held = ltb held n

unfoldable pub try_acquire_batch_buffer : Runtime → Bool × Runtime
try_acquire_batch_buffer r =
    if batch_free r.batch_slots r.batch_held
    then (true, record r { batch_held = r.batch_held + 1 })
    else (false, r)

unfoldable pub release_buffer : ℕ → Bool → Runtime → Runtime
release_buffer buf batch_slot r = record r {
  batch_held = if batch_slot then r.batch_held - 1 else r.batch_held;
  pool = buf ∷ r.pool;
}

-- The number of send workers.
unfoldable pub send_workers : ℕ → ℕ → ℕ → ℕ
send_workers procs configured queue_size =
    let doubled = procs * 2 in
    let raised = if ltb doubled 4 then 4 else doubled in
    let capped = if ltb 64 raised then 64 else raised in
    let workers = if configured == 0 then capped else configured in
    if ltb queue_size workers then queue_size else workers

-- The queues of the workers from `index` on, the first `extra` of all with one slot more.
unfoldable pub new_queues : ℕ → ℕ → ℕ → ℕ → List Queue
new_queues per_shard extra index zero = []
new_queues per_shard extra index (suc n) =
    (record { capacity = if ltb index extra then per_shard + 1 else per_shard; jobs = [] })
    ∷ new_queues per_shard extra (suc index) n

unfoldable pub start_dispatcher : ℕ → ℕ → ℕ → List Queue
unfolding send_workers new_queues
start_dispatcher procs configured queue_size =
    let workers = send_workers procs configured queue_size in
    new_queues (queue_size / workers) (queue_size % workers) 0 workers

-- `startOnce.Do(r.startDispatcher)`.
unfoldable pub started : Runtime → List Queue
unfolding start_dispatcher
started r = elim r.shards [
  | some qs ↦ qs
  | none ↦
      start_dispatcher r.procs (size_of r.config.send_workers) (size_of r.config.send_queue_size)
]

abbrev pub empty_queue : Queue
empty_queue = record { capacity = 0; jobs = [] }

abbrev pub queue_at : List Queue → ℕ → Queue
queue_at [] i = empty_queue
queue_at (q ∷ qs) zero = q
queue_at (q ∷ qs) (suc i) = queue_at qs i

-- The send of a job on the channel of its worker, and whether it went through.
unfoldable pub enqueue : Job → List Queue → Runtime → Bool × Runtime
enqueue job qs r =
    let i = job.association % length qs in
    let q = queue_at qs i in
    if ltb (length q.jobs) q.capacity
    then (true, record r { shards = some (set qs i (record q { jobs = q.jobs ++ job ∷ [] })) })
    else (false, record r { shards = some qs })

-- What is counted behind it: one on the depth of the queue, or one that was dropped.
unfoldable pub count_dispatched : Bool → Runtime → Runtime
count_dispatched true r = record r {
  metrics = record r.metrics { queue_depth = one_up r.metrics.queue_depth };
}
count_dispatched false r = record r {
  metrics = record r.metrics { queue_drops = r.metrics.queue_drops + 1 };
}

abbrev counted : Bool × Runtime → Bool × Runtime
counted (queued, r) = (queued, count_dispatched queued r)

unfoldable pub dispatch : Job → Runtime → Bool × Runtime
unfolding started enqueue count_dispatched
dispatch job r = if r.ended then (false, r) else counted (enqueue job (started r) r)

-- A worker takes the oldest job of its queue.
unfoldable pub receive_job : ℕ → List Queue → Runtime → Option (Job × Runtime)
receive_job i qs r = elim ((queue_at qs i).jobs) [
  | [] ↦ none
  | job ∷ rest ↦
      some (job, record r { shards = some (set qs i (record (queue_at qs i) { jobs = rest })) })
]

-- `runSendJob` behind its count of the queue, with whether the job's context is done and
-- whether the packet was sent; what the worker does with a job left over at shutdown is a job whose
-- context is done.
unfoldable pub run_send_job : Bool → Bool → Job → Runtime → Runtime
unfolding release_buffer
run_send_job cancelled sent job r =
    let failed = record r { metrics = record r.metrics { errors = r.metrics.errors + 1 } } in
    release_buffer job.owner job.batch_slot (if cancelled then r else if sent then r else failed)
