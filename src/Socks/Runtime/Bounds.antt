-- ===== src/Socks/Runtime/Bounds.antt =====
-- What the shared runtime keeps within its limits, and that each step does.
use outway.Base.{ℕ, ◌+◌, ◌-◌, ◌≤◌, ◌≡◌, arith, List, length}
use outway.Base.{
  Option, none, some, Bool, true, false, Bool-cases, ltb_cases, inl, inr, if◌then◌else◌, ltb,
}
use outway.Socks.Runtime.{Queue, size_of, try_acquire_batch_buffer, batch_free, release_buffer}
use outway.Socks.Runtime.Steps.{System, claim_slot, recheck_lifetime}
use outway.Socks.Runtime.Shards.{room, backlog, Within}

-- The batch buffers held are within the budget, none where there is no budget.
abbrev pub IsBudget : Option ℕ → ℕ → Type 0
IsBudget none held = held ≡ 0
IsBudget (some n) held = held ≤ n

-- The queues, once started, have the configured slots in all, and none is over its own.
abbrev pub IsQueues : ℕ → Option (List Queue) → Type 0
IsQueues size none = Unit
IsQueues size (some qs) = Within qs × (room qs ≡ size) × (1 ≤ length qs)

-- The jobs that wait.
abbrev pub waiting_in : Option (List Queue) → ℕ
waiting_in none = 0
waiting_in (some qs) = backlog qs

-- A slot is held from the claim to its return; an association is active from its count to the count
-- at its end; a job is on the depth from its count to that of the worker. So each count differs from
-- what it counts by the goroutines that are between the two.
pub record IsSystem (limit size : ℕ) (s : System) : Type 0 where
  pub limited : s.runtime.max_associations ≡ limit
  pub slots : s.runtime.association_slots ≤ s.runtime.max_associations
  pub held :
      s.runtime.association_slots
      ≡ s.claimed + s.backing_out + s.admitted + s.counted + s.numbering + s.running
  pub active :
      s.runtime.metrics.active_associations.added
      ≡ s.runtime.metrics.active_associations.taken + s.counted + s.numbering + s.running
        + s.leaving
  pub total : s.runtime.metrics.total_associations ≡ s.runtime.sequence + s.numbering
  pub budget : IsBudget s.runtime.batch_slots s.runtime.batch_held
  pub sized : size_of s.runtime.config.send_queue_size ≡ size
  pub queues : IsQueues size s.runtime.shards
  pub depth :
      s.runtime.metrics.queue_depth.added + s.posted
      ≡ s.runtime.metrics.queue_depth.taken + length s.received + waiting_in s.runtime.shards

module _ (limit size : ℕ) (some_slots : 1 ≤ size) where
  pub claim-IsSystem :
      (s : System)
      → IsSystem limit size s
      → ltb 0 s.entering ≡ true
      → IsSystem limit size (claim_slot s)
  claim-IsSystem s v e = elim (ltb_cases s.runtime.association_slots s.runtime.max_associations) [
    | inl (f, free) ↦ rw f (ground arith)
    | inr (f, _) ↦ rw f (ground arith)
  ]

  pub recheck-IsSystem :
      (s : System)
      → IsSystem limit size s
      → ltb 0 s.claimed ≡ true
      → IsSystem limit size (recheck_lifetime s)
  recheck-IsSystem s v e = elim (Bool-cases s.runtime.ended) [
    | inl f ↦ rw f (ground arith)
    | inr f ↦ rw f (ground arith)
  ]

  pub acquire-IsSystem :
      (s : System)
      → IsSystem limit size s
      → IsSystem limit size (record s { runtime = (try_acquire_batch_buffer s.runtime).1 })
  unfolding try_acquire_batch_buffer
  acquire-IsSystem s v = elim (Bool-cases (batch_free s.runtime.batch_slots s.runtime.batch_held)) [
    | inr e ↦ rw e (ground arith)
    | inl e ↦ rw e (record {
      limited = v.limited;
      slots = v.slots;
      held = v.held;
      active = v.active;
      total = v.total;
      budget = raise s.runtime.batch_slots s.runtime.batch_held e v.budget;
      sized = v.sized;
      queues = v.queues;
      depth = v.depth;
    })
  ]
    where
      raise : (b : Option ℕ) (k : ℕ) → batch_free b k ≡ true → IsBudget b k → IsBudget b (k + 1)
      raise none k e h = cc
      raise (some n) k e h = ground arith

  pub release-IsSystem :
      (buf : ℕ) (slot : Bool) (s : System)
      → IsSystem limit size s
      → IsSystem limit size (record s { runtime = release_buffer buf slot s.runtime })
  unfolding release_buffer
  release-IsSystem buf slot s v = record {
    limited = v.limited;
    slots = v.slots;
    held = v.held;
    active = v.active;
    total = v.total;
    budget = lower slot s.runtime.batch_slots s.runtime.batch_held v.budget;
    sized = v.sized;
    queues = v.queues;
    depth = v.depth;
  }
    where
      lower :
          (slot : Bool) (b : Option ℕ) (k : ℕ)
          → IsBudget b k
          → IsBudget b (if slot then k - 1 else k)
      lower true none k h = omega (arith, h)
      lower true (some n) k h = omega (arith, h)
      lower false b k h = h
