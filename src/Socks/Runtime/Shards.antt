-- ===== src/Socks/Runtime/Shards.antt =====
-- The queues of the send workers: how many, and how long.
use outway.Base.{
  ℕ, zero, suc, ◌+◌, ◌-◌, ◌*◌, ◌/◌, ◌%◌, ◌≤◌, ◌<◌, ◌≡◌, refl, ◌∙◌, arith, List, [], ◌∷◌, length,
  set,
}
use outway.Base.{ltb_cases, inl, inr}
use native.Mathlib.Nat.{suc-mul, div-add-mod, mod-lt, mul_comm, le-div_iff_mul-le}
use outway.Socks.Runtime.{Queue, queue_at, new_queues, send_workers, start_dispatcher}

-- The slots of all queues, and the jobs in them.
abbrev pub room : List Queue → ℕ
room [] = 0
room (q ∷ qs) = q.capacity + room qs

abbrev pub backlog : List Queue → ℕ
backlog [] = 0
backlog (q ∷ qs) = length q.jobs + backlog qs

-- No queue is over its capacity.
abbrev pub Within : List Queue → Type 0
Within [] = Unit
Within (q ∷ qs) = (length q.jobs ≤ q.capacity) × Within qs

-- Every queue has at least `n` slots.
abbrev pub Wide : ℕ → List Queue → Type 0
Wide n [] = Unit
Wide n (q ∷ qs) = (n ≤ q.capacity) × Wide n qs

pub backlog-le-room : (qs : List Queue) → Within qs → backlog qs ≤ room qs
backlog-le-room [] h = omega arith
backlog-le-room (q ∷ qs) h = omega (arith, h.0, backlog-le-room qs (h.1))

length-new_queues : (p e i n : ℕ) → length (new_queues p e i n) ≡ n
unfolding new_queues
length-new_queues p e i zero = refl
length-new_queues p e i (suc n) = omega (arith, length-new_queues p e (suc i) n)

room-new_queues : (p e i n : ℕ) → room (new_queues p e i n) ≡ n * p + (e - i) - (e - (i + n))
unfolding new_queues
room-new_queues p e i zero = omega arith
room-new_queues p e i (suc n) = elim (ltb_cases i e) [
  | inl (t, h) ↦ rw t (omega (arith, room-new_queues p e (suc i) n, suc-mul n p))
  | inr (t, h) ↦ rw t (omega (arith, room-new_queues p e (suc i) n, suc-mul n p))
]

fresh-new_queues :
    (p e i n : ℕ)
    → (backlog (new_queues p e i n) ≡ 0) × Within (new_queues p e i n) × Wide p (new_queues p e i n)
unfolding new_queues
fresh-new_queues p e i zero = (refl, tt, tt)
fresh-new_queues p e i (suc n) =
    let rest = fresh-new_queues p e (suc i) n in
    elim (ltb_cases i e) [
      | inl (t, _) ↦ rw t (omega (arith, rest.0), (omega arith, rest.1), (omega arith, rest.2))
      | inr (t, _) ↦ rw t (omega (arith, rest.0), (omega arith, rest.1), (omega arith, rest.2))
    ]

Wide-mono : (n p : ℕ) (qs : List Queue) → n ≤ p → Wide p qs → Wide n qs
Wide-mono n p [] h v = tt
Wide-mono n p (q ∷ qs) h v = (omega (arith, v.0), Wide-mono n p qs h (v.1))

pub send_workers_bounds :
    (procs configured size : ℕ)
    → 1 ≤ size
    → (1 ≤ send_workers procs configured size) × (send_workers procs configured size ≤ size)
unfolding send_workers
send_workers_bounds procs configured size h = ground arith

-- The dispatcher starts at least one worker and at most one for each slot of the send queue. Their
-- queues are empty, share out exactly the configured slots, and none is without a slot.
pub start_dispatcher_lem :
    (procs configured size : ℕ)
    → 1 ≤ size
    → let qs = start_dispatcher procs configured size in
      (1 ≤ length qs)
      × (length qs ≤ size)
      × (room qs ≡ size)
      × Wide 1 qs
      × (backlog qs ≡ 0)
      × Within qs
unfolding start_dispatcher
start_dispatcher_lem procs configured size h =
    let w = send_workers procs configured size in
    let bounds = send_workers_bounds procs configured size h in
    let extra : size % w < w = mod-lt size (omega (arith, bounds)) in
    let fresh = fresh-new_queues (size / w) (size % w) 0 w in
    let share : 1 ≤ size / w =
      (le-div_iff_mul-le {k = w} (omega (arith, bounds))).1 (omega (arith, bounds)) in
    let count = length-new_queues (size / w) (size % w) 0 w in
    (
      omega (arith, count, bounds),
      omega (arith, count, bounds),
      room-new_queues (size / w) (size % w) 0 w
          ∙ omega (arith, div-add-mod size w, mul_comm w (size / w), extra),
      Wide-mono 1 (size / w) (new_queues (size / w) (size % w) 0 w) share (fresh.2),
      fresh.0,
      fresh.1,
    )

pub backlog-set :
    (qs : List Queue) (i : ℕ) (q : Queue)
    → i < length qs
    → backlog (set qs i q) + length ((queue_at qs i).jobs) ≡ backlog qs + length q.jobs
backlog-set [] i q h = omega (arith, h)
backlog-set (p ∷ qs) zero q h = omega arith
backlog-set (p ∷ qs) (suc i) q h = omega (arith, backlog-set qs i q (omega (arith, h)))

pub room-set :
    (qs : List Queue) (i : ℕ) (q : Queue)
    → q.capacity ≡ (queue_at qs i).capacity
    → room (set qs i q) ≡ room qs
room-set [] i q h = refl
room-set (p ∷ qs) zero q h = omega (arith, h)
room-set (p ∷ qs) (suc i) q h = omega (arith, room-set qs i q h)

pub Within-set :
    (qs : List Queue) (i : ℕ) (q : Queue)
    → Within qs
    → length q.jobs ≤ q.capacity
    → Within (set qs i q)
Within-set [] i q h v = tt
Within-set (p ∷ qs) zero q h v = (v, h.1)
Within-set (p ∷ qs) (suc i) q h v = (h.0, Within-set qs i q (h.1) v)

pub Within-queue_at :
    (qs : List Queue) (i : ℕ) → Within qs → length ((queue_at qs i).jobs) ≤ (queue_at qs i).capacity
Within-queue_at [] i h = omega arith
Within-queue_at (p ∷ qs) zero h = h.0
Within-queue_at (p ∷ qs) (suc i) h = Within-queue_at qs i (h.1)

-- A queue with jobs is one of the queues.
pub queue_at-inside : (qs : List Queue) (i : ℕ) → 0 < length ((queue_at qs i).jobs) → i < length qs
queue_at-inside [] i h = ground arith
queue_at-inside (p ∷ qs) zero h = omega arith
queue_at-inside (p ∷ qs) (suc i) h = omega (arith, queue_at-inside qs i h)
