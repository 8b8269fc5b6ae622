-- ===== src/Socks/Reader/Slots.antt =====
-- Every buffer that a batched read takes comes back: with a packet, or to the pool.
use outway.Base.{
  ℕ, zero, suc, ◌+◌, ◌-◌, ◌≤◌, ◌<◌, ◌≡◌, refl, sym, ap, ◌∙◌, arith, List, [], ◌∷◌, Bool, true,
  false, ◌||◌, if◌then◌else◌, ◌==◌, ltb, length, Bool-cases, ==_cases, inl, inr,
}
use outway.Socks.Runtime.{Runtime, release_buffer, try_acquire_batch_buffer}
use outway.Socks.Inbound.{ReadPacket, Batch, packets, failed}
use outway.Socks.Reader.{
  Buffer, Message, Got, message, broken, Drain, drained, again, refused, acquire_slots,
  release_from, drained_packets, whole, after_drain, read_batch,
}
use outway.Socks.Runtime.{batch_free}
use native.Mathlib.Nat.{suc-add}
use outway.Socks.Inbound.Owners.{hit, in_runtime, in_reads, in_batch}

-- How often a buffer is among the first `k` from the i-th on.
abbrev pub in_pooled : ℕ → (ℕ → Buffer) → ℕ → ℕ → ℕ
in_pooled b pooled i zero = 0
in_pooled b pooled i (suc k) = hit b (pooled i).owner + in_pooled b pooled (suc i) k

in_pooled_add :
    (b : ℕ) (pooled : ℕ → Buffer) (i m k : ℕ)
    → in_pooled b pooled i (m + k) ≡ in_pooled b pooled i m + in_pooled b pooled (m + i) k
in_pooled_add b pooled i zero k =
    let (none_more, none_after) : (0 + k ≡ k) × (0 + i ≡ i) = (omega arith, omega arith) in
    rw (none_more, none_after) (omega arith)
in_pooled_add b pooled i (suc m) k =
    let shift : m + suc i ≡ suc m + i = omega arith in
    rw (suc-add)
      (omega (arith, in_pooled_add b pooled (suc i) m k, ap (λ j. in_pooled b pooled j k) shift))

-- The packets of a batch that hold a slot.
abbrev slot : Bool → ℕ
slot true = 1
slot false = 0

abbrev pub slots_of : List ReadPacket → ℕ
slots_of [] = 0
slots_of (p ∷ ps) = slot p.batch_slot + slots_of ps

abbrev pub slots_in : Batch → ℕ
slots_in (packets ps) = slots_of ps
slots_in (failed quiet) = 0

acquire_slots_lem :
    (b k : ℕ) (r : Runtime)
    → let (n, s) = acquire_slots k r in
      (n ≤ k) × (s.batch_held ≡ r.batch_held + n) × (in_runtime b s ≡ in_runtime b r)
unfolding acquire_slots
acquire_slots_lem b zero r = (omega arith, omega arith, refl)
acquire_slots_lem b (suc k) r =
    let rest = acquire_slots_lem b k ((try_acquire_batch_buffer r).1) in
    elim (Bool-cases (batch_free r.batch_slots r.batch_held)) [
      | inl e ↦
          let taken : try_acquire_batch_buffer r
              ≡ (true, record r { batch_held = r.batch_held + 1 }) =
            unfold try_acquire_batch_buffer in rw e refl in
          let more = acquire_slots_lem b k (record r { batch_held = r.batch_held + 1 }) in
          rw taken (omega (arith, more.0), omega (arith, more.1), omega (arith, more.2))
      | inr e ↦
          let full : try_acquire_batch_buffer r ≡ (false, r) =
            unfold try_acquire_batch_buffer in rw e refl in
          rw full (omega arith, omega arith, refl)
    ]

release_from_lem :
    (b : ℕ) (pooled : ℕ → Buffer) (i k : ℕ) (r : Runtime)
    → let s = release_from pooled i k r in
      (in_runtime b s ≡ in_runtime b r + in_pooled b pooled i k) × (s.batch_held ≡ r.batch_held - k)
unfolding release_from
release_from_lem b pooled i zero r = (omega arith, omega arith)
release_from_lem b pooled i (suc k) r =
    let rest = release_from_lem b pooled (suc i) k (release_buffer (pooled i).owner true r) in
    unfold release_buffer in (omega (arith, rest.0), omega (arith, rest.1))

drained_packets_lem :
    (b limit : ℕ) (pooled : ℕ → Buffer) (i : ℕ) (ms : List Message)
    → let ps = drained_packets limit pooled i ms in
      (in_reads b ps ≡ in_pooled b pooled i (length ms)) × (slots_of ps ≡ length ms)
unfolding drained_packets
drained_packets_lem b limit pooled i [] = (refl, refl)
drained_packets_lem b limit pooled i (m ∷ ms) =
    let rest = drained_packets_lem b limit pooled (suc i) ms in
    (omega (arith, rest.0), omega (arith, rest.1))

-- Documented of recvmmsg: it gives no more messages than there are buffers.
abbrev pub Fits : (ℕ → Drain) → Type 0
Fits drain = (n : ℕ) (ms : List Message) → drain n ≡ drained ms → length ms ≤ n

after_drain_lem :
    (first : ReadPacket) (limit : ℕ) (pooled : ℕ → Buffer) (disabled : Bool) (extra : ℕ)
    (r : Runtime) (d : Drain) (b : ℕ)
    → first.owner ≡ (pooled 0).owner
    → first.batch_slot ≡ false
    → ((ms : List Message) → d ≡ drained ms → length ms ≤ extra)
    → extra ≤ r.batch_held
    → let (batch, off, s) = after_drain first limit pooled disabled extra r d in
      (in_runtime b s + in_batch b batch ≡ in_runtime b r + in_pooled b pooled 0 (suc extra))
      × (s.batch_held ≡ r.batch_held - extra + slots_in batch)
unfolding after_drain
after_drain_lem first limit pooled disabled extra r again b e f fits held =
    let freed = release_from_lem b pooled 1 extra r in
    rw (e, f) (omega (arith, freed.0), omega (arith, freed.1))
after_drain_lem first limit pooled disabled extra r refused b e f fits held =
    let freed = release_from_lem b pooled 1 extra r in
    rw (e, f) (omega (arith, freed.0), omega (arith, freed.1))
after_drain_lem first limit pooled disabled extra r (drained ms) b e f fits held =
    let n = length ms in
    let within = fits ms refl in
    let freed = release_from_lem b pooled (n + 1) (extra - n) r in
    let read = drained_packets_lem b limit pooled 1 ms in
    let whole : n + (extra - n) ≡ extra = omega (arith, within) in
    let parts : in_pooled b pooled 1 extra
        ≡ in_pooled b pooled 1 n + in_pooled b pooled (n + 1) (extra - n) =
      ap (in_pooled b pooled 1) (sym whole) ∙ in_pooled_add b pooled 1 n (extra - n) in
    rw (e, f) (omega (arith, freed.0, read.0, parts), omega (arith, freed.1, read.1, within, held))

-- How many buffers beside the first a batched read gets slots for: none after a failed read, for
-- batches of one or with batching disabled.
abbrev pub extra_taken : ℕ → Bool → Got → Runtime → ℕ
extra_taken batch_size disabled (broken quiet) r = 0
extra_taken batch_size disabled (message m size) r =
    if batch_size == 1 then 0 else if disabled then 0 else (acquire_slots (batch_size - 1) r).0

-- A batched read, whatever the socket gives: it takes the first buffer and as many others as it
-- gets slots for, fewer than the batch size; each buffer taken is then with one packet or back in
-- the pool, and no other is; and of the slots for batch buffers exactly one is held for each packet
-- that says so. The batch size is at least one, and the socket is documented to give no more
-- messages than it is given buffers.
pub read_batch-slots :
    (batch_size : ℕ) (disabled : Bool) (limit : ℕ) (pooled : ℕ → Buffer) (got : Got)
    (drain : ℕ → Drain) (r : Runtime) (b : ℕ)
    → 1 ≤ batch_size
    → Fits drain
    → let (batch, off, s) = read_batch batch_size disabled limit pooled got drain r in
      let taken = extra_taken batch_size disabled got r in
      (taken < batch_size)
      × (in_runtime b s + in_batch b batch ≡ in_runtime b r + in_pooled b pooled 0 (suc taken))
      × (s.batch_held ≡ r.batch_held + slots_in batch)
unfolding read_batch
read_batch-slots batch_size disabled limit pooled (broken quiet) drain r b pos fits =
    (omega (arith, pos), omega arith, omega arith)
read_batch-slots batch_size disabled limit pooled (message m size) drain r b pos fits =
    let (extra, s) = acquire_slots (batch_size - 1) r in
    let got = acquire_slots_lem b (batch_size - 1) r in
    elim (==_cases batch_size 1) [
      | inl (e, _) ↦ rw e (omega (arith, pos), omega arith, omega arith)
      | inr (e, _) ↦ elim (Bool-cases disabled) [
        | inl f ↦ rw (e, f) (omega (arith, pos), omega arith, omega arith)
        | inr f ↦ elim (==_cases extra 0) [
          | inl (g, none_taken) ↦
              rw (e, f, g)
                (rw none_taken
                  (omega (arith, pos), omega (arith, got.2), omega (arith, got.1, none_taken)))
          | inr (g, _) ↦
              let done =
                after_drain_lem (whole (pooled 0) m m.n (m.cut || ltb limit m.n)) limit pooled false
                  extra s (drain extra) b refl refl (λ ms h. fits extra ms h)
                  (omega (arith, got.1)) in
              rw (e, f, g)
                (
                  omega (arith, got.0, pos),
                  done.0 ∙ omega (arith, got.2),
                  omega (arith, done.1, got.1),
                )
        ]
      ]
    ]
