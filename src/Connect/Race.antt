-- ===== src/Connect/Race.antt =====
-- internal/connect/connect.go: the loops that wait for racing dials, as machines that the messages
-- of their selects drive. A connection and an error are numbers.
pub mod Fallback
pub mod Addresses
use outway.Base.{
  ℕ, suc, ◌+◌, List, [], ◌∷◌, ◌++◌, Option, none, some, Bool, true, false, not, ◌&&◌, if◌then◌else◌,
  ltb, ◌==◌, length, take,
}
use outway.Net.{AddrPort}

pub data DialResult : Type 0 where
  conn : ℕ → DialResult
  err : ℕ → DialResult

-- What the select receives.
pub data Message : Type 0 where
  result : DialResult → Message
  timer : Message
  cancelled : ℕ → Message

-- Where the loop stands after a message: it goes on, or returns.
pub data Loop (S : Type 0) : Type 0 where
  going : S → Loop S
  connected : ℕ → Loop S
  failed : ℕ → Loop S
  no_address : Loop S

-- `connectWithCIDRFallback`.
pub record Race : Type 0 where
  pub fallback_started : Bool
  pub failures : ℕ

abbrev pub race_start : Race
race_start = record { fallback_started = false; failures = 0 }

unfoldable pub race_step : Message → Race → Loop Race
race_step (result (conn c)) s = connected c
race_step (result (err e)) s =
    let failures = suc s.failures in
    if not s.fallback_started
    then going (record { fallback_started = true; failures = failures })
    else if failures == 2
    then failed e
    else going (record { fallback_started = true; failures = failures })
race_step timer s = going (record s { fallback_started = true })
race_step (cancelled e) s = failed e

-- `connectAny`, for `total` addresses: the dials started and completed, and whether the timer
-- runs. A timer that does not run sends nothing.
pub record AnyRace : Type 0 where
  pub started : ℕ
  pub completed : ℕ
  pub armed : Bool

abbrev pub any_start : AnyRace
any_start = record { started = 1; completed = 0; armed = true }

-- `start(addrs[started]); started++` with the timer set again where addresses are left.
unfoldable pub start_next : ℕ → AnyRace → AnyRace
start_next total s = record s {
  started = suc s.started;
  armed = if ltb (suc s.started) total then true else s.armed;
}

unfoldable pub any_step : ℕ → Message → AnyRace → Loop AnyRace
unfolding start_next
any_step total (result (conn c)) s = connected c
any_step total (result (err e)) s =
    let next = record s { completed = suc s.completed } in
    if next.completed == total
    then failed e
    else if next.completed == next.started && ltb next.started total
    then going (start_next total next)
    else going next
any_step total timer s =
    if s.armed
    then (if ltb s.started total
        then going (start_next total (record s { armed = false }))
        else going (record s { armed = false }))
    else going s
any_step total (cancelled e) s = failed e

-- A loop over a list of messages.
abbrev pub continue_with : {S : Type 0} → Loop S → (S → Loop S) → Loop S
continue_with (going t) f = f t
continue_with (connected c) f = connected c
continue_with (failed e) f = failed e
continue_with no_address f = no_address

abbrev pub run : {S : Type 0} → (Message → S → Loop S) → List Message → S → Loop S
run step [] s = going s
run step (m ∷ ms) s = continue_with (step m s) (run step ms)

-- `connectAny` as a whole, for what its select receives: `plain` is a sole address dialled alone.
unfoldable pub connect_any : List AddrPort → DialResult → List Message → Loop AnyRace
unfolding any_step
connect_any [] plain ms = no_address
connect_any (a ∷ []) (conn c) ms = connected c
connect_any (a ∷ []) (err e) ms = failed e
connect_any (a ∷ b ∷ rest) plain ms = run (any_step (length (a ∷ b ∷ rest))) ms any_start
