-- ===== src/Connect/Relay/Laws.antt =====
-- What resolving a host and sending a packet end in.
use outway.Base.{ℕ, suc, ◌≡◌, refl, ◌⊎◌, inl, inr, List, [], ◌∷◌, Option, none, some}
use outway.Net.{AddrPort}
use mathlib.Core.Path.{subst}
use outway.Connect.Relay.{
  Outcome, ok, err, unresolved, send_packet_with_addr, send_any, send_packet,
}

abbrev pub Fails : Outcome ℕ → Type 0
Fails (ok n) = ⊥
Fails (err e) = Unit
Fails unresolved = Unit

abbrev pub AlsoFails : (ℕ → AddrPort → Outcome ℕ) → Option ℕ → AddrPort → Type 0
AlsoFails send none a = Unit
AlsoFails send (some s) a = Fails (send s a)

-- An address that is passed over: the context has ended, or no socket delivers there.
abbrev pub PassedOver : Option ℕ → (ℕ → AddrPort → Outcome ℕ) → ℕ → Option ℕ → AddrPort → Type 0
PassedOver (some e) send preferred fallback a = Unit
PassedOver none send preferred fallback a = Fails (send preferred a) × AlsoFails send fallback a

-- What one address gave: with the context live, the `n` bytes went out on the preferred socket, or
-- it failed and they went out on the fallback; or the address is passed over.
abbrev pub One :
    Option ℕ → (ℕ → AddrPort → Outcome ℕ) → ℕ → Option ℕ → AddrPort → Outcome ℕ → Type 0
One ended send preferred fallback a (ok n) =
    (ended ≡ none)
    × ((send preferred a ≡ ok n)
        ⊎ (Fails (send preferred a) × ((s : ℕ) × (fallback ≡ some s) × (send s a ≡ ok n))))
One ended send preferred fallback a (err e) = PassedOver ended send preferred fallback a
One ended send preferred fallback a unresolved = PassedOver ended send preferred fallback a

-- The addresses from the i-th on: one of them gave the `n` bytes and those before it are passed
-- over; or, for a failure, all of them are.
abbrev pub Sent :
    (ℕ → Option ℕ)
    → (ℕ → AddrPort → Outcome ℕ)
    → ℕ
    → Option ℕ
    → ℕ
    → List AddrPort
    → Outcome ℕ
    → Type 0
Sent ended send preferred fallback i [] (ok n) = ⊥
Sent ended send preferred fallback i (a ∷ rest) (ok n) =
    One (ended i) send preferred fallback a (ok n)
    ⊎ (PassedOver (ended i) send preferred fallback a
        × Sent ended send preferred fallback (suc i) rest (ok n))
Sent ended send preferred fallback i [] (err e) = Unit
Sent ended send preferred fallback i (a ∷ rest) (err e) =
    PassedOver (ended i) send preferred fallback a
    × Sent ended send preferred fallback (suc i) rest (err e)
Sent ended send preferred fallback i [] unresolved = Unit
Sent ended send preferred fallback i (a ∷ rest) unresolved =
    PassedOver (ended i) send preferred fallback a
    × Sent ended send preferred fallback (suc i) rest unresolved

module _ (ended : ℕ → Option ℕ) (send : ℕ → AddrPort → Outcome ℕ) (preferred : ℕ) where
  second :
      (s : ℕ) (a : AddrPort) (r : Outcome ℕ)
      → Fails (send preferred a)
      → send s a ≡ r
      → One none send preferred (some s) a r
  second s a (ok n) f e = (refl, inr (f, (s, refl, e)))
  second s a (err d) f e = (f, rw e tt)
  second s a unresolved f e = (f, rw e tt)

  live :
      (fallback : Option ℕ) (a : AddrPort) (r : Outcome ℕ)
      → send preferred a ≡ r
      → One none send preferred fallback a (send_packet_with_addr none send preferred fallback a)
  unfolding send_packet_with_addr
  live fallback a (ok n) e = rw (e, send_packet_with_addr) (refl, inl e)
  live none a (err d) e = rw (e, send_packet_with_addr) (rw e tt, tt)
  live none a unresolved e = rw (e, send_packet_with_addr) (rw e tt, tt)
  live (some s) a (err d) e = rw (e, send_packet_with_addr) (second s a (send s a) (rw e tt) refl)
  live (some s) a unresolved e =
      rw (e, send_packet_with_addr) (second s a (send s a) (rw e tt) refl)

  one :
      (context fallback : Option ℕ) (a : AddrPort)
      → One context send preferred fallback a
          (send_packet_with_addr context send preferred fallback a)
  unfolding send_packet_with_addr
  one (some e) fallback a = tt
  one none fallback a = live fallback a (send preferred a) refl

  passed :
      (fallback : Option ℕ) (i : ℕ) (a : AddrPort) (rest : List AddrPort) (r : Outcome ℕ)
      → PassedOver (ended i) send preferred fallback a
      → Sent ended send preferred fallback (suc i) rest r
      → Sent ended send preferred fallback i (a ∷ rest) r
  passed fallback i a rest (ok n) u t = inr (u, t)
  passed fallback i a rest (err e) u t = (u, t)
  passed fallback i a rest unresolved u t = (u, t)

  any :
      (fallback : Option ℕ) (i : ℕ) (addrs : List AddrPort) (last : Outcome ℕ)
      → Fails last
      → Sent ended send preferred fallback i addrs
          (send_any ended send preferred fallback i addrs last)
  unfolding send_any
  any fallback i [] (ok n) f = elim f [ ]
  any fallback i [] (err e) f = tt
  any fallback i [] unresolved f = tt
  any fallback i (a ∷ rest) last f =
      by_one (send_packet_with_addr (ended i) send preferred fallback a) refl
        (one (ended i) fallback a) (any fallback (suc i) rest)
    where
      by_one :
          (r : Outcome ℕ)
          → send_packet_with_addr (ended i) send preferred fallback a ≡ r
          → One
              (ended i)
              send
              preferred
              fallback
              a
              (send_packet_with_addr (ended i) send preferred fallback a)
          → ((l : Outcome ℕ)
              → Fails l
              → Sent ended send preferred fallback
                  (suc i)
                  rest
                  (send_any ended send preferred fallback (suc i) rest l))
          → Sent ended send preferred fallback i
              (a ∷ rest)
              (send_any ended send preferred fallback i (a ∷ rest) last)
      by_one (ok n) e o go =
          rw (e, send_any) (inl (subst (One (ended i) send preferred fallback a) e o))
      by_one (err d) e o go =
          rw (e, send_any)
            (passed fallback i a rest (send_any ended send preferred fallback (suc i) rest (err d))
              (subst (One (ended i) send preferred fallback a) e o) (go (err d) tt))
      by_one unresolved e o go =
          rw (e, send_any)
            (passed fallback i a rest
              (send_any ended send preferred fallback (suc i) rest unresolved)
              (subst (One (ended i) send preferred fallback a) e o) (go unresolved tt))

-- `SendPacket` to resolved addresses sends on the first address and socket that take the packet
-- while the context is live: the preferred socket before the fallback at each address, and no
-- address passed over unless the context had ended when it came up or both sockets failed there.
-- It fails only when every address is passed over.
pub send_packet-Sent :
    (ended : ℕ → Option ℕ) (send : ℕ → AddrPort → Outcome ℕ) (preferred : ℕ) (fallback : Option ℕ)
    (addrs : List AddrPort)
    → Sent ended send preferred fallback 0 addrs
        (send_packet ended send preferred fallback (ok addrs))
unfolding send_packet
send_packet-Sent ended send preferred fallback addrs =
    any ended send preferred fallback 0 addrs unresolved tt
