-- ===== src/Server/Accept/Limit.antt =====
-- The accept loops and handlers keep the limit on connections.
use outway.Base.{
  ℕ, suc, ◌+◌, ◌-◌, ◌≤◌, ◌≡◌, ◌≢◌, refl, sym, ap, ◌∙◌, arith, List, [], ◌∷◌, length, some,
  Option-cases,
}
use outway.Base.{Bool, true, false, Bool-cases, ==_cases, ==_false, inl, inr}
use mathlib.Core.Path.{subst}
use outway.Server.Gate.{ConnectionGate, new_connection_gate, acquire_until, release}
use outway.Server.Gate.Laws.{limited, Outcome, acquire_until_lem}
use outway.Server.Registry.{member, remove, add, ConnectionSet}
use outway.Server.Accept.{
  Server, new_server, Event, accept, register, leave, shut_down, close_shard, admit, enrol, step,
  Reachable, fresh, after,
}

-- The tokens in the gate are those of the accepted and the handled connections, within the limit.
abbrev pub IsServer : ℕ → Server → Type 0
IsServer n s =
    (s.gate ≡ limited n (length s.accepted + length s.handling))
    × (length s.accepted + length s.handling ≤ n)

length-remove : (c : ℕ) (xs : List ℕ) → member c xs ≡ true → suc (length (remove c xs)) ≡ length xs
unfolding member remove
length-remove c [] h = cc
length-remove c (x ∷ xs) h = elim (==_cases x c) [
  | inl (e, _) ↦ rw e refl
  | inr (e, _) ↦
      let rest : member c xs ≡ true = ground arith in rw e (omega (arith, length-remove c xs rest))
]

released : (n k : ℕ) (g : ConnectionGate) → g ≡ limited n k → release g ≡ limited n (k - 1)
unfolding release
released n k g h = ap release h

module _ (n : ℕ) where
  admit-IsServer :
      (conn : ℕ) (woken done : Bool) (s : Server) (r : Bool × ConnectionGate)
      → IsServer n s
      → Outcome n (length s.accepted + length s.handling) woken done (some r)
      → IsServer n (admit conn s r)
  admit-IsServer conn woken done s (true, g) v o =
      (o.1 ∙ ap (limited n) (omega arith), omega (arith, o.2))
  admit-IsServer conn woken done s (false, g) v o = (o, v.1)

  enrol-IsServer :
      (conn : ℕ) (s : Server) (r : Bool × ConnectionSet)
      → IsServer n s
      → member conn s.accepted ≡ true
      → IsServer n (enrol conn s r)
  enrol-IsServer conn s (true, set) v h =
      let one = length-remove conn s.accepted h in
      (v.0 ∙ ap (limited n) (omega (arith, one)), omega (arith, one, v.1))
  enrol-IsServer conn s (false, set) v h =
      let one = length-remove conn s.accepted h in
      (
        released n (length s.accepted + length s.handling) s.gate (v.0)
            ∙ ap (limited n) (omega (arith, one)),
        omega (arith, one, v.1),
      )

  step-IsServer : (e : Event) (s t : Server) → IsServer n s → step e s ≡ some t → IsServer n t
  unfolding step
  step-IsServer (accept conn woken) s t v h =
      let held = length s.accepted + length s.handling in
      elim (Option-cases (acquire_until woken s.conns.done s.gate)) [
        | inl e ↦ ground arith
        | inr (r, e) ↦
            let outcome : Outcome n held woken s.conns.done (some r) =
              subst (Outcome n held woken s.conns.done)
                (ap (acquire_until woken s.conns.done) (sym (v.0)) ∙ e)
                (acquire_until_lem n held woken s.conns.done (v.1)) in
            let next : admit conn s r ≡ t = ground arith in
            subst (IsServer n) next (admit-IsServer conn woken s.conns.done s r v outcome)
      ]
  step-IsServer (register conn) s t v h = elim (Bool-cases (member conn s.accepted)) [
    | inr e ↦ ground arith
    | inl e ↦
        let next : enrol conn s (add conn s.conns) ≡ t = ground arith in
        subst (IsServer n) next (enrol-IsServer conn s (add conn s.conns) v e)
  ]
  step-IsServer (leave conn) s t v h = elim (Bool-cases (member conn s.handling)) [
    | inr e ↦ ground arith
    | inl e ↦
        let one = length-remove conn s.handling e in
        let gate : t.gate ≡ release s.gate = ground arith in
        let left : t.handling ≡ remove conn s.handling = ground arith in
        let same : t.accepted ≡ s.accepted = ground arith in
        (
          gate
              ∙ released n (length s.accepted + length s.handling) s.gate (v.0)
              ∙ rw (left, same) (ap (limited n) (omega (arith, one))),
          rw (left, same) (omega (arith, one, v.1)),
        )
  ]
  step-IsServer shut_down s t v h =
      let gate : t.gate ≡ s.gate = ground arith in
      let one : t.accepted ≡ s.accepted = ground arith in
      let two : t.handling ≡ s.handling = ground arith in rw (gate, one, two) v
  step-IsServer (close_shard i) s t v h =
      let gate : t.gate ≡ s.gate = ground arith in
      let one : t.accepted ≡ s.accepted = ground arith in
      let two : t.handling ≡ s.handling = ground arith in rw (gate, one, two) v

  Reachable-IsServer : (start s : Server) → IsServer n start → Reachable start s → IsServer n s
  Reachable-IsServer start s v fresh = v
  Reachable-IsServer start t v (after {s = s} e r h) =
      step-IsServer e s t (Reachable-IsServer start s v r) h

-- However accepts, registrations, handlers and shutdown interleave, the connections that are
-- accepted or handled are at most the configured limit, and no token of the gate is lost: it
-- holds exactly one for each of them.
pub Reachable-IsServer_new :
    (concurrent : ℕ) (s : Server)
    → concurrent ≢ 0
    → Reachable (new_server concurrent) s
    → (length s.accepted + length s.handling ≤ concurrent)
      × (s.gate.held ≡ length s.accepted + length s.handling)
unfolding new_server new_connection_gate
Reachable-IsServer_new concurrent s some_limit r =
    let start : IsServer concurrent (new_server concurrent) =
      (rw (==_false concurrent 0 some_limit) refl, omega arith) in
    let v = Reachable-IsServer concurrent (new_server concurrent) s start r in
    (v.1, ap (λ (g : ConnectionGate). g.held) (v.0))
