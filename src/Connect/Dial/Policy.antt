-- ===== src/Connect/Dial/Policy.antt =====
-- A valid configuration with an IPv4 CIDR dials from that CIDR alone, or from the fallback.
use outway.Base.{
  ℕ, ◌^◌, ◌≤◌, ◌<◌, ◌≡◌, refl, sym, [], Option, none, some, Bool, true, false, Bool-cases, inl, inr,
}
use mathlib.Core.Path.{subst}
use outway.Net.{AddrPort, Prefix, v4, is4, Contains}
use outway.Config.{BootArgs, Fallback, validate}
use outway.Config.Valid.{IsRange, validate-IsBootArgs}
use outway.Ext.{Extension}
use outway.Connect.Source.{Random, assign_source_ip}
use outway.Connect.Source.Ipv4.Policy.{IsRange4, assign_ipv4_from_extension-Contains}
use outway.Connect.Dial.{
  new, Plan, mismatch, single, race, fallback_source, plan_matching, connect_addr,
}

-- How a plan for a target, of IPv4 or not, uses the CIDR and the fallback.
abbrev pub Sourced : Prefix → Option Fallback → Bool → Plan → Type 0
Sourced cidr none true (single s) = Contains cidr s.bind_ip × (s.bind_interface ≡ [])
Sourced cidr (some fb) true (race s f) =
    Contains cidr s.bind_ip × (s.bind_interface ≡ []) × (f ≡ fallback_source fb)
Sourced cidr none false mismatch = Unit
Sourced cidr (some fb) false (single s) = s ≡ fallback_source fb
Sourced _ _ _ _ = ⊥

range4 : (x n : ℕ) (m : Option ℕ) → IsRange (some (record { addr = v4 x; bits = n })) m → IsRange4 m
range4 x n none h = tt
range4 x n (some m) h = h.1

module _ (x n : ℕ) (fits : n ≤ 32) (range : x < 2 ^ 32) where
  abbrev cidr : Prefix
  cidr = record { addr = v4 x; bits = n }

  preferred :
      (m : Option ℕ) (e : Extension) (r : Random)
      → IsRange4 m
      → Contains cidr (assign_source_ip cidr m e r)
  unfolding assign_source_ip
  preferred m e r h = assign_ipv4_from_extension-Contains x n fits range m e r h

  sourced :
      (fb : Option Fallback) (m : Option ℕ) (e : Extension) (r : Random) (target : AddrPort)
      → IsRange4 m
      → Sourced cidr fb
          (is4 target.addr)
          (connect_addr (record { cidr = some cidr; cidr_range = m; fallback = fb }) e r target)
  unfolding connect_addr plan_matching
  sourced none m e r target h = elim (Bool-cases (is4 target.addr)) [
    | inl f ↦ rw f (preferred m e r h, refl)
    | inr f ↦ rw f tt
  ]
  sourced (some fb) m e r target h = elim (Bool-cases (is4 target.addr)) [
    | inl f ↦ rw f (preferred m e r h, refl, refl)
    | inr f ↦ rw f refl
  ]

  -- With a configuration that passes `Validate` and has an IPv4 CIDR, a connection to an IPv4
  -- target is first dialled from an address of that CIDR, raced with the fallback if there is
  -- one; any other target is dialled from the fallback alone, or refused without one. No source
  -- address outside the CIDR is chosen besides the fallback.
  pub validate-Sourced :
      (a : BootArgs) (e : Extension) (r : Random) (target : AddrPort)
      → validate a ≡ none
      → a.cidr ≡ some (record { addr = v4 x; bits = n })
      → Sourced
          (record { addr = v4 x; bits = n })
          a.fallback
          (is4 target.addr)
          (connect_addr (new a) e r target)
  unfolding new
  validate-Sourced a e r target valid given =
      let args = (validate-IsBootArgs a).0 valid in
      let in_range : IsRange (some cidr) a.cidr_range =
        subst (λ c. IsRange c a.cidr_range) given (args.7) in
      subst
        (λ c. Sourced cidr a.fallback (is4 target.addr) (
          connect_addr (record { cidr = c; cidr_range = a.cidr_range; fallback = a.fallback }) e r
            target))
        (sym given) (sourced a.fallback a.cidr_range e r target (range4 x n a.cidr_range in_range))
