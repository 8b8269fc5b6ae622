-- ===== src/Socks/Responder/Owners.antt =====
-- Every pooled buffer that the responder reads into is put back once, whatever the writes give.
use outway.Base.{
  ℕ, zero, suc, ◌+◌, ◌≡◌, refl, ◌∙◌, arith, List, [], ◌∷◌, Bool, true, false, not, ◌||◌, ◌==◌,
  length, Bool-cases, inl, inr,
}
use outway.Net.{AddrPort}
use outway.Socks.Gso.{WritePacket}
use outway.Socks.Runtime.{Runtime, release_buffer}
use outway.Socks.Inbound.{ReadPacket, Batch, packets, failed}
use outway.Socks.Inbound.Owners.{in_runtime, in_reads, in_batch, in_writes}
use outway.Socks.Responder.{Tally, collect, settle, count_error, pump_once}

owners-collect :
    (b : ℕ) (client : AddrPort) (ps : List ReadPacket) (r : Runtime)
    → in_runtime b ((collect client ps r).1) + in_writes b ((collect client ps r).0).writes
      ≡ in_runtime b r + in_reads b ps
unfolding collect release_buffer
owners-collect b client [] r = omega arith
owners-collect b client (packet ∷ rest) r = elim (Bool-cases packet.truncated) [
  | inl e ↦ rw e (omega (arith, owners-collect b client rest _))
  | inr e ↦ elim (Bool-cases (client.port == 0)) [
    | inl f ↦ rw (e, f) (omega (arith, owners-collect b client rest _))
    | inr f ↦ rw (e, f) (omega (arith, owners-collect b client rest r))
  ]
]

owners-settle :
    (b written : ℕ) (ws : List WritePacket) (ns : List ℕ) (t : Tally) (r : Runtime)
    → in_runtime b ((settle written ws ns (t, r)).1) ≡ in_runtime b r + in_writes b ws
unfolding settle release_buffer
owners-settle b written [] ns t r = omega arith
owners-settle b written (w ∷ ws) [] t r = omega (arith, owners-settle b written ws [] t _)
owners-settle b zero (w ∷ ws) (n ∷ ns) t r = omega (arith, owners-settle b zero ws ns t _)
owners-settle b (suc written) (w ∷ ws) (n ∷ ns) t r =
    omega (arith, owners-settle b written ws ns _ _)

owners-count_error :
    (b : ℕ) (e : Bool) (r : Runtime) → in_runtime b (count_error e r) ≡ in_runtime b r
owners-count_error b true r = refl
owners-count_error b false r = refl

-- Whatever a batch of answers holds, wherever the client is, and whatever the write of them gives:
-- each pooled buffer is back in the pool exactly as many more times as the batch had it.
pub pump_once-owners :
    (client : AddrPort) (write : List WritePacket → ℕ × Bool) (now last : ℕ) (batch : Batch)
    (r : Runtime) (b : ℕ)
    → in_runtime b ((pump_once client write now batch last r).2) ≡ in_runtime b r + in_batch b batch
unfolding pump_once
pump_once-owners client write now last (failed quiet) r b =
    owners-count_error b (not quiet) r ∙ omega arith
pump_once-owners client write now last (packets ps) r b =
    let answers = (collect client ps r).0 in
    let written = (write answers.writes).0 in
    owners-count_error b ((write answers.writes).1 || not (written == length answers.writes)) _
    ∙ omega (
      arith,
      owners-settle b written answers.writes answers.payload_bytes
          (record { out_packets = 0; out_bytes = 0 }) ((collect client ps r).1),
      owners-collect b client ps r,
    )
