-- ===== src/Ota/Verify.antt =====
-- firmware/src/core0/ota.rs: no binary is handed over without its checksum.
use sand_os.Base.{ℕ, ◌≡◌, ◌⊎◌, refl, sym, ap, ◌∙◌, inl, inr, arith, List, [], ◌∷◌, some}
use sand_os.Abi.OtaStatus.{ready}
use sand_os.Abi.Telemetry.{read_u32}
use sand_os.Abi.Crc.{crc32}
use sand_os.Abi.Command.{ota_finalize}
use sand_os.Ota.{
  OtaReceiver, new, ready_binary, handle_begin, handle_chunk, handle_finalize, handle_command,
  take_verified_binary, reset_failed,
}
use sand_os.Ota.Invariant.{Event, command, take, reset, step, run}
use mathlib.Core.List.{Memᴰ}

-- How a call can leave the receiver ready: it was, and its buffer is the same, or the call is an
-- OTA_FINALIZE that carries the buffer's checksum.
abbrev Earned : Event → OtaReceiver → OtaReceiver → Type 0
Earned e r r' =
    ((payload : List ℕ) × (e ≡ command ota_finalize payload)
      × (crc32 r'.buffer ≡ read_u32 payload 0))
    ⊎ ((r.state ≡ ready) × (r'.buffer ≡ r.buffer))

begin_keeps :
    (p : List ℕ) (r : OtaReceiver)
    → (handle_begin p r).1.state ≡ ready
    → (r.state ≡ ready) × ((handle_begin p r).1.buffer ≡ r.buffer)
unfolding handle_begin
begin_keeps p r h = ground arith

chunk_keeps :
    (p : List ℕ) (r : OtaReceiver)
    → (handle_chunk p r).1.state ≡ ready
    → (r.state ≡ ready) × ((handle_chunk p r).1.buffer ≡ r.buffer)
unfolding handle_chunk
chunk_keeps p r h = ground arith

finalize_earns :
    (p : List ℕ) (r : OtaReceiver)
    → (handle_finalize p r).1.state ≡ ready
    → (crc32 (handle_finalize p r).1.buffer ≡ read_u32 p 0)
      ⊎ ((r.state ≡ ready) × ((handle_finalize p r).1.buffer ≡ r.buffer))
unfolding handle_finalize
finalize_earns p r h = ground arith

step-Earned : (e : Event) (r : OtaReceiver) → (step e r).state ≡ ready → Earned e r (step e r)
unfolding step handle_command
step-Earned (command cmd_id p) r h =
    ground (arith, begin_keeps p r, chunk_keeps p r, finalize_earns p r)
step-Earned take r h = unfold take_verified_binary in ground arith
step-Earned reset r h = unfold reset_failed in ground arith

-- A trace that ends ready holds an OTA_FINALIZE that carries the checksum of the staged binary, or
-- started ready with that binary.
earned_from :
    (es : List Event) (r : OtaReceiver)
    → (run es r).state ≡ ready
    → ((payload : List ℕ) × Memᴰ (command ota_finalize payload) es
        × (crc32 (run es r).buffer ≡ read_u32 payload 0))
      ⊎ ((r.state ≡ ready) × ((run es r).buffer ≡ r.buffer))
unfolding run
earned_from [] r h = inr (h, refl)
earned_from (e ∷ es) r h = elim (earned_from es (step e r) h) [
  | inl (p, m, c) ↦ inl (p, Memᴰ.tail m, c)
  | inr (was_ready, same) ↦ elim (step-Earned e r was_ready) [
    | inl (p, is_finalize, c) ↦ inl (p, Memᴰ.head (sym is_finalize), ap crc32 same ∙ c)
    | inr (before, kept) ↦ inr (before, same ∙ kept)
  ]
]

-- Whenever the receiver offers a binary, after any sequence of calls, one of those calls was an
-- OTA_FINALIZE command whose payload carries the CRC-32 of exactly the bytes that it offers.
pub ready_binary-verified :
    (es : List Event) (binary : List ℕ)
    → ready_binary (run es new) ≡ some binary
    → (payload : List ℕ) × Memᴰ (command ota_finalize payload) es
      × (crc32 binary ≡ read_u32 payload 0)
ready_binary-verified es binary h = elim (earned_from es new offered) [
  | inl (p, m, c) ↦ (p, m, ap crc32 (sym same) ∙ c)
  | inr (fresh, kept) ↦ unfold new in cc
]
  where
    offered : (run es new).state ≡ ready
    offered = unfold ready_binary in ground arith

    same : (run es new).buffer ≡ binary
    same = unfold ready_binary in ground arith
