-- ===== src/Ota/Invariant.antt =====
-- firmware/src/core0/ota.rs: what holds of the receiver between two calls, after any calls at all.
use sand_os.Base.{
  ℕ, ◌^◌, ◌≤◌, ◌<◌, ◌≡◌, ◌≢◌, ◌⊎◌, inl, inr, arith, List, [], ◌∷◌, length, length-replicate,
  length-splice, All, All-replicate, All-splice, All-drop, drop, ◌==◌, Bool-cases,
}
use sand_os.Base.Bytes.{IsByte}
use sand_os.Abi.OtaStatus.{idle, receiving, ready, swapping, ota_max_binary_size}
use sand_os.Abi.Telemetry.{read_u32}
use sand_os.Abi.Command.{ota_begin, ota_chunk, ota_finalize}
use sand_os.Ota.{
  OtaReceiver, new, handle_begin, handle_chunk, handle_finalize, handle_command,
  take_verified_binary, reset_failed,
}

-- The buffer always has the declared size, which never passes the limit; `Swapping` is not seen
-- between calls; a session has a size, and an idle receiver has nothing staged.
pub record IsValid (r : OtaReceiver) : Type 0 where
  pub sized : length r.buffer ≡ r.total_size
  pub limited : r.total_size ≤ ota_max_binary_size
  pub settled : r.state ≢ swapping
  pub session : (r.state ≡ receiving) ⊎ (r.state ≡ ready) → 0 < r.total_size
  pub quiet : r.state ≡ idle → (r.total_size ≡ 0) × (r.bytes_received ≡ 0)
  pub counted : r.bytes_received < 2 ^ 32
  pub swaps : r.swap_count < 2 ^ 32
  pub bytes : All IsByte r.buffer

pub new-IsValid : IsValid new
unfolding new
new-IsValid = ground arith

handle_begin-IsValid :
    (payload : List ℕ) (r : OtaReceiver) → IsValid r → IsValid (handle_begin payload r).1
unfolding handle_begin
handle_begin-IsValid payload r v = ground (
  arith,
  length-replicate {A = ℕ} (read_u32 payload 0) 0,
  All-replicate IsByte (read_u32 payload 0) 0 (omega arith),
)

handle_chunk-IsValid :
    (payload : List ℕ) (r : OtaReceiver)
    → All IsByte payload
    → IsValid r
    → IsValid (handle_chunk payload r).1
unfolding handle_chunk
handle_chunk-IsValid payload r a v = ground (
  arith,
  length-splice r.buffer (read_u32 payload 0) (drop 4 payload),
  All-splice IsByte r.buffer (read_u32 payload 0) (drop 4 payload) v.bytes
      (All-drop IsByte 4 payload a),
)

handle_finalize-IsValid :
    (payload : List ℕ) (r : OtaReceiver) → IsValid r → IsValid (handle_finalize payload r).1
unfolding handle_finalize
handle_finalize-IsValid payload r v = ground arith

-- A command does what its handler does, and any other identifier does nothing.
pub handle_command_cases {ℓ} :
    (P : OtaReceiver → Type ℓ) (cmd_id : ℕ) (payload : List ℕ) (r : OtaReceiver)
    → P r
    → P (handle_begin payload r).1
    → P (handle_chunk payload r).1
    → P (handle_finalize payload r).1
    → P (handle_command cmd_id payload r).1
unfolding handle_command
handle_command_cases P cmd_id payload r other b c f = elim (Bool-cases (cmd_id == ota_begin)) [
  | inl is_begin ↦ rw is_begin b
  | inr no_begin ↦ elim (Bool-cases (cmd_id == ota_chunk)) [
    | inl is_chunk ↦ rw (no_begin, is_chunk) c
    | inr no_chunk ↦ elim (Bool-cases (cmd_id == ota_finalize)) [
      | inl is_finalize ↦ rw (no_begin, no_chunk, is_finalize) f
      | inr no_finalize ↦ rw (no_begin, no_chunk, no_finalize) other
    ]
  ]
]

-- A call of one of the receiver's methods that change it.
pub data Event : Type 0 where
  command : ℕ → List ℕ → Event
  take reset : Event

unfoldable pub step : Event → OtaReceiver → OtaReceiver
step (command cmd_id payload) r = (handle_command cmd_id payload r).1
step take r = (take_verified_binary r).1
step reset r = reset_failed r

unfoldable pub run : List Event → OtaReceiver → OtaReceiver
run [] r = r
run (e ∷ es) r = run es (step e r)

-- The payload of a command is a slice of bytes.
abbrev pub IsEvent : Event → Type 0
IsEvent (command cmd_id payload) = All IsByte payload
IsEvent take = Unit
IsEvent reset = Unit

-- Each call keeps the invariant, whatever the command identifier, the payload and the state.
pub step-IsValid : (e : Event) (r : OtaReceiver) → IsEvent e → IsValid r → IsValid (step e r)
unfolding step
step-IsValid (command cmd_id payload) r a v =
    handle_command_cases IsValid cmd_id payload r v (handle_begin-IsValid payload r v)
      (handle_chunk-IsValid payload r a v) (handle_finalize-IsValid payload r v)
step-IsValid take r a v = unfold take_verified_binary in ground arith
step-IsValid reset r a v = unfold reset_failed in ground arith

run_from-IsValid :
    (es : List Event) (r : OtaReceiver) → All IsEvent es → IsValid r → IsValid (run es r)
unfolding run
run_from-IsValid [] r a v = v
run_from-IsValid (e ∷ es) r a v = run_from-IsValid es (step e r) a.1 (step-IsValid e r a.0 v)

-- After any sequence of commands, hand-overs and resets, with any payloads, the staging buffer has
-- the declared size and holds bytes, the size is within the limit, the state is not `Swapping`, an
-- open or verified session has a size, an idle receiver has nothing staged, and the counters are
-- u32 values.
pub run-IsValid : (es : List Event) → All IsEvent es → IsValid (run es new)
run-IsValid es a = run_from-IsValid es new a new-IsValid
