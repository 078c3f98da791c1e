-- ===== src/Ota.antt =====
-- firmware/src/core0/ota.rs: the receiver of a new Wasm binary, its staging buffer and its states.
pub mod Invariant
pub mod Verify
pub mod Chunks
pub mod Transfer
pub mod Graph
use sand_os.Base.{
  ℕ, suc, ◌+◌, ◌-◌, ◌%◌, ◌^◌, min, List, [], ◌∷◌, Option, none, some, Bool, true, false, not, ◌||◌,
  ltb, ◌==◌, if◌then◌else◌, length, drop, replicate, splice,
}
use sand_os.Abi.OtaStatus.{
  OtaState, idle, receiving, ready, swapping, failed, is_receiving, is_ready, is_swapping,
  is_failed, ota_max_binary_size,
}
use sand_os.Abi.Telemetry.{read_u32}
use sand_os.Abi.Crc.{crc32}
use sand_os.Abi.Command.{ota_begin, ota_chunk, ota_finalize}

pub record OtaReceiver : Type 0 where
  pub state : OtaState
  pub buffer : List ℕ
  pub total_size : ℕ
  pub bytes_received : ℕ
  pub swap_count : ℕ

unfoldable pub new : OtaReceiver
new = record { state = idle; buffer = []; total_size = 0; bytes_received = 0; swap_count = 0 }

unfoldable pub ready_binary : OtaReceiver → Option (List ℕ)
ready_binary r = if is_ready r.state then some r.buffer else none

abbrev pub fail : OtaReceiver → Bool × OtaReceiver
fail r = (false, record r { state = failed })

unfoldable pub handle_begin : List ℕ → OtaReceiver → Bool × OtaReceiver
handle_begin payload r =
    let total = read_u32 payload 0 in
    if ltb (length payload) 4
    then fail r
    else if total == 0 || ltb ota_max_binary_size total
    then fail r
    else if is_swapping r.state
    then (false, r)
    else (
      true,
      record r {
        buffer = replicate total 0;
        total_size = total;
        bytes_received = 0;
        state = receiving;
      },
    )

-- `usize::saturating_add` on the 32-bit target.
abbrev pub saturating_add : ℕ → ℕ → ℕ
saturating_add a b = min (a + b) (2 ^ 32 - 1)

-- `bytes_received +=` wraps, as in the release profile.
unfoldable pub handle_chunk : List ℕ → OtaReceiver → Bool × OtaReceiver
handle_chunk payload r =
    let offset = read_u32 payload 0 in
    let bytes = drop 4 payload in
    let end = saturating_add offset (length bytes) in
    if not (is_receiving r.state)
    then (false, r)
    else if ltb (length payload) 5
    then (false, r)
    else if ltb r.total_size end
    then fail r
    else (
      true,
      record r {
        buffer = splice r.buffer offset bytes;
        bytes_received = (r.bytes_received + length bytes) % 2 ^ 32;
      },
    )

unfoldable pub handle_finalize : List ℕ → OtaReceiver → Bool × OtaReceiver
handle_finalize payload r =
    let expected = read_u32 payload 0 in
    let actual = crc32 r.buffer in
    if not (is_receiving r.state)
    then (false, r)
    else if ltb (length payload) 4
    then fail r
    else if not (actual == expected)
    then fail r
    else (true, record r { state = ready })

-- The Boolean says whether the command is an OTA command, whatever its handler answered.
unfoldable pub handle_command : ℕ → List ℕ → OtaReceiver → Bool × OtaReceiver
handle_command cmd_id payload r =
    if cmd_id == ota_begin
    then (true, (handle_begin payload r).1)
    else if cmd_id == ota_chunk
    then (true, (handle_chunk payload r).1)
    else if cmd_id == ota_finalize
    then (true, (handle_finalize payload r).1)
    else (false, r)

unfoldable pub take_verified_binary : OtaReceiver → Option (List ℕ) × OtaReceiver
take_verified_binary r = if not (is_ready r.state) then (none, r) else (
  some r.buffer,
  record r {
    buffer = [];
    swap_count = (r.swap_count + 1) % 2 ^ 32;
    state = idle;
    total_size = 0;
    bytes_received = 0;
  },
)

unfoldable pub reset_failed : OtaReceiver → OtaReceiver
reset_failed r =
    if is_failed r.state
    then record r { buffer = []; total_size = 0; bytes_received = 0; state = idle }
    else r
