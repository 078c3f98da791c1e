-- ===== src/Tests/Ota.antt =====
-- Runs of the model of firmware/src/core0/ota.rs, and its theorems at concrete inputs.
use sand_os.Base.{
  ℕ, ◌+◌, ◌≤◌, ◌<◌, ◌≡◌, ◌⊎◌, inl, inr, refl, arith, List, [], ◌∷◌, ◌++◌, Option, none, some, Bool,
  true, false, length, slice,
}
use sand_os.Base.Bytes.{to_le_bytes, from_le_bytes}
use sand_os.Abi.OtaStatus.{receiving, idle, failed}
use sand_os.Abi.Telemetry.{read_u32}
use sand_os.Abi.Crc.{crc32}
use sand_os.Abi.Command.{ota_begin, ota_chunk, ota_finalize}
use sand_os.Ota.{
  OtaReceiver, new, ready_binary, handle_begin, handle_chunk, handle_finalize, handle_command,
  take_verified_binary,
}
use sand_os.Ota.Invariant.{IsValid, Event, command, step, run, run-IsValid}
use sand_os.Ota.Verify.{ready_binary-verified}
use sand_os.Ota.Chunks.{Chunk}
use sand_os.Ota.Transfer.{
  Covers, transfer, take_verified_binary-transfer, handle_finalize-corrupted,
}
use mathlib.Core.List.{Memᴰ}

abbrev binary : List ℕ
binary = 0 ∷ 0x61 ∷ 0x73 ∷ 0x6d ∷ []

-- Two chunks, the second part of the binary first.
abbrev chunks : List Chunk
chunks =
    record { offset = 2; bytes = 0x73 ∷ 0x6d ∷ [] }
    ∷ record { offset = 0; bytes = 0 ∷ 0x61 ∷ 0x73 ∷ [] }
    ∷ []

chunks_cover : (i : ℕ) → i < 4 → Covers chunks i
chunks_cover i h = omega arith

fresh_free : new.state ≡ idle
unfolding new
fresh_free = refl

take_verified_binary-transfer_example :
    (ready_binary (transfer binary chunks new) ≡ some binary)
    × ((take_verified_binary (transfer binary chunks new)).0 ≡ some binary)
unfolding new slice
take_verified_binary-transfer_example =
    take_verified_binary-transfer binary chunks new (λ e. cc) (omega arith) (omega arith)
      (omega arith)
      (
        record { within = omega arith; something = omega arith; cut = refl },
        (record { within = omega arith; something = omega arith; cut = refl }, tt),
      )
      chunks_cover

-- OTA_BEGIN of one byte, the chunk, OTA_FINALIZE with its checksum 0xD202EF8D, an unknown command.
abbrev session : List Event
session =
    command ota_begin (1 ∷ 0 ∷ 0 ∷ 0 ∷ [])
    ∷ command ota_chunk (0 ∷ 0 ∷ 0 ∷ 0 ∷ 0 ∷ [])
    ∷ command ota_finalize (0x8d ∷ 0xef ∷ 0x02 ∷ 0xd2 ∷ [])
    ∷ command 0x01 []
    ∷ []

session_ready : ready_binary (run session new) ≡ some (0 ∷ [])
unfolding ready_binary run step new handle_command handle_begin handle_chunk handle_finalize
    read_u32 from_le_bytes slice crc32 sand_os.Base.splice
session_ready = refl

ready_binary-verified_example :
    (payload : List ℕ) × Memᴰ (command ota_finalize payload) session
    × (crc32 (0 ∷ []) ≡ read_u32 payload 0)
ready_binary-verified_example = ready_binary-verified session (0 ∷ []) session_ready

run-IsValid_example : IsValid (run session new)
run-IsValid_example = run-IsValid session (omega arith)

abbrev corrupted : OtaReceiver
corrupted = record {
  state = receiving;
  buffer = 0 ∷ 0x61 ∷ 0x72 ∷ 0x6d ∷ [];
  total_size = 4;
  bytes_received = 4;
  swap_count = 0;
}

handle_finalize-corrupted_example :
    let (accepted, r') = handle_finalize (to_le_bytes 4 (crc32 binary)) corrupted in
    (accepted ≡ false) × (r'.state ≡ failed) × (ready_binary r' ≡ none)
handle_finalize-corrupted_example =
    handle_finalize-corrupted (0 ∷ 0x61 ∷ []) 0x72 0x73 (0x6d ∷ []) corrupted (omega arith)
      (omega arith) (omega arith) (omega arith) (omega arith) refl refl
