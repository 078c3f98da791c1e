-- ===== src/Abi/OtaStatus.antt =====
-- abi/src/lib.rs, `OtaState` and `OtaStatus`: the update status that the guest can read.
pub mod RoundTrip
use sand_os.Base.{
  ℕ, ◌*◌, ◌%◌, List, Bool, true, false, Option, none, some, ltb, ◌==◌, if◌then◌else◌, length,
  splice,
}
use sand_os.Base.Bytes.{to_le_bytes}
use sand_os.Abi.Telemetry.{read_u32}
use mathlib.Core.Option

pub data OtaState : Type 0 where
  idle receiving ready swapping failed : OtaState

-- `state as u8`
unfoldable pub discriminant : OtaState → ℕ
discriminant idle = 0
discriminant receiving = 1
discriminant ready = 2
discriminant swapping = 3
discriminant failed = 4

unfoldable pub from_u8 : ℕ → Option OtaState
from_u8 v =
    if v == 0
    then some idle
    else if v == 1
    then some receiving
    else if v == 2
    then some ready
    else if v == 3
    then some swapping
    else if v == 4
    then some failed
    else none

-- `state == OtaState::Receiving` and its kin.
abbrev pub is_idle : OtaState → Bool
is_idle idle = true
is_idle _ = false

abbrev pub is_receiving : OtaState → Bool
is_receiving receiving = true
is_receiving _ = false

abbrev pub is_ready : OtaState → Bool
is_ready ready = true
is_ready _ = false

abbrev pub is_swapping : OtaState → Bool
is_swapping swapping = true
is_swapping _ = false

abbrev pub is_failed : OtaState → Bool
is_failed failed = true
is_failed _ = false

pub record OtaStatus : Type 0 where
  pub state : OtaState
  pub bytes_received : ℕ
  pub total_size : ℕ
  pub swap_count : ℕ

-- `OtaStatus::SERIALIZED_SIZE`, and `OTA_STATUS_SIZE`
abbrev pub ota_status_size : ℕ
ota_status_size = 16

-- `OTA_MAX_BINARY_SIZE`
abbrev pub ota_max_binary_size : ℕ
ota_max_binary_size = 512 * 1024

unfoldable pub to_bytes : OtaStatus → List ℕ → ℕ × List ℕ
unfolding discriminant
to_bytes s buf =
    let b1 = splice buf 0 (to_le_bytes 4 (discriminant s.state)) in
    let b2 = splice b1 4 (to_le_bytes 4 s.bytes_received) in
    let b3 = splice b2 8 (to_le_bytes 4 s.total_size) in
    let b4 = splice b3 12 (to_le_bytes 4 s.swap_count) in
    if ltb (length buf) ota_status_size then (0, buf) else (ota_status_size, b4)

-- `as u8` of the u32 keeps its lowest byte; `?` ends on an unknown state.
unfoldable pub from_bytes : List ℕ → Option OtaStatus
unfolding read_u32 from_u8
from_bytes buf =
    let state_raw = read_u32 buf 0 % 256 in
    if ltb (length buf) ota_status_size
    then none
    else Option.map
        (λ state. record {
          state = state;
          bytes_received = read_u32 buf 4;
          total_size = read_u32 buf 8;
          swap_count = read_u32 buf 12;
        })
        (from_u8 state_raw)
