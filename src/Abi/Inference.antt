-- ===== src/Abi/Inference.antt =====
-- abi/src/lib.rs, `InferenceResult`: its byte form for the guest, and its packed form for the
-- atomic that carries it between tasks.
pub mod RoundTrip
use sand_os.Base.{
  ℕ, ◌+◌, ◌*◌, ◌/◌, ◌%◌, ◌^◌, List, Option, none, some, Bool, true, false, not, ltb, ◌==◌,
  if◌then◌else◌, length, splice, bit_and, bit_or,
}
use sand_os.Base.Bytes.{to_le_bytes}
use sand_os.Abi.Telemetry.{read_u32}

pub record InferenceResult : Type 0 where
  pub active : Bool
  pub top_class : ℕ
  pub confidence_pct : ℕ

-- `InferenceResult::default()`
abbrev pub inactive : InferenceResult
inactive = record { active = false; top_class = 0; confidence_pct = 0 }

abbrev pub inference_result_size : ℕ
inference_result_size = 12

unfoldable pub to_bytes : InferenceResult → List ℕ → ℕ × List ℕ
to_bytes r buf =
    let flag : ℕ = if r.active then 1 else 0 in
    let b1 = splice buf 0 (to_le_bytes 4 flag) in
    let b2 = splice b1 4 (to_le_bytes 4 r.top_class) in
    let b3 = splice b2 8 (to_le_bytes 4 r.confidence_pct) in
    if ltb (length buf) inference_result_size then (0, buf) else (inference_result_size, b3)

-- `as u8` of an i32 keeps the lowest byte of its pattern, and an i32 is 0 where its pattern is.
unfoldable pub from_bytes : List ℕ → Option InferenceResult
unfolding read_u32
from_bytes buf =
    if ltb (length buf) inference_result_size
    then none
    else some (record {
      active = not (read_u32 buf 0 == 0);
      top_class = read_u32 buf 4 % 256;
      confidence_pct = read_u32 buf 8 % 256;
    })

unfoldable pub pack : InferenceResult → ℕ
pack r =
    let active_bit : ℕ = if r.active then 2 ^ 31 else 0 in
    bit_or (bit_or active_bit (r.top_class * 2 ^ 8)) r.confidence_pct

unfoldable pub unpack : ℕ → InferenceResult
unpack raw = record {
  active = not (raw / 2 ^ 31 == 0);
  top_class = bit_and (raw / 2 ^ 8) 0xff;
  confidence_pct = bit_and raw 0xff;
}
