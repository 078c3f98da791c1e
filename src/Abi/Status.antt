-- ===== src/Abi/Status.antt =====
-- abi/src/lib.rs, `status` and the argument limits: codes and bounds that every host call uses.
use sand_os.Base.{ℕ}
use sand_os.Base.Int.{ℤ, pos}

-- `status::OK` and the error codes; a host call returns an i32.
abbrev pub ok : ℤ
ok = pos 0

abbrev pub err_unknown_fn : ℤ
err_unknown_fn = pos 1

abbrev pub err_invalid_arg : ℤ
err_invalid_arg = pos 2

abbrev pub err_busy : ℤ
err_busy = pos 3

abbrev pub err_no_mem : ℤ
err_no_mem = pos 4

abbrev pub err_bounds : ℤ
err_bounds = pos 5

abbrev pub max_text_bytes : ℕ
max_text_bytes = 256

abbrev pub max_brightness : ℕ
max_brightness = 255

abbrev pub max_audio_read : ℕ
max_audio_read = 1024

abbrev pub max_motor_speed : ℕ
max_motor_speed = 255

abbrev pub dead_mans_switch_ms : ℕ
dead_mans_switch_ms = 50

abbrev pub radio_silence_threshold_ms : ℕ
radio_silence_threshold_ms = 3000

abbrev pub telemetry_tx_capacity : ℕ
telemetry_tx_capacity = 32

abbrev pub telemetry_decimation : ℕ
telemetry_decimation = 5

abbrev pub inference_tensor_size : ℕ
inference_tensor_size = 1024
