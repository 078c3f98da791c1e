-- ===== src/Abi/Command.antt =====
-- abi/src/lib.rs, `EspNowCommand`, `cmd` and the frame limits: the protocol's constants.
use sand_os.Base.{ℕ, ◌-◌, List, Bool, ◌==◌, ◌&&◌}

abbrev pub espnow_max_payload : ℕ
espnow_max_payload = 250

-- `OTA_CHUNK_MAX_PAYLOAD`
abbrev pub ota_chunk_max_payload : ℕ
ota_chunk_max_payload = espnow_max_payload - 4 - 4

-- `EspNowCommand::MAGIC`
abbrev pub magic_0 : ℕ
magic_0 = 0x5a

abbrev pub magic_1 : ℕ
magic_1 = 0x4e

pub record EspNowCommand : Type 0 where
  pub magic : ℕ × ℕ
  pub cmd_id : ℕ
  pub payload_len : ℕ
  pub payload : List ℕ

unfoldable pub is_valid : EspNowCommand → Bool
is_valid c = c.magic.0 == magic_0 && c.magic.1 == magic_1

abbrev pub toggle_led : ℕ
toggle_led = 0x01

abbrev pub load_wasm : ℕ
load_wasm = 0x02

abbrev pub draw_eye : ℕ
draw_eye = 0x10

abbrev pub write_text : ℕ
write_text = 0x11

abbrev pub clear_display : ℕ
clear_display = 0x12

abbrev pub set_motor_speed : ℕ
set_motor_speed = 0x20

abbrev pub emergency_stop : ℕ
emergency_stop = 0x21

abbrev pub query_local_inference : ℕ
query_local_inference = 0x40

abbrev pub ota_begin : ℕ
ota_begin = 0x50

abbrev pub ota_chunk : ℕ
ota_chunk = 0x51

abbrev pub ota_finalize : ℕ
ota_finalize = 0x52
