-- ===== src/Radio.antt =====
-- firmware/src/core0/espnow.rs and the types of core0/mod.rs: received frames, sent frames, and the
-- state of the radio link. What the code hands to the executor's channel and signal is an effect.
pub mod Receive
pub mod Send
pub mod Task
pub mod Update
use sand_os.Base.{
  ℕ, ◌+◌, ◌-◌, ◌%◌, ◌^◌, List, [], ◌∷◌, Option, none, some, Bool, not, ◌||◌, ltb, ◌==◌,
  if◌then◌else◌, length, get_or, take, replicate, slice, splice,
}
use sand_os.Abi.Status.{radio_silence_threshold_ms}
use sand_os.Abi.Command.{espnow_max_payload, magic_0, magic_1, ota_finalize}
use sand_os.Abi.Telemetry.{TelemetryPacket, serialize}
use sand_os.Ota.{OtaReceiver, ready_binary, handle_command}

-- core0/mod.rs, `WasmCommand`.
pub record WasmCommand : Type 0 where
  pub cmd_id : ℕ
  pub payload : List ℕ

-- `OTA_SWAP_SIGNAL.signal(n)`, and `sender.try_send(command)`, whose result is dropped.
pub data Effect : Type 0 where
  swap_signal : ℕ → Effect
  enqueue : WasmCommand → Effect

-- `RADIO_LAST_RX_MS`, and the receiver that the task owns.
pub record Link : Type 0 where
  pub last_rx_ms : ℕ
  pub ota : OtaReceiver

unfoldable pub is_radio_link_alive : ℕ → ℕ → Bool
is_radio_link_alive last now_ms = ltb (now_ms - last) radio_silence_threshold_ms

-- `if let Some(binary) = ota.ready_binary() { … signal(binary.len() as u32) }`
unfoldable pub signal_ready : OtaReceiver → List Effect
signal_ready ota = elim (ready_binary ota) [
  | some binary ↦ swap_signal (length binary % 2 ^ 32) ∷ []
  | none ↦ []
]

-- The part of `handle_frame` behind its guards.
unfoldable pub dispatch : ℕ → List ℕ → ℕ → Link → Link × List Effect
dispatch cmd_id payload now_ms s =
    let (is_ota, ota') = handle_command cmd_id payload s.ota in
    if is_ota
    then (
      record { last_rx_ms = now_ms; ota = ota' },
      if cmd_id == ota_finalize then signal_ready ota' else [],
    )
    else (
      record { last_rx_ms = now_ms; ota = ota' },
      enqueue (record { cmd_id = cmd_id; payload = take 64 payload }) ∷ [],
    )

unfoldable pub handle_frame : List ℕ → ℕ → Link → Link × List Effect
handle_frame bytes now_ms s =
    let payload_len = get_or bytes 3 0 in
    if ltb (length bytes) 4
    then (s, [])
    else if not (get_or bytes 0 0 == magic_0) || not (get_or bytes 1 0 == magic_1)
    then (s, [])
    else if ltb (espnow_max_payload - 4) payload_len || ltb (length bytes) (4 + payload_len)
    then (s, [])
    else dispatch (get_or bytes 2 0) (slice bytes 4 payload_len) now_ms s

-- The frame that `send_beacon` broadcasts.
unfoldable pub beacon : List ℕ
beacon = magic_0 ∷ magic_1 ∷ 0x00 ∷ 0x00 ∷ []

-- The frame that `send_telemetry_packet` broadcasts, if any.
unfoldable pub telemetry_frame : TelemetryPacket → Option (List ℕ)
telemetry_frame packet =
    let (payload_len, rest) = serialize packet (replicate (espnow_max_payload - 4) 0) in
    let body_len = payload_len - 1 in
    let f0 : List ℕ = magic_0 ∷ magic_1 ∷ 0 ∷ 0 ∷ rest in
    let f1 = splice f0 2 (get_or f0 4 0 ∷ []) in
    let f2 = splice f1 3 ((payload_len % 256) ∷ []) in
    let f3 = splice f2 4 (slice f2 5 body_len) in
    if payload_len == 0 then none else some (take (4 + body_len) f3)
