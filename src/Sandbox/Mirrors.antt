-- ===== src/Sandbox/Mirrors.antt =====
-- host-tests/src/mock_host.rs against firmware/src/core0/abi.rs: the methods that answer alike and
-- leave alike views.
use sand_os.Base.{
  ℕ, if◌then◌else◌, ◌%◌, ◌^◌, ◌≤◌, ◌≡◌, refl, ap, sym, ◌∙◌, inl, inr, arith, List, [], some, true,
  false, not, length, take, ltb, Option-cases, Bool-cases,
}
use sand_os.Base.Int.{ℤ, pos, negsuc, as_i32}
use sand_os.Abi.Status.{ok, err_bounds}
use sand_os.Abi.Eye.{from_i32}
use sand_os.Abi.OtaStatus.{OtaStatus}
use sand_os.Abi.Telemetry.{TelemetryPacket}
use sand_os.Text.{BoundedString, from_utf8}
use sand_os.Channel.{BoundedQueue}
use sand_os.Bus.{MovementIntent}
use sand_os.Mock.{MockHost}
use sand_os.Mock as Mock
use sand_os.Host as Host
use sand_os.Display as Display
use sand_os.Abi.Inference.{InferenceResult}
use sand_os.Sandbox.{HostOps}
use mathlib.Core.Option.{none-ne-some}
use sand_os.Abi.Inference as Result
use sand_os.Abi.OtaStatus as Status
use sand_os.Display.Written.{write_text_cases}
use sand_os.Host.{abs_i32}
use sand_os.Sandbox.Hosts.{Board, board_ops, mock_ops}
use sand_os.Sandbox.Simulates.{Same}
use sand_os.Sandbox.View.{IsLoggable, see_led, see_active, see_audio, see_text, Mirrors}

module _ (T : BoundedString 256) (A : BoundedQueue ℕ 8192) (I : BoundedQueue MovementIntent 8)
    (Q : BoundedQueue TelemetryPacket 32) where
  abbrev real : HostOps (Board T A I Q)
  real = board_ops T A I Q

  pub toggles :
      (b : Board T A I Q) (k : MockHost)
      → Mirrors T A I Q b k
      → Same (Mirrors T A I Q) (real.toggle_led b) (mock_ops.toggle_led k)
  unfolding Host.toggle_led Mock.toggle_led
  toggles b k m = (refl, ap (λ v. see_led (not v.led_on) v) m)

  pub logs :
      (bytes : List ℕ) (b : Board T A I Q) (k : MockHost)
      → Mirrors T A I Q b k
      → IsLoggable bytes
      → Same (Mirrors T A I Q) (real.debug_log bytes b) (mock_ops.debug_log bytes k)
  unfolding Host.debug_log Mock.debug_log
  logs bytes b k m text = elim (Option-cases (from_utf8 bytes)) [
    | inl bad ↦ absurd (text bad)
    | inr (chars, good) ↦ rw (good, Mock.debug_log) (refl, m)
  ]

  pub draws :
      (e : ℤ) (b : Board T A I Q) (k : MockHost)
      → Mirrors T A I Q b k
      → Same (Mirrors T A I Q) (real.draw_eye e b) (mock_ops.draw_eye e k)
  unfolding Host.draw_eye Mock.draw_eye Display.draw_eye Mock.display_draw_eye
  draws e b k m = elim (Option-cases (from_i32 e)) [
    | inl bad ↦ rw (bad, Host.draw_eye, Mock.draw_eye) (refl, m)
    | inr (expression, good) ↦ rw (good, Host.draw_eye, Mock.draw_eye) (refl, m)
  ]

  pub brightens :
      (v : ℤ) (b : Board T A I Q) (k : MockHost)
      → Mirrors T A I Q b k
      → Same (Mirrors T A I Q) (real.set_brightness v b) (mock_ops.set_brightness v k)
  unfolding Host.set_brightness Mock.set_brightness Display.set_brightness
      Mock.display_set_brightness
  brightens (negsuc n) b k m = (refl, m)
  brightens (pos n) b k m = elim (Bool-cases (ltb 255 n)) [
    | inl big ↦ rw big (refl, m)
    | inr fits ↦ rw fits (refl, m)
  ]

  pub starts :
      (b : Board T A I Q) (k : MockHost)
      → Mirrors T A I Q b k
      → Same (Mirrors T A I Q) (real.start_audio_capture b) (mock_ops.start_audio_capture k)
  unfolding Host.start_audio_capture Mock.start_audio_capture
  starts b k m = (refl, rw A.contents-empty (ap (λ v. see_audio [] (see_active true v)) m))

  pub stops :
      (b : Board T A I Q) (k : MockHost)
      → Mirrors T A I Q b k
      → Same (Mirrors T A I Q) (real.stop_audio_capture b) (mock_ops.stop_audio_capture k)
  unfolding Host.stop_audio_capture Mock.stop_audio_capture
  stops b k m = (refl, ap (see_active false) m)

  pub avails :
      (b : Board T A I Q) (k : MockHost)
      → Mirrors T A I Q b k
      → real.get_audio_avail b ≡ mock_ops.get_audio_avail k
  unfolding Host.get_audio_avail Mock.get_audio_avail
  avails b k m =
      ap (λ n. as_i32 (n % 2 ^ 32)) (A.len-contents b.abi.audio_buf ∙ ap (λ v. length v.audio) m)

  pub queues :
      (b : Board T A I Q) (k : MockHost)
      → Mirrors T A I Q b k
      → real.get_telemetry_queue_len b ≡ mock_ops.get_telemetry_queue_len k
  unfolding Host.get_telemetry_queue_len Mock.get_telemetry_queue_len
  queues b k m =
      ap (λ n. as_i32 (n % 2 ^ 32)) (Q.len-contents b.telemetry ∙ ap (λ v. length v.telemetry) m)

  written :
      (bytes : List ℕ) (chars : List (List ℕ))
      → length bytes ≤ 256
      → from_utf8 bytes ≡ some chars
      → T.bytes (Display.push_chars T (take 256 chars) T.empty) ≡ bytes
  unfolding Display.write_text
  written bytes chars small e = elim (write_text_cases T bytes (Display.new T) small) [
    | inl (decoded, code, held) ↦ rw (e, Display.write_text) at held
    | inr (bad, refused) ↦ absurd (none-ne-some _ (sym bad ∙ e))
  ]

  pub writes :
      (bytes : List ℕ) (b : Board T A I Q) (k : MockHost)
      → Mirrors T A I Q b k
      → length bytes ≤ 256
      → Same (Mirrors T A I Q) (real.write_text bytes b) (mock_ops.write_text bytes k)
  unfolding Host.write_text Mock.write_text Mock.display_write_text Display.write_text
  writes bytes b k m small = elim (Option-cases (from_utf8 bytes)) [
    | inl bad ↦ rw (fits, bad, Display.write_text, Mock.display_write_text) (refl, m)
    | inr (chars, good) ↦
        rw (fits, good, Display.write_text, Mock.display_write_text)
          (refl, rw (written bytes chars small good) (ap (see_text bytes) m))
  ]
    where
      fits : ltb 256 (length bytes % 2 ^ 32) ≡ false
      fits = ground arith

  pub uptimes :
      (b : Board T A I Q) (k : MockHost)
      → Mirrors T A I Q b k
      → real.get_uptime_ms b ≡ mock_ops.get_uptime_ms k
  unfolding Host.get_uptime_ms Mock.get_uptime_ms
  uptimes b k m = ap (λ v. v.now_ms) m

  pub senses :
      (b : Board T A I Q) (k : MockHost)
      → Mirrors T A I Q b k
      → real.get_pitch_roll b ≡ mock_ops.get_pitch_roll k
  unfolding Host.get_pitch_roll Mock.get_pitch_roll
  senses b k m = ap (λ v. v.reading) m

  pub infers :
      (out : List ℕ) (b : Board T A I Q) (k : MockHost)
      → Mirrors T A I Q b k
      → real.get_local_inference out b ≡ mock_ops.get_local_inference out k
  unfolding Host.get_local_inference Mock.get_local_inference
  infers out b k m =
      ap
        (λ v.
          if ltb (length out) 12
          then (err_bounds, out)
          else (ok, (Result.to_bytes v.inference out).1))
        m

  pub updates :
      (out : List ℕ) (b : Board T A I Q) (k : MockHost)
      → Mirrors T A I Q b k
      → real.get_ota_status out b ≡ mock_ops.get_ota_status out k
  unfolding Host.get_ota_status Mock.get_ota_status
  updates out b k m =
      ap
        (λ v.
          if ltb (length out) 16 then (err_bounds, out) else (ok, (Status.to_bytes v.update out).1))
        m
