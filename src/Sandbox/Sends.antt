-- ===== src/Sandbox/Sends.antt =====
-- host-tests/src/mock_host.rs against firmware/src/core0/abi.rs: the methods that move bytes, intents
-- and packets.
use sand_os.Base.{
  ℕ, ◌%◌, ◌^◌, min, ◌≤◌, ◌≡◌, refl, ap, sym, ◌∙◌, inl, inr, arith, List, [], ◌∷◌, ◌++◌, Option,
  none, some, true, false, not, ◌||◌, length, drop, ltb, leb, ◌==◌, Bool-cases,
}
use sand_os.Base.Int.{ℤ, pos, ltb_ℤ}
use sand_os.Abi.Status.{err_busy}
use sand_os.Abi.Telemetry.{TelemetryPacket, imu, odometry, imu_from_cdr, odometry_from_cdr}
use mathlib.Core.Option
use sand_os.Text.{BoundedString}
use sand_os.Channel.{BoundedQueue}
use sand_os.Bus.{MovementIntent, RoutingMode, single_board, distributed, publish_intent}
use sand_os.Motors.{is_motor_enabled}
use sand_os.Mock.{MockHost}
use sand_os.Mock as Mock
use sand_os.Host as Host
use sand_os.Sandbox.{HostOps}
use mathlib.Core.Option.{none-ne-some}
use sand_os.Host.{abs_i32}
use sand_os.Host.Audio.{Filled, fill-Filled}
use sand_os.Mock.Audio.{read_audio_exact}
use sand_os.Telemetry.{push_telemetry}
use sand_os.Sandbox.Hosts.{Board, on_telemetry, on_intents, board_ops, mock_ops}
use sand_os.Sandbox.Simulates.{Same, SameRead}
use sand_os.Sandbox.View.{
  if_true, if_false, Same_at, see_audio, see_intents, see_telemetry, mock_view, Mirrors, HasRoom,
}

module _ (T : BoundedString 256) (A : BoundedQueue ℕ 8192) (I : BoundedQueue MovementIntent 8)
    (Q : BoundedQueue TelemetryPacket 32) where
  abbrev real : HostOps (Board T A I Q)
  real = board_ops T A I Q

  pub reads :
      (out : List ℕ) (b : Board T A I Q) (k : MockHost)
      → Mirrors T A I Q b k
      → length out ≤ 1024
      → SameRead (Mirrors T A I Q) (real.read_audio out b) (mock_ops.read_audio out k)
  unfolding Host.read_audio
  reads out b k m small =
      rw (fits, read_audio_exact out k small, A.len-contents b.abi.audio_buf, same)
        (refl, (filled.0, rw filled.1 (ap (see_audio (drop n k.audio_buf)) m)))
    where
      n : ℕ
      n = min (length out) (length k.audio_buf)

      same : A.contents b.abi.audio_buf ≡ k.audio_buf
      same = ap (λ v. v.audio) m

      filled : Filled T A n out k.audio_buf (Host.fill T A n out b.abi.audio_buf)
      filled = fill-Filled T A n out k.audio_buf b.abi.audio_buf same (omega arith) (omega arith)

      fits : ltb 1024 (length out % 2 ^ 32) ≡ false
      fits = ground arith

  route_view :
      (mode : RoutingMode) (l r : ℤ) (intent : MovementIntent) (k : MockHost)
      → mock_view (Mock.route mode l r intent k) ≡ mock_view k
  route_view single_board l r intent k = refl
  route_view distributed l r intent k = refl

  pub drives :
      (l r : ℤ) (b : Board T A I Q) (k : MockHost)
      → Mirrors T A I Q b k
      → HasRoom T A I Q b
      → Same (Mirrors T A I Q) (real.set_motor_speed l r b) (mock_ops.set_motor_speed l r k)
  unfolding Host.set_motor_speed Mock.set_motor_speed publish_intent
  drives l r b k m room =
      elim (Bool-cases (ltb_ℤ (pos 255) (abs_i32 l) || ltb_ℤ (pos 255) (abs_i32 r))) [
        | inl fast ↦ Same_at (Mirrors T A I Q) (ap back (if_true _ fast)) (if_true _ fast) (refl, m)
        | inr slow ↦ elim (Bool-cases k.motors_enabled) [
          | inl on ↦
              Same_at (Mirrors T A I Q)
                (ap back (if_false _ slow ∙ if_false _ (ap not (enabled ∙ on)) ∙ if_true _ sent.0))
                (if_false _ slow ∙ if_false _ (ap not on))
                (
                  refl,
                  rw (sent.1, ap (λ v. v.intents) m)
                      (ap (see_intents (k.intent_log ++ (intent ∷ []))) m
                        ∙ sym (route_view k.routing_mode l r intent (published))),
                )
          | inr off ↦
              Same_at (Mirrors T A I Q)
                (ap back (if_false _ slow ∙ if_true _ (ap not (enabled ∙ off))))
                (if_false _ slow ∙ if_true _ (ap not off)) (refl, m)
        ]
      ]
    where
      back : ℤ × I.Queue → ℤ × Board T A I Q
      back x = on_intents T A I Q x b

      enabled : is_motor_enabled b.motors ≡ k.motors_enabled
      enabled = ap (λ v. v.enabled) m

      intent : MovementIntent
      intent = record { left_speed = Host.i32_as_i16 l; right_speed = Host.i32_as_i16 r }

      sent :
          ((I.try_send intent b.intents).0 ≡ true)
          × (I.contents (I.try_send intent b.intents).1 ≡ I.contents b.intents ++ (intent ∷ []))
      sent = I.try_send_room intent b.intents room

      published : MockHost
      published = record k {
        intent_log = k.intent_log ++ (intent ∷ []);
        last_intent_ms = k.simulated_uptime_ms;
        dead_mans_active = false;
      }

  emits :
      (packet : Option TelemetryPacket) (b : Board T A I Q) (k : MockHost)
      → Mirrors T A I Q b k
      → Same
          (Mirrors T A I Q)
          (on_telemetry T A I Q (Host.emit Q packet b.telemetry) b)
          (Mock.emit packet k)
  unfolding push_telemetry
  emits none b k m = (refl, m)
  emits (some packet) b k m = elim (Bool-cases (leb 32 (length k.telemetry_queue))) [
    | inl full ↦
        Same_at (Mirrors T A I Q)
          (ap back
            (if_false _ (ap (λ p. p.0) (refused full)) ∙ ap (λ p. (err_busy, p.1)) (refused full)))
          (if_true _ full) (refl, m)
    | inr room ↦ Same_at (Mirrors T A I Q) (ap back (if_true _ (sent room).0)) (if_false _ room) (
      refl,
      rw ((sent room).1, ap (λ v. v.telemetry) m)
          (ap (see_telemetry (k.telemetry_queue ++ (packet ∷ []))) m),
    )
  ]
    where
      back : ℤ × Q.Queue → ℤ × Board T A I Q
      back x = on_telemetry T A I Q x b

      size : length (Q.contents b.telemetry) ≡ length k.telemetry_queue
      size = ap (λ v. length v.telemetry) m

      refused :
          leb 32 (length k.telemetry_queue) ≡ true
          → Q.try_send packet b.telemetry ≡ (false, b.telemetry)
      refused full = Q.try_send_full packet b.telemetry (ground arith)

      sent :
          leb 32 (length k.telemetry_queue) ≡ false
          → ((Q.try_send packet b.telemetry).0 ≡ true)
            × (Q.contents (Q.try_send packet b.telemetry).1
                ≡ Q.contents b.telemetry ++ (packet ∷ []))
      sent room = Q.try_send_room packet b.telemetry (ground arith)

  pub emits_imu :
      (bytes : List ℕ) (b : Board T A I Q) (k : MockHost)
      → Mirrors T A I Q b k
      → Same
          (Mirrors T A I Q)
          (real.emit_imu_telemetry bytes b)
          (mock_ops.emit_imu_telemetry bytes k)
  unfolding Host.emit_imu_telemetry Mock.emit_imu_telemetry
  emits_imu bytes b k m = elim (Bool-cases (not (length bytes == 36))) [
    | inl wrong ↦
        Same_at (Mirrors T A I Q) (ap (λ x. on_telemetry T A I Q x b) (if_true _ wrong))
          (if_true _ wrong) (refl, m)
    | inr right ↦
        Same_at (Mirrors T A I Q) (ap (λ x. on_telemetry T A I Q x b) (if_false _ right))
          (if_false _ right) (emits (Option.map imu (imu_from_cdr bytes)) b k m)
  ]

  pub emits_odom :
      (bytes : List ℕ) (b : Board T A I Q) (k : MockHost)
      → Mirrors T A I Q b k
      → Same
          (Mirrors T A I Q)
          (real.emit_odom_telemetry bytes b)
          (mock_ops.emit_odom_telemetry bytes k)
  unfolding Host.emit_odom_telemetry Mock.emit_odom_telemetry
  emits_odom bytes b k m = elim (Bool-cases (not (length bytes == 20))) [
    | inl wrong ↦
        Same_at (Mirrors T A I Q) (ap (λ x. on_telemetry T A I Q x b) (if_true _ wrong))
          (if_true _ wrong) (refl, m)
    | inr right ↦
        Same_at (Mirrors T A I Q) (ap (λ x. on_telemetry T A I Q x b) (if_false _ right))
          (if_false _ right) (emits (Option.map odometry (odometry_from_cdr bytes)) b k m)
  ]
