-- ===== src/Radio/Send.antt =====
-- firmware/src/core0/espnow.rs: the frames that a board broadcasts, as another board receives them.
use sand_os.Base.{
  ℕ, ◌+◌, ◌≤◌, ◌<◌, ◌≡◌, refl, ◌∙◌, arith, List, [], ◌∷◌, ◌++◌, Option, none, some, length, drop,
  replicate, inl, inr,
}
use sand_os.Base.Bytes.{to_le_bytes}
use sand_os.Abi.Command.{magic_0, magic_1}
use sand_os.Abi.Telemetry.{TelemetryPacket, imu, odometry, type_imu, type_odometry}
use sand_os.Abi.Telemetry.Layout.{imu_layout, odometry_layout}
use sand_os.Abi.Telemetry.RoundTrip.{packet_size, serialize-layout}
use sand_os.Radio.{Link, enqueue, handle_frame, dispatch, beacon, telemetry_frame}

-- The payload without its type byte, and the type byte.
abbrev pub body : TelemetryPacket → List ℕ
body (imu t) = imu_layout t
body (odometry t) = odometry_layout t

abbrev pub kind : TelemetryPacket → ℕ
kind (imu t) = type_imu
kind (odometry t) = type_odometry

-- Every packet is sent, as the header and the payload without its type byte; the declared length is
-- the payload's and one more.
pub telemetry_frame-layout :
    (p : TelemetryPacket)
    → telemetry_frame p ≡ some (magic_0 ∷ magic_1 ∷ kind p ∷ packet_size p ∷ body p)
unfolding telemetry_frame to_le_bytes sand_os.Base.splice sand_os.Base.slice
telemetry_frame-layout (imu t) = rw (serialize-layout (imu t) (replicate 246 0) (omega arith))
telemetry_frame-layout (odometry t) =
    rw (serialize-layout (odometry t) (replicate 246 0) (omega arith))

-- Every telemetry packet is broadcast, and every board that receives the frame drops it: the declared
-- length is one more than the bytes that follow the header, so `handle_frame` changes nothing and
-- sends nothing on.
pub telemetry_frame-dropped :
    (p : TelemetryPacket) (now : ℕ) (s : Link)
    → (frame : List ℕ) × (telemetry_frame p ≡ some frame)
      × (length frame ≡ 4 + length (body p))
      × (handle_frame frame now s ≡ (s, []))
unfolding handle_frame to_le_bytes
telemetry_frame-dropped (imu t) now s = (_, telemetry_frame-layout (imu t), refl, refl)
telemetry_frame-dropped (odometry t) now s = (_, telemetry_frame-layout (odometry t), refl, refl)

-- The beacon of one board is a command frame to another: it renews the link of the receiving board
-- and queues command 0 with no payload, and leaves the update session alone.
pub beacon-received :
    (now : ℕ) (s : Link)
    → handle_frame beacon now s
      ≡ (record s { last_rx_ms = now }, enqueue (record { cmd_id = 0; payload = [] }) ∷ [])
unfolding beacon handle_frame dispatch sand_os.Ota.handle_command sand_os.Base.slice
beacon-received now s = refl
