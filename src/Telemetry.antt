-- ===== src/Telemetry.antt =====
-- firmware/src/telemetry.rs: the queue of telemetry packets between Core 1, the host calls and the
-- radio task.
use sand_os.Base.{Bool}
use sand_os.Abi.Telemetry.{TelemetryPacket}
use sand_os.Channel.{BoundedQueue}

module _ (T : BoundedQueue TelemetryPacket 32) where
  unfoldable pub push_telemetry : TelemetryPacket → T.Queue → Bool × T.Queue
  push_telemetry packet queue = T.try_send packet queue
