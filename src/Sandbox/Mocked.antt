-- ===== src/Sandbox/Mocked.antt =====
-- host-tests/src/mock_host.rs against firmware/src/core0/abi.rs, behind the closures: a guest cannot
-- tell the mock of the tests from the firmware.
use sand_os.Base.{ℕ, List, Option}
use sand_os.Abi.Telemetry.{TelemetryPacket}
use sand_os.Text.{BoundedString}
use sand_os.Channel.{BoundedQueue}
use sand_os.Bus.{MovementIntent}
use sand_os.Mock.{MockHost}
use sand_os.Sandbox.{HostCall, calls}
use sand_os.Sandbox.Hosts.{Board, board_ops, mock_ops}
use sand_os.Sandbox.View.{IsLoggable, Mirrors, HasRoom}
use sand_os.Sandbox.Mirrors.{
  toggles, uptimes, logs, draws, writes, brightens, starts, stops, avails, senses, queues, infers,
  updates,
}
use sand_os.Sandbox.Sends.{reads, drives, emits_imu, emits_odom}
use sand_os.Sandbox.Simulates.{Simulates, AllAgreed, SameRuns}
use sand_os.Sandbox.Simulation.{calls-SameRuns}

module _ (T : BoundedString 256) (A : BoundedQueue ℕ 8192) (I : BoundedQueue MovementIntent 8)
    (Q : BoundedQueue TelemetryPacket 32) where
  -- Method by method, a mock answers as the board that it stands for, and goes on standing for it.
  pub board-mock :
      Simulates (board_ops T A I Q) mock_ops (Mirrors T A I Q) IsLoggable (HasRoom T A I Q)
  board-mock = record {
    toggles = toggles T A I Q;
    uptimes = uptimes T A I Q;
    logs = logs T A I Q;
    draws = draws T A I Q;
    writes = writes T A I Q;
    brightens = brightens T A I Q;
    starts = starts T A I Q;
    stops = stops T A I Q;
    avails = avails T A I Q;
    reads = reads T A I Q;
    senses = senses T A I Q;
    drives = drives T A I Q;
    emits_imu = emits_imu T A I Q;
    emits_odom = emits_odom T A I Q;
    queues = queues T A I Q;
    infers = infers T A I Q;
    updates = updates T A I Q;
  }

  -- A guest that runs on the mock of the tests gets the answers that it gets on a board of which it
  -- sees the same, for any sequence of calls in which every text that it logs is UTF-8 and every motor
  -- command finds room for its intent; its memory is the same afterwards, and the mock still stands
  -- for the board.
  pub calls-mock :
      (cs : List HostCall) (m : Option (List ℕ)) (b : Board T A I Q) (k : MockHost)
      → Mirrors T A I Q b k
      → AllAgreed
          (board_ops T A I Q)
          IsLoggable
          (HasRoom T A I Q)
          cs
          (record { memory = m; host = b })
      → SameRuns
          (Mirrors T A I Q)
          (calls (board_ops T A I Q) cs (record { memory = m; host = b }))
          (calls mock_ops cs (record { memory = m; host = k }))
  calls-mock cs m b k r a =
      calls-SameRuns (board_ops T A I Q) mock_ops (Mirrors T A I Q) IsLoggable (HasRoom T A I Q)
        board-mock cs m b k r a
