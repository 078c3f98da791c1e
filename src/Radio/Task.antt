-- ===== src/Radio/Task.antt =====
-- firmware/src/core0/espnow.rs, `espnow_rx_task`: the loop that drains the telemetry queue, answers a
-- frame and sends the beacon. The radio driver, the executor's clock and its unit of time are not part
-- of the repository: what a wait ends with is an input, and the two conversions are parameters.
pub mod Drains
use sand_os.Base.{ℕ, zero, suc, ◌+◌, List, [], ◌∷◌, ◌++◌, map, some, none}
use sand_os.Abi.Telemetry.{TelemetryPacket}
use sand_os.Channel.{BoundedQueue}
use sand_os.Ota.{new}
use sand_os.Radio.{Link, Effect, handle_frame, beacon, telemetry_frame}

abbrev pub beacon_interval_ms : ℕ
beacon_interval_ms = 1000

abbrev pub max_telemetry_drain_per_iter : ℕ
max_telemetry_drain_per_iter = 8

-- A frame handed to the radio, or an effect of `handle_frame`. The result of sending is dropped.
pub data Output : Type 0 where
  broadcast : List ℕ → Output
  effect : Effect → Output

-- What `with_timeout` ends with, and the instant that the code reads next.
pub data Wait : Type 0 where
  received : List ℕ → ℕ → Wait
  timeout : ℕ → Wait

-- `send_telemetry_packet`
unfoldable pub send_telemetry_packet : TelemetryPacket → List Output
send_telemetry_packet packet = elim (telemetry_frame packet) [
  | some frame ↦ broadcast frame ∷ []
  | none ↦ []
]

-- `send_beacon`
unfoldable pub send_beacon : List Output
send_beacon = broadcast beacon ∷ []

module _ (T : BoundedQueue TelemetryPacket 32) where
  -- The variables of the task, and the queue that it shares.
  pub record RadioTask : Type 0 where
    pub link : Link
    pub beacon_deadline : ℕ
    pub queue : T.Queue

  -- The loop of `try_receive`, at most `n` times.
  unfoldable pub drain : ℕ → T.Queue → List Output × T.Queue
  drain zero queue = ([], queue)
  drain (suc n) queue =
      let (sent, rest) = drain n (T.try_receive queue).1 in
      elim (T.try_receive queue).0 [
        | some packet ↦ (send_telemetry_packet packet ++ sent, rest)
        | none ↦ ([], (T.try_receive queue).1)
      ]

  module _ (from_millis as_millis : ℕ → ℕ) where
    -- What the task does before the loop.
    unfoldable pub start : ℕ → ℕ → T.Queue → RadioTask × List Output
    start last_rx_ms now queue = (
      record {
        link = record { last_rx_ms = last_rx_ms; ota = new };
        beacon_deadline = now + from_millis beacon_interval_ms;
        queue = queue;
      },
      send_beacon,
    )

    -- One pass of the loop, given what the wait for a frame ends with.
    unfoldable pub turn : Wait → RadioTask → RadioTask × List Output
    turn (received bytes now) s =
        let (sent, queue) = drain max_telemetry_drain_per_iter s.queue in
        let (link, effects) = handle_frame bytes (as_millis now) s.link in
        (record s { link = link; queue = queue }, sent ++ map effect effects)
    turn (timeout now) s =
        let (sent, queue) = drain max_telemetry_drain_per_iter s.queue in
        (
          record s { beacon_deadline = now + from_millis beacon_interval_ms; queue = queue },
          sent ++ send_beacon,
        )
