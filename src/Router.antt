-- ===== src/Router.antt =====
-- firmware/src/router.rs: the task that takes movement intents off the bus and drives the motors, and
-- that stops them and runs the local inference when the intents cease.
pub mod Drive
pub mod Speeds
pub mod Timeout
use sand_os.Base.{ℕ, List, [], ◌∷◌, ◌++◌, Option, none, some, Bool, true, false, not, if◌then◌else◌}
use sand_os.Base.Int.{ℤ, pos, as_u16}
use sand_os.Base.Bytes.{to_le_bytes}
use sand_os.Abi.Command.{magic_0, magic_1, set_motor_speed}
use sand_os.Motors.{Motors, store_motor_command}
use sand_os.Radio.{is_radio_link_alive}
use sand_os.Inference as Engine
use sand_os.Bus.{MovementIntent, RoutingMode, single_board, distributed, get_routing_mode}
use sand_os.Channel.{BoundedQueue}

-- The frame that the distributed mode serialises. The code builds it and does not send it yet.
unfoldable pub distributed_frame : MovementIntent → List ℕ
distributed_frame intent =
    magic_0
    ∷ magic_1
    ∷ set_motor_speed
    ∷ 4
    ∷ (to_le_bytes 2 (as_u16 intent.left_speed) ++ to_le_bytes 2 (as_u16 intent.right_speed))

unfoldable pub route_intent : ℕ → MovementIntent → Motors → Motors
route_intent mode intent motors = elim (get_routing_mode mode) [
  | single_board ↦ (store_motor_command intent.left_speed intent.right_speed motors).1
  | distributed ↦ motors
]

module _ (I : BoundedQueue MovementIntent 8) (S : BoundedQueue (List ℤ) 2) where
  -- The statics that the task reads and writes: `INTENT_CHANNEL`, `AUDIO_INFERENCE_CHANNEL`,
  -- `ROUTING_MODE`, the motor words, `INFERENCE_RESULT` and `RADIO_LAST_RX_MS`.
  pub record Brain : Type 0 where
    pub intents : I.Queue
    pub snapshots : S.Queue
    pub routing_mode : ℕ
    pub motors : Motors
    pub inference : ℕ
    pub last_rx_ms : ℕ

  unfoldable pub run_fallback_inference : Brain → Brain
  run_fallback_inference b =
      let (received, rest) = S.try_receive b.snapshots in
      elim received [
        | some snapshot ↦ record b {
          snapshots = rest;
          inference = Engine.store_inference_result (Engine.run snapshot) b.inference;
        }
        | none ↦ record b { snapshots = rest }
      ]

  -- No intent within `DEAD_MANS_SWITCH_MS`.
  unfoldable pub on_timeout : ℕ → Brain → Brain
  unfolding run_fallback_inference
  on_timeout now_ms b =
      let stopped : Brain = record b {
        motors = (store_motor_command (pos 0) (pos 0) b.motors).1;
      } in
      if not (is_radio_link_alive stopped.last_rx_ms now_ms)
      then run_fallback_inference stopped
      else stopped

  -- One turn of the loop, when its wait ends: with the oldest intent if the queue has one by then,
  -- else by the timeout.
  unfoldable pub iteration : ℕ → Brain → Brain
  unfolding on_timeout
  iteration now_ms b =
      let (received, rest) = I.try_receive b.intents in
      elim received [
        | some intent ↦ record b {
          intents = rest;
          motors = route_intent b.routing_mode intent b.motors;
        }
        | none ↦ on_timeout now_ms (record b { intents = rest })
      ]
