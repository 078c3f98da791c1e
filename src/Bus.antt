-- ===== src/Bus.antt =====
-- firmware/src/message_bus.rs, with `MovementIntent` and `RoutingMode` of abi/src/lib.rs: the queue
-- of movement intents between the host calls and the router, and the word that selects its backend.
use sand_os.Base.{ℕ, Bool, ◌==◌, if◌then◌else◌}
use sand_os.Base.Int.{ℤ, pos}
use sand_os.Channel.{BoundedQueue}

pub record MovementIntent : Type 0 where
  pub left_speed : ℤ
  pub right_speed : ℤ

-- `MovementIntent::zero()`
abbrev pub zero_intent : MovementIntent
zero_intent = record { left_speed = pos 0; right_speed = pos 0 }

pub data RoutingMode : Type 0 where
  single_board distributed : RoutingMode

-- The byte that stands for a mode in `ROUTING_MODE`.
abbrev pub mode_byte : RoutingMode → ℕ
mode_byte single_board = 0
mode_byte distributed = 1

unfoldable pub set_routing_mode : RoutingMode → ℕ → ℕ
set_routing_mode mode word = mode_byte mode

unfoldable pub get_routing_mode : ℕ → RoutingMode
get_routing_mode word = if word == 1 then distributed else single_board

-- `INTENT_QUEUE_DEPTH`
abbrev pub intent_queue_depth : ℕ
intent_queue_depth = 8

module _ (I : BoundedQueue MovementIntent 8) where
  unfoldable pub publish_intent : MovementIntent → I.Queue → Bool × I.Queue
  publish_intent intent queue = I.try_send intent queue
