-- ===== src/Tests/Router.antt =====
-- Runs of the model of firmware/src/router.rs with the host's call for speeds, and its theorems at
-- concrete inputs.
use sand_os.Base.{◌≡◌, ◌⊎◌, refl, arith, List, [], ◌∷◌, true, false}
use sand_os.Base.Int.{ℤ, pos, negsuc}
use sand_os.Abi.Status.{ok}
use sand_os.Channel.{BoundedQueue, list_queue}
use sand_os.Motors.{initial, load_motor_command, is_motor_enabled}
use sand_os.Motors.Laws.{load-zero}
use sand_os.Radio.{is_radio_link_alive}
use sand_os.Bus.{MovementIntent, zero_intent, distributed, get_routing_mode}
use sand_os.Host as Host
use sand_os.Router.{Brain, iteration}
use sand_os.Router.Drive.{turns, set_motor_speed-drives}
use sand_os.Router.Timeout.{Stopped, FellBack, iteration-timeout}
use sand_os.Router.Speeds.{IsSafe, Act, ask, turn, cut_off, choose, hear, acts, acts-IsSafe}

abbrev intent_queue : BoundedQueue MovementIntent 8
intent_queue = list_queue MovementIntent 8

abbrev snapshot_queue : BoundedQueue (List ℤ) 2
snapshot_queue = list_queue (List ℤ) 2

-- At boot, with one intent and one snapshot queued.
abbrev booted : Brain intent_queue snapshot_queue
booted = record {
  intents = zero_intent ∷ [];
  snapshots = (pos 4 ∷ []) ∷ [];
  routing_mode = 0;
  motors = initial;
  inference = 0;
  last_rx_ms = 0;
}

abbrev asked : Brain intent_queue snapshot_queue
asked = record booted {
  intents = (Host.set_motor_speed intent_queue (pos 50) (negsuc 49) initial (zero_intent ∷ [])).1;
}

set_motor_speed-drives_example :
    ((Host.set_motor_speed intent_queue (pos 50) (negsuc 49) initial (zero_intent ∷ [])).0 ≡ ok)
    × (load_motor_command (turns intent_queue snapshot_queue 2 70 asked).motors
        ≡ (pos 50, negsuc 49))
    × ((turns intent_queue snapshot_queue 2 70 asked).intents ≡ [])
unfolding is_motor_enabled get_routing_mode
set_motor_speed-drives_example =
    set_motor_speed-drives intent_queue snapshot_queue (pos 50) (negsuc 49) 70 booted (omega arith)
      (omega arith) refl refl (omega arith)

abbrev idle_brain : Brain intent_queue snapshot_queue
idle_brain = record booted { intents = [] }

iteration-timeout_example :
    Stopped intent_queue snapshot_queue initial
      (iteration intent_queue snapshot_queue 3000 idle_brain).motors
    × (((is_radio_link_alive 0 3000 ≡ true)
          × ((iteration intent_queue snapshot_queue 3000 idle_brain).inference ≡ 0)
          × ((iteration intent_queue snapshot_queue 3000 idle_brain).snapshots ≡ (pos 4 ∷ []) ∷ []))
        ⊎ ((is_radio_link_alive 0 3000 ≡ false)
            × FellBack intent_queue snapshot_queue idle_brain
                (iteration intent_queue snapshot_queue 3000 idle_brain)))
iteration-timeout_example = iteration-timeout intent_queue snapshot_queue 3000 idle_brain refl

-- The least i32, a turn, a shutdown, a change of the mode and another request.
abbrev history : List Act
history =
    ask (negsuc 2_147_483_647) (pos 255)
    ∷ turn 50
    ∷ cut_off
    ∷ choose distributed
    ∷ hear 60
    ∷ ask (pos 900) (pos 0)
    ∷ []

booted-IsSafe : IsSafe intent_queue snapshot_queue booted
booted-IsSafe = record { queued = omega arith; loaded = rw (load-zero 1) (omega arith) }

acts-IsSafe_example :
    IsSafe intent_queue snapshot_queue (acts intent_queue snapshot_queue history booted)
acts-IsSafe_example =
    acts-IsSafe intent_queue snapshot_queue history booted (omega arith) booted-IsSafe
