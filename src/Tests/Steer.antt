-- ===== src/Tests/Steer.antt =====
-- The way from a snapshot of the microphone to the motors, run at one snapshot.
use sand_os.Base.{◌≤◌, ◌<◌, ◌≡◌, ◌⊎◌, refl, arith, List, [], ◌∷◌}
use sand_os.Base.Int.{ℤ, pos, negsuc}
use sand_os.Abi.Status.{ok}
use sand_os.Channel.{BoundedQueue, list_queue}
use sand_os.Motors.{initial, load_motor_command, is_motor_enabled}
use sand_os.Bus.{zero_intent, get_routing_mode}
use sand_os.Inference.{run}
use sand_os.Router.{Brain, run_fallback_inference}
use sand_os.Router.Drive.{turns}
use sand_os.Sandbox.Hosts.{Board, board_ops}
use sand_os.Guest.{App, class_speeds, query_local_inference_handler}
use sand_os.Guest.Emits.{guest}
use sand_os.Guest.Steer.{seen, query_local_inference-drives}
use sand_os.Tests.Sandbox.{strings, microphone, intents, packets, board}
use sand_os.Tests.Guest.{bytes, layout, layout-IsPlaced}

abbrev snapshot_queue : BoundedQueue (List ℤ) 2
snapshot_queue = list_queue (List ℤ) 2

-- At boot, with one intent and one loud snapshot queued.
abbrev waiting : Brain intents snapshot_queue
waiting = record {
  intents = zero_intent ∷ [];
  snapshots = (negsuc 126 ∷ []) ∷ [];
  routing_mode = 0;
  motors = initial;
  inference = 0;
  last_rx_ms = 0;
}

abbrev brain : Brain intents snapshot_queue
brain = run_fallback_inference intents snapshot_queue waiting

abbrev found : Board strings microphone intents packets
found = seen strings microphone intents packets snapshot_queue layout board brain

abbrev answer : ℤ × App (Board strings microphone intents packets)
answer =
    query_local_inference_handler (board_ops strings microphone intents packets) layout
      (guest (board_ops strings microphone intents packets) layout 0 0 0 (bytes 64) found)

abbrev after : Brain intents snapshot_queue
after = turns intents snapshot_queue 2 90 (record brain { intents = answer.1.vm.host.intents })

query_local_inference-drives_example :
    (answer.0 ≡ ok)
    × (((60 ≤ (run (negsuc 126 ∷ [])).confidence_pct)
          × (load_motor_command after.motors ≡ class_speeds (pos (run (negsuc 126 ∷ [])).top_class))
          × (after.intents ≡ []))
        ⊎ (((run (negsuc 126 ∷ [])).confidence_pct < 60) × (answer.1.vm.host ≡ found)))
unfolding is_motor_enabled get_routing_mode
query_local_inference-drives_example =
    query_local_inference-drives strings microphone intents packets snapshot_queue layout 0 0 0
      (bytes 64) board waiting (negsuc 126 ∷ []) [] 90 layout-IsPlaced refl refl refl (omega arith)
