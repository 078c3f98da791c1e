-- ===== src/Tests/Core0.antt =====
-- Runs of the model of the tasks of Core 0, and its theorems at concrete inputs.
use sand_os.Base.{◌≤◌, ◌<◌, ◌≡◌, ◌⊎◌, refl, arith, List, [], ◌∷◌, some, replicate}
use sand_os.Channel.{BoundedQueue, list_queue}
use sand_os.Ota.{new}
use sand_os.Radio.{WasmCommand}
use sand_os.Radio.Update.{framed}
use sand_os.Core0.{Event, frame, resume, queued, dropped, polling, Core0, step, run}
use sand_os.Core0.Queue.{Flows, run-Flows, ran_of}
use sand_os.Core0.Rest.{Settles, run-Settles}
use sand_os.Core0.Commands.{step-command}
use sand_os.Tests.Engine.{trapping, binary}

abbrev commands : BoundedQueue WasmCommand 8
commands = list_queue WasmCommand 8

-- One command waits, and a swap has been signalled.
abbrev busy : Core0 commands trapping
busy = record {
  link = record { last_rx_ms = 0; ota = new };
  commands = record { cmd_id = 0x01; payload = [] } ∷ [];
  swap = some 40;
  engine = polling (record { instance = binary; host = 0 });
}

-- The Wasm task swaps, a command frame arrives, and the task runs what waits.
abbrev events : List Event
events = resume ∷ frame (framed 0x10 (3 ∷ [])) 70 ∷ resume ∷ resume ∷ resume ∷ []

run-Flows_example : Flows commands trapping busy (run commands trapping binary events busy)
run-Flows_example = run-Flows commands trapping binary events busy

run-Settles_example :
    let (s', hs) = run commands trapping binary (replicate 5 resume) busy in
    Settles commands trapping binary busy.engine
      (some 40)
      (record { cmd_id = 0x01; payload = [] } ∷ [])
      s'.engine
      (ran_of hs)
      s'.commands
run-Settles_example = run-Settles commands trapping binary 5 busy tt (omega arith)

step-command_example :
    let (s', hs) = step commands trapping binary (frame (framed 0x10 (3 ∷ [])) 70) busy in
    (s'.link ≡ record { last_rx_ms = 70; ota = new })
    × (s'.swap ≡ some 40)
    × (s'.engine ≡ busy.engine)
    × (((1 < 8)
          × (hs ≡ queued (record { cmd_id = 0x10; payload = 3 ∷ [] }) ∷ [])
          × (s'.commands
              ≡ record { cmd_id = 0x01; payload = [] }
                ∷ record { cmd_id = 0x10; payload = 3 ∷ [] }
                ∷ []))
        ⊎ ((8 ≤ 1)
            × (hs ≡ dropped (record { cmd_id = 0x10; payload = 3 ∷ [] }) ∷ [])
            × (s'.commands ≡ busy.commands)))
step-command_example =
    step-command commands trapping binary 0x10 (3 ∷ []) 70 busy refl (omega arith)
