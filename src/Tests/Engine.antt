-- ===== src/Tests/Engine.antt =====
-- Runs of the model of `wasm_run_task` of firmware/src/core0/wasm_vm.rs, and its theorems at concrete
-- inputs.
use sand_os.Base.{ℕ, ◌≡◌, suc, refl, List, [], ◌∷◌, none, some, true}
use sand_os.Engine.{Interpreter, Turn, running, wasm_run_task}
use sand_os.Engine.Runs.{RunsGuest, wasm_run_task-RunsGuest}
use sand_os.Engine.Steps.{RunFrom, wasm_run_task-Run}

-- An interpreter whose binaries are all sound, whose calls all trap, and whose host counts them.
abbrev pub trapping : Interpreter ℕ
trapping = record {
  Module = List ℕ;
  Instance = List ℕ;
  compile = λ binary. some binary;
  instantiate = λ m h. (some m, h);
  has_run_command = λ i. true;
  run_command = λ id i h. some (none, (i, suc h));
}

-- A command, then a swap and another.
abbrev passes : List Turn
passes = record { signal = none; cmd_id = 1 } ∷ record { signal = some 40; cmd_id = 17 } ∷ []

abbrev pub binary : List ℕ
binary = 0 ∷ 97 ∷ 115 ∷ 109 ∷ []

wasm_run_task-RunsGuest_example : RunsGuest trapping binary (wasm_run_task trapping binary passes 0)
wasm_run_task-RunsGuest_example = wasm_run_task-RunsGuest trapping binary passes 0

wasm_run_task-Run_example :
    RunFrom trapping binary 0 passes (wasm_run_task trapping binary passes 0)
wasm_run_task-Run_example = wasm_run_task-Run trapping binary passes 0

-- Both commands were called.
two_calls :
    wasm_run_task trapping binary passes 0 ≡ running (record { instance = binary; host = 2 })
unfolding wasm_run_task sand_os.Engine.start sand_os.Engine.build_vm sand_os.Engine.turns
    sand_os.Engine.turn sand_os.Engine.hot_swap sand_os.Engine.run_guest
two_calls = refl
