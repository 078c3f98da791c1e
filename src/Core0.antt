-- ===== src/Core0.antt =====
-- firmware/src/core0/mod.rs, `brain_task`: the radio task and the Wasm task of Core 0, which share the
-- command queue `CMD_CHANNEL` and the signal `OTA_SWAP_SIGNAL`. The executor runs one task at a time
-- and leaves a task only where it waits, so an interleaving is a sequence of their steps. A call of the
-- guest that never returns gives up the core no more: no step of either task follows it on a board,
-- and the runs here are those and more.
pub mod Queue
pub mod Rest
pub mod Commands
use sand_os.Base.{ℕ, List, [], ◌∷◌, ◌++◌, Option, none, some, Bool, true, false, if◌then◌else◌}
use sand_os.Channel.{BoundedQueue}
use sand_os.Ota.{new}
use sand_os.Radio.{WasmCommand, Effect, swap_signal, enqueue, Link, handle_frame}
use sand_os.Engine.{Interpreter, Task, Outcome, start, hot_swap, run_guest}
use sand_os.Engine as Engine

-- `CMD_QUEUE_DEPTH`
abbrev pub cmd_queue_depth : ℕ
cmd_queue_depth = 8

-- The radio task handles a frame, or the Wasm task goes on to its next wait.
pub data Event : Type 0 where
  frame : List ℕ → ℕ → Event
  resume : Event

-- What an observer sees of the commands.
pub data Happening : Type 0 where
  queued dropped ran : WasmCommand → Happening

module _ {H : Type 0} (C : BoundedQueue WasmCommand 8) (W : Interpreter H) where
  -- The Wasm task is at the top of its loop, waits for a command, has returned, or is in a call of the
  -- guest that never returns.
  pub data Phase : Type 0 where
    polling waiting : Task W → Phase
    returned stuck : Phase

  pub record Core0 : Type 0 where
    pub link : Link
    pub commands : C.Queue
    pub swap : Option ℕ
    pub engine : Phase

  -- `Signal::signal` replaces what was signalled; `Channel::try_send` on a full queue is dropped.
  unfoldable pub apply : Effect → Core0 → Core0 × List Happening
  apply (swap_signal n) s = (record s { swap = some n }, [])
  apply (enqueue c) s =
      let (taken, commands) = C.try_send c s.commands in
      (record s { commands = commands }, (if taken then queued c else dropped c) ∷ [])

  unfoldable pub apply_all : List Effect → Core0 → Core0 × List Happening
  apply_all [] s = (s, [])
  apply_all (e ∷ es) s =
      let (s', first) = apply e s in let (end, later) = apply_all es s' in (end, first ++ later)

  -- A task goes on after the call of the guest, or not.
  abbrev pub called : Outcome W → Phase
  called (Engine.running t) = polling t
  called Engine.returned = returned
  called Engine.blocked = stuck

  -- A task goes on after the swap, or has returned.
  abbrev pub swapped : Option (Task W) → Phase
  swapped none = returned
  swapped (some t) = waiting t

  module _ (guest_wasm : List ℕ) where
    -- `receiver.receive().await`, then the call of the guest.
    abbrev pub take_command : Option WasmCommand → C.Queue → Task W → Core0 → Core0 × List Happening
    take_command none commands t s = (s, [])
    take_command (some c) commands t s = (
      record s { commands = commands; engine = called (run_guest W guest_wasm c.cmd_id t) },
      ran c ∷ [],
    )

    -- `OTA_SWAP_SIGNAL.try_take()`, and the swap; or a command, if one is there.
    unfoldable pub engine_step : Phase → Core0 → Core0 × List Happening
    engine_step (polling t) s =
        (record s { swap = none; engine = swapped (hot_swap W guest_wasm s.swap t) }, [])
    engine_step (waiting t) s =
        let (next, commands) = C.try_receive s.commands in take_command next commands t s
    engine_step returned s = (s, [])
    engine_step stuck s = (s, [])

    unfoldable pub step : Event → Core0 → Core0 × List Happening
    step (frame bytes now) s =
        let (link, effects) = handle_frame bytes now s.link in
        apply_all effects (record s { link = link })
    step resume s = engine_step s.engine s

    unfoldable pub run : List Event → Core0 → Core0 × List Happening
    run [] s = (s, [])
    run (e ∷ es) s =
        let (s', first) = step e s in let (end, later) = run es s' in (end, first ++ later)

    -- A Wasm task that has started, or has returned at once.
    abbrev pub begun : Option (Task W) → Phase
    begun none = returned
    begun (some t) = polling t

    -- `brain_task`, at the boot of the board.
    unfoldable pub brain_task : H → Core0
    brain_task host = record {
      link = record { last_rx_ms = 0; ota = new };
      commands = C.empty;
      swap = none;
      engine = begun (start W guest_wasm host);
    }
