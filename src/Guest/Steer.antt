-- ===== src/Guest/Steer.antt =====
-- firmware/src/router.rs, firmware/src/core0/abi.rs and wasm-apps/src/lib.rs together: from a snapshot
-- of the microphone to the command of the motors.
use sand_os.Base.{
  ℕ, suc, ◌≤◌, ◌<◌, ◌≡◌, ◌⊎◌, refl, ap, ◌∙◌, inl, inr, arith, List, [], ◌∷◌, Bool-cases, length,
  true, replicate, if◌then◌else◌,
}
use sand_os.Base.Int.{ℤ, pos}
use mathlib.Core.List.{append-nil}
use sand_os.Abi.Status.{ok}
use sand_os.Abi.Inference.{InferenceResult}
use sand_os.Abi.Inference.RoundTrip.{result_layout, to_bytes-layout}
use sand_os.Abi.Telemetry.{TelemetryPacket}
use sand_os.Text.{BoundedString}
use sand_os.Channel.{BoundedQueue}
use sand_os.Bus.{MovementIntent, get_routing_mode, single_board}
use sand_os.Motors.{is_motor_enabled, load_motor_command}
use sand_os.Inference.{run, store_inference_result}
use sand_os.Inference.Range.{run-IsResult, load-store-run}
use sand_os.Host as Host
use sand_os.Router.{Brain, run_fallback_inference}
use sand_os.Router.Drive.{turns, set_motor_speed-drives}
use sand_os.Sandbox.Hosts.{Board, board_ops}
use sand_os.Sandbox.View.{if_true, if_false}
use sand_os.Guest.{Layout, class_speeds, query_local_inference_handler}
use sand_os.Guest.Sense.{IsPlaced}
use sand_os.Guest.Emits.{guest}
use sand_os.Guest.Follow.{is_sure, query_lem, is_sure-run, class_speeds-IsSpeed}

-- The host fills the guest's buffer with the result that was stored last.
host_infers :
    (tensor : List ℤ) (word : ℕ)
    → Host.get_local_inference (replicate 12 0) (store_inference_result (run tensor) word)
      ≡ (ok, result_layout (run tensor))
unfolding Host.get_local_inference
host_infers tensor word =
    rw
      (
        (load-store-run tensor word).0,
        to_bytes-layout (run tensor) (replicate 12 0) (omega arith),
        append-nil (result_layout (run tensor)),
      )
      refl

module _ (T : BoundedString 256) (A : BoundedQueue ℕ 8192) (I : BoundedQueue MovementIntent 8)
    (Q : BoundedQueue TelemetryPacket 32) (S : BoundedQueue (List ℤ) 2) (L : Layout) where
  -- The board as the guest's host finds it, with the words and the queue of the router.
  abbrev pub seen : Board T A I Q → Brain I S → Board T A I Q
  seen b s = record b { motors = s.motors; intents = s.intents; inference_word = s.inference }

  -- The fallback takes the oldest snapshot and stores its result.
  heard :
      (s : Brain I S) (snapshot : List ℤ) (rest : List (List ℤ))
      → S.contents s.snapshots ≡ snapshot ∷ rest
      → run_fallback_inference I S s ≡ record s {
        snapshots = (S.try_receive s.snapshots).1;
        inference = store_inference_result (run snapshot) s.inference;
      }
  unfolding run_fallback_inference
  heard s snapshot rest waiting =
      rw ((S.try_receive_some snapshot rest s.snapshots waiting).0, run_fallback_inference) refl

  -- The guest's locals lie in its memory, the motors are enabled, this board is driven and the
  -- queue of intents has room. After the router has fallen back on the oldest of the snapshots that
  -- wait, the guest's inference command succeeds. If the result for that snapshot has a confidence
  -- of at least 60, then the router's next turns, with no other call in between, empty the queue
  -- and leave the speeds of the result's class as the command that Core 1 loads; with less
  -- confidence the host is as the router left it.
  pub query_local_inference-drives :
      (t i o : ℕ) (mem : List ℕ) (b : Board T A I Q) (s : Brain I S) (snapshot : List ℤ)
      (rest : List (List ℤ)) (now : ℕ)
      → IsPlaced L mem
      → S.contents s.snapshots ≡ snapshot ∷ rest
      → is_motor_enabled s.motors ≡ true
      → get_routing_mode s.routing_mode ≡ single_board
      → length (I.contents s.intents) < 8
      → let brain = run_fallback_inference I S s in
        let answer =
          query_local_inference_handler
            (board_ops T A I Q)
            L
            (guest (board_ops T A I Q) L t i o mem (seen b brain)) in
        let after =
          turns I S
            (suc (length (I.contents s.intents)))
            now
            (record brain { intents = answer.1.vm.host.intents }) in
        (answer.0 ≡ ok)
        × (((60 ≤ (run snapshot).confidence_pct)
              × (load_motor_command after.motors ≡ class_speeds (pos (run snapshot).top_class))
              × (I.contents after.intents ≡ []))
            ⊎ (((run snapshot).confidence_pct < 60) × (answer.1.vm.host ≡ seen b brain)))
  query_local_inference-drives t i o mem b s snapshot rest now placed waiting on mode room =
      rw (heard s snapshot rest waiting) (elim (Bool-cases (is_sure result)) [
        | inl sure ↦
            let same = ap (λ h. h.intents) (passed.1 ∙ if_true _ sure) in
            (
              passed.0,
              inl (ground (arith, is_sure-run snapshot), rw same driven.0, rw same driven.1),
            )
        | inr unsure ↦
            (passed.0, inr (ground (arith, is_sure-run snapshot), passed.1 ∙ if_false _ unsure))
      ])
    where
      result : InferenceResult
      result = run snapshot

      brain : Brain I S
      brain = record s {
        snapshots = (S.try_receive s.snapshots).1;
        inference = store_inference_result result s.inference;
      }

      speeds : ℤ × ℤ
      speeds = class_speeds (pos result.top_class)

      passed :
          let answer =
            query_local_inference_handler
              (board_ops T A I Q)
              L
              (guest (board_ops T A I Q) L t i o mem (seen b brain)) in
          (answer.0 ≡ ok)
          × (answer.1.vm.host ≡ (
              if is_sure result
              then ((board_ops T A I Q).set_motor_speed speeds.0 speeds.1 (seen b brain)).1
              else seen b brain))
      passed =
          query_lem (board_ops T A I Q) L t i o mem (seen b brain) result placed
            (run-IsResult snapshot) (host_infers snapshot s.inference)

      driven :
          let queued = (Host.set_motor_speed I speeds.0 speeds.1 s.motors s.intents).1 in
          let after =
            turns I S
              (suc (length (I.contents s.intents)))
              now
              (record brain { intents = queued }) in
          (load_motor_command after.motors ≡ speeds) × (I.contents after.intents ≡ [])
      driven =
          let (code, loaded, empty) =
            set_motor_speed-drives I S speeds.0 speeds.1 now brain
              (class_speeds-IsSpeed (pos result.top_class)).0
              (class_speeds-IsSpeed (pos result.top_class)).1 on mode room in
          (loaded, empty)
