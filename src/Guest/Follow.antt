-- ===== src/Guest/Follow.antt =====
-- wasm-apps/src/lib.rs, `query_local_inference_handler`: how the guest follows the local inference.
use sand_os.Base.{
  ℕ, ◌≤◌, ◌<◌, ◌≡◌, ◌⊎◌, refl, ap, ◌∙◌, inl, inr, arith, List, [], ◌∷◌, some, Bool, true, not, ◌&&◌,
  Bool-cases, length, replicate, splice, slice, slice-splice_self, length-splice, if◌then◌else◌,
  ltb,
}
use sand_os.Base.Int.{ℤ, pos, negsuc, as_u32, ltb_ℤ}
use mathlib.Core.Path.{subst}
use mathlib.Core.List.{append-nil}
use sand_os.Abi.Status.{ok}
use sand_os.Abi.Inference.{InferenceResult}
use sand_os.Abi.Inference.RoundTrip.{
  IsResult, result_layout, to_bytes-layout, length-layout, words-layout,
}
use sand_os.Bus.{single_board}
use sand_os.Inference.{run}
use sand_os.Inference.Range.{run-IsResult}
use sand_os.Router.Drive.{IsSpeed, not_too_fast}
use sand_os.Mock.{MockHost}
use sand_os.Mock as Mock
use sand_os.Mock.Learn.{run_fallback_inference, run_stub_inference-run}
use sand_os.Sandbox.{HostOps}
use sand_os.Sandbox as Call
use sand_os.Sandbox.Hosts.{mock_ops}
use sand_os.Sandbox.View.{if_true, if_false}
use sand_os.Guest.{Layout, is_ok, class_speeds, query_local_inference_handler}
use sand_os.Guest.Sense.{IsPlaced, validated-passes}
use sand_os.Guest.Emits.{guest}

-- The speeds of a class are within the limits of the motors.
pub class_speeds-IsSpeed : (c : ℤ) → IsSpeed (class_speeds c).0 × IsSpeed (class_speeds c).1
unfolding class_speeds
class_speeds-IsSpeed (negsuc n) = ground arith
class_speeds-IsSpeed (pos n) = ground arith

-- The guest follows an active result with a confidence of at least 60.
abbrev pub is_sure : InferenceResult → Bool
is_sure r = r.active && not (ltb r.confidence_pct 60)

sure_lem :
    (r : InferenceResult)
    → (not (is_ok (pos (if r.active then 1 else 0))) && not (ltb_ℤ (pos r.confidence_pct) (pos 60)))
      ≡ is_sure r
sure_lem r = ground arith

module _ {H : Type 0} (O : HostOps H) (L : Layout) where
  -- The memory with the guest's buffer cleared.
  abbrev cleared : List ℕ → List ℕ
  cleared mem = splice mem (as_u32 L.buf_at) (replicate 12 0)

  length-cleared : (mem : List ℕ) → IsPlaced L mem → length (cleared mem) ≡ length mem
  length-cleared mem placed =
      length-splice mem (as_u32 L.buf_at) (replicate 12 0) (omega (arith, placed.buf_in))

  -- The host's answer is copied over the buffer.
  infer_lem :
      (mem : List ℕ) (h : H) (r : InferenceResult)
      → IsPlaced L mem
      → O.get_local_inference (replicate 12 0) h ≡ (ok, result_layout r)
      → Call.get_local_inference O L.buf_at (record { memory = some (cleared mem); host = h }) ≡ (
        ok,
        record {
          memory = some (splice (cleared mem) (as_u32 L.buf_at) (result_layout r));
          host = h;
        },
      )
  unfolding Call.get_local_inference
  infer_lem mem h r placed answer =
      validated-passes O L.buf_at 12 _ h _ (omega (arith, length-cleared mem placed, placed.small))
        (omega (arith, length-cleared mem placed, placed.buf_in))
      ∙ rw answer refl

  -- The guest reads the result.
  read_back :
      (mem : List ℕ) (r : InferenceResult)
      → IsPlaced L mem
      → slice (splice (cleared mem) (as_u32 L.buf_at) (result_layout r)) (as_u32 L.buf_at) 12
        ≡ result_layout r
  read_back mem r placed =
      let buf = splice (cleared mem) (as_u32 L.buf_at) (result_layout r) in
      subst (λ n. slice buf (as_u32 L.buf_at) n ≡ result_layout r) (length-layout r)
        (slice-splice_self (cleared mem) (as_u32 L.buf_at) (result_layout r)
          (omega (arith, length-layout r, length-cleared mem placed, placed.buf_in)))

  -- The guest succeeds; a sure result moves the motors at the speeds of its class, any other leaves
  -- the host alone.
  pub query_lem :
      (t i o : ℕ) (mem : List ℕ) (h : H) (r : InferenceResult)
      → IsPlaced L mem
      → IsResult r
      → O.get_local_inference (replicate 12 0) h ≡ (ok, result_layout r)
      → let (left, right) = class_speeds (pos r.top_class) in
        let answer = query_local_inference_handler O L (guest O L t i o mem h) in
        (answer.0 ≡ ok)
        × (answer.1.vm.host ≡ (if is_sure r then (O.set_motor_speed left right h).1 else h))
  unfolding query_local_inference_handler Call.set_motor_speed
  query_lem t i o mem h r placed v answer =
      rw
        (
          infer_lem mem h r placed answer,
          read_back mem r placed,
          (words-layout r v).0,
          (words-layout r v).1,
          (words-layout r v).2,
          sure_lem r,
          not_too_fast _ (class_speeds-IsSpeed (pos r.top_class)).0,
          not_too_fast _ (class_speeds-IsSpeed (pos r.top_class)).1,
        )
        (elim (Bool-cases (is_sure r)) [
          | inl sure ↦ rw sure (refl, refl)
          | inr unsure ↦ rw unsure (refl, refl)
        ])

-- The mock's answer to the guest's buffer of zeros.
mock_infers :
    (k : MockHost)
    → Mock.get_local_inference (replicate 12 0) k ≡ (ok, result_layout k.inference_result)
unfolding Mock.get_local_inference
mock_infers k =
    rw (to_bytes-layout k.inference_result (replicate 12 0) (omega arith))
      (ap (λ bytes. (ok, bytes)) (append-nil (result_layout k.inference_result)))

-- Speeds in range move the enabled motors of a single board.
driven :
    (left right : ℤ) (k : MockHost)
    → IsSpeed left
    → IsSpeed right
    → k.motors_enabled ≡ true
    → k.routing_mode ≡ single_board
    → ((Mock.set_motor_speed left right k).1.motor_left_speed ≡ left)
      × ((Mock.set_motor_speed left right k).1.motor_right_speed ≡ right)
unfolding Mock.set_motor_speed
driven left right k hl hr on mode =
    rw (not_too_fast left hl, not_too_fast right hr, on, mode) (refl, refl)

-- A result of the engine is followed for its confidence alone: without samples it is 0.
pub is_sure-run :
    (tensor : List ℤ) → is_sure (run tensor) ≡ not (ltb (run tensor).confidence_pct 60)
unfolding run
is_sure-run [] = refl
is_sure-run (s ∷ ss) = refl

module _ (L : Layout) where
  -- The guest's locals lie in its memory, and the mock is a single board with enabled motors. After
  -- it has learned from the oldest of the snapshots that wait, the guest's inference command
  -- succeeds. If the result that the firmware's engine gives for that snapshot has a confidence of
  -- at least 60, then the motors get the speeds of its class, which are in range; otherwise the
  -- mock is as it was after learning.
  pub query_local_inference-learned :
      (t i o : ℕ) (mem : List ℕ) (k : MockHost) (snapshot : List ℤ) (rest : List (List ℤ))
      → IsPlaced L mem
      → k.audio_inference_queue ≡ snapshot ∷ rest
      → k.motors_enabled ≡ true
      → k.routing_mode ≡ single_board
      → let (left, right) = class_speeds (pos (run snapshot).top_class) in
        let learned = (run_fallback_inference k).1 in
        let answer =
          query_local_inference_handler mock_ops L (guest mock_ops L t i o mem learned) in
        (answer.0 ≡ ok)
        × (((60 ≤ (run snapshot).confidence_pct)
              × (answer.1.vm.host.motor_left_speed ≡ left)
              × (answer.1.vm.host.motor_right_speed ≡ right)
              × IsSpeed left
              × IsSpeed right)
            ⊎ (((run snapshot).confidence_pct < 60) × (answer.1.vm.host ≡ learned)))
  unfolding run_fallback_inference
  query_local_inference-learned t i o mem k snapshot rest placed waiting on mode =
      rw (waiting, run_stub_inference-run snapshot)
        (elim (Bool-cases (is_sure result)) [
          | inl sure ↦
              let same = passed.1 ∙ if_true _ sure in
              let moved = driven speeds.0 speeds.1 learned slow.0 slow.1 on mode in
              (
                passed.0,
                inl (
                  ground (arith, is_sure-run snapshot),
                  ap (λ h. h.motor_left_speed) same ∙ moved.0,
                  ap (λ h. h.motor_right_speed) same ∙ moved.1,
                  slow.0,
                  slow.1,
                ),
              )
          | inr unsure ↦
              (passed.0, inr (ground (arith, is_sure-run snapshot), passed.1 ∙ if_false _ unsure))
        ])
    where
      result : InferenceResult
      result = run snapshot

      learned : MockHost
      learned = record k { inference_result = result; audio_inference_queue = rest }

      speeds : ℤ × ℤ
      speeds = class_speeds (pos result.top_class)

      slow : IsSpeed speeds.0 × IsSpeed speeds.1
      slow = class_speeds-IsSpeed (pos result.top_class)

      passed :
          ((query_local_inference_handler mock_ops L (guest mock_ops L t i o mem learned)).0 ≡ ok)
          × ((query_local_inference_handler mock_ops L
                (guest mock_ops L t i o mem learned)).1.vm.host
              ≡ (if is_sure result
                  then (Mock.set_motor_speed speeds.0 speeds.1 learned).1
                  else learned))
      passed =
          query_lem mock_ops L t i o mem learned result placed (run-IsResult snapshot)
            (mock_infers learned)
