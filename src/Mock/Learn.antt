-- ===== src/Mock/Learn.antt =====
-- host-tests/src/mock_host.rs, the local inference: its queue of snapshots and its copy of the stub,
-- compared with that of firmware/src/inference.rs.
use sand_os.Base.{
  ℕ, ◌*◌, ◌/◌, ◌%◌, min, List, [], ◌∷◌, ◌++◌, Bool, true, false, length, take, replicate, ◌≡◌, refl,
}
use sand_os.Base.Int.{ℤ}
use sand_os.Abi.Status.{inference_tensor_size}
use sand_os.Abi.Inference.{InferenceResult, inactive}
use sand_os.Inference.{bump, as_u8, max_by_count, sum_abs, run, count_all, top_byte}
use sand_os.Mock.{MockHost}

-- `for &s in … { freq[s as u8 as usize] += 1; }`
unfoldable pub tally : List ℤ → List ℕ → List ℕ
tally [] freq = freq
tally (s ∷ samples) freq = tally samples (bump (as_u8 s) freq)

unfoldable pub run_stub_inference : List ℤ → InferenceResult
unfolding tally
run_stub_inference [] = inactive
run_stub_inference (s ∷ ss) =
    let tensor = s ∷ ss in
    let taken = take inference_tensor_size tensor in
    let top = max_by_count 0 0 0 (tally taken (replicate 256 0)) in
    let n = min (length tensor) inference_tensor_size in
    let mean_abs = sum_abs taken / n in
    record { active = true; top_class = top % 8; confidence_pct = min (mean_abs * 100 / 127) 100 }

-- The mock's copy of the stub is the firmware's.
tally-count_all : (samples : List ℤ) (freq : List ℕ) → tally samples freq ≡ count_all samples freq
unfolding tally count_all
tally-count_all [] freq = refl
tally-count_all (s ∷ samples) freq = tally-count_all samples _

pub run_stub_inference-run : (tensor : List ℤ) → run_stub_inference tensor ≡ run tensor
unfolding run_stub_inference run
run_stub_inference-run [] = refl
run_stub_inference-run (s ∷ ss) = unfold top_byte in rw tally-count_all refl

unfoldable pub is_radio_link_alive : MockHost → Bool
is_radio_link_alive h = h.radio_link_alive

unfoldable pub push_audio_for_inference : List ℤ → MockHost → MockHost
push_audio_for_inference samples h = record h {
  audio_inference_queue = h.audio_inference_queue ++ (samples ∷ []);
}

-- `remove(0)` of the snapshots, when there is one.
abbrev pub learn_first : List (List ℤ) → MockHost → Bool × MockHost
learn_first [] h = (false, h)
learn_first (snapshot ∷ rest) h = (
  true,
  record h { audio_inference_queue = rest; inference_result = run_stub_inference snapshot },
)

unfoldable pub run_fallback_inference : MockHost → Bool × MockHost
run_fallback_inference h = learn_first h.audio_inference_queue h
