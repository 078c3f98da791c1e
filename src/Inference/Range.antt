-- ===== src/Inference/Range.antt =====
-- firmware/src/inference.rs: the range of a result, and its way through the shared word.
use sand_os.Base.{ℕ, ◌≤◌, ◌<◌, ◌≡◌, refl, arith, List, [], ◌∷◌, not, ◌==◌, length}
use sand_os.Base.Int.{ℤ}
use sand_os.Abi.Inference.RoundTrip.{IsResult, unpack-pack}
use sand_os.Inference.{run, store_inference_result, load_inference_result}

pub run-IsResult : (tensor : List ℤ) → IsResult (run tensor)
unfolding run
run-IsResult [] = record { class_in = omega arith; confidence_in = omega arith }
run-IsResult (s ∷ ss) = record { class_in = omega arith; confidence_in = omega arith }

-- The result of a pass is what a later load gives, whatever the word held; it is active exactly when
-- there were samples, and names one of 8 classes with a confidence of at most 100.
pub load-store-run :
    (tensor : List ℤ) (word : ℕ)
    → (load_inference_result (store_inference_result (run tensor) word) ≡ run tensor)
      × ((run tensor).active ≡ not (length tensor == 0))
      × ((run tensor).top_class < 8)
      × ((run tensor).confidence_pct ≤ 100)
unfolding run load_inference_result store_inference_result
load-store-run [] word = (unpack-pack (run []) (run-IsResult []), refl, omega arith, omega arith)
load-store-run (s ∷ ss) word =
    (unpack-pack (run (s ∷ ss)) (run-IsResult (s ∷ ss)), ground arith, omega arith, omega arith)
