-- ===== src/Inference.antt =====
-- firmware/src/inference.rs: the stub of the neural-network engine, and the shared result word.
pub mod Mode
pub mod Range
use sand_os.Base.{
  ℕ, zero, suc, ◌+◌, ◌*◌, ◌/◌, ◌%◌, ◌-◌, ◌^◌, min, List, [], ◌∷◌, Bool, true, leb, ◌==◌,
  if◌then◌else◌, length, take, replicate,
}
use sand_os.Base.Int.{ℤ, pos, negsuc}
use sand_os.Abi.Status.{inference_tensor_size}
use sand_os.Abi.Inference.{InferenceResult, inactive, pack, unpack}

-- `s as u8` and `s.unsigned_abs()` of an i8.
unfoldable pub as_u8 : ℤ → ℕ
as_u8 (pos n) = n % 256
as_u8 (negsuc n) = 255 - n % 256

unfoldable pub unsigned_abs : ℤ → ℕ
unsigned_abs (pos n) = n
unsigned_abs (negsuc n) = suc n

-- `freq[i] += 1`
unfoldable pub bump : ℕ → List ℕ → List ℕ
bump i [] = []
bump zero (f ∷ freq) = suc f ∷ freq
bump (suc i) (f ∷ freq) = f ∷ bump i freq

unfoldable pub count_all : List ℤ → List ℕ → List ℕ
unfolding as_u8 bump
count_all [] freq = freq
count_all (s ∷ samples) freq = count_all samples (bump (as_u8 s) freq)

-- `enumerate().max_by_key(count)`: of the greatest counts, the last. `best` and `most` are the index
-- and the count of the best so far, `i` is the index of the head.
unfoldable pub max_by_count : ℕ → ℕ → ℕ → List ℕ → ℕ
max_by_count best most i [] = best
max_by_count best most i (f ∷ freq) =
    let taken = max_by_count i f (suc i) freq in
    let kept = max_by_count best most (suc i) freq in if leb most f then taken else kept

unfoldable pub sum_abs : List ℤ → ℕ
unfolding unsigned_abs
sum_abs [] = 0
sum_abs (s ∷ samples) = unsigned_abs s + sum_abs samples

unfoldable pub top_byte : List ℤ → ℕ
unfolding count_all max_by_count
top_byte samples = max_by_count 0 0 0 (count_all samples (replicate 256 0))

unfoldable pub run : List ℤ → InferenceResult
unfolding top_byte sum_abs
run [] = inactive
run (s ∷ ss) =
    let tensor = s ∷ ss in
    let samples = take inference_tensor_size tensor in
    let n = min (length tensor) inference_tensor_size in
    let mean_abs = sum_abs samples / n in
    record {
      active = true;
      top_class = top_byte samples % 8;
      confidence_pct = min (mean_abs * 100 / 127) 100;
    }

-- `INFERENCE_RESULT`, a u32, is what these pass on.
unfoldable pub store_inference_result : InferenceResult → ℕ → ℕ
store_inference_result result word = pack result

unfoldable pub load_inference_result : ℕ → InferenceResult
load_inference_result word = unpack word
