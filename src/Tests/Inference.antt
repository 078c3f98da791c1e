-- ===== src/Tests/Inference.antt =====
-- Runs of the model of firmware/src/inference.rs, and its theorems at concrete inputs.
use sand_os.Base.{ℕ, ◌≤◌, ◌<◌, ◌%◌, ◌≡◌, refl, List, [], ◌∷◌, true, take}
use sand_os.Base.Int.{ℤ, pos, negsuc}
use sand_os.Inference.{run}
use sand_os.Inference.Mode.{occurrences, run-IsMode}

-- -3 twice, 5 once: the byte 0xFD, of class 5; a mean of 3, of 127.
abbrev samples : List ℤ
samples = negsuc 2 ∷ pos 5 ∷ negsuc 2 ∷ []

samples_class : run samples ≡ record { active = true; top_class = 5; confidence_pct = 2 }
unfolding run
samples_class = refl

run-IsMode_example :
    (byte : ℕ) × (byte < 256)
    × ((run samples).top_class ≡ byte % 8)
    × ((b : ℕ) → b < 256 → occurrences b (take 1024 samples) ≤ occurrences byte (take 1024 samples))
run-IsMode_example = run-IsMode (negsuc 2) (pos 5 ∷ negsuc 2 ∷ [])
