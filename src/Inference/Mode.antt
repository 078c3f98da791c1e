-- ===== src/Inference/Mode.antt =====
-- firmware/src/inference.rs, `TinyMlEngine::run`: the byte from which the class is computed.
use sand_os.Base.{
  ℕ, zero, suc, ◌+◌, ◌%◌, ◌≤◌, ◌<◌, ◌≡◌, ◌⊎◌, refl, inl, inr, arith, List, [], ◌∷◌, leb, ◌==◌,
  if◌then◌else◌, Bool-cases, ap, length, get_or, take, replicate, length-replicate,
}
use sand_os.Base.Int.{ℤ}
use sand_os.Inference.{as_u8, bump, count_all, max_by_count, top_byte, run}

-- How often the byte `b` occurs among the samples.
pub occurrences : ℕ → List ℤ → ℕ
occurrences b [] = 0
occurrences b (s ∷ samples) = (if as_u8 s == b then 1 else 0) + occurrences b samples

length-bump : (i : ℕ) (freq : List ℕ) → length (bump i freq) ≡ length freq
unfolding bump
length-bump i [] = refl
length-bump zero (f ∷ freq) = refl
length-bump (suc i) (f ∷ freq) = omega (arith, length-bump i freq)

get_or-bump :
    (i b : ℕ) (freq : List ℕ)
    → b < length freq
    → get_or (bump i freq) b 0 ≡ (if i == b then 1 else 0) + get_or freq b 0
unfolding bump
get_or-bump i b [] h = omega arith
get_or-bump zero zero (f ∷ freq) h = omega arith
get_or-bump zero (suc b) (f ∷ freq) h = ground arith
get_or-bump (suc i) zero (f ∷ freq) h = ground arith
get_or-bump (suc i) (suc b) (f ∷ freq) h = ground (arith, get_or-bump i b freq (omega arith))

length-count_all :
    (samples : List ℤ) (freq : List ℕ) → length (count_all samples freq) ≡ length freq
unfolding count_all
length-count_all [] freq = refl
length-count_all (s ∷ samples) freq =
    omega (arith, length-count_all samples (bump (as_u8 s) freq), length-bump (as_u8 s) freq)

get_or-count_all :
    (b : ℕ) (samples : List ℤ) (freq : List ℕ)
    → b < length freq
    → get_or (count_all samples freq) b 0 ≡ occurrences b samples + get_or freq b 0
unfolding count_all occurrences
get_or-count_all b [] freq h = omega arith
get_or-count_all b (s ∷ samples) freq h = omega (
  arith,
  get_or-count_all b samples (bump (as_u8 s) freq) (omega (arith, length-bump (as_u8 s) freq)),
  get_or-bump (as_u8 s) b freq h,
)

-- What `max_by_count` answers: the best so far, with no greater count behind it, or an index of the
-- rest whose count is none smaller than any.
abbrev IsMax : ℕ → ℕ → ℕ → List ℕ → ℕ → Type 0
IsMax best most i freq m =
    ((m ≡ best) × ((j : ℕ) → j < length freq → get_or freq j 0 ≤ most))
    ⊎ ((k : ℕ) × (m ≡ i + k)
        × (k < length freq)
        × (most ≤ get_or freq k 0)
        × ((j : ℕ) → j < length freq → get_or freq j 0 ≤ get_or freq k 0))

entries_below :
    (f bound : ℕ) (freq : List ℕ)
    → f ≤ bound
    → ((j : ℕ) → j < length freq → get_or freq j 0 ≤ bound)
    → (j : ℕ) → j < length (f ∷ freq)
    → get_or (f ∷ freq) j 0 ≤ bound
entries_below f bound freq first rest zero h = first
entries_below f bound freq first rest (suc j) h = rest j (omega arith)

max_by_count-IsMax :
    (best most i : ℕ) (freq : List ℕ) → IsMax best most i freq (max_by_count best most i freq)
unfolding max_by_count
max_by_count-IsMax best most i [] = inl (refl, λ j h. omega arith)
max_by_count-IsMax best most i (f ∷ freq) = elim (Bool-cases (leb most f)) [
  | inl less ↦ rw less (elim (max_by_count-IsMax i f (suc i) freq) [
    | inl (e, below) ↦
        inr (
          0,
          omega (arith, e),
          omega arith,
          ground arith,
          entries_below f f freq (omega arith) below,
        )
    | inr (k, e, inside, above, all) ↦ inr (
      suc k,
      omega (arith, e),
      omega (arith, inside),
      ground arith,
      entries_below f _ freq above all,
    )
  ])
  | inr more ↦ rw more (elim (max_by_count-IsMax best most (suc i) freq) [
    | inl (e, below) ↦ inl (e, entries_below f most freq (ground arith) below)
    | inr (k, e, inside, above, all) ↦ inr (
      suc k,
      omega (arith, e),
      omega (arith, inside),
      above,
      entries_below f _ freq (ground arith) all,
    )
  ])
]

get_or-replicate : (n b : ℕ) → get_or (replicate {A = ℕ} n 0) b 0 ≡ 0
get_or-replicate zero b = refl
get_or-replicate (suc n) zero = refl
get_or-replicate (suc n) (suc b) = get_or-replicate n b

top_byte-IsMode :
    (samples : List ℤ)
    → (top_byte samples < 256)
      × ((b : ℕ) → b < 256 → occurrences b samples ≤ occurrences (top_byte samples) samples)
unfolding top_byte
top_byte-IsMode samples = elim (max_by_count-IsMax 0 0 0 (count_all samples (replicate 256 0))) [
  | inl (e, below) ↦
      (omega (arith, e), λ b h. omega (arith, below b (omega (arith, h, size)), counted b h))
  | inr (k, e, inside, above, all) ↦ (
    omega (arith, e, inside, size),
    λ b h. omega (
      arith,
      all b (omega (arith, h, size)),
      counted b h,
      counted k (omega (arith, inside, size)),
      picked k (omega (arith, e)),
    ),
  )
]
  where
    size : length (count_all samples (replicate 256 0)) ≡ 256
    size = omega (arith, length-count_all samples (replicate 256 0), length-replicate {A = ℕ} 256 0)

    picked :
        (k : ℕ)
        → top_byte samples ≡ k
        → occurrences (top_byte samples) samples ≡ occurrences k samples
    picked k e = ap (λ m. occurrences m samples) e

    counted :
        (b : ℕ) → b < 256 → get_or (count_all samples (replicate 256 0)) b 0 ≡ occurrences b samples
    counted b h = omega (
      arith,
      get_or-count_all b samples (replicate 256 0) (omega (arith, h)),
      get_or-replicate 256 b,
    )

-- The class of a non-empty tensor is computed from a byte than which no byte occurs more often among
-- its first 1024 samples.
pub run-IsMode :
    (s : ℤ) (ss : List ℤ)
    → (byte : ℕ) × (byte < 256)
      × ((run (s ∷ ss)).top_class ≡ byte % 8)
      × ((b : ℕ)
          → b < 256
          → occurrences b (take 1024 (s ∷ ss)) ≤ occurrences byte (take 1024 (s ∷ ss)))
unfolding run
run-IsMode s ss = (
  top_byte (take 1024 (s ∷ ss)),
  (top_byte-IsMode (take 1024 (s ∷ ss))).0,
  refl,
  (top_byte-IsMode (take 1024 (s ∷ ss))).1,
)
