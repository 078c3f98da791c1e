-- ===== src/Mock/Audio.antt =====
-- host-tests/src/mock_host.rs, `read_audio`: the test's bytes reach the guest in order, once.
use sand_os.Base.{
  ℕ, zero, suc, ◌%◌, ◌^◌, min, ◌≤◌, ◌≡◌, refl, arith, List, [], ◌∷◌, ◌++◌, length, take, drop, ltb,
  Bool-cases, inl, inr,
}
use sand_os.Base.Int.{pos}
use sand_os.Mock.{MockHost, fill, read_audio}

-- The loop takes the first `n` bytes of the buffer.
pub fill_lem :
    (n : ℕ) (out buf : List ℕ)
    → n ≤ length out
    → n ≤ length buf
    → fill n out buf ≡ (take n buf ++ drop n out, drop n buf)
unfolding fill
fill_lem zero out buf ho hb = refl
fill_lem (suc n) [] buf ho hb = ground arith
fill_lem (suc n) (old ∷ out) [] ho hb = ground arith
fill_lem (suc n) (old ∷ out) (b ∷ buf) ho hb =
    rw (fill_lem n out buf (omega (arith, ho)) (omega (arith, hb))) refl

-- A scratch buffer within the limit is filled as far as there are bytes.
pub read_audio_exact :
    (out : List ℕ) (h : MockHost)
    → length out ≤ 1024
    → let n = min (length out) (length h.audio_buf) in
      read_audio out h
      ≡ (pos n, (take n h.audio_buf ++ drop n out, record h { audio_buf = drop n h.audio_buf }))
unfolding read_audio
read_audio_exact out h small = elim (Bool-cases (ltb 1024 (length out % 2 ^ 32))) [
  | inl big ↦ ground arith
  | inr fits ↦
      let n = min (length out) (length h.audio_buf) in
      rw (fits, fill_lem n out h.audio_buf (omega arith) (omega arith)) refl
]
