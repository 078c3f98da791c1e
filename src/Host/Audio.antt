-- ===== src/Host/Audio.antt =====
-- firmware/src/core0/abi.rs, `read_audio`: the microphone's bytes reach the guest in order, once.
use sand_os.Base.{
  ℕ, zero, suc, ◌%◌, ◌^◌, min, ◌≤◌, ◌<◌, ◌≡◌, ◌⊎◌, refl, ap, inl, inr, arith, List, [], ◌∷◌, ◌++◌,
  length, take, drop, ltb, Bool-cases,
}
use sand_os.Base.Int.{pos}
use sand_os.Abi.Status.{err_bounds}
use sand_os.Text.{BoundedString}
use sand_os.Channel.{BoundedQueue}
use sand_os.Host.{AbiHost, fill, read_audio}

module _ (T : BoundedString 256) (A : BoundedQueue ℕ 8192) where
  -- What `fill` does to a queue that holds `held`.
  abbrev pub Filled : ℕ → List ℕ → List ℕ → List ℕ × A.Queue → Type 0
  Filled n out held (bytes, rest) =
      (bytes ≡ take n held ++ drop n out) × (A.contents rest ≡ drop n held)

  -- The loop takes the first `n` bytes of the queue.
  pub fill-Filled :
      (n : ℕ) (out held : List ℕ) (q : A.Queue)
      → A.contents q ≡ held
      → n ≤ length out
      → n ≤ length held
      → Filled n out held (fill T A n out q)
  unfolding fill
  fill-Filled zero out held q e ho hh = (refl, e)
  fill-Filled (suc n) [] held q e ho hh = ground arith
  fill-Filled (suc n) (old ∷ out) [] q e ho hh = ground arith
  fill-Filled (suc n) (old ∷ out) (b ∷ held) q e ho hh =
      let (front, rest) = A.try_receive_some b held q e in
      let later : Filled n out held (fill T A n out (A.try_receive q).1) =
        fill-Filled n out held (A.try_receive q).1 rest (omega (arith, ho)) (omega (arith, hh)) in
      rw (front, fill) (ap (λ z. b ∷ z) later.0, later.1)

  -- How many bytes a buffer takes from a host.
  abbrev pub available : List ℕ → AbiHost T A → ℕ
  available out h = min (length out) (length (A.contents h.audio_buf))

  -- A buffer within the limit gets the oldest bytes of the microphone, as many as there are and as
  -- have room, in their order, and keeps the rest; these bytes are gone from the host and no others.
  -- A larger buffer is refused, and nothing changes.
  pub read_audio_lem :
      (out : List ℕ) (h : AbiHost T A)
      → length out < 2 ^ 32
      → ((length out ≤ 1024)
          × ((read_audio T A out h).0 ≡ pos (available out h))
          × ((read_audio T A out h).1.0
              ≡ take (available out h) (A.contents h.audio_buf) ++ drop (available out h) out)
          × (A.contents (read_audio T A out h).1.1.audio_buf
              ≡ drop (available out h) (A.contents h.audio_buf)))
        ⊎ ((1024 < length out) × (read_audio T A out h ≡ (err_bounds, (out, h))))
  unfolding read_audio
  read_audio_lem out h small = elim (Bool-cases (ltb 1024 (length out % 2 ^ 32))) [
    | inl big ↦ inr (ground arith, rw big refl)
    | inr fits ↦ inl (
      ground arith,
      rw (fits, A.len-contents h.audio_buf) refl,
      rw (fits, A.len-contents h.audio_buf) filled.0,
      rw (fits, A.len-contents h.audio_buf) filled.1,
    )
  ]
    where
      filled :
          Filled
            (available out h)
            out
            (A.contents h.audio_buf)
            (fill T A (available out h) out h.audio_buf)
      filled =
          fill-Filled (available out h) out (A.contents h.audio_buf) h.audio_buf refl (omega arith)
            (omega arith)
