-- ===== src/Base/Slices.antt =====
-- Rust slices of a byte buffer: `&buf[at..at + n]`, and `buf[at..at + n].copy_from_slice(bytes)`.
use Prim.Native.Nat.{ℕ, ◌+◌, ◌-◌, ◌≤◌, ◌<◌}
use mathlib.Core.Logic.{◌⊎◌, inl, inr}
use mathlib.Core.Path.{◌≡◌, ap, sym, subst, ◌∙◌}
use mathlib.Core.List.{List, ◌++◌, append_assoc}
use native.Mathlib.Omega.{arith}
use sand_os.Base.Lists.{
  length, get_or, take, drop, All, length-append, length-take, length-drop, take-length_append,
  drop-length_append, get_or-append_left, get_or-append_right, get_or-take, get_or-drop,
  eq_of_entries, All-append, All-take, All-drop,
}

module _ {ℓ} {A : Type ℓ} where
  unfoldable pub slice : List A → ℕ → ℕ → List A
  slice buf at n = take n (drop at buf)

  -- Rust panics where the range leaves the buffer; every call in the model is guarded.
  unfoldable pub splice : List A → ℕ → List A → List A
  splice buf at bytes = take at buf ++ (bytes ++ drop (at + length bytes) buf)

module _ {ℓ} {A : Type ℓ} where
  pub length-splice :
      (buf : List A) (at : ℕ) (bytes : List A)
      → at + length bytes ≤ length buf
      → length (splice buf at bytes) ≡ length buf
  unfolding splice
  length-splice buf at bytes h = omega (
    arith,
    length-append (take at buf) (bytes ++ drop (at + length bytes) buf),
    length-append bytes (drop (at + length bytes) buf),
    length-take at buf,
    length-drop (at + length bytes) buf,
  )

  pub length-slice : (buf : List A) (at n : ℕ) → at + n ≤ length buf → length (slice buf at n) ≡ n
  unfolding slice
  length-slice buf at n h = omega (arith, length-take n (drop at buf), length-drop at buf)

  length-take_within : (at : ℕ) (buf : List A) → at ≤ length buf → length (take at buf) ≡ at
  length-take_within at buf h = omega (arith, length-take at buf)

  -- Up to the end of the written range, a splice is what stood before it and then the bytes.
  pub take-splice :
      (buf : List A) (at : ℕ) (bytes : List A)
      → at + length bytes ≤ length buf
      → take (at + length bytes) (splice buf at bytes) ≡ take at buf ++ bytes
  unfolding splice
  take-splice buf at bytes h =
      let front : List A = take at buf ++ bytes in
      let size : length front ≡ at + length bytes =
        omega (arith, length-append (take at buf) bytes, length-take at buf) in
      rw (← append_assoc (take at buf) bytes (drop (at + length bytes) buf), ← size)
        (take-length_append front _)

  pub slice-splice_self :
      (buf : List A) (at : ℕ) (bytes : List A)
      → at + length bytes ≤ length buf
      → slice (splice buf at bytes) at (length bytes) ≡ bytes
  unfolding slice splice
  slice-splice_self buf at bytes h =
      let front : length (take at buf) ≡ at = length-take_within at buf (omega arith) in
      let tail : drop at (take at buf ++ (bytes ++ drop (at + length bytes) buf))
          ≡ bytes ++ drop (at + length bytes) buf =
        subst
          (λ k.
            drop k (take at buf ++ (bytes ++ drop (at + length bytes) buf))
            ≡ bytes ++ drop (at + length bytes) buf)
          front (drop-length_append (take at buf) _) in
      ap (take (length bytes)) tail ∙ take-length_append bytes _

  pub get_or-splice_inside :
      (buf : List A) (at : ℕ) (bytes : List A) (j : ℕ) (d : A)
      → at ≤ length buf
      → j < length bytes
      → get_or (splice buf at bytes) (at + j) d ≡ get_or bytes j d
  unfolding splice
  get_or-splice_inside buf at bytes j d h lt =
      subst
        (λ k.
          get_or (take at buf ++ (bytes ++ drop (at + length bytes) buf)) (k + j) d
          ≡ get_or bytes j d)
        (length-take_within at buf h)
        (get_or-append_right (take at buf) _ j d ∙ get_or-append_left bytes _ j d lt)

  pub get_or-splice_before :
      (buf : List A) (at : ℕ) (bytes : List A) (i : ℕ) (d : A)
      → at ≤ length buf
      → i < at
      → get_or (splice buf at bytes) i d ≡ get_or buf i d
  unfolding splice
  get_or-splice_before buf at bytes i d h lt =
      get_or-append_left (take at buf) _ i d (omega (arith, length-take_within at buf h))
      ∙ get_or-take at i buf d lt

  pub get_or-splice_after :
      (buf : List A) (at : ℕ) (bytes : List A) (j : ℕ) (d : A)
      → at ≤ length buf
      → get_or (splice buf at bytes) (at + (length bytes + j)) d
        ≡ get_or buf (at + length bytes + j) d
  unfolding splice
  get_or-splice_after buf at bytes j d h =
      subst
        (λ k.
          get_or (take at buf ++ (bytes ++ drop (at + length bytes) buf)) (k + (length bytes + j)) d
          ≡ get_or buf (at + length bytes + j) d)
        (length-take_within at buf h)
        (get_or-append_right (take at buf) _ (length bytes + j) d
          ∙ get_or-append_right bytes _ j d
          ∙ get_or-drop (at + length bytes) j buf d)

  pub All-splice {κ} :
      (P : A → Type κ) (buf : List A) (at : ℕ) (bytes : List A)
      → All P buf
      → All P bytes
      → All P (splice buf at bytes)
  unfolding splice
  All-splice P buf at bytes hb hn =
      All-append P _ _ (All-take P at buf hb)
        (All-append P _ _ hn (All-drop P (at + length bytes) buf hb))

  pub All-slice {κ} :
      (P : A → Type κ) (buf : List A) (at n : ℕ) → All P buf → All P (slice buf at n)
  unfolding slice
  All-slice P buf at n h = All-take P n _ (All-drop P at buf h)

module _ {ℓ} {A : Type ℓ} where
  -- An entry outside the written range is as it was.
  pub get_or-splice_beside :
      (buf : List A) (at : ℕ) (bytes : List A) (i : ℕ) (d : A)
      → at + length bytes ≤ length buf
      → (i < at) ⊎ (at + length bytes ≤ i)
      → get_or (splice buf at bytes) i d ≡ get_or buf i d
  get_or-splice_beside buf at bytes i d room (inl before) =
      get_or-splice_before buf at bytes i d (omega arith) before
  get_or-splice_beside buf at bytes i d room (inr after) =
      subst (λ z. get_or (splice buf at bytes) z d ≡ get_or buf z d) whole
        (subst (λ z. get_or (splice buf at bytes) z d ≡ get_or buf (start + j) d) split
          (get_or-splice_after buf at bytes j d (omega arith)))
    where
      start : ℕ
      start = at + length bytes

      j : ℕ
      j = i - start

      split : at + (length bytes + j) ≡ start + j
      split = omega arith

      whole : start + j ≡ i
      whole = omega arith

  get_or-slice :
      (buf : List A) (at n i : ℕ) (d : A)
      → i < n
      → get_or (slice buf at n) i d ≡ get_or buf (at + i) d
  unfolding slice
  get_or-slice buf at n i d h = get_or-take n i (drop at buf) d h ∙ get_or-drop at i buf d

  -- A region beside the written range is as it was.
  pub slice-splice_beside :
      (buf : List A) (at : ℕ) (bytes : List A) (i n : ℕ) (d : A)
      → at + length bytes ≤ length buf
      → i + n ≤ length buf
      → (i + n ≤ at) ⊎ (at + length bytes ≤ i)
      → slice (splice buf at bytes) i n ≡ slice buf i n
  slice-splice_beside buf at bytes i n d room fits apart =
      eq_of_entries (slice (splice buf at bytes) i n) (slice buf i n) d (size ∙ sym size') (λ j h.
        get_or-slice (splice buf at bytes) i n j d (omega (arith, h, size))
        ∙ (get_or-splice_beside buf at bytes (i + j) d room
              (beside j (omega (arith, h, size)) apart)
            ∙ sym (get_or-slice buf i n j d (omega (arith, h, size)))))
    where
      size' : length (slice buf i n) ≡ n
      size' = length-slice buf i n fits

      size : length (slice (splice buf at bytes) i n) ≡ n
      size =
          length-slice (splice buf at bytes) i n
            (omega (arith, length-splice buf at bytes room, fits))

      beside :
          (j : ℕ)
          → j < n
          → (i + n ≤ at) ⊎ (at + length bytes ≤ i)
          → (i + j < at) ⊎ (at + length bytes ≤ i + j)
      beside j h (inl before) = inl (omega arith)
      beside j h (inr after) = inr (omega arith)
