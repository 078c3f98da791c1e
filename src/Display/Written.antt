-- ===== src/Display/Written.antt =====
-- firmware/src/display/mod.rs, `write_text`: the text that the display then holds.
use sand_os.Base.{
  ℕ, ◌+◌, ◌≤◌, ◌≡◌, ◌⊎◌, inl, inr, Option-cases, refl, ap, sym, ◌∙◌, arith, List, [], ◌∷◌, ◌++◌,
  none, some, length, length-append, take, take-all,
}
use mathlib.Core.List.{append_assoc, append-nil}
use sand_os.Abi.Status.{ok, err_invalid_arg}
use sand_os.Text.{BoundedString, from_utf8}
use sand_os.Text.Chars.{concat, from_utf8-concat}
use sand_os.Display.{DisplayDriver, push_chars, write_text}

module _ (T : BoundedString 256) where
  -- Characters that fit are all taken.
  pub bytes-push_chars :
      (chars : List (List ℕ)) (t : T.Text)
      → length (T.bytes t) + length (concat chars) ≤ 256
      → T.bytes (push_chars T chars t) ≡ T.bytes t ++ concat chars
  unfolding push_chars
  bytes-push_chars [] t h = sym (append-nil (T.bytes t))
  bytes-push_chars (ch ∷ chars) t h =
      bytes-push_chars chars (T.push ch t) (omega (arith, h, size, both))
      ∙ (ap (λ z. z ++ concat chars) pushed ∙ append_assoc (T.bytes t) ch (concat chars))
    where
      both : length (ch ++ concat chars) ≡ length ch + length (concat chars)
      both = length-append ch (concat chars)

      pushed : T.bytes (T.push ch t) ≡ T.bytes t ++ ch
      pushed = T.push_room ch t (omega (arith, h, both))

      size : length (T.bytes (T.push ch t)) ≡ length (T.bytes t) + length ch
      size = ap length pushed ∙ length-append (T.bytes t) ch

  -- At most 256 bytes either are UTF-8 and replace the text exactly, or are refused.
  pub write_text_cases :
      (bytes : List ℕ) (d : DisplayDriver T)
      → length bytes ≤ 256
      → (((chars : List (List ℕ)) × (from_utf8 bytes ≡ some chars))
          × ((write_text T bytes d).0 ≡ ok)
          × (T.bytes (write_text T bytes d).1.last_text ≡ bytes))
        ⊎ ((from_utf8 bytes ≡ none) × (write_text T bytes d ≡ (err_invalid_arg, d)))
  unfolding write_text
  write_text_cases bytes d small = elim (Option-cases (from_utf8 bytes)) [
    | inl bad ↦ inr (bad, rw (bad, write_text) refl)
    | inr (chars, e) ↦ inl (
      (chars, e),
      rw (e, write_text) refl,
      rw (e, write_text) (held chars (from_utf8-concat bytes chars e)),
    )
  ]
    where
      held :
          (chars : List (List ℕ))
          → (concat chars ≡ bytes) × (length chars ≤ length bytes)
          → T.bytes (push_chars T (take 256 chars) T.empty) ≡ bytes
      held chars (spelled, few) =
          ap (λ cs. T.bytes (push_chars T cs T.empty))
            (take-all chars 256 (omega (arith, few, small)))
          ∙ (bytes-push_chars chars T.empty
                (omega (arith, ap length spelled, ap length T.bytes-empty, small))
              ∙ (ap (λ z. z ++ concat chars) T.bytes-empty ∙ spelled))
