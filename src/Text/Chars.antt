-- ===== src/Text/Chars.antt =====
-- The characters of a text, put together again, are the text.
use sand_os.Base.{
  ℕ, zero, suc, ◌≤◌, ◌≡◌, refl, sym, ap, ◌⊎◌, inl, inr, arith, List, [], ◌∷◌, ◌++◌, Option, none,
  some, ◌&&◌, leb, length, length-append, Bool-cases,
}
use mathlib.Core.List.{append_assoc}
use mathlib.Core.Path.{subst}
use sand_os.Text.{
  Pending, between, First, whole, invalid, starts, first_byte, then_chars, from_utf8, continue_char,
}

abbrev pub concat : List (List ℕ) → List ℕ
concat [] = []
concat (c ∷ cs) = c ++ concat cs

-- What a reading of `bytes`, if there is one, puts together to.
abbrev Spells : Option (List (List ℕ)) → List ℕ → Type 0
Spells none bytes = Unit
Spells (some cs) bytes = (concat cs ≡ bytes) × (length cs ≤ length bytes)

then_chars-Spells :
    (c : List ℕ) (o : Option (List (List ℕ))) (bytes : List ℕ)
    → 1 ≤ length c
    → Spells o bytes
    → Spells (then_chars c o) (c ++ bytes)
then_chars-Spells c none bytes n h = tt
then_chars-Spells c (some cs) bytes n (e, h) =
    (ap (λ z. c ++ z) e, omega (arith, length-append c bytes, h, n))

First-cases : (f : First) → (f ≡ whole) ⊎ ((f ≡ invalid) ⊎ ((p : Pending) × (f ≡ starts p)))
First-cases whole = inl refl
First-cases invalid = inr (inl refl)
First-cases (starts p) = inr (inr (p, refl))

mutual
  unfolding from_utf8

  from_utf8-Spells : (bytes : List ℕ) → Spells (from_utf8 bytes) bytes
  from_utf8-Spells [] = (refl, omega arith)
  from_utf8-Spells (b ∷ bytes) = elim (First-cases (first_byte b)) [
    | inl e ↦
        rw (e, from_utf8)
          (then_chars-Spells (b ∷ []) (from_utf8 bytes) bytes (omega arith)
            (from_utf8-Spells bytes))
    | inr (inl e) ↦ rw (e, Spells) tt
    | inr (inr (p, e)) ↦ rw (e, from_utf8) (continue_char-Spells p (b ∷ []) bytes (omega arith))
  ]

  continue_char-Spells :
      (p : Pending) (c bytes : List ℕ)
      → 1 ≤ length c
      → Spells (continue_char p c bytes) (c ++ bytes)
  continue_char-Spells p c [] n1 = tt
  continue_char-Spells (between lo hi zero) c (b ∷ bytes) n1 =
      elim (Bool-cases (leb lo b && leb b hi)) [
        | inl e ↦
            rw (e, continue_char, sym (append_assoc c (b ∷ []) bytes))
              (then_chars-Spells (c ++ (b ∷ [])) (from_utf8 bytes) bytes
                (omega (arith, length-append c (b ∷ []))) (from_utf8-Spells bytes))
        | inr e ↦ rw (e, Spells) tt
      ]
  continue_char-Spells (between lo hi (suc n)) c (b ∷ bytes) n1 =
      elim (Bool-cases (leb lo b && leb b hi)) [
        | inl e ↦
            rw (e, continue_char, sym (append_assoc c (b ∷ []) bytes))
              (continue_char-Spells (between 0x80 0xbf n) (c ++ (b ∷ [])) bytes
                (omega (arith, length-append c (b ∷ []))))
        | inr e ↦ rw (e, Spells) tt
      ]

-- The characters of a text spell it, and there are no more of them than bytes.
pub from_utf8-concat :
    (bytes : List ℕ) (cs : List (List ℕ))
    → from_utf8 bytes ≡ some cs
    → (concat cs ≡ bytes) × (length cs ≤ length bytes)
from_utf8-concat bytes cs e = subst (λ o. Spells o bytes) e (from_utf8-Spells bytes)
