-- ===== src/Text.antt =====
-- UTF-8 as `core::str::from_utf8` and `str::chars` read it, and the interface of heapless' `String`,
-- which firmware/src/display/mod.rs uses: a text of bounded size.
pub mod Chars
use sand_os.Base.{
  ℕ, zero, suc, ◌+◌, ◌≤◌, ◌<◌, ◌≡◌, refl, arith, List, [], ◌∷◌, ◌++◌, Option, none, some, Bool,
  true, false, ◌&&◌, leb, ltb, ◌==◌, if◌then◌else◌, length,
}

-- What the next byte of a character must be, and how many bytes follow it.
pub data Pending : Type 0 where
  between : ℕ → ℕ → ℕ → Pending

-- What a first byte announces: a whole character, more bytes, or no character.
pub data First : Type 0 where
  whole invalid : First
  starts : Pending → First

unfoldable pub first_byte : ℕ → First
first_byte b =
    if ltb b 0x80
    then whole
    else if ltb b 0xc2
    then invalid
    else if leb b 0xdf
    then starts (between 0x80 0xbf 0)
    else if b == 0xe0
    then starts (between 0xa0 0xbf 1)
    else if b == 0xed
    then starts (between 0x80 0x9f 1)
    else if leb b 0xef
    then starts (between 0x80 0xbf 1)
    else if b == 0xf0
    then starts (between 0x90 0xbf 2)
    else if leb b 0xf3
    then starts (between 0x80 0xbf 2)
    else if b == 0xf4
    then starts (between 0x80 0x8f 2)
    else invalid

-- The character `c` before the rest, if the rest is text.
abbrev pub then_chars : List ℕ → Option (List (List ℕ)) → Option (List (List ℕ))
then_chars c none = none
then_chars c (some cs) = some (c ∷ cs)

unfoldable mutual
  -- The characters of a text, each as its bytes, or none for bytes that are not UTF-8.
  pub from_utf8 : List ℕ → Option (List (List ℕ))
  from_utf8 [] = some []
  from_utf8 (b ∷ bytes) = elim (first_byte b) [
    | whole ↦ then_chars (b ∷ []) (from_utf8 bytes)
    | invalid ↦ none
    | starts p ↦ continue_char p (b ∷ []) bytes
  ]

  -- The same inside a character, of which `c` has been read.
  pub continue_char : Pending → List ℕ → List ℕ → Option (List (List ℕ))
  continue_char p c [] = none
  continue_char (between lo hi zero) c (b ∷ bytes) = elim (leb lo b && leb b hi) [
    | true ↦ then_chars (c ++ (b ∷ [])) (from_utf8 bytes)
    | false ↦ none
  ]
  continue_char (between lo hi (suc n)) c (b ∷ bytes) = elim (leb lo b && leb b hi) [
    | true ↦ continue_char (between 0x80 0xbf n) (c ++ (b ∷ [])) bytes
    | false ↦ none
  ]

pub record BoundedString (capacity : ℕ) : Type 1 where
  pub Text : Type 0
  pub bytes : Text → List ℕ
  pub empty : Text
  -- `push(ch).ok()`, for a character given as its bytes.
  pub push : List ℕ → Text → Text
  pub bytes-empty : bytes empty ≡ []
  pub push_room :
      (c : List ℕ) (t : Text)
      → length (bytes t) + length c ≤ capacity
      → bytes (push c t) ≡ bytes t ++ c
  pub push_full : (c : List ℕ) (t : Text) → capacity < length (bytes t) + length c → push c t ≡ t

module _ (capacity : ℕ) where
  abbrev pub push_bytes : List ℕ → List ℕ → List ℕ
  push_bytes c t = if leb (length t + length c) capacity then t ++ c else t

  pub push_bytes_room : (c t : List ℕ) → length t + length c ≤ capacity → push_bytes c t ≡ t ++ c
  push_bytes_room c t h = ground arith

  pub push_bytes_full : (c t : List ℕ) → capacity < length t + length c → push_bytes c t ≡ t
  push_bytes_full c t h = ground arith

-- A list of at most `capacity` bytes meets the interface.
abbrev pub list_string : (capacity : ℕ) → BoundedString capacity
list_string capacity = record {
  Text = List ℕ;
  bytes = λ t. t;
  empty = [];
  push = push_bytes capacity;
  bytes-empty = refl;
  push_room = push_bytes_room capacity;
  push_full = push_bytes_full capacity;
}
