-- ===== src/Display.antt =====
-- firmware/src/display/mod.rs: the state of the display behind the host calls. The rendering itself
-- is empty in the source.
pub mod Written
use sand_os.Base.{ℕ, List, [], ◌∷◌, Option, none, some, take}
use sand_os.Base.Int.{ℤ}
use sand_os.Abi.Status.{ok, err_invalid_arg}
use sand_os.Abi.Eye.{EyeExpression, neutral}
use sand_os.Text.{BoundedString, from_utf8}

module _ (T : BoundedString 256) where
  pub record DisplayDriver : Type 0 where
    pub current_expression : EyeExpression
    pub brightness : ℕ
    pub last_text : T.Text

  -- `DisplayDriver::new`
  abbrev pub new : DisplayDriver
  new = record { current_expression = neutral; brightness = 128; last_text = T.empty }

  unfoldable pub draw_eye : EyeExpression → DisplayDriver → ℤ × DisplayDriver
  draw_eye expression d = (ok, record d { current_expression = expression })

  -- `for ch in … { self.last_text.push(ch).ok(); }`
  unfoldable pub push_chars : List (List ℕ) → T.Text → T.Text
  push_chars [] text = text
  push_chars (ch ∷ chars) text = push_chars chars (T.push ch text)

  unfoldable pub write_text : List ℕ → DisplayDriver → ℤ × DisplayDriver
  unfolding push_chars
  write_text bytes d = elim (from_utf8 bytes) [
    | some chars ↦ (ok, record d { last_text = push_chars (take 256 chars) T.empty })
    | none ↦ (err_invalid_arg, d)
  ]

  unfoldable pub set_brightness : ℕ → DisplayDriver → ℤ × DisplayDriver
  set_brightness value d = (ok, record d { brightness = value })
