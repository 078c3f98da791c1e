-- ===== src/Host/Written.antt =====
-- firmware/src/core0/abi.rs, the display calls: which arguments are taken, and what they leave.
use sand_os.Base.{
  ℕ, ◌%◌, ◌^◌, ◌≤◌, ◌<◌, ◌≡◌, ◌⊎◌, refl, inl, inr, arith, List, none, some, length, Bool-cases, ltb,
}
use sand_os.Abi.Status.{ok, err_invalid_arg, err_bounds}
use sand_os.Text.{BoundedString, from_utf8}
use sand_os.Channel.{BoundedQueue}
use sand_os.Display.Written.{write_text_cases}
use sand_os.Host.{AbiHost, write_text}

module _ (T : BoundedString 256) (A : BoundedQueue ℕ 8192) where
  -- A text of the guest, whose length is a u32, either decodes as UTF-8 and has at most 256 bytes,
  -- and then the answer is OK and the display holds exactly its bytes, whatever it held before; or
  -- it is too long or no UTF-8, and then the answer names the reason and nothing changes.
  pub write_text_lem :
      (bytes : List ℕ) (h : AbiHost T A)
      → length bytes < 2 ^ 32
      → ((length bytes ≤ 256)
          × ((chars : List (List ℕ)) × (from_utf8 bytes ≡ some chars))
          × ((write_text T A bytes h).0 ≡ ok)
          × (T.bytes (write_text T A bytes h).1.display.last_text ≡ bytes))
        ⊎ (((length bytes ≤ 256)
              × (from_utf8 bytes ≡ none)
              × (write_text T A bytes h ≡ (err_invalid_arg, h)))
            ⊎ ((256 < length bytes) × (write_text T A bytes h ≡ (err_bounds, h))))
  unfolding write_text
  write_text_lem bytes h small = elim (Bool-cases (ltb 256 (length bytes % 2 ^ 32))) [
    | inl long ↦ inr (inr (ground arith, rw long refl))
    | inr fits ↦ elim (write_text_cases T bytes h.display (ground arith)) [
      | inl (decoded, code, held) ↦ inl (ground arith, decoded, rw fits code, rw fits held)
      | inr (bad, e) ↦ inr (inl (ground arith, bad, rw (fits, e) refl))
    ]
  ]
