-- ===== src/Abi/Cdr.antt =====
-- abi/src/lib.rs, `CdrSerializer`: a little-endian serializer over a buffer of fixed capacity.
pub mod Laws
use sand_os.Base.{
  ℕ, suc, ◌+◌, List, [], ◌∷◌, Bool, ltb, ◌==◌, if◌then◌else◌, length, take, replicate, splice,
}
use sand_os.Base.Int.{ℤ, as_u16, as_u32}
use sand_os.Base.Bytes.{to_le_bytes}

-- `cap` is the const generic `N`.
pub record CdrSerializer : Type 0 where
  pub cap : ℕ
  pub buf : List ℕ
  pub pos : ℕ

-- `Result<(), ()>`
pub data Written : Type 0 where
  fits full : Written

unfoldable pub new : ℕ → CdrSerializer
new n = record { cap = n; buf = replicate n 0; pos = 0 }

-- The body that the writes share: the capacity check, the copy at `pos`, and the advance.
unfoldable pub write_bytes : CdrSerializer → List ℕ → Written × CdrSerializer
write_bytes s bytes =
    if ltb s.cap (s.pos + length bytes)
    then (full, s)
    else (fits, record s { buf = splice s.buf s.pos bytes; pos = s.pos + length bytes })

unfoldable pub write_u8 : CdrSerializer → ℕ → Written × CdrSerializer
unfolding write_bytes
write_u8 s v = write_bytes s (v ∷ [])

unfoldable pub write_u16 : CdrSerializer → ℕ → Written × CdrSerializer
unfolding write_bytes
write_u16 s v = write_bytes s (to_le_bytes 2 v)

unfoldable pub write_i16 : CdrSerializer → ℤ → Written × CdrSerializer
unfolding write_u16
write_i16 s v = write_u16 s (as_u16 v)

unfoldable pub write_u32 : CdrSerializer → ℕ → Written × CdrSerializer
unfolding write_bytes
write_u32 s v = write_bytes s (to_le_bytes 4 v)

unfoldable pub write_i32 : CdrSerializer → ℤ → Written × CdrSerializer
unfolding write_u32
write_i32 s v = write_u32 s (as_u32 v)

unfoldable pub write_u64 : CdrSerializer → ℕ → Written × CdrSerializer
unfolding write_bytes
write_u64 s v = write_bytes s (to_le_bytes 8 v)

unfoldable pub as_bytes : CdrSerializer → List ℕ
as_bytes s = take s.pos s.buf

unfoldable pub len : CdrSerializer → ℕ
len s = s.pos

unfoldable pub is_empty : CdrSerializer → Bool
is_empty s = s.pos == 0
