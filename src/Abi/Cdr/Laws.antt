-- ===== src/Abi/Cdr/Laws.antt =====
-- abi/src/lib.rs, `CdrSerializer`: every write appends its encoding or leaves the buffer alone.
use sand_os.Base.{
  ℕ, ◌+◌, ◌≤◌, ◌<◌, ◌≡◌, refl, ◌∙◌, ◌⊎◌, inl, inr, List, [], ◌∷◌, ◌++◌, ltb, ltb→lt, Bool-cases,
  arith, length, length-replicate, length-splice, take-splice,
}
use sand_os.Base.Int.{ℤ, as_u16, as_u32}
use sand_os.Base.Bytes.{to_le_bytes}
use sand_os.Abi.Cdr.{
  CdrSerializer, Written, fits, full, new, write_bytes, write_u8, write_u16, write_i16, write_u32,
  write_i32, write_u64, as_bytes, len,
}

-- The buffer has the declared capacity and the position lies within it.
pub record IsValid (s : CdrSerializer) : Type 0 where
  pub sized : length s.buf ≡ s.cap
  pub within : s.pos ≤ s.cap

-- A value to write, with its type.
pub data Item : Type 0 where
  u8 u16 u32 u64 : ℕ → Item
  i16 i32 : ℤ → Item

pub write : CdrSerializer → Item → Written × CdrSerializer
unfolding write_u8 write_u16 write_i16 write_u32 write_i32 write_u64
write s (u8 v) = write_u8 s v
write s (u16 v) = write_u16 s v
write s (i16 v) = write_i16 s v
write s (u32 v) = write_u32 s v
write s (i32 v) = write_i32 s v
write s (u64 v) = write_u64 s v

-- The little-endian bytes of a value: as many as its type has, whatever the buffer.
abbrev pub encoding : Item → List ℕ
encoding (u8 v) = v ∷ []
encoding (u16 v) = to_le_bytes 2 v
encoding (i16 v) = to_le_bytes 2 (as_u16 v)
encoding (u32 v) = to_le_bytes 4 v
encoding (i32 v) = to_le_bytes 4 (as_u32 v)
encoding (u64 v) = to_le_bytes 8 v

write-write_bytes : (s : CdrSerializer) (item : Item) → write s item ≡ write_bytes s (encoding item)
unfolding write
write-write_bytes s (u8 v) = refl
write-write_bytes s (u16 v) = refl
write-write_bytes s (u32 v) = refl
write-write_bytes s (u64 v) = refl
write-write_bytes s (i16 v) = refl
write-write_bytes s (i32 v) = refl

-- A write that fits appends the bytes, one that does not fit changes nothing.
abbrev pub Appends : CdrSerializer → List ℕ → Written × CdrSerializer → Type 0
Appends s bytes result =
    ((s.cap < s.pos + length bytes) × (result ≡ (full, s)))
    ⊎ ((s.pos + length bytes ≤ s.cap)
        × (result.0 ≡ fits)
        × (as_bytes result.1 ≡ as_bytes s ++ bytes)
        × (len result.1 ≡ len s + length bytes)
        × IsValid result.1)

write_bytes-Appends :
    (s : CdrSerializer) (bytes : List ℕ) → IsValid s → Appends s bytes (write_bytes s bytes)
unfolding write_bytes as_bytes len
write_bytes-Appends s bytes v = elim (Bool-cases (ltb s.cap (s.pos + length bytes))) [
  | inl over ↦ rw over (inl (ltb→lt _ _ over, refl))
  | inr room ↦
      let bound : s.pos + length bytes ≤ s.cap = ground arith in
      rw room (
        inr (
          bound,
          refl,
          take-splice s.buf s.pos bytes (omega arith),
          refl,
          record {
            sized = length-splice s.buf s.pos bytes (omega arith) ∙ v.sized;
            within = bound;
          },
        ))
]

-- Each of the six writes, on a valid serializer: if the bytes of the value fit behind the position
-- they are appended to what was written, little-endian, the position moves by their number and the
-- serializer stays valid; if they do not fit the write reports it and changes nothing.
pub write-Appends :
    (s : CdrSerializer) (item : Item) → IsValid s → Appends s (encoding item) (write s item)
write-Appends s item v = rw write-write_bytes (write_bytes-Appends s (encoding item) v)

-- A new serializer is valid and empty.
pub new-IsValid : (n : ℕ) → IsValid (new n)
unfolding new
new-IsValid n = record { sized = length-replicate n 0; within = omega arith }
