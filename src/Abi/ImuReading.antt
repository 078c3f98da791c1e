-- ===== src/Abi/ImuReading.antt =====
-- abi/src/lib.rs, `ImuReading`: a pitch and roll pair, packed into a u64 for atomic storage.
use sand_os.Base.{ℕ, ◌+◌, ◌*◌, ◌/◌, ◌%◌, ◌^◌, ◌<◌, ◌≡◌, arith, bit_and, bit_or}
use sand_os.Base.Int.{ℤ, InI32, as_u32, as_i32, as_u32-lt, as_i32-as_u32}
use sand_os.Base.Bits.{bit_or-shifted, bit_and-u32}

pub record ImuReading : Type 0 where
  pub pitch_millideg : ℤ
  pub roll_millideg : ℤ

-- Both fields are i32 values.
pub record IsReading (r : ImuReading) : Type 0 where
  pub pitch_in : InI32 r.pitch_millideg
  pub roll_in : InI32 r.roll_millideg

unfoldable pub encode : ImuReading → ℕ
encode r = bit_or (as_u32 r.pitch_millideg * 2 ^ 32) (as_u32 r.roll_millideg)

unfoldable pub decode : ℕ → ImuReading
decode raw = record {
  pitch_millideg = as_i32 (raw / 2 ^ 32 % 2 ^ 32);
  roll_millideg = as_i32 (bit_and raw 0xffff_ffff % 2 ^ 32);
}

encode_sum : (r : ImuReading) → encode r ≡ as_u32 r.pitch_millideg * 2 ^ 32 + as_u32 r.roll_millideg
unfolding encode
encode_sum r = bit_or-shifted 32 _ _ (as_u32-lt r.roll_millideg)

-- An encoded reading fits the u64 that stores it.
pub encode-lt : (r : ImuReading) → encode r < 2 ^ 64
encode-lt r = omega (arith, encode_sum r, as_u32-lt r.pitch_millideg, as_u32-lt r.roll_millideg)

-- Decoding an encoded reading gives the reading back, negative angles included.
pub decode-encode : (r : ImuReading) → IsReading r → decode (encode r) ≡ r
unfolding decode
decode-encode r v =
    rw (bit_and-u32, pitch, roll, as_i32-as_u32 _ v.pitch_in, as_i32-as_u32 _ v.roll_in)
  where
    pitch : encode r / 2 ^ 32 % 2 ^ 32 ≡ as_u32 r.pitch_millideg
    pitch = omega (arith, encode_sum r, as_u32-lt r.pitch_millideg, as_u32-lt r.roll_millideg)

    roll : encode r % 2 ^ 32 % 2 ^ 32 ≡ as_u32 r.roll_millideg
    roll = omega (arith, encode_sum r, as_u32-lt r.pitch_millideg, as_u32-lt r.roll_millideg)
