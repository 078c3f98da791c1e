-- ===== src/Abi/Crc.antt =====
-- abi/src/lib.rs, `crc32`: the bitwise CRC-32/ISO-HDLC of a byte slice.
pub mod Detect
use sand_os.Base.{ℕ, zero, suc, ◌+◌, ◌-◌, ◌*◌, ◌/◌, ◌%◌, ◌^◌, List, [], ◌∷◌, bit_and, bit_xor}

abbrev pub polynomial : ℕ
polynomial = 0xedb8_8320

-- One round of the inner loop; `wrapping_neg` of the lowest bit is the mask.
unfoldable pub shift_bit : ℕ → ℕ
shift_bit crc =
    let mask = (2 ^ 32 - bit_and crc 1) % 2 ^ 32 in bit_xor (crc / 2) (bit_and polynomial mask)

unfoldable pub shift_bits : ℕ → ℕ → ℕ
shift_bits zero crc = crc
shift_bits (suc n) crc = shift_bits n (shift_bit crc)

unfoldable pub shift_byte : ℕ → ℕ → ℕ
unfolding shift_bits shift_bit
shift_byte crc byte = shift_bits 8 (bit_xor crc byte)

unfoldable pub crc_loop : ℕ → List ℕ → ℕ
unfolding shift_byte
crc_loop crc [] = crc
crc_loop crc (byte ∷ bytes) = crc_loop (shift_byte crc byte) bytes

-- `!crc` of a u32 is the exclusive or with all ones.
unfoldable pub crc32 : List ℕ → ℕ
unfolding crc_loop
crc32 bytes = bit_xor (crc_loop 0xffff_ffff bytes) 0xffff_ffff
