-- ===== src/Abi/Crc/Detect.antt =====
-- abi/src/lib.rs, `crc32`: what the checksum detects. Each round of the register is one to one.
use sand_os.Base.{
  ℕ, zero, suc, ◌+◌, ◌/◌, ◌%◌, ◌^◌, ◌<◌, ◌≡◌, ◌≢◌, ◌⊎◌, inl, inr, refl, sym, ap, ◌∙◌, List, [], ◌∷◌,
  ◌++◌, bit_xor, arith, All,
}
use sand_os.Base.Bits.{
  bit_xor-lt, bit_xor_cancel, bit_xor-add_pow, bit_xor_comm, zero-bit_xor, bit_and-u1,
}
use sand_os.Base.Bytes.{IsByte}
use sand_os.Abi.Crc.{shift_bit, shift_bits, shift_byte, crc_loop, crc32}

-- The polynomial is its top bit and these lower bits.
abbrev low_bits : ℕ
low_bits = 0x6db8_8320

shift_bit-even : (c : ℕ) → c % 2 ≡ 0 → c < 2 ^ 32 → shift_bit c ≡ c / 2
unfolding shift_bit
shift_bit-even c e h =
    rw (bit_and-u1, e)
      (bit_xor_comm 32 (c / 2) 0 (omega arith) (omega arith) ∙ zero-bit_xor (c / 2))

shift_bit-odd : (c : ℕ) → c % 2 ≡ 1 → c < 2 ^ 32 → shift_bit c ≡ 2 ^ 31 + bit_xor (c / 2) low_bits
unfolding shift_bit
shift_bit-odd c e h =
    rw (bit_and-u1, e) (bit_xor-add_pow 31 (c / 2) low_bits (omega arith) (omega arith))

parity : (c : ℕ) → (c % 2 ≡ 0) ⊎ (c % 2 ≡ 1)
parity c = omega arith

low_xor-lt : (c : ℕ) → c < 2 ^ 32 → bit_xor (c / 2) low_bits < 2 ^ 31
low_xor-lt c h = bit_xor-lt 31 (c / 2) low_bits (omega arith) (omega arith)

pub shift_bit-lt : (c : ℕ) → c < 2 ^ 32 → shift_bit c < 2 ^ 32
shift_bit-lt c h = elim (parity c) [
  | inl e ↦ omega (arith, shift_bit-even c e h)
  | inr e ↦ omega (arith, shift_bit-odd c e h, low_xor-lt c h)
]

low_xor-injective :
    (a b : ℕ) → a < 2 ^ 31 → b < 2 ^ 31 → bit_xor a low_bits ≡ bit_xor b low_bits → a ≡ b
low_xor-injective a b ha hb e =
    sym (bit_xor_cancel 31 a low_bits ha (omega arith))
    ∙ ap (λ t. bit_xor t low_bits) e
    ∙ bit_xor_cancel 31 b low_bits hb (omega arith)

-- A round loses nothing: the top bit of the result shows the bit that was shifted out.
shift_bit-injective : (a b : ℕ) → a < 2 ^ 32 → b < 2 ^ 32 → shift_bit a ≡ shift_bit b → a ≡ b
shift_bit-injective a b ha hb e = elim (parity a) [
  | inl p ↦ elim (parity b) [
    | inl q ↦ omega (arith, shift_bit-even a p ha, shift_bit-even b q hb)
    | inr q ↦ absurd (omega (arith, shift_bit-even a p ha, shift_bit-odd b q hb))
  ]
  | inr p ↦ elim (parity b) [
    | inl q ↦ absurd (omega (arith, shift_bit-odd a p ha, shift_bit-even b q hb))
    | inr q ↦ omega (
      arith,
      low_xor-injective (a / 2) (b / 2) (omega arith) (omega arith)
          (omega (arith, shift_bit-odd a p ha, shift_bit-odd b q hb)),
    )
  ]
]

shift_bits-lt : (n c : ℕ) → c < 2 ^ 32 → shift_bits n c < 2 ^ 32
unfolding shift_bits
shift_bits-lt zero c h = h
shift_bits-lt (suc n) c h = shift_bits-lt n (shift_bit c) (shift_bit-lt c h)

shift_bits-injective :
    (n a b : ℕ) → a < 2 ^ 32 → b < 2 ^ 32 → shift_bits n a ≡ shift_bits n b → a ≡ b
unfolding shift_bits
shift_bits-injective zero a b ha hb e = e
shift_bits-injective (suc n) a b ha hb e =
    shift_bit-injective a b ha hb
      (shift_bits-injective n (shift_bit a) (shift_bit b) (shift_bit-lt a ha) (shift_bit-lt b hb) e)

mix-lt : (c byte : ℕ) → c < 2 ^ 32 → byte < 256 → bit_xor c byte < 2 ^ 32
mix-lt c byte hc hb = bit_xor-lt 32 c byte hc (omega arith)

xor_right-injective :
    (c d x : ℕ) → c < 2 ^ 32 → d < 2 ^ 32 → x < 2 ^ 32 → bit_xor c x ≡ bit_xor d x → c ≡ d
xor_right-injective c d x hc hd hx e =
    sym (bit_xor_cancel 32 c x hc hx) ∙ ap (λ t. bit_xor t x) e ∙ bit_xor_cancel 32 d x hd hx

pub shift_byte-lt : (c byte : ℕ) → c < 2 ^ 32 → byte < 256 → shift_byte c byte < 2 ^ 32
shift_byte-lt c byte hc hb = unfold shift_byte in shift_bits-lt 8 _ (mix-lt c byte hc hb)

shift_byte-injective :
    (c d byte : ℕ)
    → c < 2 ^ 32
    → d < 2 ^ 32
    → byte < 256
    → shift_byte c byte ≡ shift_byte d byte
    → c ≡ d
shift_byte-injective c d byte hc hd hb e = xor_right-injective c d byte hc hd (omega arith) (
    shift_bits-injective 8 _ _ (mix-lt c byte hc hb) (mix-lt d byte hd hb) (unfold shift_byte in e))

shift_byte-byte_injective :
    (c x y : ℕ) → c < 2 ^ 32 → x < 256 → y < 256 → shift_byte c x ≡ shift_byte c y → x ≡ y
shift_byte-byte_injective c x y hc hx hy e =
    xor_right-injective x y c (omega arith) (omega arith) hc (
      bit_xor_comm 32 x c (omega arith) hc
      ∙ shift_bits-injective 8 _ _ (mix-lt c x hc hx) (mix-lt c y hc hy) (unfold shift_byte in e)
      ∙ bit_xor_comm 32 c y hc (omega arith))

crc_loop-cons :
    (c b : ℕ) (bytes : List ℕ) → crc_loop c (b ∷ bytes) ≡ crc_loop (shift_byte c b) bytes
unfolding crc_loop
crc_loop-cons c b bytes = refl

pub crc_loop-lt :
    (c : ℕ) (bytes : List ℕ) → c < 2 ^ 32 → All IsByte bytes → crc_loop c bytes < 2 ^ 32
crc_loop-lt c [] h a = unfold crc_loop in h
crc_loop-lt c (b ∷ bs) h a =
    rw crc_loop-cons (crc_loop-lt (shift_byte c b) bs (shift_byte-lt c b h a.0) a.1)

crc_loop-injective :
    (c d : ℕ) (bytes : List ℕ)
    → c < 2 ^ 32
    → d < 2 ^ 32
    → All IsByte bytes
    → crc_loop c bytes ≡ crc_loop d bytes
    → c ≡ d
crc_loop-injective c d [] hc hd a e = unfold crc_loop in e
crc_loop-injective c d (b ∷ bs) hc hd a e = shift_byte-injective c d b hc hd a.0 (
    crc_loop-injective (shift_byte c b) (shift_byte d b) bs (shift_byte-lt c b hc a.0)
      (shift_byte-lt d b hd a.0) a.1 (unfold crc_loop in e))

crc_loop-detects :
    (c : ℕ) (front : List ℕ) (x y : ℕ) (back : List ℕ)
    → c < 2 ^ 32
    → All IsByte front
    → x < 256
    → y < 256
    → All IsByte back
    → crc_loop c (front ++ (x ∷ back)) ≡ crc_loop c (front ++ (y ∷ back))
    → x ≡ y
crc_loop-detects c [] x y back hc hf hx hy hb e = shift_byte-byte_injective c x y hc hx hy (
    crc_loop-injective (shift_byte c x) (shift_byte c y) back (shift_byte-lt c x hc hx)
      (shift_byte-lt c y hc hy) hb (unfold crc_loop in e))
crc_loop-detects c (f ∷ fs) x y back hc hf hx hy hb e =
    crc_loop-detects (shift_byte c f) fs x y back (shift_byte-lt c f hc hf.0) hf.1 hx hy hb
      (unfold crc_loop in e)

-- The checksum of bytes is a u32.
pub crc32-lt : (bytes : List ℕ) → All IsByte bytes → crc32 bytes < 2 ^ 32
unfolding crc32
crc32-lt bytes a =
    bit_xor-lt 32 _ 0xffff_ffff (crc_loop-lt 0xffff_ffff bytes (omega arith) a) (omega arith)

All-prefix :
    (front : List ℕ) (x : ℕ) (back : List ℕ)
    → All IsByte front
    → x < 256
    → All IsByte back
    → All IsByte (front ++ (x ∷ back))
All-prefix [] x back hf hx hb = (hx, hb)
All-prefix (f ∷ fs) x back hf hx hb = (hf.0, All-prefix fs x back hf.1 hx hb)

-- Changing one byte of a message, at any position and to any other value, changes its checksum.
pub crc32-detects :
    (front : List ℕ) (x y : ℕ) (back : List ℕ)
    → All IsByte front
    → x < 256
    → y < 256
    → All IsByte back
    → x ≢ y
    → crc32 (front ++ (x ∷ back)) ≢ crc32 (front ++ (y ∷ back))
crc32-detects front x y back hf hx hy hb differ e = differ (
    crc_loop-detects 0xffff_ffff front x y back (omega arith) hf hx hy hb (
      xor_right-injective _ _ 0xffff_ffff
        (crc_loop-lt 0xffff_ffff _ (omega arith) (All-prefix front x back hf hx hb))
        (crc_loop-lt 0xffff_ffff _ (omega arith) (All-prefix front y back hf hy hb)) (omega arith)
        (unfold crc32 in e)))
