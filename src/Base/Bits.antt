-- ===== src/Base/Bits.antt =====
-- Laws of `|`, `&` and `^` at variables, from the recursion on binary digits that they stand for.
use Prim.Native.Nat.{
  ℕ, zero, suc, ◌+◌, ◌*◌, ◌/◌, ◌%◌, ◌^◌, ◌≤◌, ◌<◌, min, max, differ, digits, bitwise, bit_and,
  bit_or, bit_xor, bit_and-bitwise, bit_or-bitwise, bit_xor-bitwise,
}
use mathlib.Core.Path.{◌≡◌, refl, ap, ◌∙◌}
use native.Mathlib.Omega.{arith}
use native.Mathlib.Nat.{pow-suc}

-- The digits of a number below `2 ^ n` are used up after any fuel that is at least the number.
module _ (rest : ℕ → ℕ) (op : ℕ → ℕ → ℕ) where
  enough : (n m a b : ℕ) → a ≤ n → a ≤ m → digits rest op n a b ≡ digits rest op m a b
  enough zero zero a b p q = refl
  enough (suc n) zero zero b p q = refl
  enough zero (suc m) zero b p q = refl
  enough (suc n) (suc m) zero b p q = refl
  enough (suc n) zero (suc a) b p q = absurd (omega arith)
  enough zero (suc m) (suc a) b p q = absurd (omega arith)
  enough (suc n) (suc m) (suc a) b p q =
      ap (λ t. t * 2 + op (suc a % 2) (b % 2))
        (enough n m (suc a / 2) (b / 2) (omega arith) (omega arith))

  lowest :
      (a b : ℕ)
      → bitwise rest op (suc a) b ≡ bitwise rest op (suc a / 2) (b / 2) * 2 + op (suc a % 2) (b % 2)
  lowest a b =
      ap (λ t. t * 2 + op (suc a % 2) (b % 2))
        (enough a (suc a / 2) (suc a / 2) (b / 2) (omega arith) (omega arith))

bit_or-halve : (a b : ℕ) → bit_or a b ≡ bit_or (a / 2) (b / 2) * 2 + max (a % 2) (b % 2)
bit_or-halve zero b = simp bit_or-bitwise (omega arith)
bit_or-halve (suc a) b = simp bit_or-bitwise (lowest (λ y. y) max a b)

bit_and-halve : (a b : ℕ) → bit_and a b ≡ bit_and (a / 2) (b / 2) * 2 + min (a % 2) (b % 2)
bit_and-halve zero b = simp bit_and-bitwise (omega arith)
bit_and-halve (suc a) b = simp bit_and-bitwise (lowest (λ y. 0) min a b)

differ-digits : (x y : ℕ) → x < 2 → y < 2 → differ x y ≡ (x + y) % 2
differ-digits zero zero h k = refl
differ-digits zero (suc zero) h k = refl
differ-digits (suc zero) zero h k = refl
differ-digits (suc zero) (suc zero) h k = refl
differ-digits (suc (suc x)) y h k = absurd (omega arith)
differ-digits zero (suc (suc y)) h k = absurd (omega arith)
differ-digits (suc zero) (suc (suc y)) h k = absurd (omega arith)

bit_xor-halve : (a b : ℕ) → bit_xor a b ≡ bit_xor (a / 2) (b / 2) * 2 + (a + b) % 2
bit_xor-halve zero b = simp bit_xor-bitwise (omega arith)
bit_xor-halve (suc a) b = simp bit_xor-bitwise (
    omega (
      arith,
      lowest (λ y. y) differ a b,
      differ-digits (suc a % 2) (b % 2) (omega arith) (omega arith),
    ))

pub zero-bit_xor : (b : ℕ) → bit_xor 0 b ≡ b
zero-bit_xor b = bit_xor-bitwise 0 b

pub bit_xor_comm : (k a b : ℕ) → a < 2 ^ k → b < 2 ^ k → bit_xor a b ≡ bit_xor b a
bit_xor_comm zero zero zero ha hb = refl
bit_xor_comm zero zero (suc b) ha hb = absurd (omega arith)
bit_xor_comm zero (suc a) b ha hb = absurd (omega arith)
bit_xor_comm (suc k) a b ha hb = omega (
  arith,
  bit_xor-halve a b,
  bit_xor-halve b a,
  bit_xor_comm k (a / 2) (b / 2) (omega (arith, pow-suc 2 k)) (omega (arith, pow-suc 2 k)),
)

-- Exclusive or of two words of `k` bits has `k` bits.
pub bit_xor-lt : (k a b : ℕ) → a < 2 ^ k → b < 2 ^ k → bit_xor a b < 2 ^ k
bit_xor-lt zero zero zero ha hb = omega arith
bit_xor-lt zero zero (suc b) ha hb = absurd (omega arith)
bit_xor-lt zero (suc a) b ha hb = absurd (omega arith)
bit_xor-lt (suc k) a b ha hb = omega (
  arith,
  pow-suc 2 k,
  bit_xor-halve a b,
  bit_xor-lt k (a / 2) (b / 2) (omega (arith, pow-suc 2 k)) (omega (arith, pow-suc 2 k)),
)

-- Exclusive or with the same word twice gives the first word back.
pub bit_xor_cancel : (k a b : ℕ) → a < 2 ^ k → b < 2 ^ k → bit_xor (bit_xor a b) b ≡ a
bit_xor_cancel zero zero zero ha hb = refl
bit_xor_cancel zero zero (suc b) ha hb = absurd (omega arith)
bit_xor_cancel zero (suc a) b ha hb = absurd (omega arith)
bit_xor_cancel (suc k) a b ha hb = omega (
  arith,
  bit_xor-halve (bit_xor a b) b,
  ap (λ (t : ℕ). bit_xor t (b / 2)) half,
  bit_xor-halve a b,
  bit_xor_cancel k (a / 2) (b / 2) (omega (arith, pow-suc 2 k)) (omega (arith, pow-suc 2 k)),
)
  where
    half : bit_xor a b / 2 ≡ bit_xor (a / 2) (b / 2)
    half = omega (arith, bit_xor-halve a b)

-- A bit above the first word is kept.
pub bit_xor-add_pow :
    (k a b : ℕ) → a < 2 ^ k → b < 2 ^ k → bit_xor a (2 ^ k + b) ≡ 2 ^ k + bit_xor a b
bit_xor-add_pow zero zero zero ha hb = refl
bit_xor-add_pow zero zero (suc b) ha hb = absurd (omega arith)
bit_xor-add_pow zero (suc a) b ha hb = absurd (omega arith)
bit_xor-add_pow (suc k) a b ha hb = omega (
  arith,
  pow-suc 2 k,
  bit_xor-halve a (2 ^ suc k + b),
  bit_xor-halve a b,
  ap (λ (t : ℕ). bit_xor (a / 2) t) half,
  bit_xor-add_pow k (a / 2) (b / 2) (omega (arith, pow-suc 2 k)) (omega (arith, pow-suc 2 k)),
)
  where
    half : (2 ^ suc k + b) / 2 ≡ 2 ^ k + b / 2
    half = omega (arith, pow-suc 2 k)

-- `(q << k) | r` is a sum where `r` has `k` bits.
pub bit_or-shifted : (k q r : ℕ) → r < 2 ^ k → bit_or (q * 2 ^ k) r ≡ q * 2 ^ k + r
bit_or-shifted zero q zero h = or_zero (q * 2 ^ 0) (q * 2 ^ 0) (omega arith) ∙ omega arith
  where
    or_zero : (n a : ℕ) → a ≤ n → bit_or a 0 ≡ a
    or_zero n zero h = refl
    or_zero zero (suc a) h = absurd (omega arith)
    or_zero (suc n) (suc a) h =
        omega (arith, bit_or-halve (suc a) 0, or_zero n (suc a / 2) (omega arith))
bit_or-shifted zero q (suc r) h = absurd (omega arith)
bit_or-shifted (suc k) q r h = omega (
  arith,
  bit_or-halve (q * 2 ^ suc k) r,
  twice,
  ap (λ (t : ℕ). bit_or t (r / 2)) half,
  bit_or-shifted k q (r / 2) (omega (arith, pow-suc 2 k)),
)
  where
    twice : q * 2 ^ suc k ≡ 2 * (q * 2 ^ k)
    twice = omega (arith, ap (λ (t : ℕ). q * t) (pow-suc 2 k))

    half : (q * 2 ^ suc k) / 2 ≡ q * 2 ^ k
    half = omega (arith, twice)

bit_and-zero : (n a : ℕ) → a ≤ n → bit_and a 0 ≡ 0
bit_and-zero n zero h = refl
bit_and-zero zero (suc a) h = absurd (omega arith)
bit_and-zero (suc n) (suc a) h =
    omega (arith, bit_and-halve (suc a) 0, bit_and-zero n (suc a / 2) (omega arith))

-- `a & (2^k - 1)` keeps the lowest `k` bits; `m` is the mask.
bit_and-mask :
    (k a m : ℕ) → suc m ≡ 2 ^ k → (q r : ℕ) → a ≡ q * 2 ^ k + r → r < 2 ^ k → bit_and a m ≡ r
bit_and-mask zero a m hm q r e h =
    omega (arith, ap (λ (t : ℕ). bit_and a t) zero_mask, bit_and-zero a a (omega arith))
  where
    zero_mask : m ≡ 0
    zero_mask = omega arith
bit_and-mask (suc k) a m hm q r e h = omega (
  arith,
  bit_and-halve a m,
  pow-suc 2 k,
  twice,
  bit_and-mask k (a / 2) (m / 2) (omega (arith, pow-suc 2 k)) q (r / 2) (omega (arith, twice))
      (omega (arith, pow-suc 2 k)),
)
  where
    twice : q * 2 ^ suc k ≡ 2 * (q * 2 ^ k)
    twice = omega (arith, ap (λ (t : ℕ). q * t) (pow-suc 2 k))

-- The masks that the source uses.
pub bit_and-u1 : (a : ℕ) → bit_and a 1 ≡ a % 2
bit_and-u1 a = bit_and-mask 1 a 1 refl (a / 2) (a % 2) (omega arith) (omega arith)

pub bit_and-u8 : (a : ℕ) → bit_and a 0xff ≡ a % 256
bit_and-u8 a = bit_and-mask 8 a 0xff refl (a / 256) (a % 256) (omega arith) (omega arith)

pub bit_and-u16 : (a : ℕ) → bit_and a 0xffff ≡ a % 2 ^ 16
bit_and-u16 a = bit_and-mask 16 a 0xffff refl (a / 2 ^ 16) (a % 2 ^ 16) (omega arith) (omega arith)

pub bit_and-u32 : (a : ℕ) → bit_and a 0xffff_ffff ≡ a % 2 ^ 32
bit_and-u32 a =
    bit_and-mask 32 a 0xffff_ffff refl (a / 2 ^ 32) (a % 2 ^ 32) (omega arith) (omega arith)
