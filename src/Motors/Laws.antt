-- ===== src/Motors/Laws.antt =====
-- firmware/src/motors.rs: what is stored is what is loaded, unless the motors are off.
use sand_os.Base.{
  ℕ, ◌+◌, ◌*◌, ◌/◌, ◌%◌, ◌^◌, ◌≡◌, ◌⊎◌, refl, ap, ◌∙◌, inl, inr, arith, true, false, ◌==◌,
  Bool-cases, bit_and,
}
use sand_os.Base.Int.{ℤ, pos, InI16, as_u16, as_i16, as_u16-lt, as_i16-as_u16}
use sand_os.Base.Bits.{bit_or-shifted, bit_and-u16}
use sand_os.Motors.{
  Motors, pack, store_motor_command, load_motor_command, set_motor_enabled, is_motor_enabled,
}

pack_sum : (l r : ℤ) → pack l r ≡ as_u16 l * 2 ^ 16 + as_u16 r
unfolding pack
pack_sum l r = bit_or-shifted 16 (as_u16 l) (as_u16 r) (as_u16-lt r)

-- A packed pair of speeds is unpacked unchanged.
pub load-pack :
    (l r : ℤ) (flag : ℕ)
    → InI16 l
    → InI16 r
    → load_motor_command (record { command = pack l r; enabled = flag }) ≡ (l, r)
unfolding load_motor_command
load-pack l r flag hl hr = λ i. (left i, right i)
  where
    high : pack l r / 2 ^ 16 % 2 ^ 16 ≡ as_u16 l
    high = omega (arith, pack_sum l r, as_u16-lt l, as_u16-lt r)

    low : bit_and (pack l r) 0xffff % 2 ^ 16 ≡ as_u16 r
    low = omega (arith, bit_and-u16 (pack l r), pack_sum l r, as_u16-lt l, as_u16-lt r)

    left : as_i16 (pack l r / 2 ^ 16 % 2 ^ 16) ≡ l
    left = ap as_i16 high ∙ as_i16-as_u16 l hl

    right : as_i16 (bit_and (pack l r) 0xffff % 2 ^ 16) ≡ r
    right = ap as_i16 low ∙ as_i16-as_u16 r hr

pub load-zero :
    (flag : ℕ) → load_motor_command (record { command = 0; enabled = flag }) ≡ (pos 0, pos 0)
unfolding load_motor_command as_i16
load-zero flag = refl

-- With the motors enabled the stored speeds are loaded, as signed numbers, and stay enabled; with the
-- motors disabled the command is refused and nothing changes.
pub load-store :
    (l r : ℤ) (m : Motors)
    → InI16 l
    → InI16 r
    → ((is_motor_enabled m ≡ true)
        × ((store_motor_command l r m).0 ≡ true)
        × (load_motor_command (store_motor_command l r m).1 ≡ (l, r))
        × (is_motor_enabled (store_motor_command l r m).1 ≡ true))
      ⊎ ((is_motor_enabled m ≡ false) × (store_motor_command l r m ≡ (false, m)))
unfolding is_motor_enabled store_motor_command
load-store l r m hl hr = elim (Bool-cases (m.enabled == 0)) [
  | inl off ↦ inr (rw off, rw off)
  | inr on ↦ inl (rw on, rw on, rw on (load-pack l r m.enabled hl hr), rw on (rw on))
]

-- The safe shutdown: from any state the motors are then disabled, the speeds loaded are zero, and
-- every later command is refused.
pub shutdown_lem :
    (l r : ℤ) (m : Motors)
    → (is_motor_enabled (set_motor_enabled false m) ≡ false)
      × (load_motor_command (set_motor_enabled false m) ≡ (pos 0, pos 0))
      × (store_motor_command l r (set_motor_enabled false m) ≡ (false, set_motor_enabled false m))
unfolding set_motor_enabled is_motor_enabled store_motor_command
shutdown_lem l r m = (refl, load-zero 0, refl)
