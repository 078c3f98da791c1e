-- ===== src/Abi/Memory.antt =====
-- abi/src/lib.rs, `validate_ptr_len`: the check of a guest's (pointer, length) pair.
use sand_os.Base.{
  ℕ, ◌+◌, ◌^◌, ◌≤◌, ◌<◌, ◌≡◌, ◌↔◌, ◌⊎◌, Option, none, some, arith, ltb, leb, if◌then◌else◌,
}
use sand_os.Base.Int.{ℤ}
use sand_os.Abi.Status.{err_bounds}

pub data Result (A E : Type 0) : Type 0 where
  ok : A → Result A E
  err : E → Result A E

-- `u32::checked_add`
unfoldable pub checked_add : ℕ → ℕ → Option ℕ
checked_add a b = if ltb (a + b) (2 ^ 32) then some (a + b) else none

unfoldable pub validate_ptr_len : ℕ → ℕ → ℕ → Result (Unit {0}) ℤ
unfolding checked_add
validate_ptr_len ptr len memory_size = elim (checked_add ptr len) [
  | some end ↦ if leb end memory_size then ok tt else err err_bounds
  | none ↦ err err_bounds
]

-- For a memory whose size is a u32, the check passes exactly when the region, its end computed
-- without wrapping, lies inside the memory; a pair that does not pass is refused with ERR_BOUNDS.
pub validate_ptr_len_exact :
    (ptr len memory_size : ℕ)
    → memory_size < 2 ^ 32
    → ((validate_ptr_len ptr len memory_size ≡ ok tt) ↔ (ptr + len ≤ memory_size))
      × ((validate_ptr_len ptr len memory_size ≡ ok tt)
          ⊎ (validate_ptr_len ptr len memory_size ≡ err err_bounds))
unfolding validate_ptr_len
validate_ptr_len_exact ptr len memory_size h =
    ((λ e. ground arith, λ e. ground arith), ground arith)
