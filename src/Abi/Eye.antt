-- ===== src/Abi/Eye.antt =====
-- abi/src/lib.rs, `EyeExpression`: the expression argument of `host_draw_eye`.
use sand_os.Base.{◌≡◌, ◌↔◌, Option, none, some, arith, ◌==◌, if◌then◌else◌}
use sand_os.Base.Int.{ℤ, pos, negsuc}

pub data EyeExpression : Type 0 where
  neutral happy sad angry surprised thinking blink : EyeExpression

-- `expression as i32`
unfoldable pub discriminant : EyeExpression → ℤ
discriminant neutral = pos 0
discriminant happy = pos 1
discriminant sad = pos 2
discriminant angry = pos 3
discriminant surprised = pos 4
discriminant thinking = pos 5
discriminant blink = pos 6

unfoldable pub from_i32 : ℤ → Option EyeExpression
from_i32 (negsuc n) = none
from_i32 (pos n) =
    if n == 0
    then some neutral
    else if n == 1
    then some happy
    else if n == 2
    then some sad
    else if n == 3
    then some angry
    else if n == 4
    then some surprised
    else if n == 5
    then some thinking
    else if n == 6
    then some blink
    else none

-- `from_i32` accepts exactly the discriminants: it returns an expression if and only if the raw
-- value is the number that the expression is cast to.
pub from_i32_exact : (v : ℤ) (e : EyeExpression) → (from_i32 v ≡ some e) ↔ (v ≡ discriminant e)
from_i32_exact v e = (accepted v e, λ h. rw h (parsed e))
  where
    parsed : (d : EyeExpression) → from_i32 (discriminant d) ≡ some d
    parsed d = unfold from_i32 discriminant in ground arith

    accepted : (z : ℤ) (d : EyeExpression) → from_i32 z ≡ some d → z ≡ discriminant d
    accepted z d h = unfold from_i32 discriminant in ground arith
