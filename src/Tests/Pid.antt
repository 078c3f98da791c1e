-- ===== src/Tests/Pid.antt =====
-- Runs of the models of firmware/src/core1/pid.rs and of `realtime_task`, and their theorems at concrete
-- inputs. The numbers are thousandths with a NaN, rounded towards zero.
use sand_os.Base.{
  ℕ, suc, ◌+◌, ◌*◌, ◌/◌, ◌≤◌, ◌≡◌, refl, arith, [], Option, none, some, Bool, true, false, not,
  ◌==◌, if◌then◌else◌, zero,
}
use sand_os.Base.Int.{ℤ, pos, negsuc, pos_part, neg_part, sub_ℕ, ◌+ℤ◌, ltb_ℤ, as_i16}
use sand_os.Abi.Telemetry.{TelemetryPacket}
use sand_os.Channel.{BoundedQueue, list_queue}
use sand_os.Motors.{initial, load_motor_command}
use sand_os.Core1.Tick.{Casts, balance_pid, Shared, Realtime, tick}
use sand_os.Core1.Balanced.{IsTuned, IsBalance, Safe, tick-Safe}
use sand_os.Core1.Outputs.{IsDuty}
use sand_os.Pid.{Float, PidController, new, update, reset}
use sand_os.Pid.Laws.{Stepped, Within, update-Stepped}

abbrev Milli : Type 0
Milli = Option ℤ

abbrev negate : ℤ → ℤ
negate a = sub_ℕ (neg_part a) (pos_part a)

-- A product of thousandths, and a quotient.
abbrev times : ℤ → ℤ → Milli
times a b = some (
    sub_ℕ ((pos_part a * pos_part b + neg_part a * neg_part b) / 1000)
      ((pos_part a * neg_part b + neg_part a * pos_part b) / 1000))

abbrev quotient : ℤ → ℤ → Milli
quotient a (pos zero) = none
quotient a (pos (suc n)) = some (sub_ℕ (pos_part a * 1000 / suc n) (neg_part a * 1000 / suc n))
quotient a (negsuc n) = some (sub_ℕ (neg_part a * 1000 / suc n) (pos_part a * 1000 / suc n))

abbrev lift : (ℤ → ℤ → Milli) → Milli → Milli → Milli
lift f none y = none
lift f (some a) none = none
lift f (some a) (some b) = f a b

abbrev lift_one : (ℤ → ℤ) → Milli → Milli
lift_one f none = none
lift_one f (some a) = some (f a)

abbrev compared : (ℤ → ℤ → Bool) → Milli → Milli → Bool
compared f none y = false
compared f (some a) none = false
compared f (some a) (some b) = f a b

-- `a ≤ b` of the integers.
abbrev not_above : ℤ → ℤ → Bool
not_above a b = not (ltb_ℤ b a)

less_irrefl : (x : Milli) → compared ltb_ℤ x x ≡ false
less_irrefl none = refl
less_irrefl (some a) = ground arith

not_above-less : (x y : Milli) → compared not_above x y ≡ true → compared ltb_ℤ y x ≡ false
not_above-less none y h = cc
not_above-less (some a) none h = refl
not_above-less (some a) (some b) h = ground arith

abbrev milli : Float
milli = record {
  F32 = Milli;
  zero_f = some (pos 0);
  epsilon = some (pos 0);
  add = lift (λ a b. some (a +ℤ b));
  sub = lift (λ a b. some (a +ℤ negate b));
  mul = lift times;
  div = lift quotient;
  neg = lift_one negate;
  abs = lift_one (λ a. pos (pos_part a + neg_part a));
  lt = compared ltb_ℤ;
  le = compared not_above;
  lt-irrefl = less_irrefl;
  le-not_lt = not_above-less;
}

abbrev from_i32 : ℤ → Milli
from_i32 a = some (sub_ℕ (pos_part a * 1000) (neg_part a * 1000))

abbrev to_i32 : Milli → ℤ
to_i32 none = pos 0
to_i32 (some a) = sub_ℕ (pos_part a / 1000) (neg_part a / 1000)

within :
    (n : ℕ) (x : Milli)
    → n ≤ 16777216
    → Within milli (milli.neg (from_i32 (pos n))) (from_i32 (pos n)) x
    → (pos_part (to_i32 x) ≤ n) × (neg_part (to_i32 x) ≤ n)
within n none hn h = (omega arith, omega arith)
within n (some (pos a)) hn h = (ground arith, ground arith)
within n (some (negsuc a)) hn h = (ground arith, ground arith)

abbrev casts : Casts milli
casts = record { of_i32 = from_i32; to_i32 = to_i32; to_i32-within = within }

tuned : IsTuned milli casts
unfolding new
tuned = (refl, λ g. refl)

-- The controller of the task at an angle of four degrees.
abbrev pid : PidController milli
pid = balance_pid milli casts

abbrev degrees : ℕ → Milli
degrees n = some (pos (n * 1000))

update-Stepped_example :
    (step : Milli × PidController milli) × ((update milli (degrees 0) (degrees 4) (some (pos 2)) pid
        ≡ some step)
      × Stepped milli (degrees 0) (degrees 4) pid step)
update-Stepped_example = update-Stepped milli (degrees 0) (degrees 4) (some (pos 2)) pid tuned

abbrev packets : BoundedQueue TelemetryPacket 32
packets = list_queue TelemetryPacket 32

-- A pass under a low voltage.
abbrev shared : Shared milli casts packets
shared = record {
  rtc = λ offset. if offset == 8 then 1 else 0;
  motors = initial;
  imu_data = 0;
  telemetry = [];
  now_us = 2000;
  loop_us = 40;
}

abbrev task : Realtime milli casts packets
task = record { counters = record { tick_count = 9; imu_seq = 2; odom_seq = 2 }; pid = pid }

task-IsBalance : IsBalance milli casts task.pid
unfolding reset new
task-IsBalance = refl

left-IsDuty : IsDuty (load_motor_command shared.motors).0
unfolding load_motor_command as_i16
left-IsDuty = (omega arith, omega arith)

right-IsDuty : IsDuty (load_motor_command shared.motors).1
unfolding load_motor_command as_i16
right-IsDuty = (omega arith, omega arith)

tick-Safe_example : Safe milli casts packets shared (tick milli casts packets shared task)
tick-Safe_example =
    tick-Safe milli casts packets shared task tuned task-IsBalance left-IsDuty right-IsDuty
