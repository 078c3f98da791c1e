-- ===== src/Pid.antt =====
-- firmware/src/core1/pid.rs: the balance controller, over single-precision numbers.
pub mod Laws
use sand_os.Base.{ℕ, ◌≡◌, List, [], ◌∷◌, Option, none, some, Bool, true, false, if◌then◌else◌}

-- `f32`: the operations that the controller uses. A NaN is a number that no comparison holds of, and
-- no rounding is assumed.
pub record Float : Type 1 where
  pub F32 : Type 0
  pub zero_f : F32
  pub epsilon : F32
  pub add : F32 → F32 → F32
  pub sub : F32 → F32 → F32
  pub mul : F32 → F32 → F32
  pub div : F32 → F32 → F32
  pub neg : F32 → F32
  pub abs : F32 → F32
  pub lt : F32 → F32 → Bool
  pub le : F32 → F32 → Bool
  pub lt-irrefl : (x : F32) → lt x x ≡ false
  pub le-not_lt : (x y : F32) → le x y ≡ true → lt y x ≡ false

module _ (R : Float) where
  pub record PidController : Type 0 where
    pub kp : R.F32
    pub ki : R.F32
    pub kd : R.F32
    pub integral : R.F32
    pub prev_error : R.F32
    pub output_min : R.F32
    pub output_max : R.F32

  unfoldable pub new : R.F32 → R.F32 → R.F32 → R.F32 → R.F32 → PidController
  new kp ki kd output_min output_max = record {
    kp = kp;
    ki = ki;
    kd = kd;
    integral = R.zero_f;
    prev_error = R.zero_f;
    output_min = output_min;
    output_max = output_max;
  }

  -- `f32::clamp` of the standard library, which panics unless `min <= max`.
  unfoldable pub clamp : R.F32 → R.F32 → R.F32 → Option R.F32
  clamp x min max =
      let raised = if R.lt x min then min else x in
      let lowered = if R.lt max raised then max else raised in
      if R.le min max then some lowered else none

  -- The integral after a step, clamped when there is an integral gain.
  unfoldable pub integrate : R.F32 → R.F32 → PidController → Option R.F32
  integrate error dt_s p =
      let sum = R.add p.integral (R.mul error dt_s) in
      let windup_limit = R.div p.output_max p.ki in
      if R.lt R.epsilon (R.abs p.ki) then clamp sum (R.neg windup_limit) windup_limit else some sum

  unfoldable pub derivative : R.F32 → R.F32 → PidController → R.F32
  derivative error dt_s p =
      if R.lt R.epsilon dt_s then R.div (R.sub error p.prev_error) dt_s else R.zero_f

  -- The end of a step, once the integral is known.
  unfoldable pub finish : R.F32 → R.F32 → PidController → R.F32 → Option (R.F32 × PidController)
  finish error dt_s p integral =
      let output =
        R.add (R.add (R.mul p.kp error) (R.mul p.ki integral))
          (R.mul p.kd (derivative error dt_s p)) in
      elim (clamp output p.output_min p.output_max) [
        | none ↦ none
        | some clamped ↦ some (clamped, record p { integral = integral; prev_error = error })
      ]

  -- None is a panic of `clamp`.
  unfoldable pub update : R.F32 → R.F32 → R.F32 → PidController → Option (R.F32 × PidController)
  update setpoint measured dt_s p =
      let error = R.sub setpoint measured in
      elim (integrate error dt_s p) [ none ↦ none | some integral ↦ finish error dt_s p integral ]

  unfoldable pub reset : PidController → PidController
  reset p = record p { integral = R.zero_f; prev_error = R.zero_f }

  -- One step: the setpoint, the measured value and the time.
  pub record Sample : Type 0 where
    pub setpoint : R.F32
    pub measured : R.F32
    pub dt_s : R.F32

  -- A run of the controller; none after a panic.
  unfoldable pub updates : List Sample → PidController → Option PidController
  updates [] p = some p
  updates (s ∷ ss) p = elim (update s.setpoint s.measured s.dt_s p) [
    | none ↦ none
    | some step ↦ updates ss step.1
  ]
