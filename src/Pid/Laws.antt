-- ===== src/Pid/Laws.antt =====
-- firmware/src/core1/pid.rs: the bounds of the output and of the integral, and the reset.
use sand_os.Base.{
  ◌≡◌, refl, sym, ◌∙◌, inl, inr, List, [], ◌∷◌, some, true, false, Bool-cases, if◌then◌else◌,
}
use mathlib.Core.Path.{subst}
use sand_os.Pid.{
  Float, PidController, new, clamp, integrate, derivative, finish, update, reset, Sample, updates,
}

module _ (R : Float) where
  -- Neither below the one nor above the other; a NaN is neither.
  abbrev pub Within : R.F32 → R.F32 → R.F32 → Type 0
  Within min max x = (R.lt x min ≡ false) × (R.lt max x ≡ false)

  raised : (x min : R.F32) → R.lt (if R.lt x min then min else x) min ≡ false
  raised x min = elim (Bool-cases (R.lt x min)) [
    | inl low ↦ rw low (R.lt-irrefl min)
    | inr fits ↦ rw (fits, fits) refl
  ]

  lowered :
      (x min max : R.F32)
      → R.lt x min ≡ false
      → R.le min max ≡ true
      → Within min max (if R.lt max x then max else x)
  lowered x min max above ordered = elim (Bool-cases (R.lt max x)) [
    | inl high ↦ rw high (R.le-not_lt min max ordered, R.lt-irrefl max)
    | inr fits ↦ rw fits (above, fits)
  ]

  -- Clamping between ordered bounds does not panic, and leaves a number within them.
  pub clamp-Within :
      (x min max : R.F32)
      → R.le min max ≡ true
      → (y : R.F32) × ((clamp R x min max ≡ some y) × Within min max y)
  unfolding clamp
  clamp-Within x min max ordered =
      let up = if R.lt x min then min else x in
      (
        if R.lt max up then max else up,
        (rw ordered refl, lowered up min max (raised x min) ordered),
      )

  -- The clamps of a step have ordered bounds: the limits of the output, and those of the integral when
  -- there is an integral gain.
  abbrev pub IsOrdered : PidController R → Type 0
  IsOrdered p =
      (R.le p.output_min p.output_max ≡ true)
      × (R.lt R.epsilon (R.abs p.ki) ≡ true
          → R.le (R.neg (R.div p.output_max p.ki)) (R.div p.output_max p.ki) ≡ true)

  -- What a step leaves: an output within the limits, an integral within the limits that the gain
  -- gives it, the error of the step, and the gains and limits as they were.
  abbrev pub Stepped : R.F32 → R.F32 → PidController R → R.F32 × PidController R → Type 0
  Stepped setpoint measured p (output, p') =
      Within p.output_min p.output_max output
      × (R.lt R.epsilon (R.abs p.ki) ≡ true
          → Within (R.neg (R.div p.output_max p.ki)) (R.div p.output_max p.ki) p'.integral)
      × (p'.prev_error ≡ R.sub setpoint measured)
      × (reset R p' ≡ reset R p)

  integrate-Within :
      (error dt_s : R.F32) (p : PidController R)
      → IsOrdered p
      → (sum : R.F32) × ((integrate R error dt_s p ≡ some sum)
          × (R.lt R.epsilon (R.abs p.ki) ≡ true
              → Within (R.neg (R.div p.output_max p.ki)) (R.div p.output_max p.ki) sum))
  unfolding integrate
  integrate-Within error dt_s p ordered = elim (Bool-cases (R.lt R.epsilon (R.abs p.ki))) [
    | inl gain ↦
        let (sum, (e, within)) =
          clamp-Within (R.add p.integral (R.mul error dt_s)) (R.neg (R.div p.output_max p.ki))
            (R.div p.output_max p.ki) (ordered.1 gain) in
        (sum, (rw (gain, integrate) e, λ g. within))
    | inr none_given ↦
        (R.add p.integral (R.mul error dt_s), (rw (none_given, integrate) refl, λ g. (cc, cc)))
  ]

  -- With ordered limits a step never panics; its output lies within the limits, the integral within
  -- what the integral gain allows, and the gains and limits stay. A NaN counts as within.
  pub update-Stepped :
      (setpoint measured dt_s : R.F32) (p : PidController R)
      → IsOrdered p
      → (step : R.F32 × PidController R) × ((update R setpoint measured dt_s p ≡ some step)
          × Stepped setpoint measured p step)
  unfolding update finish reset
  update-Stepped setpoint measured dt_s p ordered =
      let error = R.sub setpoint measured in
      let (sum, (e, windup)) = integrate-Within error dt_s p ordered in
      let (clamped, (f, within)) =
        clamp-Within
          (R.add (R.add (R.mul p.kp error) (R.mul p.ki sum))
            (R.mul p.kd (derivative R error dt_s p)))
          p.output_min p.output_max ordered.0 in
      (
        (clamped, record p { integral = sum; prev_error = error }),
        (rw (e, update, f, finish) refl, (within, windup, refl, refl)),
      )

  updates-reset :
      (ss : List (Sample R)) (p : PidController R)
      → IsOrdered p
      → (q : PidController R) × ((updates R ss p ≡ some q) × (reset R q ≡ reset R p))
  unfolding updates reset
  updates-reset [] p ordered = (p, (refl, refl))
  updates-reset (s ∷ ss) p ordered =
      let (step, (e, stepped)) = update-Stepped s.setpoint s.measured s.dt_s p ordered in
      let (q, (f, same)) = updates-reset ss step.1 (kept step.1 stepped.3) in
      (q, (rw (e, updates) f, same ∙ stepped.3))
    where
      kept : (p' : PidController R) → reset R p' ≡ reset R p → IsOrdered p'
      kept p' e = subst IsOrdered (sym e) ordered

  -- A controller with ordered limits runs through any samples without a panic, and a reset afterwards
  -- leaves it as it was when new: nothing of the samples is remembered.
  updates-new :
      (ss : List (Sample R)) (kp ki kd output_min output_max : R.F32)
      → IsOrdered (new R kp ki kd output_min output_max)
      → (q : PidController R) × ((updates R ss (new R kp ki kd output_min output_max) ≡ some q)
          × (reset R q ≡ new R kp ki kd output_min output_max))
  unfolding new reset
  updates-new ss kp ki kd output_min output_max ordered =
      updates-reset ss (new R kp ki kd output_min output_max) ordered
