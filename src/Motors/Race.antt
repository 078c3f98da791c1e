-- ===== src/Motors/Race.antt =====
-- firmware/src/motors.rs on two cores: every load and store of the two atomics is a step of its own.
-- Core 0 runs `store_motor_command`; Core 1 runs the motor part of `realtime_task` in core1/mod.rs.
use sand_os.Base.{◌≡◌, ◌≢◌, refl, arith, Bool, true, false}
use sand_os.Base.Int.{ℤ, InI16}
use sand_os.Motors.Laws.{load-pack}
use sand_os.Motors.{Motors, pack, initial, store_motor_command, load_motor_command}

-- Where Core 0 stands in `store_motor_command`: outside, or between its guard and its store.
pub data Writer : Type 0 where
  outside : Writer
  admitted : ℤ → ℤ → Writer

-- Where Core 1 stands in a tick: before it, in `set_motor_enabled(false)` between its two stores,
-- before the load of the flag, before the load of the command, or
-- done: with the target speeds that it loaded, from which it makes its two outputs, or stopped. The
-- Boolean says whether this tick, or an earlier one, saw the critical voltage.
pub data Tick : Type 0 where
  start disabling checking loading : Tick
  driving : ℤ × ℤ → Tick
  stopped : Tick

pub record System : Type 0 where
  pub motors : Motors
  pub writer : Writer
  pub tick : Tick
  pub cut : Bool

abbrev pub boot : System
boot = record { motors = initial; writer = outside; tick = start; cut = false }

-- One atomic access, by either core.
pub data Step (s : System) : System → Type 0 where
  -- Core 0
  admit :
      (l r : ℤ)
      → s.writer ≡ outside
      → s.motors.enabled ≢ 0
      → Step s (record s { writer = admitted l r })
  refuse : s.writer ≡ outside → s.motors.enabled ≡ 0 → Step s s
  store :
      (l r : ℤ)
      → s.writer ≡ admitted l r
      → Step s (record s {
        motors = record { command = pack l r; enabled = s.motors.enabled };
        writer = outside;
      })
  -- Core 1
  voltage_fine : s.tick ≡ start → Step s (record s { tick = checking })
  disable :
      s.tick ≡ start
      → Step s (record s {
        motors = record { command = s.motors.command; enabled = 0 };
        tick = disabling;
        cut = true;
      })
  zero_command :
      s.tick ≡ disabling
      → Step s (record s {
        motors = record { command = 0; enabled = s.motors.enabled };
        tick = checking;
      })
  see_enabled : s.tick ≡ checking → s.motors.enabled ≢ 0 → Step s (record s { tick = loading })
  see_disabled : s.tick ≡ checking → s.motors.enabled ≡ 0 → Step s (record s { tick = stopped })
  load : s.tick ≡ loading → Step s (record s { tick = driving (load_motor_command s.motors) })
  next_tick : (o : ℤ × ℤ) → s.tick ≡ driving o → Step s (record s { tick = start })
  next_stopped_tick : s.tick ≡ stopped → Step s (record s { tick = start })

pub data Reach : System → Type 0 where
  booted : Reach boot
  then : {s t : System} → Reach s → Step s t → Reach t

-- Core 1 drives the motors.
abbrev pub IsDriving : Tick → Type 0
IsDriving loading = Unit
IsDriving (driving o) = Unit
IsDriving _ = ⊥

-- Since the cut the flag is 0 and Core 1 is on no path that drives the motors.
pub record IsCut (s : System) : Type 0 where
  pub flag : s.motors.enabled ≡ 0
  pub halted : ¬ IsDriving s.tick

Step-IsCut : {s t : System} → Step s t → (s.cut ≡ true → IsCut s) → t.cut ≡ true → IsCut t
Step-IsCut (admit l r w e) h c = ground arith
Step-IsCut (refuse w e) h c = h c
Step-IsCut (store l r w) h c = ground arith
Step-IsCut (voltage_fine k) h c = ground arith
Step-IsCut (disable k) h c = ground arith
Step-IsCut (zero_command k) h c = ground arith
Step-IsCut (see_enabled k e) h c = ground arith
Step-IsCut (see_disabled k e) h c = ground arith
Step-IsCut (load k) h c = ground arith
Step-IsCut (next_tick o k) h c = ground arith
Step-IsCut (next_stopped_tick k) h c = ground arith

-- In every interleaving of the two cores: once Core 1 has seen the critical voltage, the motors stay
-- disabled and no later tick loads a command or drives the motors, whatever Core 0 does.
pub Reach-IsCut : {s : System} → Reach s → s.cut ≡ true → IsCut s
Reach-IsCut booted c = cc
Reach-IsCut (then r st) c = Step-IsCut st (Reach-IsCut r) c

-- Core 0's two accesses, with no access of Core 1 between them, are `store_motor_command`.
pub store_motor_command-uninterrupted :
    (l r : ℤ) (s : System)
    → s.writer ≡ outside
    → s.motors.enabled ≢ 0
    → (t : System) × Step s t
      × Step t (record s { motors = (store_motor_command l r s.motors).1; writer = outside })
store_motor_command-uninterrupted l r s w e =
    (record s { writer = admitted l r }, admit l r w e, rw stored (store l r refl))
  where
    stored :
        (store_motor_command l r s.motors).1
        ≡ record { command = pack l r; enabled = s.motors.enabled }
    stored = unfold store_motor_command in ground arith

-- `set_motor_enabled(false)` is not atomic with the check that Core 0 makes before: for any speeds
-- there is an interleaving after which the motors are disabled by a cut, neither core is inside an
-- access sequence, and the command word still holds these speeds and not zero speeds.
pub stale_command :
    (l r : ℤ)
    → InI16 l
    → InI16 r
    → (s : System) × Reach s
      × (s.cut ≡ true)
      × (s.writer ≡ outside)
      × (s.tick ≡ stopped)
      × (s.motors.enabled ≡ 0)
      × (load_motor_command s.motors ≡ (l, r))
stale_command l r hl hr = (
  record {
    motors = record { command = pack l r; enabled = 0 };
    writer = outside;
    tick = stopped;
    cut = true;
  },
  then
      (then
        (then (then (then booted (admit l r refl (λ e. cc))) (disable refl)) (zero_command refl))
        (see_disabled refl refl))
      (store l r refl),
  refl,
  refl,
  refl,
  refl,
  load-pack l r 0 hl hr,
)
