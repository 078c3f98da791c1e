-- ===== src/Router/Speeds.antt =====
-- firmware/src/core0/abi.rs, message_bus.rs, router.rs and motors.rs: which speeds reach Core 1.
use sand_os.Base.{
  ℕ, ◌≡◌, ◌⊎◌, refl, ap, inl, inr, arith, List, [], ◌∷◌, Bool, false, ltb, length, Bool-cases, All,
  All-append,
}
use sand_os.Base.Int.{ℤ, pos, negsuc, InI32, as_u32, as_i16, ltb_ℤ}
use sand_os.Channel.{BoundedQueue}
use sand_os.Motors.{
  Motors, store_motor_command, load_motor_command, is_motor_enabled, set_motor_enabled,
}
use sand_os.Motors.Laws.{load-store, load-zero}
use sand_os.Bus.{
  MovementIntent, RoutingMode, single_board, distributed, get_routing_mode, set_routing_mode,
  publish_intent,
}
use sand_os.Host.{set_motor_speed, i32_as_i16, abs_i32}
use sand_os.Router.{Brain, iteration, route_intent}
use sand_os.Router.Drive.{IsSpeed, iteration-route_intent}
use sand_os.Router.Timeout.{iteration-on_timeout, on_timeout-motors}

abbrev pub IsIntent : MovementIntent → Type 0
IsIntent i = IsSpeed i.left_speed × IsSpeed i.right_speed

-- The speeds that Core 1 would load.
abbrev pub IsBounded : Motors → Type 0
IsBounded m = IsSpeed (load_motor_command m).0 × IsSpeed (load_motor_command m).1

-- The guard of the guest's call leaves only speeds in range, the least i32 included, which the guard
-- passes and the cast makes 0.
i32_as_i16-guarded :
    (v : ℤ) → InI32 v → ltb_ℤ (pos 255) (abs_i32 v) ≡ false → IsSpeed (i32_as_i16 v)
unfolding abs_i32 i32_as_i16 as_u32 as_i16
i32_as_i16-guarded (pos n) r g = ground arith
i32_as_i16-guarded (negsuc n) r g = ground arith

store-IsBounded :
    (l r : ℤ) (m : Motors)
    → IsSpeed l
    → IsSpeed r
    → IsBounded m
    → IsBounded (store_motor_command l r m).1
store-IsBounded l r m hl hr h = elim (load-store l r m (omega (arith, hl)) (omega (arith, hr))) [
  | inl (on, accepted, loaded, still) ↦ rw loaded (hl, hr)
  | inr (off, refused) ↦ rw refused h
]

mode_cases : (mode : RoutingMode) → (mode ≡ single_board) ⊎ (mode ≡ distributed)
mode_cases single_board = inl refl
mode_cases distributed = inr refl

route_intent-IsBounded :
    (word : ℕ) (i : MovementIntent) (m : Motors)
    → IsIntent i
    → IsBounded m
    → IsBounded (route_intent word i m)
unfolding route_intent
route_intent-IsBounded word i m hi h = elim (mode_cases (get_routing_mode word)) [
  | inl single ↦
      rw (single, route_intent) (store-IsBounded i.left_speed i.right_speed m hi.0 hi.1 h)
  | inr remote ↦ rw (remote, route_intent) h
]

abbrev too_fast : ℤ → Bool
too_fast v = ltb_ℤ (pos 255) (abs_i32 v)

abbrev intent : ℤ → ℤ → MovementIntent
intent l r = record { left_speed = i32_as_i16 l; right_speed = i32_as_i16 r }

-- What happens to the parts of the system that carry speeds: the guest asks, the router turns,
-- Core 1 cuts the motors off, the mode is set, and a frame renews the time of the last reception.
pub data Act : Type 0 where
  ask : ℤ → ℤ → Act
  turn : ℕ → Act
  cut_off : Act
  choose : RoutingMode → Act
  hear : ℕ → Act

abbrev pub IsAct : Act → Type 0
IsAct (ask l r) = InI32 l × InI32 r
IsAct _ = Unit

module _ (I : BoundedQueue MovementIntent 8) (S : BoundedQueue (List ℤ) 2) where
  pub record IsSafe (b : Brain I S) : Type 0 where
    pub queued : All IsIntent (I.contents b.intents)
    pub loaded : IsBounded b.motors

  try_send-queued :
      (i : MovementIntent) (q : I.Queue)
      → IsIntent i
      → All IsIntent (I.contents q)
      → All IsIntent (I.contents (I.try_send i q).1)
  try_send-queued i q hi h = elim (Bool-cases (ltb (length (I.contents q)) 8)) [
    | inl room ↦
        rw (I.try_send_room i q (ground arith)).1
          (All-append IsIntent (I.contents q) (i ∷ []) h (hi, tt))
    | inr full ↦ rw (ap (λ p. p.1) (I.try_send_full i q (ground arith))) h
  ]

  set_motor_speed-queued :
      (l r : ℤ) (m : Motors) (q : I.Queue)
      → InI32 l
      → InI32 r
      → All IsIntent (I.contents q)
      → All IsIntent (I.contents (set_motor_speed I l r m q).1)
  unfolding set_motor_speed publish_intent
  set_motor_speed-queued l r m q hl hr h = elim (Bool-cases (too_fast l)) [
    | inl fast ↦ rw fast h
    | inr left ↦ elim (Bool-cases (too_fast r)) [
      | inl fast ↦ rw (left, fast) h
      | inr right ↦ elim (Bool-cases (is_motor_enabled m)) [
        | inr off ↦ rw (left, right, off) h
        | inl on ↦ elim (Bool-cases (I.try_send (intent l r) q).0) [
          | inl sent ↦ rw (left, right, on, sent) (all left right)
          | inr full ↦ rw (left, right, on, full) (all left right)
        ]
      ]
    ]
  ]
    where
      all :
          too_fast l ≡ false
          → too_fast r ≡ false
          → All IsIntent (I.contents (I.try_send (intent l r) q).1)
      all left right =
          try_send-queued (intent l r) q
            (i32_as_i16-guarded l hl left, i32_as_i16-guarded r hr right) h

  iteration-IsSafe : (now : ℕ) (b : Brain I S) → IsSafe b → IsSafe (iteration I S now b)
  iteration-IsSafe now b h = next (I.contents b.intents) refl
    where
      next :
          (held : List MovementIntent) → I.contents b.intents ≡ held → IsSafe (iteration I S now b)
      next [] e = rw (iteration-on_timeout I S now b e) (record {
        queued = rw (on_timeout-motors I S now b).1 h.queued;
        loaded =
            rw (on_timeout-motors I S now b).0
              (store-IsBounded (pos 0) (pos 0) b.motors (omega arith) (omega arith) h.loaded);
      })
      next (i ∷ rest) e =
          let (taken, driven, kept) = iteration-route_intent I S now i rest b e in
          let all : All IsIntent (i ∷ rest) = rw e at h.queued in
          record {
            queued = rw taken all.1;
            loaded = rw driven (route_intent-IsBounded b.routing_mode i b.motors all.0 h.loaded);
          }

  unfoldable pub act : Act → Brain I S → Brain I S
  act (ask l r) b = record b { intents = (set_motor_speed I l r b.motors b.intents).1 }
  act (turn now) b = iteration I S now b
  act cut_off b = record b { motors = set_motor_enabled false b.motors }
  act (choose mode) b = record b { routing_mode = set_routing_mode mode b.routing_mode }
  act (hear now) b = record b { last_rx_ms = now }

  unfoldable pub acts : List Act → Brain I S → Brain I S
  unfolding act
  acts [] b = b
  acts (a ∷ more) b = acts more (act a b)

  act-IsSafe : (a : Act) (b : Brain I S) → IsAct a → IsSafe b → IsSafe (act a b)
  unfolding act
  act-IsSafe (ask l r) b (hl, hr) h = record {
    queued = set_motor_speed-queued l r b.motors b.intents hl hr h.queued;
    loaded = h.loaded;
  }
  act-IsSafe (turn now) b ha h = iteration-IsSafe now b h
  act-IsSafe cut_off b ha h = record {
    queued = h.queued;
    loaded = unfold set_motor_enabled in rw (load-zero 0) (omega arith);
  }
  act-IsSafe (choose mode) b ha h = record { queued = h.queued; loaded = h.loaded }
  act-IsSafe (hear now) b ha h = record { queued = h.queued; loaded = h.loaded }

  -- Whatever i32 values the guest passes and however its calls, the router's turns, shutdowns and
  -- changes of the mode interleave, every speed in the queue and the command that Core 1 loads are
  -- within the PWM range of -255 to 255.
  pub acts-IsSafe :
      (more : List Act) (b : Brain I S) → All IsAct more → IsSafe b → IsSafe (acts more b)
  unfolding acts
  acts-IsSafe [] b ha h = h
  acts-IsSafe (a ∷ more) b (ha, has) h = acts-IsSafe more (act a b) has (act-IsSafe a b ha h)
