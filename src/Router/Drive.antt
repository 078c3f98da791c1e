-- ===== src/Router/Drive.antt =====
-- firmware/src/core0/abi.rs `set_motor_speed`, message_bus.rs and router.rs together: from the guest's
-- call to the command that Core 1 loads.
use sand_os.Base.{
  ℕ, zero, suc, ◌≤◌, ◌<◌, ◌≡◌, refl, inl, inr, arith, List, [], ◌∷◌, ◌++◌, true, false, length,
}
use sand_os.Base.Int.{ℤ, pos, negsuc, pos_part, neg_part, InI16, as_u32, as_i16, ltb_ℤ}
use sand_os.Abi.Status.{ok}
use sand_os.Channel.{BoundedQueue}
use sand_os.Motors.{Motors, store_motor_command, load_motor_command, is_motor_enabled}
use sand_os.Motors.Laws.{load-store}
use sand_os.Bus.{MovementIntent, single_board, get_routing_mode, publish_intent}
use sand_os.Host.{set_motor_speed, i32_as_i16, abs_i32}
use sand_os.Router.{Brain, iteration, route_intent}

-- A speed that the guest may ask for.
abbrev pub IsSpeed : ℤ → Type 0
IsSpeed v = (pos_part v ≤ 255) × (neg_part v ≤ 255)

i32_as_i16-IsSpeed : (v : ℤ) → IsSpeed v → i32_as_i16 v ≡ v
unfolding i32_as_i16 as_u32 as_i16
i32_as_i16-IsSpeed (pos n) h = ground arith
i32_as_i16-IsSpeed (negsuc n) h = ground arith

stored :
    (i : MovementIntent) (m : Motors)
    → is_motor_enabled m ≡ true
    → InI16 i.left_speed
    → InI16 i.right_speed
    → load_motor_command (store_motor_command i.left_speed i.right_speed m).1
      ≡ (i.left_speed, i.right_speed)
stored i m on hl hr = elim (load-store i.left_speed i.right_speed m hl hr) [
  | inl (e, accepted, loaded, still) ↦ loaded
  | inr (off, refused) ↦ cc
]

store-enabled :
    (i : MovementIntent) (m : Motors)
    → is_motor_enabled m ≡ true
    → is_motor_enabled (store_motor_command i.left_speed i.right_speed m).1 ≡ true
unfolding is_motor_enabled store_motor_command
store-enabled i m on = ground arith

route_intent-single :
    (word : ℕ) (i : MovementIntent) (m : Motors)
    → get_routing_mode word ≡ single_board
    → route_intent word i m ≡ (store_motor_command i.left_speed i.right_speed m).1
unfolding route_intent
route_intent-single word i m mode = rw (mode, route_intent) refl

pub not_too_fast : (v : ℤ) → IsSpeed v → ltb_ℤ (pos 255) (abs_i32 v) ≡ false
unfolding abs_i32
not_too_fast (pos n) h = ground arith
not_too_fast (negsuc n) h = ground arith

module _ (I : BoundedQueue MovementIntent 8) (S : BoundedQueue (List ℤ) 2) where
  set_motor_speed-accepted :
      (left right : ℤ) (m : Motors) (q : I.Queue)
      → IsSpeed left
      → IsSpeed right
      → is_motor_enabled m ≡ true
      → length (I.contents q) < 8
      → ((set_motor_speed I left right m q).0 ≡ ok)
        × (I.contents (set_motor_speed I left right m q).1
            ≡ I.contents q ++ (record { left_speed = left; right_speed = right } ∷ []))
  unfolding set_motor_speed publish_intent
  set_motor_speed-accepted left right m q hl hr on room =
      let (sent, queued) =
        I.try_send_room (record { left_speed = left; right_speed = right }) q room in
      (
        rw
            (
              not_too_fast left hl,
              not_too_fast right hr,
              on,
              i32_as_i16-IsSpeed left hl,
              i32_as_i16-IsSpeed right hr,
              sent,
            )
            refl,
        rw
            (
              not_too_fast left hl,
              not_too_fast right hr,
              on,
              i32_as_i16-IsSpeed left hl,
              i32_as_i16-IsSpeed right hr,
              sent,
            )
            queued,
      )

  -- `n` turns of the router's loop, with no call of the guest in between.
  unfoldable pub turns : ℕ → ℕ → Brain I S → Brain I S
  turns zero now b = b
  turns (suc n) now b = turns n now (iteration I S now b)

  -- With an intent in the queue a turn takes the oldest and routes it.
  pub iteration-route_intent :
      (now : ℕ) (intent : MovementIntent) (rest : List MovementIntent) (b : Brain I S)
      → I.contents b.intents ≡ intent ∷ rest
      → (I.contents (iteration I S now b).intents ≡ rest)
        × ((iteration I S now b).motors ≡ route_intent b.routing_mode intent b.motors)
        × ((iteration I S now b).routing_mode ≡ b.routing_mode)
  unfolding iteration
  iteration-route_intent now intent rest b e =
      let (front, after) = I.try_receive_some intent rest b.intents e in
      (rw (front, iteration) after, rw (front, iteration) refl, rw (front, iteration) refl)

  abbrev Drained : MovementIntent → Brain I S → Type 0
  Drained last b =
      (I.contents b.intents ≡ [])
      × (load_motor_command b.motors ≡ (last.left_speed, last.right_speed))

  -- The queue is drained in its order, and its last intent is the command that stays.
  turns-drain :
      (now : ℕ) (earlier : List MovementIntent) (last : MovementIntent) (b : Brain I S)
      → I.contents b.intents ≡ earlier ++ (last ∷ [])
      → get_routing_mode b.routing_mode ≡ single_board
      → is_motor_enabled b.motors ≡ true
      → InI16 last.left_speed
      → InI16 last.right_speed
      → Drained last (turns (suc (length earlier)) now b)
  unfolding turns
  turns-drain now [] last b e mode on hl hr =
      let (taken, driven, kept) = iteration-route_intent now last [] b e in
      (
        taken,
        rw (driven, route_intent-single b.routing_mode last b.motors mode)
            (stored last b.motors on hl hr),
      )
  turns-drain now (first ∷ earlier) last b e mode on hl hr =
      let (taken, driven, kept) = iteration-route_intent now first (earlier ++ (last ∷ [])) b e in
      turns-drain now earlier last (iteration I S now b) taken (rw kept mode)
        (rw (driven, route_intent-single b.routing_mode first b.motors mode)
          (store-enabled first b.motors on))
        hl hr

  -- A call of the guest with speeds in range, while the motors are enabled, this board is driven and
  -- the queue has room, is answered with OK; when the router has then taken, with no other call in
  -- between, what was queued before and this intent, exactly these speeds are the command that Core 1
  -- loads, and the queue is empty.
  pub set_motor_speed-drives :
      (left right : ℤ) (now : ℕ) (b : Brain I S)
      → IsSpeed left
      → IsSpeed right
      → is_motor_enabled b.motors ≡ true
      → get_routing_mode b.routing_mode ≡ single_board
      → length (I.contents b.intents) < 8
      → ((set_motor_speed I left right b.motors b.intents).0 ≡ ok)
        × (load_motor_command
              (turns
                (suc (length (I.contents b.intents)))
                now
                (record b { intents = (set_motor_speed I left right b.motors b.intents).1 })).motors
            ≡ (left, right))
        × (I.contents
              (turns (suc (length (I.contents b.intents))) now (record b {
                intents = (set_motor_speed I left right b.motors b.intents).1;
              })).intents
            ≡ [])
  set_motor_speed-drives left right now b hl hr on mode room =
      let (code, queued) = set_motor_speed-accepted left right b.motors b.intents hl hr on room in
      let (empty, loaded) =
        turns-drain now (I.contents b.intents) (record { left_speed = left; right_speed = right })
          (record b { intents = (set_motor_speed I left right b.motors b.intents).1 }) queued mode
          on (omega (arith, hl)) (omega (arith, hr)) in
      (code, loaded, empty)
