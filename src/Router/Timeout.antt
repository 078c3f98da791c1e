-- ===== src/Router/Timeout.antt =====
-- firmware/src/router.rs, the dead-man's switch and the fallback inference; and the frame that the
-- distributed mode serialises.
use sand_os.Base.{ℕ, ◌≡◌, ◌⊎◌, refl, ap, inl, inr, arith, List, [], ◌∷◌, true, false, Bool-cases}
use sand_os.Base.Int.{ℤ, pos}
use sand_os.Channel.{BoundedQueue}
use sand_os.Motors.{Motors, store_motor_command, load_motor_command, is_motor_enabled}
use sand_os.Motors.Laws.{load-store}
use sand_os.Radio.{is_radio_link_alive}
use sand_os.Inference as Engine
use sand_os.Inference.Range.{load-store-run}
use sand_os.Bus.{MovementIntent}
use sand_os.Router.{Brain, iteration, on_timeout, run_fallback_inference}

module _ (I : BoundedQueue MovementIntent 8) (S : BoundedQueue (List ℤ) 2) where
  -- The motors that the switch leaves: stopped, or untouched because they are disabled.
  abbrev pub Stopped : Motors → Motors → Type 0
  Stopped before after =
      ((is_motor_enabled before ≡ true) × (load_motor_command after ≡ (pos 0, pos 0)))
      ⊎ ((is_motor_enabled before ≡ false) × (after ≡ before))

  store_zero-Stopped : (m : Motors) → Stopped m (store_motor_command (pos 0) (pos 0) m).1
  store_zero-Stopped m = elim (load-store (pos 0) (pos 0) m (omega arith) (omega arith)) [
    | inl (on, accepted, loaded, still) ↦ inl (on, loaded)
    | inr (off, refused) ↦ inr (off, ap (λ p. p.1) refused)
  ]

  -- The inference that the switch leaves, in a link that is silent: the result of the oldest
  -- snapshot, which is taken, or the old one where there is none.
  abbrev pub FellBack : Brain I S → Brain I S → Type 0
  FellBack before after =
      ((tensor : List ℤ) × (rest : List (List ℤ)) × (S.contents before.snapshots ≡ tensor ∷ rest)
        × (Engine.load_inference_result after.inference ≡ Engine.run tensor)
        × (S.contents after.snapshots ≡ rest))
      ⊎ ((S.contents before.snapshots ≡ [])
          × (after.inference ≡ before.inference)
          × (S.contents after.snapshots ≡ []))

  run_fallback_inference-FellBack :
      (b : Brain I S) (held : List (List ℤ))
      → S.contents b.snapshots ≡ held
      → FellBack b (run_fallback_inference I S b)
  unfolding run_fallback_inference
  run_fallback_inference-FellBack b [] e =
      let empty = S.try_receive_none b.snapshots e in
      inr (
        e,
        rw (ap (λ p. p.0) empty, run_fallback_inference) refl,
        rw (ap (λ p. p.0) empty, ap (λ p. p.1) empty, run_fallback_inference) e,
      )
  run_fallback_inference-FellBack b (tensor ∷ rest) e =
      let (front, after) = S.try_receive_some tensor rest b.snapshots e in
      inl (
        tensor,
        rest,
        e,
        rw (front, run_fallback_inference) (load-store-run tensor b.inference).0,
        rw (front, run_fallback_inference) after,
      )

  pub run_fallback_inference-keeps :
      (b : Brain I S)
      → ((run_fallback_inference I S b).motors ≡ b.motors)
        × ((run_fallback_inference I S b).intents ≡ b.intents)
  unfolding run_fallback_inference
  run_fallback_inference-keeps b = ground arith

  -- The brain after the motors are stopped.
  abbrev quiet : Brain I S → Brain I S
  quiet b = record b { motors = (store_motor_command (pos 0) (pos 0) b.motors).1 }

  on_timeout_cases :
      (now : ℕ) (b : Brain I S)
      → ((is_radio_link_alive b.last_rx_ms now ≡ true) × (on_timeout I S now b ≡ quiet b))
        ⊎ ((is_radio_link_alive b.last_rx_ms now ≡ false)
            × (on_timeout I S now b ≡ run_fallback_inference I S (quiet b)))
  unfolding on_timeout
  on_timeout_cases now b = elim (Bool-cases (is_radio_link_alive b.last_rx_ms now)) [
    | inl alive ↦ inl (alive, rw (alive, on_timeout) refl)
    | inr silent ↦ inr (silent, rw (silent, on_timeout) refl)
  ]

  -- The timeout stores the zero command and leaves the queue alone.
  pub on_timeout-motors :
      (now : ℕ) (b : Brain I S)
      → ((on_timeout I S now b).motors ≡ (store_motor_command (pos 0) (pos 0) b.motors).1)
        × ((on_timeout I S now b).intents ≡ b.intents)
  on_timeout-motors now b = elim (on_timeout_cases now b) [
    | inl (alive, left) ↦ (rw left refl, rw left refl)
    | inr (silent, left) ↦ (
      rw left (run_fallback_inference-keeps (quiet b)).0,
      rw left (run_fallback_inference-keeps (quiet b)).1,
    )
  ]

  -- With an empty queue a turn ends by the timeout.
  pub iteration-on_timeout :
      (now : ℕ) (b : Brain I S)
      → I.contents b.intents ≡ []
      → iteration I S now b ≡ on_timeout I S now b
  unfolding iteration
  iteration-on_timeout now b e =
      let empty = I.try_receive_none b.intents e in
      rw (ap (λ p. p.0) empty, ap (λ p. p.1) empty, iteration) refl

  -- A turn without an intent leaves the motors stopped, unless they are disabled, whatever command
  -- was in force; and it runs the inference on the oldest snapshot exactly when the radio link is
  -- silent, and then the result is what the guest can load.
  pub iteration-timeout :
      (now : ℕ) (b : Brain I S)
      → I.contents b.intents ≡ []
      → Stopped b.motors (iteration I S now b).motors
        × (((is_radio_link_alive b.last_rx_ms now ≡ true)
              × ((iteration I S now b).inference ≡ b.inference)
              × ((iteration I S now b).snapshots ≡ b.snapshots))
            ⊎ ((is_radio_link_alive b.last_rx_ms now ≡ false) × FellBack b (iteration I S now b)))
  iteration-timeout now b e = elim (on_timeout_cases now b) [
    | inl (alive, left) ↦
        rw (iteration-on_timeout now b e, left)
          (store_zero-Stopped b.motors, inl (alive, refl, refl))
    | inr (silent, left) ↦
        rw (iteration-on_timeout now b e, left, (run_fallback_inference-keeps (quiet b)).0)
          (
            store_zero-Stopped b.motors,
            inr (silent, run_fallback_inference-FellBack (quiet b) (S.contents b.snapshots) refl),
          )
  ]
