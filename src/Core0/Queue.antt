-- ===== src/Core0/Queue.antt =====
-- firmware/src/core0/mod.rs: the commands between the radio task and the Wasm task, in every
-- interleaving.
use sand_os.Base.{
  ℕ, ◌≡◌, refl, sym, ap, ◌∙◌, inl, inr, arith, List, [], ◌∷◌, ◌++◌, length, ltb, Bool-cases,
}
use mathlib.Core.List.{append-nil, append_assoc}
use sand_os.Channel.{BoundedQueue}
use sand_os.Radio.{WasmCommand, Effect, swap_signal, enqueue, handle_frame}
use sand_os.Engine.{Interpreter}
use sand_os.Core0.{
  Event, frame, resume, Happening, queued, dropped, ran, Phase, polling, waiting, returned, stuck,
  Core0, apply, apply_all, take_command, engine_step, step, run,
}

-- The commands that were queued, and those that the guest was run with.
abbrev pub queued_of : List Happening → List WasmCommand
queued_of [] = []
queued_of (queued c ∷ hs) = c ∷ queued_of hs
queued_of (dropped c ∷ hs) = queued_of hs
queued_of (ran c ∷ hs) = queued_of hs

abbrev pub ran_of : List Happening → List WasmCommand
ran_of [] = []
ran_of (queued c ∷ hs) = ran_of hs
ran_of (dropped c ∷ hs) = ran_of hs
ran_of (ran c ∷ hs) = c ∷ ran_of hs

queued_of-append : (xs ys : List Happening) → queued_of (xs ++ ys) ≡ queued_of xs ++ queued_of ys
queued_of-append [] ys = refl
queued_of-append (queued c ∷ xs) ys = ap (λ t. c ∷ t) (queued_of-append xs ys)
queued_of-append (dropped c ∷ xs) ys = queued_of-append xs ys
queued_of-append (ran c ∷ xs) ys = queued_of-append xs ys

ran_of-append : (xs ys : List Happening) → ran_of (xs ++ ys) ≡ ran_of xs ++ ran_of ys
ran_of-append [] ys = refl
ran_of-append (queued c ∷ xs) ys = ran_of-append xs ys
ran_of-append (dropped c ∷ xs) ys = ran_of-append xs ys
ran_of-append (ran c ∷ xs) ys = ap (λ t. c ∷ t) (ran_of-append xs ys)

module _ {H : Type 0} (C : BoundedQueue WasmCommand 8) (W : Interpreter H) where
  -- Between two states: what waited and what was queued is what was run and what waits, in order.
  abbrev pub Flows : Core0 C W → Core0 C W × List Happening → Type 0
  Flows s (s', hs) = C.contents s.commands ++ queued_of hs ≡ ran_of hs ++ C.contents s'.commands

  Flows-seq :
      (s : Core0 C W) (x y : Core0 C W × List Happening)
      → Flows s x
      → Flows x.0 y
      → Flows s (y.0, x.1 ++ y.1)
  Flows-seq s x y p q =
      ap (λ t. C.contents s.commands ++ t) (queued_of-append x.1 y.1)
      ∙ sym (append_assoc (C.contents s.commands) (queued_of x.1) (queued_of y.1))
      ∙ ap (λ t. t ++ queued_of y.1) p
      ∙ append_assoc (ran_of x.1) (C.contents x.0.commands) (queued_of y.1)
      ∙ ap (λ t. ran_of x.1 ++ t) q
      ∙ sym (append_assoc (ran_of x.1) (ran_of y.1) (C.contents y.0.commands))
      ∙ ap (λ t. t ++ C.contents y.0.commands) (sym (ran_of-append x.1 y.1))

  apply-Flows : (e : Effect) (s : Core0 C W) → Flows s (apply C W e s)
  unfolding apply
  apply-Flows (swap_signal n) s = append-nil (C.contents s.commands)
  apply-Flows (enqueue c) s = elim (Bool-cases (ltb (length (C.contents s.commands)) 8)) [
    | inl room ↦
        let (taken, grown) = C.try_send_room c s.commands (ground arith) in rw (taken) (sym grown)
    | inr full ↦
        let same = C.try_send_full c s.commands (ground arith) in
        rw (ap (λ x. x.0) same, ap (λ x. x.1) same) (append-nil (C.contents s.commands))
  ]

  apply_all-Flows : (es : List Effect) (s : Core0 C W) → Flows s (apply_all C W es s)
  unfolding apply_all
  apply_all-Flows [] s = append-nil (C.contents s.commands)
  apply_all-Flows (e ∷ es) s =
      Flows-seq s (apply C W e s) (apply_all C W es (apply C W e s).0) (apply-Flows e s)
        (apply_all-Flows es (apply C W e s).0)

  module _ (guest_wasm : List ℕ) where
    engine_step-Flows : (p : Phase C W) (s : Core0 C W) → Flows s (engine_step C W guest_wasm p s)
    unfolding engine_step
    engine_step-Flows (polling t) s = append-nil (C.contents s.commands)
    engine_step-Flows returned s = append-nil (C.contents s.commands)
    engine_step-Flows stuck s = append-nil (C.contents s.commands)
    engine_step-Flows (waiting t) s = taking (C.contents s.commands) refl
      where
        taking :
            (l : List WasmCommand)
            → C.contents s.commands ≡ l
            → Flows s (
                let (next, commands) = C.try_receive s.commands in
                take_command C W guest_wasm next commands t s)
        taking [] e =
            rw (ap (λ x. x.0) (C.try_receive_none s.commands e))
              (append-nil (C.contents s.commands))
        taking (c ∷ l) e =
            let (first, rest) = C.try_receive_some c l s.commands e in
            rw (first, rest, e) (append-nil (c ∷ l))

    step-Flows : (e : Event) (s : Core0 C W) → Flows s (step C W guest_wasm e s)
    unfolding step
    step-Flows (frame bytes now) s =
        apply_all-Flows (handle_frame bytes now s.link).1
          (record s { link = (handle_frame bytes now s.link).0 })
    step-Flows resume s = engine_step-Flows s.engine s

    -- In every interleaving of received frames and steps of the Wasm task, the commands that waited
    -- and then those that were queued are, in this order, those that the guest was run with and then
    -- those that wait: no command is lost, repeated or overtaken once it is queued.
    pub run-Flows : (es : List Event) (s : Core0 C W) → Flows s (run C W guest_wasm es s)
    unfolding run
    run-Flows [] s = append-nil (C.contents s.commands)
    run-Flows (e ∷ es) s =
        Flows-seq s (step C W guest_wasm e s) (run C W guest_wasm es (step C W guest_wasm e s).0)
          (step-Flows e s) (run-Flows es (step C W guest_wasm e s).0)
