-- ===== src/Core0/Rest.antt =====
-- firmware/src/core0/mod.rs: without new frames the Wasm task runs what is queued and comes to rest.
use sand_os.Base.{
  ℕ, zero, suc, ◌+◌, ◌*◌, ◌≤◌, ◌≡◌, refl, sym, inl, inr, arith, List, [], ◌∷◌, ◌++◌, Option, none,
  some, length, replicate,
}
use sand_os.Base.Int.{pos}
use mathlib.Core.Path.{subst}
use sand_os.Channel.{BoundedQueue}
use sand_os.Radio.{WasmCommand, Link}
use sand_os.Engine.{Interpreter, Task}
use sand_os.Engine.Steps.{Ready, Called, Broken, hot_swap-Polled, run_guest_cases}
use sand_os.Core0.{
  resume, Happening, ran, Phase, polling, waiting, returned, stuck, swapped, called, Core0,
  engine_step, take_command, step, run,
}
use sand_os.Core0.Queue.{ran_of}

module _ {H : Type 0} (C : BoundedQueue WasmCommand 8) (W : Interpreter H) where
  abbrev pub GoesOn : Phase C W → Type 0
  GoesOn (polling t) = Unit
  GoesOn (waiting t) = Unit
  GoesOn _ = ⊥

  -- The steps that a phase takes before the first command.
  abbrev cost : Phase C W → ℕ
  cost (polling t) = 1
  cost _ = 0

module _ {H : Type 0} (C : BoundedQueue WasmCommand 8) (W : Interpreter H)
    (guest_wasm : List ℕ) where
  -- From a phase, with a signal and the commands that wait, to the phase in which the task stays, with
  -- the commands that the guest was called with and those that still wait. It stays waiting for a
  -- command where none waits; returned, where a signalled swap fails; or in a call that never returns.
  pub data Settles
      : Phase C W
        → Option ℕ
        → List WasmCommand
        → Phase C W
        → List WasmCommand
        → List WasmCommand
        → Type 0 where
    rested : (t : Task W) (signal : Option ℕ) → Settles (waiting t) signal [] (waiting t) [] []
    polled :
        (t t' : Task W) (signal : Option ℕ) (l r q : List WasmCommand) (p : Phase C W)
        → Ready W guest_wasm t signal t'
        → Settles (waiting t') none l p r q
        → Settles (polling t) signal l p r q
    halted :
        (t : Task W) (n : ℕ) (l : List WasmCommand)
        → Broken W guest_wasm t.host
        → Settles (polling t) (some n) l returned [] l
    served :
        (t t' : Task W) (signal : Option ℕ) (c : WasmCommand) (l r q : List WasmCommand)
        (p : Phase C W)
        → Called W guest_wasm t c.cmd_id t'
        → Settles (polling t') signal l p r q
        → Settles (waiting t) signal (c ∷ l) p (c ∷ r) q
    endless :
        (t : Task W) (signal : Option ℕ) (c : WasmCommand) (l : List WasmCommand)
        → W.run_command (pos c.cmd_id) t.instance t.host ≡ none
        → Settles (waiting t) signal (c ∷ l) stuck (c ∷ []) l

  abbrev Settled : Phase C W → Option ℕ → List WasmCommand → Core0 C W × List Happening → Type 0
  Settled p signal l (s, hs) = Settles p signal l s.engine (ran_of hs) (C.contents s.commands)

  abbrev state : Phase C W → Link → C.Queue → Option ℕ → Core0 C W
  state p link q signal = record { link = link; commands = q; swap = signal; engine = p }

  -- What follows a step.
  abbrev after : Core0 C W × List Happening → ℕ → Core0 C W × List Happening
  after (s, first) k =
      let (end, later) = run C W guest_wasm (replicate k resume) s in (end, first ++ later)

  -- A task that has returned, or is in a call that never returns, stays so.
  stays :
      (k : ℕ) (p : Phase C W) (link : Link) (q : C.Queue) (signal : Option ℕ)
      → (GoesOn C W p → ⊥)
      → run C W guest_wasm (replicate k resume) (state p link q signal)
        ≡ (state p link q signal, [])
  unfolding run step engine_step
  stays zero p link q signal over = refl
  stays (suc k) (polling t) link q signal over = absurd (over tt)
  stays (suc k) (waiting t) link q signal over = absurd (over tt)
  stays (suc k) returned link q signal over = stays k returned link q signal over
  stays (suc k) stuck link q signal over = stays k stuck link q signal over

  stays-Settled :
      (k : ℕ) (from : Phase C W) (before : Option ℕ) (l : List WasmCommand) (p : Phase C W)
      (link : Link) (q : C.Queue) (signal : Option ℕ) (first : List Happening)
      → (GoesOn C W p → ⊥)
      → Settles from before l p (ran_of (first ++ [])) (C.contents q)
      → Settled from before l (after (state p link q signal, first) k)
  stays-Settled k from before l p link q signal first over s =
      subst (λ x. Settled from before l (x.0, first ++ x.1)) (sym (stays k p link q signal over)) s

  settles :
      (k : ℕ) (p : Phase C W) (link : Link) (q : C.Queue) (signal : Option ℕ) (l : List WasmCommand)
      → GoesOn C W p
      → C.contents q ≡ l
      → cost C W p + 2 * length l ≤ k
      → Settled p signal l (run C W guest_wasm (replicate k resume) (state p link q signal))
  unfolding run step engine_step
  settles k returned link q signal l live e enough = absurd live
  settles k stuck link q signal l live e enough = absurd live
  settles zero (polling t) link q signal l live e enough = absurd (omega arith)
  settles (suc k) (polling t) link q signal l live e enough =
      elim (hot_swap-Polled W guest_wasm signal t) [
        | inl (t', went, ready) ↦
            subst
              (λ x. Settled (polling t) signal l (after (state (swapped C W x) link q none, []) k))
              (sym went)
              (polled t t' signal l _ _ _ ready
                (settles k (waiting t') link q none l tt e (omega arith)))
        | inr (failed, (n, signalled), broken) ↦
            subst
              (λ x. Settled (polling t) signal l (after (state (swapped C W x) link q none, []) k))
              (sym failed)
              (stays-Settled k (polling t) signal l returned link q none [] (λ x. x)
                (rw (signalled, e) (halted t n l broken)))
      ]
  settles zero (waiting t) link q signal [] live e enough = rw e (rested t signal)
  settles zero (waiting t) link q signal (c ∷ l) live e enough = absurd (omega arith)
  settles (suc k) (waiting t) link q signal [] live e enough =
      subst
        (λ x.
          Settled (waiting t) signal []
            (after (take_command C W guest_wasm x.0 x.1 t (state (waiting t) link q signal)) k))
        (sym (C.try_receive_none q e)) (settles k (waiting t) link q signal [] tt e (omega arith))
  settles (suc k) (waiting t) link q signal (c ∷ l) live e enough =
      let (first, rest) = C.try_receive_some c l q e in
      subst
        (λ x. Settled (waiting t) signal (c ∷ l) (
          after
            (take_command C W guest_wasm x (C.try_receive q).1 t (state (waiting t) link q signal))
            k))
        (sym first)
        (elim (run_guest_cases W guest_wasm c.cmd_id t) [
          | inl (t', went, did) ↦
              subst
                (λ o.
                  Settled (waiting t) signal (c ∷ l)
                    (after (state (called C W o) link (C.try_receive q).1 signal, ran c ∷ []) k))
                (sym went)
                (served t t' signal c l _ _ _ did
                  (settles k (polling t') link (C.try_receive q).1 signal l tt rest (omega arith)))
          | inr (went, never) ↦
              subst
                (λ o.
                  Settled (waiting t) signal (c ∷ l)
                    (after (state (called C W o) link (C.try_receive q).1 signal, ran c ∷ []) k))
                (sym went)
                (stays-Settled k (waiting t) signal (c ∷ l) stuck link (C.try_receive q).1 signal
                  (ran c ∷ []) (λ x. x) (rw rest (endless t signal c l never)))
        ])

  -- When no more frames arrive, a Wasm task at the top of its loop or waiting comes to rest after at
  -- most one step more than two for each command that waits. Until then it has polled the swap signal
  -- before each command but the first if it was waiting, rebuilt the guest if a swap was signalled, and
  -- called the guest with the commands that waited, in order, each on the instance and the host that
  -- the call before has left. It rests waiting, with an empty queue; or has returned at a signalled
  -- swap, because the static binary could not be built twice in a row; or is in a call of the guest
  -- that never returns; and then the commands behind still wait.
  pub run-Settles :
      (k : ℕ) (s : Core0 C W)
      → GoesOn C W s.engine
      → 1 + 2 * length (C.contents s.commands) ≤ k
      → let (s', hs) = run C W guest_wasm (replicate k resume) s in
        Settles s.engine s.swap
          (C.contents s.commands)
          s'.engine
          (ran_of hs)
          (C.contents s'.commands)
  run-Settles k s live enough =
      settles k s.engine s.link s.commands s.swap (C.contents s.commands) live refl
        (omega (arith, cost-le s.engine))
    where
      cost-le : (p : Phase C W) → cost C W p ≤ 1
      cost-le (polling t) = omega arith
      cost-le (waiting t) = omega arith
      cost-le returned = omega arith
      cost-le stuck = omega arith
