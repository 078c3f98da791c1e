-- ===== src/Engine/Steps.antt =====
-- firmware/src/core0/wasm_vm.rs: the runs of the task as a relation, told by the calls of the interpreter.
use sand_os.Base.{
  ℕ, ◌≡◌, ◌⊎◌, refl, ap, ◌∙◌, inl, inr, List, [], ◌∷◌, Option, none, some, Option-cases,
}
use sand_os.Base.Int.{ℤ, pos}
use sand_os.Engine.{
  Interpreter, Turn, Task, Outcome, running, returned, blocked, build_vm, started, start, hot_swap,
  run_guest, turn, turns, or_fallback, wasm_run_task,
}

module _ {H : Type 0} (W : Interpreter H) (guest_wasm : List ℕ) where
  -- The polling of the swap signal leaves the task as it is, or rebuilds it from the static binary, at
  -- the first attempt or at the second.
  pub data Ready (t : Task W) : Option ℕ → Task W → Type 0 where
    unsignalled : Ready t none t
    rebuilt :
        (n : ℕ) (i : W.Instance) (h : H)
        → build_vm W guest_wasm t.host ≡ (some i, h)
        → Ready t (some n) (record { instance = i; host = h })
    retried :
        (n : ℕ) (i : W.Instance) (h h' : H)
        → build_vm W guest_wasm t.host ≡ (none, h)
        → build_vm W guest_wasm h ≡ (some i, h')
        → Ready t (some n) (record { instance = i; host = h' })

  -- The static binary cannot be built twice in a row.
  abbrev pub Broken : H → Type 0
  Broken h =
      ((build_vm W guest_wasm h).0 ≡ none)
      × ((build_vm W guest_wasm (build_vm W guest_wasm h).1).0 ≡ none)

  -- The guest is called with the command and leaves its instance and its host, whatever it answers.
  pub data Called (t : Task W) (cmd_id : ℕ) : Task W → Type 0 where
    call :
        (result : Option ℤ) (i : W.Instance) (h : H)
        → W.run_command (pos cmd_id) t.instance t.host ≡ some (result, (i, h))
        → Called t cmd_id (record { instance = i; host = h })

  -- The passes of a task and how it stands after them.
  pub data Run : Task W → List Turn → Outcome W → Type 0 where
    ended : (t : Task W) → Run t [] (running t)
    served :
        (c : Turn) (cs : List Turn) (o : Outcome W) (t t' t'' : Task W)
        → Ready t c.signal t'
        → Called t' c.cmd_id t''
        → Run t'' cs o
        → Run t (c ∷ cs) o
    stuck :
        (c : Turn) (cs : List Turn) (t t' : Task W)
        → Ready t c.signal t'
        → W.run_command (pos c.cmd_id) t'.instance t'.host ≡ none
        → Run t (c ∷ cs) blocked
    halted :
        (c : Turn) (cs : List Turn) (n : ℕ) (t : Task W)
        → c.signal ≡ some n
        → Broken t.host
        → Run t (c ∷ cs) returned

  -- The whole task: it starts from the static binary, or returns at once.
  abbrev pub RunFrom : H → List Turn → Outcome W → Type 0
  RunFrom h cs o =
      ((t : Task W) × (build_vm W guest_wasm h ≡ (some t.instance, t.host)) × Run t cs o)
      ⊎ (((build_vm W guest_wasm h).0 ≡ none) × (o ≡ returned))

  -- What the polling of the signal comes to.
  abbrev Polled : Task W → Option ℕ → Option (Task W) → Type 0
  Polled t signal x =
      ((t' : Task W) × (x ≡ some t') × Ready t signal t')
      ⊎ ((x ≡ none) × ((n : ℕ) × (signal ≡ some n)) × Broken t.host)

  Build-cases :
      (h : H)
      → ((i : W.Instance) × (h' : H) × (build_vm W guest_wasm h ≡ (some i, h')))
        ⊎ ((h' : H) × (build_vm W guest_wasm h ≡ (none, h')))
  Build-cases h = named (build_vm W guest_wasm h) refl
    where
      named :
          (x : Option W.Instance × H)
          → build_vm W guest_wasm h ≡ x
          → ((i : W.Instance) × (h' : H) × (build_vm W guest_wasm h ≡ (some i, h')))
            ⊎ ((h' : H) × (build_vm W guest_wasm h ≡ (none, h')))
      named (some i, h') e = inl (i, h', e)
      named (none, h') e = inr (h', e)

  pub hot_swap-Polled :
      (signal : Option ℕ) (t : Task W) → Polled t signal (hot_swap W guest_wasm signal t)
  unfolding hot_swap
  hot_swap-Polled none t = inl (t, refl, unsignalled)
  hot_swap-Polled (some n) t = elim (Build-cases t.host) [
    | inl (i, h, e) ↦
        inl (record { instance = i; host = h }, ap (or_fallback W guest_wasm) e, rebuilt n i h e)
    | inr (h, e) ↦ elim (Build-cases h) [
      | inl (i, h', e') ↦ inl (
        record { instance = i; host = h' },
        ap (or_fallback W guest_wasm) e ∙ ap (started W) e',
        retried n i h h' e e',
      )
      | inr (h', e') ↦ inr (
        ap (or_fallback W guest_wasm) e ∙ ap (started W) e',
        (n, refl),
        (ap (λ x. x.0) e, ap (λ x. (build_vm W guest_wasm x.1).0) e ∙ ap (λ x. x.0) e'),
      )
    ]
  ]

  -- A call of the guest returns or blocks the task.
  pub run_guest_cases :
      (cmd_id : ℕ) (t : Task W)
      → ((t' : Task W) × (run_guest W guest_wasm cmd_id t ≡ running t') × Called t cmd_id t')
        ⊎ ((run_guest W guest_wasm cmd_id t ≡ blocked)
            × (W.run_command (pos cmd_id) t.instance t.host ≡ none))
  unfolding run_guest
  run_guest_cases cmd_id t = elim (Option-cases (W.run_command (pos cmd_id) t.instance t.host)) [
    | inl e ↦ inr (rw (e, run_guest) refl, e)
    | inr ((result, (i, h)), e) ↦
        inl (record { instance = i; host = h }, rw (e, run_guest) refl, call result i h e)
  ]

  turns-Run : (cs : List Turn) (t : Task W) → Run t cs (turns W guest_wasm cs t)
  unfolding turns turn
  turns-Run [] t = ended t
  turns-Run (c ∷ cs) t = elim (hot_swap-Polled c.signal t) [
    | inl (t', e, ready) ↦ elim (run_guest_cases c.cmd_id t') [
      | inl (t'', e', called) ↦
          rw (e, e', turns, turn)
            (served c cs (turns W guest_wasm cs t'') t t' t'' ready called (turns-Run cs t''))
      | inr (e', never) ↦ rw (e, e', turns, turn) (stuck c cs t t' ready never)
    ]
    | inr (e, (n, signalled), broken) ↦ rw (e, turns, turn) (halted c cs n t signalled broken)
  ]

  -- Whatever the interpreter does, the task builds the static binary first, and returns at once only
  -- where that fails. Then each pass polls the signal, rebuilds the guest if a swap was signalled, and
  -- calls it with the command of the pass, on the instance and the host that the pass before has left,
  -- whether that call trapped or not. The task returns only at a signalled swap at which the static
  -- binary cannot be built twice in a row, and goes no further only from a call that never returns.
  pub wasm_run_task-Run : (cs : List Turn) (h : H) → RunFrom h cs (wasm_run_task W guest_wasm cs h)
  unfolding wasm_run_task start
  wasm_run_task-Run cs h = elim (Build-cases h) [
    | inl (i, h', e) ↦
        let t : Task W = record { instance = i; host = h' } in
        inl (t, e, rw (ap (started W) e, wasm_run_task) (turns-Run cs t))
    | inr (h', e) ↦ inr (ap (λ x. x.0) e, rw (ap (started W) e, wasm_run_task) refl)
  ]
