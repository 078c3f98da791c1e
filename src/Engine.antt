-- ===== src/Engine.antt =====
-- firmware/src/core0/wasm_vm.rs, `wasm_run_task` and `build_vm`: the task that runs the guest, over the
-- interpreter of the crate wasmi.
pub mod Runs
pub mod Steps
use sand_os.Base.{
  ◌≡◌, ◌⊎◌, refl, inl, inr, ℕ, List, [], ◌∷◌, Option, none, some, Bool, true, false, if◌then◌else◌,
}
use sand_os.Base.Int.{ℤ, pos}

-- What the task uses of wasmi. The start function of a module and the exported function call the host,
-- also when they then trap; a call that traps leaves an instance that can be called again. A call that
-- never returns, which nothing in wasmi prevents, is none.
pub record Interpreter (H : Type 0) : Type 1 where
  pub Module : Type 0
  pub Instance : Type 0
  -- `Module::new(&engine, binary).ok()`
  pub compile : List ℕ → Option Module
  -- `linker.instantiate(…).and_then(|pre| pre.start(…)).ok()`
  pub instantiate : Module → H → Option Instance × H
  -- `get_typed_func::<i32, i32>(…, "run_command").is_ok()`
  pub has_run_command : Instance → Bool
  -- `run_command.call(&mut store, id)`
  pub run_command : ℤ → Instance → H → Option (Option ℤ × (Instance × H))

-- One pass of the loop: what `OTA_SWAP_SIGNAL.try_take()` finds, and the command that comes next.
pub record Turn : Type 0 where
  pub signal : Option ℕ
  pub cmd_id : ℕ

module _ {H : Type 0} (W : Interpreter H) where
  -- The instance when it exports the function.
  unfoldable pub exported : Option W.Instance → Option W.Instance
  exported none = none
  exported (some i) = if W.has_run_command i then some i else none

  unfoldable pub build_vm : List ℕ → H → Option W.Instance × H
  unfolding exported
  build_vm binary h = elim (W.compile binary) [
    | none ↦ (none, h)
    | some m ↦ let (made, h') = W.instantiate m h in (exported made, h')
  ]

  -- The instance that runs, and the host.
  pub record Task : Type 0 where
    pub instance : W.Instance
    pub host : H

  -- A task after some passes: at the top of its loop, returned, or in a call that never returns.
  pub data Outcome : Type 0 where
    running : Task → Outcome
    returned blocked : Outcome

  pub Outcome-cases :
      (x : Outcome) → ((t : Task) × (x ≡ running t)) ⊎ (x ≡ returned) ⊎ (x ≡ blocked)
  Outcome-cases (running t) = inl (t, refl)
  Outcome-cases returned = inr (inl refl)
  Outcome-cases blocked = inr (inr refl)

  -- A task that goes on, or one that has returned.
  abbrev pub started : Option W.Instance × H → Option Task
  started (none, h) = none
  started (some i, h) = some (record { instance = i; host = h })

  module _ (guest_wasm : List ℕ) where
    unfoldable pub start : H → Option Task
    start h = started (build_vm guest_wasm h)

    -- The second attempt, with the static binary, when the first fails.
    abbrev pub or_fallback : Option W.Instance × H → Option Task
    or_fallback (some i, h) = some (record { instance = i; host = h })
    or_fallback (none, h) = started (build_vm guest_wasm h)

    -- `let binary = GUEST_WASM`: the swap builds the static binary.
    unfoldable pub hot_swap : Option ℕ → Task → Option Task
    hot_swap none t = some t
    hot_swap (some binary_len) t = or_fallback (build_vm guest_wasm t.host)

    -- The result of the call is dropped; a call that never returns blocks the task.
    unfoldable pub run_guest : ℕ → Task → Outcome
    run_guest cmd_id t = elim (W.run_command (pos cmd_id) t.instance t.host) [
      | none ↦ blocked
      | some (result, (i, h)) ↦ running (record { instance = i; host = h })
    ]

    -- After the swap, the guest.
    abbrev pub then_guest : ℕ → Option Task → Outcome
    then_guest cmd_id none = returned
    then_guest cmd_id (some t) = run_guest cmd_id t

    unfoldable pub turn : Turn → Task → Outcome
    turn c t = then_guest c.cmd_id (hot_swap c.signal t)

    -- The loop over a sequence of passes.
    unfoldable pub turns : List Turn → Task → Outcome
    turns [] t = running t
    turns (c ∷ cs) t = elim (turn c t) [
      | running t' ↦ turns cs t'
      | returned ↦ returned
      | blocked ↦ blocked
    ]

    -- The task from its start.
    unfoldable pub wasm_run_task : List Turn → H → Outcome
    wasm_run_task cs h = elim (start h) [ none ↦ returned | some t ↦ turns cs t ]
