-- ===== src/Engine/Runs.antt =====
-- firmware/src/core0/wasm_vm.rs: which binary runs.
use sand_os.Base.{ℕ, ◌≡◌, refl, ap, inl, inr, List, [], ◌∷◌, Option, none, some, Option-cases}
use sand_os.Base.Int.{ℤ, pos}
use sand_os.Engine.{
  Interpreter, Turn, Task, Outcome, running, returned, blocked, build_vm, started, start, hot_swap,
  Outcome-cases, run_guest, then_guest, turn, turns, or_fallback, wasm_run_task,
}

module _ {H : Type 0} (W : Interpreter H) (guest_wasm : List ℕ) where
  -- An instance of the static binary, however often it has been called.
  pub data IsGuest : W.Instance → Type 0 where
    built : (h : H) (i : W.Instance) → (build_vm W guest_wasm h).0 ≡ some i → IsGuest i
    called :
        (cmd_id : ℕ) (h h' : H) (i i' : W.Instance) (result : Option ℤ)
        → IsGuest i
        → W.run_command (pos cmd_id) i h ≡ some (result, (i', h'))
        → IsGuest i'

  abbrev HoldsGuest : Option (Task W) → Type 0
  HoldsGuest none = Unit
  HoldsGuest (some t) = IsGuest t.instance

  -- A task runs such an instance, or runs nothing more: it has returned or is in a call of such an
  -- instance that never returns.
  abbrev pub RunsGuest : Outcome W → Type 0
  RunsGuest (running t) = IsGuest t.instance
  RunsGuest returned = Unit
  RunsGuest blocked = Unit

  started-HoldsGuest :
      (h : H) (x : Option W.Instance × H) → build_vm W guest_wasm h ≡ x → HoldsGuest (started W x)
  started-HoldsGuest h (none, h') e = tt
  started-HoldsGuest h (some i, h') e = built h i (ap (λ x. x.0) e)

  or_fallback-HoldsGuest :
      (h : H) (x : Option W.Instance × H)
      → build_vm W guest_wasm h ≡ x
      → HoldsGuest (or_fallback W guest_wasm x)
  or_fallback-HoldsGuest h (none, h') e = started-HoldsGuest h' (build_vm W guest_wasm h') refl
  or_fallback-HoldsGuest h (some i, h') e = built h i (ap (λ x. x.0) e)

  hot_swap-HoldsGuest :
      (signal : Option ℕ) (t : Task W)
      → IsGuest t.instance
      → HoldsGuest (hot_swap W guest_wasm signal t)
  unfolding hot_swap
  hot_swap-HoldsGuest none t g = g
  hot_swap-HoldsGuest (some n) t g =
      or_fallback-HoldsGuest t.host (build_vm W guest_wasm t.host) refl

  run_guest-RunsGuest :
      (cmd_id : ℕ) (t : Task W) → IsGuest t.instance → RunsGuest (run_guest W guest_wasm cmd_id t)
  unfolding run_guest
  run_guest-RunsGuest cmd_id t g =
      elim (Option-cases (W.run_command (pos cmd_id) t.instance t.host)) [
        | inl e ↦ rw (e, run_guest) tt
        | inr ((result, (i, h)), e) ↦
            rw (e, run_guest) (called cmd_id t.host h t.instance i result g e)
      ]

  then_guest-RunsGuest :
      (cmd_id : ℕ) (x : Option (Task W))
      → HoldsGuest x
      → RunsGuest (then_guest W guest_wasm cmd_id x)
  then_guest-RunsGuest cmd_id none g = tt
  then_guest-RunsGuest cmd_id (some t) g = run_guest-RunsGuest cmd_id t g

  turn-RunsGuest : (c : Turn) (t : Task W) → IsGuest t.instance → RunsGuest (turn W guest_wasm c t)
  unfolding turn
  turn-RunsGuest c t g =
      then_guest-RunsGuest c.cmd_id (hot_swap W guest_wasm c.signal t)
        (hot_swap-HoldsGuest c.signal t g)

  turns-RunsGuest :
      (cs : List Turn) (t : Task W) → IsGuest t.instance → RunsGuest (turns W guest_wasm cs t)
  unfolding turns
  turns-RunsGuest [] t g = g
  turns-RunsGuest (c ∷ cs) t g = elim (Outcome-cases W (turn W guest_wasm c t)) [
    | inl (t', e) ↦
        let next : RunsGuest (turn W guest_wasm c t) = turn-RunsGuest c t g in
        rw (e, turns) (turns-RunsGuest cs t' (rw e at next))
    | inr (inl e) ↦ rw (e, turns) tt
    | inr (inr e) ↦ rw (e, turns) tt
  ]

  -- Whatever commands come and however often a verified binary is signalled, the task only ever runs
  -- instances built from the static binary: no binary that the radio has received is ever run.
  pub wasm_run_task-RunsGuest :
      (cs : List Turn) (h : H) → RunsGuest (wasm_run_task W guest_wasm cs h)
  unfolding wasm_run_task start
  wasm_run_task-RunsGuest cs h = elim (Option-cases (start W guest_wasm h)) [
    | inl e ↦ rw (e, wasm_run_task) tt
    | inr (t, e) ↦
        let begun : HoldsGuest (start W guest_wasm h) =
          started-HoldsGuest h (build_vm W guest_wasm h) refl in
        rw (e, wasm_run_task) (turns-RunsGuest cs t (rw e at begun))
  ]
