-- ===== src/Harness/Load.antt =====
-- host-tests/src/vm_harness.rs, `WasmHarness`: loading a guest and calling its exports, over the crates
-- wasmi and wat. What panics is none.
use sand_os.Base.{ℕ, ◌≡◌, refl, inl, inr, List, [], ◌∷◌, Option, none, some, Option-cases}
use sand_os.Base.Int.{ℤ}
use sand_os.Harness.{◌>>=◌}

-- The types of exports that the harness asks for: i32 parameters, and an i32 result.
pub data Signature : Type 0 where
  unit_i32 i32_i32 i32i32_i32 : Signature

-- What the harness uses of the crates. A store holds the host and the state of the instances; calls
-- change it, also when they then trap.
pub record Wasmi (H : Type 0) : Type 1 where
  pub Store : Type 0
  pub Module : Type 0
  pub Linked : Type 0
  pub Instance : Type 0
  pub Func : Type 0
  -- `Store::new`, with the linker of `build_linker`.
  pub store : H → Store
  -- `store.data()` and `store.data_mut()`
  pub host : Store → H
  pub set_host : H → Store → Store
  -- `wat::parse_str` and `Module::new`
  pub parse_str : List ℕ → Option (List ℕ)
  pub compile : List ℕ → Option Module
  -- `linker.instantiate` and `start`
  pub instantiate : Module → Store → Option Linked × Store
  pub start : Linked → Store → Option Instance × Store
  pub get_typed_func : Signature → List ℕ → Instance → Store → Option Func
  -- `none` is a trap.
  pub invoke : Func → List ℤ → Store → Option ℤ × Store

module _ {H : Type 0} (W : Wasmi H) where
  -- `.expect(…)`
  abbrev pub expect : {A : Type 0} → Option A × W.Store → Option (A × W.Store)
  expect (none, s) = none
  expect (some a, s) = some (a, s)

  unfoldable pub new : H → W.Store
  new host = W.store host

  unfoldable pub load_wat : List ℕ → W.Store → Option (W.Instance × W.Store)
  load_wat wat_src s = do
    wasm ← W.parse_str wat_src
    code ← W.compile wasm
    (linked, s') ← expect (W.instantiate code s)
    expect (W.start linked s')

  unfoldable pub host_mut : (H → H) → W.Store → W.Store
  host_mut change s = W.set_host (change (W.host s)) s

  unfoldable pub call_i32_i32 : W.Instance → List ℕ → ℤ → W.Store → Option (ℤ × W.Store)
  call_i32_i32 guest name arg s = do
    f ← W.get_typed_func i32_i32 name guest s
    expect (W.invoke f (arg ∷ []) s)

  unfoldable pub call_unit_i32 : W.Instance → List ℕ → W.Store → Option (ℤ × W.Store)
  call_unit_i32 guest name s = do
    f ← W.get_typed_func unit_i32 name guest s
    expect (W.invoke f [] s)

  unfoldable pub call_i32i32_i32 : W.Instance → List ℕ → ℤ → ℤ → W.Store → Option (ℤ × W.Store)
  call_i32i32_i32 guest name a b s = do
    f ← W.get_typed_func i32i32_i32 name guest s
    expect (W.invoke f (a ∷ b ∷ []) s)

  -- `Err` is none: the export is missing, or the call traps.
  unfoldable pub try_call_unit_i32 : W.Instance → List ℕ → W.Store → Option ℤ × W.Store
  try_call_unit_i32 guest name s = elim (W.get_typed_func unit_i32 name guest s) [
    | none ↦ (none, s)
    | some f ↦ W.invoke f [] s
  ]

  -- A call that may trap never panics; its plain form panics exactly where it is Err, and else both
  -- give the same value and leave the same store.
  pub call_unit_i32-try :
      (i : W.Instance) (name : List ℕ) (s : W.Store)
      → call_unit_i32 i name s ≡ expect (try_call_unit_i32 i name s)
  unfolding call_unit_i32 try_call_unit_i32
  call_unit_i32-try i name s = elim (Option-cases (W.get_typed_func unit_i32 name i s)) [
    | inl e ↦ rw (e, ◌>>=◌, try_call_unit_i32) refl
    | inr (f, e) ↦ rw (e, ◌>>=◌, try_call_unit_i32) refl
  ]
