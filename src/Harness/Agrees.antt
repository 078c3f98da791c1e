-- ===== src/Harness/Agrees.antt =====
-- host-tests/src/vm_harness.rs against firmware/src/core0/wasm_vm.rs: the closures of the tests and
-- those of the firmware do the same, as long as the memory of the guest is below 2 GiB.
use sand_os.Base.{
  ℕ, ◌+◌, ◌-◌, ◌%◌, ◌^◌, ◌≤◌, ◌<◌, ◌≡◌, refl, ap, ◌∙◌, inl, inr, arith, List, none, some, Bool,
  length, slice, splice, length-slice, Option-cases, ==_iff,
}
use sand_os.Base.Int.{ℤ, pos, negsuc, InI32, ◌+ℤ◌, as_u32}
use sand_os.Harness.{add_i32, add_usize, range, read_memory, write_memory, as_usize, ◌>>=◌}
use sand_os.Sandbox as Sandbox

add_i32-fits :
    (checked : Bool) (p n : ℕ)
    → p + n < 2 ^ 31
    → add_i32 checked (pos p) (pos n) ≡ some (pos (p + n))
unfolding add_i32 ◌+ℤ◌
add_i32-fits checked p n h = ground arith

add_usize-fits : (checked : Bool) (a b : ℕ) → a + b < 2 ^ 64 → add_usize checked a b ≡ some (a + b)
unfolding add_usize
add_usize-fits checked a b h = ground arith

pub range-fits :
    (start end : ℕ) (bytes : List ℕ)
    → start ≤ end
    → end ≤ length bytes
    → range start end bytes ≡ some (slice bytes start (end - start))
unfolding range
range-fits start end bytes h k = ground arith

pub as_u32-pos : (n : ℕ) → n < 2 ^ 32 → as_u32 (pos n) ≡ n
unfolding as_u32
as_u32-pos n h = omega arith

-- An i32 whose pattern is small is not negative.
pub small-pos : (z : ℤ) → InI32 z → as_u32 z < 2 ^ 31 → z ≡ pos (as_u32 z)
unfolding as_u32
small-pos (pos n) h lt = ap pos (omega arith)
small-pos (negsuc n) h lt = absurd (omega arith)

pub as_u32-negsuc : (n : ℕ) → InI32 (negsuc n) → 2 ^ 31 ≤ as_u32 (negsuc n)
unfolding as_u32
as_u32-negsuc n h = omega arith

-- A region that the check of a memory below 2 GiB lets through is addressed alike on both machines.
pub read_memory-eq :
    (checked : Bool) (ptr len : ℤ) (mem : List ℕ)
    → InI32 ptr
    → InI32 len
    → length mem < 2 ^ 31
    → as_u32 ptr + as_u32 len ≤ length mem
    → read_memory checked ptr len mem ≡ some (Sandbox.read_memory ptr len mem)
unfolding read_memory Sandbox.read_memory
read_memory-eq checked (pos p) (pos n) mem hp hn small fits =
    let ep = as_u32-pos p (omega arith) in
    let en = as_u32-pos n (omega arith) in
    let size : (p + n) % 2 ^ 32 - p ≡ p + n - p = omega arith in
    rw
      (
        add_i32-fits checked p n (omega arith),
        ◌>>=◌,
        range-fits p (p + n) mem (omega arith) (omega arith),
        ep,
        en,
        size,
      )
      refl
read_memory-eq checked (pos p) (negsuc n) mem hp hn small fits =
    absurd (omega (arith, as_u32-negsuc n hn))
read_memory-eq checked (negsuc p) n mem hp hn small fits =
    absurd (omega (arith, as_u32-negsuc p hp))

pub write_memory-eq :
    (checked : Bool) (ptr : ℤ) (n : ℕ) (bytes mem : List ℕ)
    → InI32 ptr
    → length mem < 2 ^ 31
    → as_u32 ptr + n ≤ length mem
    → length bytes ≡ n
    → write_memory checked ptr n bytes mem ≡ some (splice mem (as_u32 ptr) bytes)
unfolding write_memory
write_memory-eq checked (pos p) n bytes mem hp small fits size =
    let ep = as_u32-pos p (omega arith) in
    let sized : length (slice mem p (p + n - p)) ≡ length bytes =
      length-slice mem p (p + n - p) (omega arith) ∙ omega arith in
    rw
      (
        add_usize-fits checked p n (omega arith),
        ◌>>=◌,
        range-fits p (p + n) mem (omega arith) (omega arith),
        (==_iff (length (slice mem p (p + n - p))) (length bytes)).1 sized,
        ep,
      )
      refl
write_memory-eq checked (negsuc p) n bytes mem hp small fits size =
    absurd (omega (arith, as_u32-negsuc p hp))

-- A pointer above 2 GiB, which the check of a larger memory lets through, is sign-extended and the
-- slice panics.
pub read_memory-negative :
    (checked : Bool) (p : ℕ) (len : ℤ) (mem : List ℕ)
    → p < 2 ^ 31
    → length mem < 2 ^ 63
    → read_memory checked (negsuc p) len mem ≡ none
unfolding read_memory
read_memory-negative checked p len mem hp hm =
    elim (Option-cases (add_i32 checked (negsuc p) len)) [
      | inl e ↦ rw (e, ◌>>=◌) refl
      | inr (end, e) ↦ rw (e, ◌>>=◌) (beyond (as_usize end))
    ]
  where
    beyond : (end : ℕ) → range (as_usize (negsuc p)) end mem ≡ none
    beyond end = unfold range in ground arith
