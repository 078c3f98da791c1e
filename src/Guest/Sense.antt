-- ===== src/Guest/Sense.antt =====
-- wasm-apps/src/lib.rs, the guest's locals: what it reads back after the host has filled them.
use sand_os.Base.{
  ℕ, ◌+◌, ◌%◌, ◌^◌, ◌≤◌, ◌<◌, ◌≡◌, ◌⊎◌, refl, ap, ◌∙◌, inl, inr, arith, List, some, length, slice,
  splice, slice-splice_self, slice-splice_beside, length-splice,
}
use sand_os.Base.Int.{ℤ, pos, InI32, as_u32, as_i32, as_u32-lt, as_i32-as_u32}
use mathlib.Core.Path.{subst}
use sand_os.Base.Bytes.{to_le_bytes, from_le_bytes, length-to_le_bytes, from_le_bytes-to_le_bytes}
use sand_os.Abi.Status.{ok}
use sand_os.Abi.ImuReading.{ImuReading, IsReading}
use sand_os.Abi.Memory.{validate_ptr_len_exact}
use sand_os.Sandbox.{HostOps, Vm, validated}
use sand_os.Sandbox as Call
use sand_os.Guest.{Layout, load_i32, sense}

-- The compiler's layout: the locals lie inside the memory of a 32-bit target, and the two integers
-- do not overlap.
pub record IsPlaced (L : Layout) (mem : List ℕ) : Type 0 where
  pub small : length mem < 2 ^ 32
  pub pitch_in : as_u32 L.pitch_at + 4 ≤ length mem
  pub roll_in : as_u32 L.roll_at + 4 ≤ length mem
  pub buf_in : as_u32 L.buf_at + 36 ≤ length mem
  pub apart :
      (as_u32 L.pitch_at + 4 ≤ as_u32 L.roll_at) ⊎ (as_u32 L.roll_at + 4 ≤ as_u32 L.pitch_at)

-- Four bytes of an i32, over the memory at a pointer.
abbrev pub put_i32 : List ℕ → ℤ → ℤ → List ℕ
put_i32 mem ptr v = splice mem (as_u32 ptr) (to_le_bytes 4 (as_u32 v))

pub length-put_i32 :
    (mem : List ℕ) (ptr v : ℤ)
    → as_u32 ptr + 4 ≤ length mem
    → length (put_i32 mem ptr v) ≡ length mem
length-put_i32 mem ptr v room =
    length-splice mem (as_u32 ptr) (to_le_bytes 4 (as_u32 v))
      (omega (arith, length-to_le_bytes 4 (as_u32 v)))

-- An i32 that was put is read back.
load-put :
    (mem : List ℕ) (ptr v : ℤ)
    → as_u32 ptr + 4 ≤ length mem
    → InI32 v
    → as_i32 (from_le_bytes (slice (put_i32 mem ptr v) (as_u32 ptr) 4)) ≡ v
load-put mem ptr v room h =
    let size : length (to_le_bytes 4 (as_u32 v)) ≡ 4 = length-to_le_bytes 4 (as_u32 v) in
    let back : slice (put_i32 mem ptr v) (as_u32 ptr) 4 ≡ to_le_bytes 4 (as_u32 v) =
      subst (λ n. slice (put_i32 mem ptr v) (as_u32 ptr) n ≡ to_le_bytes 4 (as_u32 v)) size
        (slice-splice_self mem (as_u32 ptr) (to_le_bytes 4 (as_u32 v)) (omega (arith, size))) in
    rw (back, from_le_bytes-to_le_bytes 4 (as_u32 v) (omega (arith, as_u32-lt v)))
      (as_i32-as_u32 v h)

-- An i32 that was put elsewhere leaves it.
load-put_beside :
    (mem : List ℕ) (ptr v other : ℤ)
    → as_u32 ptr + 4 ≤ length mem
    → as_u32 other + 4 ≤ length mem
    → (as_u32 ptr + 4 ≤ as_u32 other) ⊎ (as_u32 other + 4 ≤ as_u32 ptr)
    → slice (put_i32 mem ptr v) (as_u32 other) 4 ≡ slice mem (as_u32 other) 4
load-put_beside mem ptr v other room room' apart =
    slice-splice_beside mem (as_u32 ptr) (to_le_bytes 4 (as_u32 v)) (as_u32 other) 4 0
      (omega (arith, size)) room' (flip apart)
  where
    size : length (to_le_bytes 4 (as_u32 v)) ≡ 4
    size = length-to_le_bytes 4 (as_u32 v)

    flip :
        (as_u32 ptr + 4 ≤ as_u32 other) ⊎ (as_u32 other + 4 ≤ as_u32 ptr)
        → (as_u32 other + 4 ≤ as_u32 ptr)
          ⊎ (as_u32 ptr + length (to_le_bytes 4 (as_u32 v)) ≤ as_u32 other)
    flip (inl before) = inr (omega (arith, size))
    flip (inr after) = inl after

module _ {H : Type 0} (O : HostOps H) where
  -- A region inside the memory passes the guard.
  pub validated-passes :
      (ptr : ℤ) (len : ℕ) (mem : List ℕ) (h : H) (next : List ℕ → ℤ × Vm H)
      → length mem < 2 ^ 32
      → as_u32 ptr + len ≤ length mem
      → validated O ptr len (record { memory = some mem; host = h }) next ≡ next mem
  unfolding validated
  validated-passes ptr len mem h next small room =
      let exact = validate_ptr_len_exact (as_u32 ptr) len (length mem % 2 ^ 32) (omega arith) in
      rw (exact.0.1 (omega arith), validated) refl

  module _ (L : Layout) where
    -- The memory after the guest has cleared its locals and the host has filled them.
    abbrev pub sensed : List ℕ → ImuReading → List ℕ
    sensed mem r =
        put_i32
          (put_i32
            (splice (splice mem (as_u32 L.pitch_at) (to_le_bytes 4 0)) (as_u32 L.roll_at)
              (to_le_bytes 4 0))
            L.pitch_at r.pitch_millideg)
          L.roll_at r.roll_millideg

    pub length-cleared :
        (mem : List ℕ)
        → IsPlaced L mem
        → length (
            splice
              (splice mem (as_u32 L.pitch_at) (to_le_bytes 4 0))
              (as_u32 L.roll_at)
              (to_le_bytes 4 0))
          ≡ length mem
    unfolding as_u32
    length-cleared mem placed =
        length-put_i32 _ L.roll_at (pos 0) (omega (arith, e, placed.roll_in)) ∙ e
      where
        e : length (put_i32 mem L.pitch_at (pos 0)) ≡ length mem
        e = length-put_i32 mem L.pitch_at (pos 0) placed.pitch_in

    pub sense_lem :
        (mem : List ℕ) (h : H)
        → IsPlaced L mem
        → sense O L (record { memory = some mem; host = h })
          ≡ (ok, record { memory = some (sensed mem (O.get_pitch_roll h)); host = h })
    unfolding sense Call.get_pitch_roll
    sense_lem mem h placed =
        let size = length-cleared mem placed in
        validated-passes L.pitch_at 4 _ h _ (omega (arith, size, placed.small))
          (omega (arith, size, placed.pitch_in))
        ∙ validated-passes L.roll_at 4 _ h _ (omega (arith, size, placed.small))
            (omega (arith, size, placed.roll_in))

    pub length-sensed :
        (mem : List ℕ) (r : ImuReading) → IsPlaced L mem → length (sensed mem r) ≡ length mem
    length-sensed mem r placed =
        let size = length-cleared mem placed in
        let e : length (put_i32 _ L.pitch_at r.pitch_millideg) ≡ length mem =
          length-put_i32 _ L.pitch_at r.pitch_millideg (omega (arith, size, placed.pitch_in))
          ∙ size in
        length-put_i32 _ L.roll_at r.roll_millideg (omega (arith, e, placed.roll_in)) ∙ e

    -- The guest's locals hold the reading.
    pub load-sensed :
        (mem : List ℕ) (r : ImuReading) (h : H)
        → IsPlaced L mem
        → IsReading r
        → (load_i32 L.pitch_at (record { memory = some (sensed mem r); host = h })
            ≡ r.pitch_millideg)
          × (load_i32 L.roll_at (record { memory = some (sensed mem r); host = h })
              ≡ r.roll_millideg)
    load-sensed mem r h placed v = (
      ap (λ bytes. as_i32 (from_le_bytes bytes))
            (load-put_beside pitched L.roll_at r.roll_millideg L.pitch_at
              (omega (arith, e, placed.roll_in)) (omega (arith, e, placed.pitch_in))
              (flip placed.apart))
          ∙ load-put cleared L.pitch_at r.pitch_millideg (omega (arith, size, placed.pitch_in))
              v.pitch_in,
      load-put pitched L.roll_at r.roll_millideg (omega (arith, e, placed.roll_in)) v.roll_in,
    )
      where
        cleared : List ℕ
        cleared =
            splice (splice mem (as_u32 L.pitch_at) (to_le_bytes 4 0)) (as_u32 L.roll_at)
              (to_le_bytes 4 0)

        size : length cleared ≡ length mem
        size = length-cleared mem placed

        pitched : List ℕ
        pitched = put_i32 cleared L.pitch_at r.pitch_millideg

        e : length pitched ≡ length mem
        e =
            length-put_i32 cleared L.pitch_at r.pitch_millideg
              (omega (arith, size, placed.pitch_in))
            ∙ size

        flip :
            (as_u32 L.pitch_at + 4 ≤ as_u32 L.roll_at) ⊎ (as_u32 L.roll_at + 4 ≤ as_u32 L.pitch_at)
            → (as_u32 L.roll_at + 4 ≤ as_u32 L.pitch_at)
              ⊎ (as_u32 L.pitch_at + 4 ≤ as_u32 L.roll_at)
        flip (inl before) = inr before
        flip (inr after) = inl after
