-- ===== src/Abi/Inference/RoundTrip.antt =====
-- abi/src/lib.rs, `InferenceResult`: both encodings are undone by their decoders.
use sand_os.Base.{
  ℕ, suc, ◌+◌, ◌*◌, ◌/◌, ◌%◌, ◌^◌, ◌≤◌, ◌<◌, ◌≡◌, refl, ap, ◌∙◌, List, [], ◌∷◌, ◌++◌, Option, none,
  some, Bool, true, false, not, ltb, le→ltb, lt→ltb, ◌==◌, if◌then◌else◌, arith, length, drop,
  drop-drop, slice, splice, bit_and, bit_or,
}
use sand_os.Base.Bits.{bit_or-shifted, bit_and-u8}
use sand_os.Base.Bytes.{to_le_bytes, from_le_bytes, from_le_bytes-to_le_bytes}
use sand_os.Base.Int.{ℤ, pos, as_i32}
use sand_os.Abi.Inference.{
  InferenceResult, inference_result_size, to_bytes, from_bytes, pack, unpack,
}

-- The class and the confidence are u8 values.
pub record IsResult (r : InferenceResult) : Type 0 where
  pub class_in : r.top_class < 256
  pub confidence_in : r.confidence_pct < 256

flag : Bool → ℕ
flag b = if b then 1 else 0

flag_lem : (b : Bool) → not (from_le_bytes (to_le_bytes 4 (flag b)) == 0) ≡ b
unfolding flag from_le_bytes to_le_bytes
flag_lem true = refl
flag_lem false = refl

byte : (v : ℕ) → v < 256 → from_le_bytes (to_le_bytes 4 v) % 256 ≡ v
byte v h = omega (arith, from_le_bytes-to_le_bytes 4 v (omega arith))

pub result_layout : InferenceResult → List ℕ
unfolding flag
result_layout r =
    to_le_bytes 4 (flag r.active) ++ (to_le_bytes 4 r.top_class ++ to_le_bytes 4 r.confidence_pct)

pub to_bytes-layout :
    (r : InferenceResult) (buf : List ℕ)
    → inference_result_size ≤ length buf
    → to_bytes r buf ≡ (inference_result_size, result_layout r ++ drop inference_result_size buf)
unfolding to_bytes to_le_bytes splice result_layout
to_bytes-layout r buf h =
    rw (le→ltb (length buf) inference_result_size h, drop-drop 4 4 buf, drop-drop 8 4 buf)

from_bytes-layout :
    (r : InferenceResult) (rest : List ℕ)
    → IsResult r
    → from_bytes (result_layout r ++ rest) ≡ some r
from_bytes-layout r rest v = parts ∙ ap some fields
  where
    decoded : InferenceResult
    decoded = record {
      active = not (from_le_bytes (to_le_bytes 4 (flag r.active)) == 0);
      top_class = from_le_bytes (to_le_bytes 4 r.top_class) % 256;
      confidence_pct = from_le_bytes (to_le_bytes 4 r.confidence_pct) % 256;
    }

    parts : from_bytes (result_layout r ++ rest) ≡ some decoded
    parts =
        unfold from_bytes result_layout to_le_bytes sand_os.Base.slice in
        rw (le→ltb (length (result_layout r ++ rest)) inference_result_size (omega arith)) refl

    fields : decoded ≡ r
    fields = λ i. record {
      active = flag_lem r.active i;
      top_class = byte r.top_class v.class_in i;
      confidence_pct = byte r.confidence_pct v.confidence_in i;
    }

pub length-layout : (r : InferenceResult) → length (result_layout r) ≡ inference_result_size
unfolding result_layout to_le_bytes
length-layout r = refl

word : (v : ℕ) → v < 256 → as_i32 (from_le_bytes (to_le_bytes 4 v)) ≡ pos v
unfolding as_i32
word v h = ground (arith, from_le_bytes-to_le_bytes 4 v (omega arith))

abbrev i32_of : List ℕ → ℤ
i32_of bytes = as_i32 (from_le_bytes bytes)

slices-layout :
    (r : InferenceResult)
    → (slice (result_layout r) 0 4 ≡ to_le_bytes 4 (flag r.active))
      × (slice (result_layout r) 4 4 ≡ to_le_bytes 4 r.top_class)
      × (slice (result_layout r) 8 4 ≡ to_le_bytes 4 r.confidence_pct)
unfolding result_layout to_le_bytes slice
slices-layout r = (refl, refl, refl)

-- The three words, as `i32::from_le_bytes` reads them.
pub words-layout :
    (r : InferenceResult)
    → IsResult r
    → (i32_of (slice (result_layout r) 0 4) ≡ pos (if r.active then 1 else 0))
      × (i32_of (slice (result_layout r) 4 4) ≡ pos r.top_class)
      × (i32_of (slice (result_layout r) 8 4) ≡ pos r.confidence_pct)
unfolding flag
words-layout r v = (
  ap i32_of (slices-layout r).0 ∙ word (flag r.active) (ground arith),
  ap i32_of (slices-layout r).1 ∙ word r.top_class v.class_in,
  ap i32_of (slices-layout r).2 ∙ word r.confidence_pct v.confidence_in,
)

-- A result written for the guest into a buffer with room is read back unchanged.
pub from_bytes-to_bytes :
    (r : InferenceResult) (buf : List ℕ)
    → IsResult r
    → inference_result_size ≤ length buf
    → from_bytes (to_bytes r buf).1 ≡ some r
from_bytes-to_bytes r buf v h = rw (to_bytes-layout r buf h) (from_bytes-layout r _ v)

active_bit : Bool → ℕ
active_bit b = if b then 1 else 0

pack_sum :
    (r : InferenceResult)
    → IsResult r
    → pack r ≡ active_bit r.active * 2 ^ 31 + (r.top_class * 256 + r.confidence_pct)
unfolding pack active_bit
pack_sum r v = ground (
  arith,
  bit_or-shifted 31 1 (r.top_class * 2 ^ 8),
  bit_or-shifted 31 0 (r.top_class * 2 ^ 8),
  bit_or-shifted 8 (2 ^ 23 + r.top_class) r.confidence_pct,
  bit_or-shifted 8 r.top_class r.confidence_pct,
)

-- A packed result fits the u32 that stores it.
pub pack-lt : (r : InferenceResult) → IsResult r → pack r < 2 ^ 32
unfolding active_bit
pack-lt r v = ground (arith, pack_sum r v)

unpack-pack_active : (r : InferenceResult) → IsResult r → not (pack r / 2 ^ 31 == 0) ≡ r.active
unfolding active_bit
unpack-pack_active r v = ground (arith, pack_sum r v)

-- A result packed into the atomic word is unpacked unchanged.
pub unpack-pack : (r : InferenceResult) → IsResult r → unpack (pack r) ≡ r
unfolding unpack
unpack-pack r v = λ i. record {
  active = unpack-pack_active r v i;
  top_class = class i;
  confidence_pct = confidence i;
}
  where
    class : bit_and (pack r / 2 ^ 8) 0xff ≡ r.top_class
    class = bit_and-u8 (pack r / 2 ^ 8) ∙ omega (arith, pack_sum r v)

    confidence : bit_and (pack r) 0xff ≡ r.confidence_pct
    confidence = bit_and-u8 (pack r) ∙ omega (arith, pack_sum r v)
