-- ===== src/Abi/OtaStatus/RoundTrip.antt =====
-- abi/src/lib.rs, `OtaStatus`: what the host writes is what the guest reads.
use sand_os.Base.{
  ℕ, ◌%◌, ◌^◌, ◌≤◌, ◌<◌, ◌≡◌, ◌↔◌, refl, ap, ◌∙◌, List, ◌++◌, some, le→ltb, arith, length, drop,
  drop-drop, splice, slice,
}
use sand_os.Base.Bytes.{to_le_bytes, from_le_bytes, from_le_bytes-to_le_bytes}
use sand_os.Abi.OtaStatus.{
  OtaState, idle, receiving, ready, swapping, failed, discriminant, from_u8, OtaStatus,
  ota_status_size, to_bytes, from_bytes,
}
use mathlib.Core.Option

-- The counters are u32 values.
pub record IsStatus (s : OtaStatus) : Type 0 where
  pub received_in : s.bytes_received < 2 ^ 32
  pub total_in : s.total_size < 2 ^ 32
  pub swaps_in : s.swap_count < 2 ^ 32

-- `from_u8` accepts exactly the discriminants of the five states.
pub from_u8_exact : (v : ℕ) (s : OtaState) → (from_u8 v ≡ some s) ↔ (v ≡ discriminant s)
from_u8_exact v s = (accepted v s, λ h. rw h (parsed s))
  where
    parsed : (d : OtaState) → from_u8 (discriminant d) ≡ some d
    parsed d = unfold from_u8 discriminant in ground arith

    accepted : (n : ℕ) (d : OtaState) → from_u8 n ≡ some d → n ≡ discriminant d
    accepted n d h = unfold from_u8 discriminant in ground arith

word : (v : ℕ) → v < 2 ^ 32 → from_le_bytes (to_le_bytes 4 v) ≡ v
word v h = from_le_bytes-to_le_bytes 4 v (omega arith)

state_byte : (s : OtaState) → from_le_bytes (to_le_bytes 4 (discriminant s)) % 256 ≡ discriminant s
unfolding discriminant from_le_bytes to_le_bytes
state_byte idle = refl
state_byte receiving = refl
state_byte ready = refl
state_byte swapping = refl
state_byte failed = refl

pub status_layout : OtaStatus → List ℕ
status_layout s =
    to_le_bytes 4 (discriminant s.state)
    ++ (to_le_bytes 4 s.bytes_received
        ++ (to_le_bytes 4 s.total_size ++ to_le_bytes 4 s.swap_count))

pub to_bytes-layout :
    (s : OtaStatus) (buf : List ℕ)
    → ota_status_size ≤ length buf
    → to_bytes s buf ≡ (ota_status_size, status_layout s ++ drop ota_status_size buf)
unfolding to_bytes to_le_bytes splice status_layout
to_bytes-layout s buf h = rw (
  le→ltb (length buf) ota_status_size h,
  drop-drop 4 4 buf,
  drop-drop 8 4 buf,
  drop-drop 12 4 buf,
)

from_bytes-layout :
    (s : OtaStatus) (rest : List ℕ) → IsStatus s → from_bytes (status_layout s ++ rest) ≡ some s
from_bytes-layout s rest v = parts ∙ rw (state_byte s.state, known) (ap some fields)
  where
    read : OtaState → OtaStatus
    read state = record {
      state = state;
      bytes_received = from_le_bytes (to_le_bytes 4 s.bytes_received);
      total_size = from_le_bytes (to_le_bytes 4 s.total_size);
      swap_count = from_le_bytes (to_le_bytes 4 s.swap_count);
    }

    known : from_u8 (discriminant s.state) ≡ some s.state
    known = (from_u8_exact _ s.state).1 refl

    parts :
        from_bytes (status_layout s ++ rest)
        ≡ Option.map read (from_u8 (from_le_bytes (to_le_bytes 4 (discriminant s.state)) % 256))
    parts =
        unfold from_bytes status_layout to_le_bytes slice in
        rw (le→ltb (length (status_layout s ++ rest)) ota_status_size (omega arith)) refl

    fields : read s.state ≡ s
    fields = λ i. record {
      state = s.state;
      bytes_received = word s.bytes_received v.received_in i;
      total_size = word s.total_size v.total_in i;
      swap_count = word s.swap_count v.swaps_in i;
    }

-- A status written into a buffer with room is read back unchanged, in each of the five states.
pub from_bytes-to_bytes_status :
    (s : OtaStatus) (buf : List ℕ)
    → IsStatus s
    → ota_status_size ≤ length buf
    → from_bytes (to_bytes s buf).1 ≡ some s
from_bytes-to_bytes_status s buf v h = rw (to_bytes-layout s buf h) (from_bytes-layout s _ v)
