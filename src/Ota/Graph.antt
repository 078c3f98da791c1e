-- ===== src/Ota/Graph.antt =====
-- firmware/src/core0/ota.rs: which call can lead from which state to which.
use sand_os.Base.{ℕ, ◌<◌, ◌≡◌, ◌≢◌, ◌⊎◌, List, length}
use sand_os.Abi.OtaStatus.{OtaState, idle, receiving, ready, swapping, failed, ota_max_binary_size}
use sand_os.Abi.Command.{ota_begin, ota_chunk, ota_finalize}
use sand_os.Abi.Telemetry.{read_u32}
use sand_os.Ota.Invariant.{Event, command, take, reset}

-- A begin command that declares no size, or none that the receiver takes.
abbrev pub IsRefused : List ℕ → Type 0
IsRefused p = (length p < 4) ⊎ (read_u32 p 0 ≡ 0) ⊎ (ota_max_binary_size < read_u32 p 0)

-- The transitions of the calls. A refused begin command fails the receiver in any state; the comment
-- that a swap in progress cannot be interrupted is true of the other begin commands alone.
pub data Edge : Event → OtaState → OtaState → Type 0 where
  stay : (e : Event) (s : OtaState) → Edge e s s
  begin :
      (c : ℕ) (p : List ℕ) (s : OtaState)
      → c ≡ ota_begin
      → s ≢ swapping
      → Edge (command c p) s receiving
  refuse :
      (c : ℕ) (p : List ℕ) (s : OtaState)
      → c ≡ ota_begin
      → IsRefused p
      → Edge (command c p) s failed
  break_off :
      (c : ℕ) (p : List ℕ)
      → (c ≡ ota_chunk) ⊎ (c ≡ ota_finalize)
      → Edge (command c p) receiving failed
  verify : (c : ℕ) (p : List ℕ) → c ≡ ota_finalize → Edge (command c p) receiving ready
  hand_over : Edge take ready idle
  clear : Edge reset failed idle
