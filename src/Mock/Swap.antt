-- ===== src/Mock/Swap.antt =====
-- host-tests/src/mock_host.rs against firmware/src/core0/ota.rs: a whole transfer, and the binary that
-- comes out of it.
use sand_os.Base.{
  ℕ, ◌+◌, ◌%◌, ◌^◌, ◌≤◌, ◌≡◌, ◌⊎◌, refl, ap, sym, ◌∙◌, inl, inr, List, [], ◌∷◌, none, some, Bool,
  not, length, drop, Bool-cases,
}
use sand_os.Base.Int.{ℤ}
use sand_os.Abi.Status.{ok, err_busy}
use sand_os.Abi.Telemetry.{read_u32}
use sand_os.Abi.OtaStatus.{is_ready, idle}
use sand_os.Ota.{OtaReceiver, handle_begin, handle_chunk, handle_finalize, take_verified_binary}
use sand_os.Mock.{MockHost}
use sand_os.Mock.Ota.{ota_begin, ota_receive_chunk, ota_finalize, hot_swap_wasm}
use sand_os.Mock.Agrees.{Session, Matches, InStep, begin-InStep, chunk-Matches, finalize-InStep}
use sand_os.Sandbox.View.{if_true}

-- A command of a transfer, with its payload.
pub data Command : Type 0 where
  beginning chunking finalizing : List ℕ → Command

-- The payload holds what the command needs.
abbrev pub IsComplete : Command → Type 0
IsComplete (beginning payload) = 4 ≤ length payload
IsComplete (chunking payload) = 5 ≤ length payload
IsComplete (finalizing payload) = 4 ≤ length payload

unfoldable pub receive : Command → OtaReceiver → Bool × OtaReceiver
receive (beginning payload) r = handle_begin payload r
receive (chunking payload) r = handle_chunk payload r
receive (finalizing payload) r = handle_finalize payload r

-- The same command, as the tests pass it to the mock.
unfoldable pub mock_receive : Command → MockHost → ℤ × MockHost
mock_receive (beginning payload) k = ota_begin (read_u32 payload 0) k
mock_receive (chunking payload) k = ota_receive_chunk (read_u32 payload 0) (drop 4 payload) k
mock_receive (finalizing payload) k = ota_finalize (read_u32 payload 0) k

unfoldable pub receive_all : List Command → OtaReceiver → OtaReceiver
receive_all [] r = r
receive_all (c ∷ cs) r = receive_all cs (receive c r).1

unfoldable pub mock_receive_all : List Command → MockHost → MockHost
mock_receive_all [] k = k
mock_receive_all (c ∷ cs) k = mock_receive_all cs (mock_receive c k).1

-- Every command is complete, and the mock answers OK to it.
unfoldable pub AllTaken : List Command → MockHost → Type 0
AllTaken [] k = Unit
AllTaken (c ∷ cs) k = IsComplete c × ((mock_receive c k).0 ≡ ok) × AllTaken cs (mock_receive c k).1

stepped :
    (x : Bool × OtaReceiver) (y : ℤ × MockHost) (r : OtaReceiver) (k : MockHost)
    → InStep x y r k
    → y.0 ≡ ok
    → Matches x.1 y.1
stepped x y r k (inl (taken, code, m)) answered = m
stepped x y r k (inr (refused, code, after)) answered = absurd (code answered)

receive-Matches :
    (c : Command) (r : OtaReceiver) (k : MockHost)
    → Matches r k
    → IsComplete c
    → (mock_receive c k).0 ≡ ok
    → Matches (receive c r).1 (mock_receive c k).1
unfolding receive mock_receive
receive-Matches (beginning payload) r k m h answered =
    stepped _ _ r k (begin-InStep payload r k m h) answered
receive-Matches (chunking payload) r k m h answered = chunk-Matches payload r k m h answered
receive-Matches (finalizing payload) r k m h answered =
    stepped _ _ r k (finalize-InStep payload r k m h) answered

receive_all-Matches :
    (cs : List Command) (r : OtaReceiver) (k : MockHost)
    → Matches r k
    → AllTaken cs k
    → Matches (receive_all cs r) (mock_receive_all cs k)
unfolding AllTaken receive_all mock_receive_all
receive_all-Matches [] r k m t = m
receive_all-Matches (c ∷ cs) r k m t =
    receive_all-Matches cs (receive c r).1 (mock_receive c k).1 (receive-Matches c r k m t.0 t.1)
      t.2

swapped : Session → Session
swapped s = record s {
  state = idle;
  buffer = [];
  total_size = 0;
  bytes_received = 0;
  swap_count = (s.swap_count + 1) % 2 ^ 32;
}

-- The hand-over of the firmware and the swap of the mock, on the same session.
pub swap-Matches :
    (r : OtaReceiver) (k : MockHost)
    → Matches r k
    → (((take_verified_binary r).0 ≡ some (hot_swap_wasm k).1.active_wasm_binary)
        × ((hot_swap_wasm k).0 ≡ ok)
        × Matches (take_verified_binary r).1 (hot_swap_wasm k).1)
      ⊎ ((take_verified_binary r ≡ (none, r)) × (hot_swap_wasm k ≡ (err_busy, k)))
unfolding take_verified_binary hot_swap_wasm swapped
swap-Matches r k m = elim (Bool-cases (is_ready r.state)) [
  | inl on ↦ rw (on, same ∙ on) (inl (ap (λ s. some s.buffer) m, refl, ap swapped m))
  | inr off ↦ inr (if_true _ (ap not off), if_true _ (ap not (same ∙ off)))
]
  where
    same : is_ready k.ota_state ≡ is_ready r.state
    same = ap (λ s. is_ready s.state) (sym m)

-- After a transfer whose every command is complete and answered OK by the mock, in any order and of
-- any number, from a mock and a receiver with the same session: either both hold a verified binary,
-- and the binary that the mock installs is the one that the receiver hands over, after which the two
-- still have the same session; or neither does, and both refuse the swap and are as they were.
pub transfer-swapped :
    (cs : List Command) (r : OtaReceiver) (k : MockHost)
    → Matches r k
    → AllTaken cs k
    → (((take_verified_binary (receive_all cs r)).0
          ≡ some (hot_swap_wasm (mock_receive_all cs k)).1.active_wasm_binary)
        × ((hot_swap_wasm (mock_receive_all cs k)).0 ≡ ok)
        × Matches
            (take_verified_binary (receive_all cs r)).1
            (hot_swap_wasm (mock_receive_all cs k)).1)
      ⊎ ((take_verified_binary (receive_all cs r) ≡ (none, receive_all cs r))
          × (hot_swap_wasm (mock_receive_all cs k) ≡ (err_busy, mock_receive_all cs k)))
transfer-swapped cs r k m t =
    swap-Matches (receive_all cs r) (mock_receive_all cs k) (receive_all-Matches cs r k m t)
