-- ===== src/Mock/Agrees.antt =====
-- host-tests/src/mock_host.rs against firmware/src/core0/ota.rs: the OTA session of the mock of the
-- tests and the receiver of the firmware.
use sand_os.Base.{
  ℕ, ◌+◌, ◌%◌, ◌^◌, ◌≤◌, ◌≡◌, ◌⊎◌, ◌≢◌, suc, refl, ap, sym, ◌∙◌, inl, inr, arith, List, Bool, true,
  false, ◌||◌, ltb, ◌==◌, length, drop, length-drop, replicate, splice, Bool-cases,
}
use sand_os.Base.Int.{ℤ, pos, pos_part}
use sand_os.Abi.Status.{ok}
use sand_os.Abi.Telemetry.{read_u32}
use sand_os.Abi.OtaStatus.{OtaState, is_receiving, is_swapping, receiving, ready, failed}
use sand_os.Abi.Crc.{crc32}
use sand_os.Ota.{OtaReceiver, handle_begin, handle_chunk, handle_finalize, saturating_add}
use sand_os.Mock.{MockHost}
use sand_os.Mock.Ota.{ota_begin, ota_receive_chunk, ota_finalize, saturating_add_64}

-- What a receiver and a mock both keep of a session.
pub record Session : Type 0 where
  pub state : OtaState
  pub buffer : List ℕ
  pub total_size : ℕ
  pub bytes_received : ℕ
  pub swap_count : ℕ

abbrev pub receiver_session : OtaReceiver → Session
receiver_session r = record {
  state = r.state;
  buffer = r.buffer;
  total_size = r.total_size;
  bytes_received = r.bytes_received;
  swap_count = r.swap_count;
}

abbrev pub mock_session : MockHost → Session
mock_session k = record {
  state = k.ota_state;
  buffer = k.ota_buffer;
  total_size = k.ota_expected_size;
  bytes_received = k.ota_bytes_received;
  swap_count = k.hot_swap_count;
}

-- The two keep the same session.
abbrev pub Matches : OtaReceiver → MockHost → Type 0
Matches r k = receiver_session r ≡ mock_session k

-- A step that both take or both refuse; where both take it they still match, and where both refuse it
-- the receiver is as it was or has failed, and the mock is as it was or has failed with it.
abbrev pub InStep : Bool × OtaReceiver → ℤ × MockHost → OtaReceiver → MockHost → Type 0
InStep (taken, r') (code, k') r k =
    ((taken ≡ true) × (code ≡ ok) × Matches r' k')
    ⊎ ((taken ≡ false) × (code ≢ ok) × (Matches r' k' ⊎ ((r'.state ≡ failed) × (k' ≡ k))))

begun : ℕ → Session → Session
begun total s = record s {
  state = receiving;
  buffer = replicate total 0;
  total_size = total;
  bytes_received = 0;
}

written : ℕ → List ℕ → Session → Session
written offset bytes s = record s {
  buffer = splice s.buffer offset bytes;
  bytes_received = (s.bytes_received + length bytes) % 2 ^ 32;
}

moved : OtaState → Session → Session
moved state s = record s { state = state }

not_ok : (n : ℕ) → pos (suc n) ≢ ok
not_ok n e = absurd (omega (arith, ap pos_part e))

-- OTA_BEGIN with its four bytes, and `ota_begin` with the number that they hold.
pub begin-InStep :
    (payload : List ℕ) (r : OtaReceiver) (k : MockHost)
    → Matches r k
    → 4 ≤ length payload
    → InStep (handle_begin payload r) (ota_begin (read_u32 payload 0) k) r k
unfolding handle_begin ota_begin begun
begin-InStep payload r k m h =
    let total = read_u32 payload 0 in
    elim (Bool-cases (total == 0 || ltb 524288 total)) [
      | inl bad ↦ rw (long, bad) (inr (refl, not_ok 1, inr (refl, refl)))
      | inr fine ↦ elim (Bool-cases (is_swapping r.state)) [
        | inl busy ↦ rw (long, fine, busy, same ∙ busy) (inr (refl, not_ok 2, inl m))
        | inr free ↦ rw (long, fine, free, same ∙ free) (inl (refl, refl, ap (begun total) m))
      ]
    ]
  where
    long : ltb (length payload) 4 ≡ false
    long = ground arith

    same : is_swapping k.ota_state ≡ is_swapping r.state
    same = ap (λ s. is_swapping s.state) (sym m)

-- OTA_CHUNK with an offset and at least one byte, and `ota_receive_chunk` with the same: what the mock
-- takes the receiver takes.
pub chunk-Matches :
    (payload : List ℕ) (r : OtaReceiver) (k : MockHost)
    → Matches r k
    → 5 ≤ length payload
    → (ota_receive_chunk (read_u32 payload 0) (drop 4 payload) k).0 ≡ ok
    → Matches
        (handle_chunk payload r).1
        (ota_receive_chunk (read_u32 payload 0) (drop 4 payload) k).1
unfolding handle_chunk ota_receive_chunk written
chunk-Matches payload r k m h taken =
    let offset = read_u32 payload 0 in
    let bytes = drop 4 payload in
    elim (Bool-cases (is_receiving r.state)) [
      | inr off ↦ absurd (not_ok 2 (rw (same ∙ off) at taken))
      | inl on ↦
          elim (Bool-cases (ltb k.ota_expected_size (saturating_add_64 offset (length bytes)))) [
            | inl past ↦ absurd (not_ok 4 (rw (same ∙ on, some_bytes, past) at taken))
            | inr fits ↦
                rw (on, same ∙ on, long, some_bytes, fits, narrow fits)
                  (ap (written offset bytes) m)
          ]
    ]
  where
    long : ltb (length payload) 5 ≡ false
    long = ground arith

    some_bytes : (length (drop 4 payload) == 0) ≡ false
    some_bytes = let size = length-drop 4 payload in ground arith

    same : is_receiving k.ota_state ≡ is_receiving r.state
    same = ap (λ s. is_receiving s.state) (sym m)

    size : k.ota_expected_size ≡ r.total_size
    size = ap (λ s. s.total_size) (sym m)

    narrow :
        ltb k.ota_expected_size (saturating_add_64 (read_u32 payload 0) (length (drop 4 payload)))
          ≡ false
        → ltb r.total_size (saturating_add (read_u32 payload 0) (length (drop 4 payload))) ≡ false
    narrow fits = ground (arith, size)

-- OTA_FINALIZE with its four bytes, and `ota_finalize` with the checksum that they hold.
pub finalize-InStep :
    (payload : List ℕ) (r : OtaReceiver) (k : MockHost)
    → Matches r k
    → 4 ≤ length payload
    → InStep (handle_finalize payload r) (ota_finalize (read_u32 payload 0) k) r k
unfolding handle_finalize ota_finalize moved
finalize-InStep payload r k m h = elim (Bool-cases (is_receiving r.state)) [
  | inr off ↦ rw (off, same ∙ off) (inr (refl, not_ok 2, inl m))
  | inl on ↦ elim (Bool-cases (crc32 r.buffer == read_u32 payload 0)) [
    | inl right ↦
        rw (on, same ∙ on, long, right, sum ∙ right) (inl (refl, refl, ap (moved ready) m))
    | inr wrong ↦
        rw (on, same ∙ on, long, wrong, sum ∙ wrong)
          (inr (refl, not_ok 1, inl (ap (moved failed) m)))
  ]
]
  where
    long : ltb (length payload) 4 ≡ false
    long = ground arith

    same : is_receiving k.ota_state ≡ is_receiving r.state
    same = ap (λ s. is_receiving s.state) (sym m)

    sum : (crc32 k.ota_buffer == read_u32 payload 0) ≡ (crc32 r.buffer == read_u32 payload 0)
    sum = ap (λ s. crc32 s.buffer == read_u32 payload 0) (sym m)
