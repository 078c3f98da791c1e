-- ===== src/Radio/Update.antt =====
-- firmware/src/core0/espnow.rs and ota.rs: a new binary, sent in ESP-NOW frames.
use sand_os.Base.{
  ℕ, ◌+◌, ◌≤◌, ◌<◌, ◌≡◌, ◌≢◌, refl, ap, arith, List, [], ◌∷◌, ◌++◌, some, length, slice, take, suc,
  le→ltb, All, length-append,
}
use mathlib.Core.List.{append-nil}
use sand_os.Base.Bytes.{IsByte, to_le_bytes, length-to_le_bytes}
use sand_os.Abi.Crc.{crc32}
use sand_os.Abi.Command.{
  magic_0, magic_1, ota_begin, ota_chunk, ota_finalize, ota_chunk_max_payload,
}
use sand_os.Abi.OtaStatus.{swapping, ota_max_binary_size}
use sand_os.Ota.{ready_binary, handle_command}
use sand_os.Ota.Chunks.{Chunk, chunk_payload, IsPart}
use sand_os.Ota.Transfer.{Covers, send, transfer, take_verified_binary-transfer}
use sand_os.Radio.{Effect, swap_signal, Link, signal_ready, dispatch, handle_frame}

-- A command as the sender frames it.
abbrev pub framed : ℕ → List ℕ → List ℕ
framed cmd_id payload = magic_0 ∷ magic_1 ∷ cmd_id ∷ length payload ∷ payload

-- Frames that arrive one after the other, each at its time.
pub receive : List (List ℕ × ℕ) → Link → Link × List Effect
receive [] s = (s, [])
receive ((bytes, now) ∷ rest) s =
    let (s', effects) = handle_frame bytes now s in
    let (end, later) = receive rest s' in (end, effects ++ later)

-- A chunk that fits a frame.
abbrev pub Fits : Chunk → Type 0
Fits c = length c.bytes ≤ ota_chunk_max_payload

abbrev pub chunk_frames : List (Chunk × ℕ) → List (List ℕ × ℕ)
chunk_frames [] = []
chunk_frames ((c, now) ∷ cs) = (framed ota_chunk (chunk_payload c), now) ∷ chunk_frames cs

abbrev pub chunks : List (Chunk × ℕ) → List Chunk
chunks [] = []
chunks ((c, now) ∷ cs) = c ∷ chunks cs

take-length : (xs : List ℕ) → take (length xs) xs ≡ xs
take-length [] = refl
take-length (x ∷ xs) = ap (λ t. x ∷ t) (take-length xs)

pub handle_frame-framed :
    (c : ℕ) (payload : List ℕ) (now : ℕ) (s : Link)
    → length payload ≤ 246
    → handle_frame (framed c payload) now s ≡ dispatch c payload now s
unfolding handle_frame slice
handle_frame-framed c payload now s h =
    let n = length payload in
    rw
      (
        le→ltb (suc (suc (suc (suc n)))) 4 (omega arith),
        le→ltb 246 n h,
        le→ltb (suc (suc (suc (suc n)))) (4 + n) (omega arith),
        take-length payload,
      )
      refl

-- Announcing a binary and sending a chunk tell no other task anything.
dispatch-begin :
    (p : List ℕ) (now : ℕ) (s : Link)
    → dispatch ota_begin p now s
      ≡ (record { last_rx_ms = now; ota = (handle_command ota_begin p s.ota).1 }, [])
unfolding dispatch handle_command
dispatch-begin p now s = refl

dispatch-chunk :
    (p : List ℕ) (now : ℕ) (s : Link)
    → dispatch ota_chunk p now s
      ≡ (record { last_rx_ms = now; ota = (handle_command ota_chunk p s.ota).1 }, [])
unfolding dispatch handle_command
dispatch-chunk p now s = refl

dispatch-finalize :
    (p : List ℕ) (now : ℕ) (s : Link)
    → let r = (handle_command ota_finalize p s.ota).1 in
      dispatch ota_finalize p now s ≡ (record { last_rx_ms = now; ota = r }, signal_ready r)
unfolding dispatch handle_command
dispatch-finalize p now s = refl

receive-chunks :
    (cs : List (Chunk × ℕ)) (rest : List (List ℕ × ℕ)) (s : Link)
    → All Fits (chunks cs)
    → (s' : Link) × (receive (chunk_frames cs ++ rest) s ≡ receive rest s')
      × (s'.ota ≡ send (chunks cs) s.ota)
unfolding receive send
receive-chunks [] rest s fits = (s, refl, refl)
receive-chunks ((c, now) ∷ cs) rest s fits =
    let small : length (chunk_payload c) ≤ 246 =
      omega
        (arith, length-append (to_le_bytes 4 c.offset) c.bytes, length-to_le_bytes 4 c.offset) in
    let s1 : Link = record {
      last_rx_ms = now;
      ota = (handle_command ota_chunk (chunk_payload c) s.ota).1;
    } in
    let (s', e, same) = receive-chunks cs rest s1 fits.1 in
    (s', rw (handle_frame-framed ota_chunk (chunk_payload c) now s small, dispatch-chunk) e, same)

-- The frames of a transfer: the size, the chunks, the checksum.
abbrev pub transfer_frames : List ℕ → ℕ → List (Chunk × ℕ) → ℕ → List (List ℕ × ℕ)
transfer_frames binary first cs last =
    (framed ota_begin (to_le_bytes 4 (length binary)), first)
    ∷ (chunk_frames cs ++ ((framed ota_finalize (to_le_bytes 4 (crc32 binary)), last) ∷ []))

-- The frames drive the receiver through the transfer, and the last of them signals what it offers.
receive-transfer_frames :
    (binary : List ℕ) (cs : List (Chunk × ℕ)) (first last : ℕ) (s : Link)
    → All Fits (chunks cs)
    → let r = transfer binary (chunks cs) s.ota in
      receive (transfer_frames binary first cs last) s
      ≡ (record { last_rx_ms = last; ota = r }, signal_ready r)
unfolding receive transfer
receive-transfer_frames binary cs first last s fits =
    let size : List ℕ = to_le_bytes 4 (length binary) in
    let sum : List ℕ = to_le_bytes 4 (crc32 binary) in
    let four = length-to_le_bytes 4 (length binary) in
    let four' = length-to_le_bytes 4 (crc32 binary) in
    let s1 : Link = record { last_rx_ms = first; ota = (handle_command ota_begin size s.ota).1 } in
    let (s', e, same) = receive-chunks cs ((framed ota_finalize sum, last) ∷ []) s1 fits in
    rw
      (
        handle_frame-framed ota_begin size first s (omega arith),
        dispatch-begin,
        e,
        handle_frame-framed ota_finalize sum last s' (omega arith),
        dispatch-finalize,
        same,
        append-nil,
      )
      refl

-- A binary within the limit, framed in chunks that fit a frame and together cover it, in any order,
-- with overlaps and repeats, and received at any times while no hand-over is in progress: the receiver
-- then offers exactly that binary, and the engine is signalled once, with its length; no command is
-- queued, and the time of the last reception is that of the last frame.
pub receive-transfer :
    (binary : List ℕ) (cs : List (Chunk × ℕ)) (first last : ℕ) (s : Link)
    → s.ota.state ≢ swapping
    → 0 < length binary
    → length binary ≤ ota_max_binary_size
    → All IsByte binary
    → All (IsPart binary) (chunks cs)
    → All Fits (chunks cs)
    → ((i : ℕ) → i < length binary → Covers (chunks cs) i)
    → let (s', effects) = receive (transfer_frames binary first cs last) s in
      (ready_binary s'.ota ≡ some binary)
      × (effects ≡ swap_signal (length binary) ∷ [])
      × (s'.last_rx_ms ≡ last)
unfolding signal_ready
receive-transfer binary cs first last s free some_bytes small bytes parts fits covered =
    let offered =
      (take_verified_binary-transfer binary (chunks cs) s.ota free some_bytes small bytes parts
        covered).0 in
    rw (receive-transfer_frames binary cs first last s fits)
      (offered, rw (signal_ready, offered) (ap (λ n. swap_signal n ∷ []) (omega arith)), refl)
