-- ===== src/Sandbox/Buffers.antt =====
-- firmware/src/core0/abi.rs and host-tests/src/mock_host.rs: both hosts fill a scratch buffer of a
-- closure and keep its size, so that a guest's memory is written where the guest asks and nowhere else.
use sand_os.Base.{
  ℕ, if◌then◌else◌, ◌+◌, min, ◌≤◌, ◌≡◌, refl, ◌∙◌, inl, inr, arith, List, ◌++◌, length, take, drop,
  length-append, length-take, length-drop, splice, length-splice, Bool-cases, ltb,
}
use sand_os.Base.Int.{ℤ, pos, as_u32}
use sand_os.Sandbox.{as_usize}
use sand_os.Base.Bytes.{to_le_bytes, length-to_le_bytes}
use sand_os.Abi.Inference.{InferenceResult}
use sand_os.Abi.Inference as Result
use sand_os.Abi.OtaStatus.{OtaStatus}
use sand_os.Abi.OtaStatus as Status
use sand_os.Abi.Telemetry.{TelemetryPacket}
use sand_os.Text.{BoundedString}
use sand_os.Channel.{BoundedQueue}
use sand_os.Bus.{MovementIntent}
use sand_os.Host as Host
use sand_os.Host.Audio.{read_audio_lem}
use sand_os.Mock as Mock
use sand_os.Mock.{MockHost}
use sand_os.Mock.Audio.{read_audio_exact}
use sand_os.Sandbox.Frame.{FillsBuffers}
use sand_os.Sandbox.Hosts.{Board, board_ops, mock_ops}

-- Four bytes written over a buffer that has room for them.
length-write :
    (buf : List ℕ) (at v : ℕ)
    → at + 4 ≤ length buf
    → length (splice buf at (to_le_bytes 4 v)) ≡ length buf
length-write buf at v room =
    length-splice buf at (to_le_bytes 4 v) (omega (arith, length-to_le_bytes 4 v))

pub length-to_bytes :
    (r : InferenceResult) (buf : List ℕ) → length (Result.to_bytes r buf).1 ≡ length buf
unfolding Result.to_bytes
length-to_bytes r buf = elim (Bool-cases (ltb (length buf) 12)) [
  | inl short ↦ rw short refl
  | inr room ↦
      let e1 = length-write buf 0 flag (ground arith) in
      let b1 = splice buf 0 (to_le_bytes 4 flag) in
      let e2 = length-write b1 4 r.top_class (ground arith) in
      let b2 = splice b1 4 (to_le_bytes 4 r.top_class) in
      rw room (length-write b2 8 r.confidence_pct (ground arith) ∙ e2 ∙ e1)
]
  where
    flag : ℕ
    flag = if r.active then 1 else 0

pub length-to_bytes_status :
    (s : OtaStatus) (buf : List ℕ) → length (Status.to_bytes s buf).1 ≡ length buf
unfolding Status.to_bytes
length-to_bytes_status s buf = elim (Bool-cases (ltb (length buf) 16)) [
  | inl short ↦ rw short refl
  | inr room ↦
      let e1 = length-write buf 0 (Status.discriminant s.state) (ground arith) in
      let b1 = splice buf 0 (to_le_bytes 4 (Status.discriminant s.state)) in
      let e2 = length-write b1 4 s.bytes_received (ground arith) in
      let b2 = splice b1 4 (to_le_bytes 4 s.bytes_received) in
      let e3 = length-write b2 8 s.total_size (ground arith) in
      let b3 = splice b2 8 (to_le_bytes 4 s.total_size) in
      rw room (length-write b3 12 s.swap_count (ground arith) ∙ e3 ∙ e2 ∙ e1)
]

-- The first `n` bytes replaced.
length-filled :
    (n : ℕ) (out held : List ℕ)
    → n ≤ length out
    → n ≤ length held
    → length (take n held ++ drop n out) ≡ length out
length-filled n out held ho hh =
    omega (arith, length-append (take n held) (drop n out), length-take n held, length-drop n out)

-- What `reads_within` asks of an answer.
abbrev Within : List ℕ → ℤ → List ℕ → Type 0
Within out code bytes = (as_usize code ≤ length out) × (length bytes ≡ length out)

filled-Within :
    (out held : List ℕ)
    → let n = min (length out) (length held) in Within out (pos n) (take n held ++ drop n out)
filled-Within out held =
    let n = min (length out) (length held) in
    (unfold as_u32 in omega arith, length-filled n out held (omega arith) (omega arith))

pub mock-FillsBuffers : FillsBuffers mock_ops
mock-FillsBuffers = record {
  reads_within = λ out k small. rw (read_audio_exact out k small) (filled-Within out k.audio_buf);
  infers_within = infers;
  updates_within = updates;
}
  where
    infers : (out : List ℕ) (k : MockHost) → length (Mock.get_local_inference out k).1 ≡ length out
    infers out k =
        unfold Mock.get_local_inference in
        elim (Bool-cases (ltb (length out) 12)) [
          | inl short ↦ rw short refl
          | inr room ↦ rw room (length-to_bytes k.inference_result out)
        ]

    updates : (out : List ℕ) (k : MockHost) → length (Mock.get_ota_status out k).1 ≡ length out
    updates out k =
        unfold Mock.get_ota_status in
        elim (Bool-cases (ltb (length out) 16)) [
          | inl short ↦ rw short refl
          | inr room ↦ rw room (length-to_bytes_status _ out)
        ]

module _ (T : BoundedString 256) (A : BoundedQueue ℕ 8192) (I : BoundedQueue MovementIntent 8)
    (Q : BoundedQueue TelemetryPacket 32) where
  pub board-FillsBuffers : FillsBuffers (board_ops T A I Q)
  board-FillsBuffers = record {
    reads_within = reads;
    infers_within = infers;
    updates_within = updates;
  }
    where
      reads :
          (out : List ℕ) (b : Board T A I Q)
          → length out ≤ 1024
          → Within out (Host.read_audio T A out b.abi).0 (Host.read_audio T A out b.abi).1.0
      reads out b small = elim (read_audio_lem T A out b.abi (omega arith)) [
        | inl read ↦ rw (read.1, read.2) (filled-Within out (A.contents b.abi.audio_buf))
        | inr big ↦ ground arith
      ]

      infers :
          (out : List ℕ) (b : Board T A I Q)
          → length (Host.get_local_inference out b.inference_word).1 ≡ length out
      infers out b =
          unfold Host.get_local_inference in
          elim (Bool-cases (ltb (length out) 12)) [
            | inl short ↦ rw short refl
            | inr room ↦ rw room (length-to_bytes _ out)
          ]

      updates :
          (out : List ℕ) (b : Board T A I Q)
          → length (Host.get_ota_status T A out b.abi).1 ≡ length out
      updates out b =
          unfold Host.get_ota_status in
          elim (Bool-cases (ltb (length out) 16)) [
            | inl short ↦ rw short refl
            | inr room ↦ rw room (length-to_bytes_status _ out)
          ]
