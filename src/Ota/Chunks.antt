-- ===== src/Ota/Chunks.antt =====
-- firmware/src/core0/ota.rs: one chunk of a binary, and what its command does to the staging buffer.
use sand_os.Base.{
  ℕ, ◌+◌, ◌-◌, ◌%◌, ◌^◌, ◌≤◌, ◌<◌, ◌≡◌, ◌⊎◌, refl, sym, ap, ◌∙◌, inl, inr, arith, List, ◌++◌, true,
  length, length-append, drop, get_or, get_or-take, get_or-drop, slice, splice, length-splice,
  get_or-splice_inside, get_or-splice_before, get_or-splice_after,
}
use sand_os.Base.Bytes.{to_le_bytes, from_le_bytes, from_le_bytes-to_le_bytes, length-to_le_bytes}
use sand_os.Abi.OtaStatus.{receiving, ota_max_binary_size}
use sand_os.Abi.Telemetry.{read_u32}
use sand_os.Abi.Command.{ota_chunk}
use sand_os.Ota.{OtaReceiver, handle_chunk, handle_command}

-- A chunk as the sender cuts it from the binary, and its payload.
pub record Chunk : Type 0 where
  pub offset : ℕ
  pub bytes : List ℕ

abbrev pub chunk_payload : Chunk → List ℕ
chunk_payload c = to_le_bytes 4 c.offset ++ c.bytes

-- The chunk is a part of the binary, and not empty.
pub record IsPart (binary : List ℕ) (c : Chunk) : Type 0 where
  pub within : c.offset + length c.bytes ≤ length binary
  pub something : 0 < length c.bytes
  pub cut : c.bytes ≡ slice binary c.offset (length c.bytes)

read_u32-payload : (v : ℕ) (rest : List ℕ) → v < 2 ^ 32 → read_u32 (to_le_bytes 4 v ++ rest) 0 ≡ v
read_u32-payload v rest h = four ∙ from_le_bytes-to_le_bytes 4 v (omega arith)
  where
    four : read_u32 (to_le_bytes 4 v ++ rest) 0 ≡ from_le_bytes (to_le_bytes 4 v)
    four = unfold read_u32 slice to_le_bytes in refl

drop-payload : (v : ℕ) (rest : List ℕ) → drop 4 (to_le_bytes 4 v ++ rest) ≡ rest
unfolding to_le_bytes
drop-payload v rest = refl

length-payload : (v : ℕ) (rest : List ℕ) → length (to_le_bytes 4 v ++ rest) ≡ 4 + length rest
length-payload v rest = omega (arith, length-append (to_le_bytes 4 v) rest, length-to_le_bytes 4 v)

-- A chunk of the binary overwrites its range with the binary's bytes, and nothing else.
pub splice-part_inside :
    (binary buffer : List ℕ) (c : Chunk) (i : ℕ)
    → IsPart binary c
    → length buffer ≡ length binary
    → c.offset ≤ i
    → i < c.offset + length c.bytes
    → get_or (splice buffer c.offset c.bytes) i 0 ≡ get_or binary i 0
splice-part_inside binary buffer c i part size lo hi =
    ap (λ k. get_or (splice buffer c.offset c.bytes) k 0) split
    ∙ get_or-splice_inside buffer c.offset c.bytes (i - c.offset) 0 (omega (arith, part.within))
        (omega arith)
    ∙ ap (λ t. get_or t (i - c.offset) 0) part.cut
    ∙ unfold slice in
      get_or-take (length c.bytes) (i - c.offset) (drop c.offset binary) 0 (omega arith)
      ∙ get_or-drop c.offset (i - c.offset) binary 0
      ∙ ap (λ k. get_or binary k 0) (sym split)
  where
    split : i ≡ c.offset + (i - c.offset)
    split = omega arith

pub splice-part_outside :
    (binary buffer : List ℕ) (c : Chunk) (i : ℕ)
    → IsPart binary c
    → length buffer ≡ length binary
    → (i < c.offset) ⊎ (c.offset + length c.bytes ≤ i)
    → get_or (splice buffer c.offset c.bytes) i 0 ≡ get_or buffer i 0
splice-part_outside binary buffer c i part size (inl before) =
    get_or-splice_before buffer c.offset c.bytes i 0 (omega (arith, part.within)) before
splice-part_outside binary buffer c i part size (inr after) =
    ap (λ k. get_or (splice buffer c.offset c.bytes) k 0) far
    ∙ get_or-splice_after buffer c.offset c.bytes rest 0 (omega (arith, part.within))
    ∙ ap (λ k. get_or buffer k 0) back
  where
    rest : ℕ
    rest = i - (c.offset + length c.bytes)

    far : i ≡ c.offset + (length c.bytes + rest)
    far = omega arith

    back : c.offset + length c.bytes + rest ≡ i
    back = omega arith

-- The receiver in the middle of a transfer of `binary`.
pub record Staging (binary : List ℕ) (r : OtaReceiver) : Type 0 where
  pub active : r.state ≡ receiving
  pub total : r.total_size ≡ length binary
  pub sized : length r.buffer ≡ length binary

handle_chunk-part :
    (binary : List ℕ) (c : Chunk) (r : OtaReceiver)
    → length binary ≤ ota_max_binary_size
    → IsPart binary c
    → Staging binary r
    → handle_command ota_chunk (chunk_payload c) r ≡ (
      true,
      record r {
        buffer = splice r.buffer c.offset c.bytes;
        bytes_received = (r.bytes_received + length c.bytes) % 2 ^ 32;
      },
    )
unfolding handle_command handle_chunk
handle_chunk-part binary c r small part staging = ground (
  arith,
  read_u32-payload c.offset c.bytes (omega (arith, part.within)),
  drop-payload c.offset c.bytes,
  length-payload c.offset c.bytes,
  part.within,
)

pub where_is :
    (c : Chunk) (i : ℕ)
    → ((c.offset ≤ i) × (i < c.offset + length c.bytes))
      ⊎ ((i < c.offset) ⊎ (c.offset + length c.bytes ≤ i))
where_is c i = omega arith

unfoldable pub received : Chunk → OtaReceiver → OtaReceiver
received c r = (handle_command ota_chunk (chunk_payload c) r).1

pub received-Staging :
    (binary : List ℕ) (c : Chunk) (r : OtaReceiver)
    → length binary ≤ ota_max_binary_size
    → IsPart binary c
    → Staging binary r
    → Staging binary (received c r)
unfolding received
received-Staging binary c r small part staging =
    rw (received, handle_chunk-part binary c r small part staging)
      (record {
        active = staging.active;
        total = staging.total;
        sized =
            length-splice r.buffer c.offset c.bytes (omega (arith, part.within, staging.sized))
            ∙ staging.sized;
      })

pub received-buffer :
    (binary : List ℕ) (c : Chunk) (r : OtaReceiver)
    → length binary ≤ ota_max_binary_size
    → IsPart binary c
    → Staging binary r
    → (received c r).buffer ≡ splice r.buffer c.offset c.bytes
unfolding received
received-buffer binary c r small part staging =
    ap (λ p. p.1.buffer) (handle_chunk-part binary c r small part staging)
