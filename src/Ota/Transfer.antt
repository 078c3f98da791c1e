-- ===== src/Ota/Transfer.antt =====
-- firmware/src/core0/ota.rs: a whole transfer, and a transfer with a corrupted byte.
use sand_os.Base.{
  ℕ, ◌+◌, ◌^◌, ◌≤◌, ◌<◌, ◌≡◌, ◌≢◌, ◌⊎◌, refl, ap, ◌∙◌, inl, inr, arith, List, [], ◌∷◌, ◌++◌, some,
  none, false, length, length-replicate, get_or, eq_of_entries, All, All-append, slice,
}
use sand_os.Base.Bytes.{
  IsByte, to_le_bytes, from_le_bytes, from_le_bytes-to_le_bytes, length-to_le_bytes,
}
use sand_os.Abi.OtaStatus.{receiving, ready, swapping, failed, ota_max_binary_size}
use sand_os.Abi.Telemetry.{read_u32}
use sand_os.Abi.Crc.{crc32}
use sand_os.Abi.Crc.Detect.{crc32-lt, crc32-detects}
use sand_os.Abi.Command.{ota_begin, ota_chunk, ota_finalize}
use sand_os.Ota.{
  OtaReceiver, ready_binary, handle_begin, handle_finalize, handle_command, take_verified_binary,
}
use sand_os.Ota.Chunks.{
  Chunk, chunk_payload, IsPart, Staging, splice-part_inside, splice-part_outside, where_is,
  received, received-Staging, received-buffer,
}

-- Some chunk holds the byte at the index.
abbrev pub Covers : List Chunk → ℕ → Type 0
Covers [] i = ⊥
Covers (c ∷ cs) i = ((c.offset ≤ i) × (i < c.offset + length c.bytes)) ⊎ Covers cs i

unfoldable pub send : List Chunk → OtaReceiver → OtaReceiver
send [] r = r
send (c ∷ cs) r = send cs (handle_command ota_chunk (chunk_payload c) r).1

send-Staging :
    (cs : List Chunk) (binary : List ℕ) (r : OtaReceiver)
    → length binary ≤ ota_max_binary_size
    → All (IsPart binary) cs
    → Staging binary r
    → Staging binary (send cs r)
unfolding send received
send-Staging [] binary r small parts staging = staging
send-Staging (c ∷ cs) binary r small parts staging =
    send-Staging cs binary (received c r) small parts.1
      (received-Staging binary c r small parts.0 staging)

-- An entry that is right before, or that some chunk covers, is right after the chunks.
send-entry :
    (cs : List Chunk) (binary : List ℕ) (r : OtaReceiver) (i : ℕ)
    → length binary ≤ ota_max_binary_size
    → All (IsPart binary) cs
    → Staging binary r
    → (get_or r.buffer i 0 ≡ get_or binary i 0) ⊎ Covers cs i
    → get_or (send cs r).buffer i 0 ≡ get_or binary i 0
unfolding send received
send-entry [] binary r i small parts staging (inl right) = right
send-entry [] binary r i small parts staging (inr none_left) = absurd none_left
send-entry (c ∷ cs) binary r i small parts staging h =
    send-entry cs binary (received c r) i small parts.1
      (received-Staging binary c r small parts.0 staging) (after h)
  where
    inside :
        (c.offset ≤ i) × (i < c.offset + length c.bytes)
        → get_or (received c r).buffer i 0 ≡ get_or binary i 0
    inside p =
        ap (λ t. get_or t i 0) (received-buffer binary c r small parts.0 staging)
        ∙ splice-part_inside binary r.buffer c i parts.0 staging.sized p.0 p.1

    kept :
        get_or r.buffer i 0 ≡ get_or binary i 0
        → get_or (received c r).buffer i 0 ≡ get_or binary i 0
    kept right = elim (where_is c i) [
      | inl p ↦ inside p
      | inr out ↦
          ap (λ t. get_or t i 0) (received-buffer binary c r small parts.0 staging)
          ∙ splice-part_outside binary r.buffer c i parts.0 staging.sized out
          ∙ right
    ]

    after :
        (get_or r.buffer i 0 ≡ get_or binary i 0) ⊎ Covers (c ∷ cs) i
        → (get_or (received c r).buffer i 0 ≡ get_or binary i 0) ⊎ Covers cs i
    after (inl right) = inl (kept right)
    after (inr (inl p)) = inl (inside p)
    after (inr (inr later)) = inr later

read_u32-word : (v : ℕ) → v < 2 ^ 32 → read_u32 (to_le_bytes 4 v) 0 ≡ v
read_u32-word v h = four ∙ from_le_bytes-to_le_bytes 4 v (omega arith)
  where
    four : read_u32 (to_le_bytes 4 v) 0 ≡ from_le_bytes (to_le_bytes 4 v)
    four = unfold read_u32 slice to_le_bytes in refl

begin-Staging :
    (binary : List ℕ) (r : OtaReceiver)
    → r.state ≢ swapping
    → 0 < length binary
    → length binary ≤ ota_max_binary_size
    → Staging binary (handle_command ota_begin (to_le_bytes 4 (length binary)) r).1
unfolding handle_command handle_begin
begin-Staging binary r free some_bytes small = ground (
  arith,
  read_u32-word (length binary),
  length-to_le_bytes 4 (length binary),
  length-replicate {A = ℕ} (length binary) 0,
)

-- The sender's side: announce the size, send the chunks, send the checksum.
unfoldable pub transfer : List ℕ → List Chunk → OtaReceiver → OtaReceiver
transfer binary cs r =
    let announced = (handle_command ota_begin (to_le_bytes 4 (length binary)) r).1 in
    (handle_command ota_finalize (to_le_bytes 4 (crc32 binary)) (send cs announced)).1

handle_finalize-match :
    (binary : List ℕ) (r : OtaReceiver)
    → crc32 binary < 2 ^ 32
    → r.state ≡ receiving
    → r.buffer ≡ binary
    → (handle_command ota_finalize (to_le_bytes 4 (crc32 binary)) r).1 ≡ record r { state = ready }
unfolding handle_command handle_finalize
handle_finalize-match binary r fits active same =
    ground (arith, read_u32-word (crc32 binary), length-to_le_bytes 4 (crc32 binary), ap crc32 same)

-- A transfer from any state but a hand-over in progress, of a binary within the limit, in chunks
-- cut from the binary that together cover it, in any order, with overlaps and repeats, ends ready;
-- the receiver then offers exactly that binary, and handing it over returns exactly it.
pub take_verified_binary-transfer :
    (binary : List ℕ) (cs : List Chunk) (r : OtaReceiver)
    → r.state ≢ swapping
    → 0 < length binary
    → length binary ≤ ota_max_binary_size
    → All IsByte binary
    → All (IsPart binary) cs
    → ((i : ℕ) → i < length binary → Covers cs i)
    → (ready_binary (transfer binary cs r) ≡ some binary)
      × ((take_verified_binary (transfer binary cs r)).0 ≡ some binary)
unfolding transfer
take_verified_binary-transfer binary cs r free some_bytes small bytes parts covered =
    rw (handle_finalize-match binary staged (crc32-lt binary bytes) staging.active whole)
      (unfold ready_binary in ap some whole, unfold take_verified_binary in ap some whole)
  where
    opened : OtaReceiver
    opened = (handle_command ota_begin (to_le_bytes 4 (length binary)) r).1

    start : Staging binary opened
    start = begin-Staging binary r free some_bytes small

    staged : OtaReceiver
    staged = send cs opened

    staging : Staging binary staged
    staging = send-Staging cs binary opened small parts start

    whole : staged.buffer ≡ binary
    whole = eq_of_entries staged.buffer binary 0 staging.sized (λ i lt.
        send-entry cs binary opened i small parts start
          (inr (covered i (omega (arith, staging.sized)))))

-- If the staged buffer differs in one byte, wherever it stands, from the binary whose checksum the
-- sender declares, OTA_FINALIZE is refused, the session fails and no binary is offered.
pub handle_finalize-corrupted :
    (front : List ℕ) (x y : ℕ) (back : List ℕ) (r : OtaReceiver)
    → All IsByte front
    → x < 256
    → y < 256
    → All IsByte back
    → x ≢ y
    → r.state ≡ receiving
    → r.buffer ≡ front ++ (x ∷ back)
    → let (accepted, r') = handle_finalize (to_le_bytes 4 (crc32 (front ++ (y ∷ back)))) r in
      (accepted ≡ false) × (r'.state ≡ failed) × (ready_binary r' ≡ none)
unfolding handle_finalize ready_binary
handle_finalize-corrupted front x y back r hf hx hy hb differ active staged = ground (
  arith,
  read_u32-word (crc32 (front ++ (y ∷ back))),
  crc32-lt (front ++ (y ∷ back)) (All-append IsByte front (y ∷ back) hf (hy, hb)),
  length-to_le_bytes 4 (crc32 (front ++ (y ∷ back))),
  crc32-detects front x y back hf hx hy hb differ,
  ap crc32 staged,
)
