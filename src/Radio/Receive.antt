-- ===== src/Radio/Receive.antt =====
-- firmware/src/core0/espnow.rs, `handle_frame`: which frames are accepted and what they do.
use sand_os.Base.{
  ℕ, ◌+◌, ◌≤◌, ◌<◌, ◌≡◌, ◌↔◌, ◌⊎◌, refl, inl, inr, arith, List, [], ◌∷◌, Bool, true, false,
  if◌then◌else◌, not, ◌||◌, ltb, ◌==◌, Bool-cases, length, get_or, take, slice, All, All-slice,
}
use sand_os.Base.Bytes.{IsByte}
use sand_os.Abi.Command.{magic_0, magic_1, ota_begin, ota_chunk, ota_finalize}
use sand_os.Ota.{OtaReceiver, ready_binary, handle_command}
use sand_os.Ota.Invariant.{IsValid, command, step, step-IsValid}
use sand_os.Radio.{
  Effect, swap_signal, enqueue, Link, is_radio_link_alive, signal_ready, dispatch, handle_frame,
}

-- A well-formed frame: header, magic, and a declared length within the limit and the frame.
pub record IsFrame (bytes : List ℕ) : Type 0 where
  pub header : 4 ≤ length bytes
  pub first : get_or bytes 0 0 ≡ magic_0
  pub second : get_or bytes 1 0 ≡ magic_1
  pub limited : get_or bytes 3 0 ≤ 246
  pub complete : 4 + get_or bytes 3 0 ≤ length bytes

abbrev pub frame_payload : List ℕ → List ℕ
frame_payload bytes = slice bytes 4 (get_or bytes 3 0)

-- Exactly the well-formed frames get past the guards; any other changes nothing and does nothing.
handle_frame_cases :
    (bytes : List ℕ) (now : ℕ) (s : Link)
    → (IsFrame bytes
        × (handle_frame bytes now s ≡ dispatch (get_or bytes 2 0) (frame_payload bytes) now s))
      ⊎ ((¬ IsFrame bytes) × (handle_frame bytes now s ≡ (s, [])))
unfolding handle_frame
handle_frame_cases bytes now s = elim (Bool-cases (ltb (length bytes) 4)) [
  | inl short ↦ inr (λ f. ground (arith, f.header), rw short)
  | inr header ↦ elim (Bool-cases (foreign bytes)) [
    | inl other ↦ inr (λ f. ground (arith, f.first, f.second), rw (header, other))
    | inr magic ↦ elim (Bool-cases (cut bytes)) [
      | inl bad ↦ inr (λ f. ground (arith, f.limited, f.complete), rw (header, magic, bad))
      | inr good ↦ inl (
        record {
          header = ground arith;
          first = ground arith;
          second = ground arith;
          limited = ground arith;
          complete = ground arith;
        },
        rw (header, magic, good),
      )
    ]
  ]
]
  where
    foreign : List ℕ → Bool
    foreign b = not (get_or b 0 0 == magic_0) || not (get_or b 1 0 == magic_1)

    cut : List ℕ → Bool
    cut b = ltb 246 (get_or b 3 0) || ltb (length b) (4 + get_or b 3 0)

-- The commands that the receiver intercepts.
abbrev pub is_ota_command : ℕ → Bool
is_ota_command c = c == ota_begin || (c == ota_chunk || c == ota_finalize)

pub handle_command-is_ota :
    (c : ℕ) (p : List ℕ) (r : OtaReceiver)
    → ((is_ota_command c ≡ true) × ((handle_command c p r).0 ≡ true))
      ⊎ ((is_ota_command c ≡ false) × (handle_command c p r ≡ (false, r)))
unfolding handle_command
handle_command-is_ota c p r = ground arith

-- Nothing is queued for the Wasm engine.
abbrev pub OnlySignals : List Effect → Type 0
OnlySignals [] = Unit
OnlySignals (swap_signal n ∷ es) = OnlySignals es
OnlySignals (enqueue c ∷ es) = ⊥

signal_ready-OnlySignals : (r : OtaReceiver) → OnlySignals (signal_ready r)
unfolding signal_ready ready_binary
signal_ready-OnlySignals r = ground arith

-- What an accepted frame does: an OTA command goes to the receiver and to nobody else, any other
-- command leaves the receiver alone and is queued with the first 64 bytes of its payload.
abbrev pub Routed : List ℕ → ℕ → Link → Link × List Effect → Type 0
Routed bytes now s (s', effects) =
    (s'.last_rx_ms ≡ now)
    × (((is_ota_command (get_or bytes 2 0) ≡ true)
          × (s'.ota ≡ (handle_command (get_or bytes 2 0) (frame_payload bytes) s.ota).1)
          × OnlySignals effects)
        ⊎ ((is_ota_command (get_or bytes 2 0) ≡ false)
            × (s'.ota ≡ s.ota)
            × (effects
                ≡ enqueue
                    (record { cmd_id = get_or bytes 2 0; payload = take 64 (frame_payload bytes) })
                  ∷ [])))

dispatch-routes :
    (bytes : List ℕ) (now : ℕ) (s : Link)
    → Routed bytes now s (dispatch (get_or bytes 2 0) (frame_payload bytes) now s)
unfolding dispatch
dispatch-routes bytes now s =
    elim (handle_command-is_ota (get_or bytes 2 0) (frame_payload bytes) s.ota) [
      | inl (ota, handled) ↦
          rw handled (refl, inl (ota, refl, only (get_or bytes 2 0 == ota_finalize) _))
      | inr (other, same) ↦ rw same (refl, inr (other, refl, refl))
    ]
  where
    only : (b : Bool) (r : OtaReceiver) → OnlySignals (if b then signal_ready r else [])
    only true r = signal_ready-OnlySignals r
    only false r = tt

-- Every received frame is either well formed, and then it renews the time of the last reception and
-- is routed by its command, OTA commands to the receiver alone and all others to the queue of the
-- Wasm engine alone; or it is not well formed, and then nothing changes and nothing is sent on.
pub handle_frame_lem :
    (bytes : List ℕ) (now : ℕ) (s : Link)
    → (IsFrame bytes × Routed bytes now s (handle_frame bytes now s))
      ⊎ ((¬ IsFrame bytes) × (handle_frame bytes now s ≡ (s, [])))
handle_frame_lem bytes now s = elim (handle_frame_cases bytes now s) [
  | inl (f, e) ↦ inl (f, rw e (dispatch-routes bytes now s))
  | inr (f, e) ↦ inr (f, e)
]

-- The receiver's invariant survives every frame, well formed or not.
pub handle_frame-IsValid :
    (bytes : List ℕ) (now : ℕ) (s : Link)
    → All IsByte bytes
    → IsValid s.ota
    → IsValid (handle_frame bytes now s).0.ota
handle_frame-IsValid bytes now s a v = elim (handle_frame_lem bytes now s) [
  | inl (f, (time, inl (ota, e, only))) ↦ rw e (
      unfold step in
      step-IsValid (command (get_or bytes 2 0) (frame_payload bytes)) s.ota
        (All-slice IsByte bytes 4 (get_or bytes 3 0) a) v)
  | inl (f, (time, inr (other, e, queued))) ↦ rw e v
  | inr (f, e) ↦ rw e v
]

-- The link counts as alive exactly while less than the threshold has passed since the last frame.
pub is_radio_link_alive_exact :
    (last now : ℕ) → (is_radio_link_alive last now ≡ true) ↔ (now < last + 3000)
unfolding is_radio_link_alive
is_radio_link_alive_exact last now = (λ h. ground arith, λ h. ground arith)
