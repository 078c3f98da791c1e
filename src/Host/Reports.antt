-- ===== src/Host/Reports.antt =====
-- firmware/src/core0/abi.rs, the calls that fill a buffer of the guest: what they write and where.
use sand_os.Base.{
  ℕ, ◌≤◌, ◌<◌, ◌≡◌, ◌⊎◌, refl, ◌∙◌, inl, inr, arith, List, [], ◌∷◌, some, length, ltb, Bool-cases,
}
use sand_os.Base.Int.{ℤ, pos, negsuc}
use sand_os.Abi.Status.{ok, err_bounds}
use sand_os.Abi.Inference.{InferenceResult}
use sand_os.Abi.Inference.RoundTrip.{from_bytes-to_bytes}
use sand_os.Abi.Inference as Result
use sand_os.Inference.{run, store_inference_result}
use sand_os.Inference.Range.{run-IsResult, load-store-run}
use sand_os.Abi.OtaStatus.{OtaStatus, idle}
use sand_os.Abi.OtaStatus as Ota
use sand_os.Abi.OtaStatus.RoundTrip.{IsStatus, from_bytes-to_bytes_status}
use sand_os.Text.{BoundedString}
use sand_os.Channel.{BoundedQueue}
use sand_os.Display.{DisplayDriver}
use sand_os.Host.{
  AbiHost, new, get_local_inference, toggle_led, start_audio_capture, stop_audio_capture, draw_eye,
  set_brightness, write_text, read_audio, get_ota_status,
}

-- After an inference pass the guest reads its result, whatever it had in the buffer; a buffer that is
-- too small is refused and left alone.
pub get_local_inference-run :
    (tensor : List ℤ) (word : ℕ) (out : List ℕ)
    → ((12 ≤ length out)
        × ((get_local_inference out (store_inference_result (run tensor) word)).0 ≡ ok)
        × (Result.from_bytes (get_local_inference out (store_inference_result (run tensor) word)).1
            ≡ some (run tensor)))
      ⊎ ((length out < 12) × (get_local_inference out word ≡ (err_bounds, out)))
unfolding get_local_inference
get_local_inference-run tensor word out = elim (Bool-cases (ltb (length out) 12)) [
  | inl short ↦ inr (ground arith, rw short refl)
  | inr room ↦ inl (
    ground arith,
    rw room refl,
    rw (room, (load-store-run tensor word).0)
        (from_bytes-to_bytes (run tensor) out (run-IsResult tensor) (ground arith)),
  )
]

-- The status of a receiver that has never received anything.
abbrev pub no_update : OtaStatus
no_update = record { state = idle; bytes_received = 0; total_size = 0; swap_count = 0 }

no_update-IsStatus : IsStatus no_update
no_update-IsStatus = record {
  received_in = omega arith;
  total_in = omega arith;
  swaps_in = omega arith;
}

-- The calls that change a host.
module _ (T : BoundedString 256) (A : BoundedQueue ℕ 8192) where
  pub data Call : Type 0 where
    toggling starting stopping : Call
    drawing brightening : ℤ → Call
    writing reading : List ℕ → Call

  unfoldable pub call : Call → AbiHost T A → AbiHost T A
  call toggling h = (toggle_led T A h).1
  call starting h = (start_audio_capture T A h).1
  call stopping h = (stop_audio_capture T A h).1
  call (drawing raw) h = (draw_eye T A raw h).1
  call (brightening value) h = (set_brightness T A value h).1
  call (writing bytes) h = (write_text T A bytes h).1
  call (reading out) h = (read_audio T A out h).1.1

  unfoldable pub calls : List Call → AbiHost T A → AbiHost T A
  calls [] h = h
  calls (c ∷ cs) h = calls cs (call c h)

  -- The OTA fields of a host.
  abbrev pub ota_fields : AbiHost T A → OtaStatus
  ota_fields h = record {
    state = h.ota_state;
    bytes_received = h.ota_bytes_received;
    total_size = h.ota_expected_size;
    swap_count = h.hot_swap_count;
  }

  ota_fields-call : (c : Call) (h : AbiHost T A) → ota_fields (call c h) ≡ ota_fields h
  unfolding call toggle_led start_audio_capture stop_audio_capture set_brightness read_audio
      draw_eye write_text
  ota_fields-call toggling h = refl
  ota_fields-call starting h = refl
  ota_fields-call stopping h = refl
  ota_fields-call (drawing raw) h = ground arith
  ota_fields-call (brightening (pos n)) h = ground arith
  ota_fields-call (brightening (negsuc n)) h = refl
  ota_fields-call (writing bytes) h = ground arith
  ota_fields-call (reading out) h = ground arith

  ota_fields-calls : (cs : List Call) (h : AbiHost T A) → ota_fields (calls cs h) ≡ ota_fields h
  unfolding calls
  ota_fields-calls [] h = refl
  ota_fields-calls (c ∷ cs) h = ota_fields-calls cs (call c h) ∙ ota_fields-call c h

  -- Whatever calls a host has served, the OTA status that the guest reads is that of a receiver that
  -- has never received anything: no call updates the fields it is made of.
  pub get_ota_status-calls :
      (cs : List Call) (display : DisplayDriver T) (out : List ℕ)
      → 16 ≤ length out
      → Ota.from_bytes (get_ota_status T A out (calls cs (new T A display))).1 ≡ some no_update
  unfolding get_ota_status
  get_ota_status-calls cs display out h = elim (Bool-cases (ltb (length out) 16)) [
    | inl short ↦ ground arith
    | inr room ↦ rw (room, fields) (from_bytes-to_bytes_status no_update out no_update-IsStatus h)
  ]
    where
      fields : ota_fields (calls cs (new T A display)) ≡ no_update
      fields = unfold new in ota_fields-calls cs (new T A display)
