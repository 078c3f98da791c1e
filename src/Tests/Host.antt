-- ===== src/Tests/Host.antt =====
-- Runs of the model of firmware/src/core0/abi.rs, and its theorems at concrete inputs.
use sand_os.Base.{ℕ, ◌≤◌, ◌<◌, ◌≡◌, ◌⊎◌, refl, arith, List, [], ◌∷◌, none, some, length, replicate}
use sand_os.Base.Int.{pos, negsuc}
use sand_os.Abi.Status.{ok, err_invalid_arg, err_bounds}
use sand_os.Abi.Telemetry.{TelemetryPacket, odometry}
use sand_os.Abi.OtaStatus as OtaStatus
use sand_os.Channel.{BoundedQueue, list_queue}
use sand_os.Text.{BoundedString, list_string, first_byte, from_utf8}
use sand_os.Display as Display
use sand_os.Host.{AbiHost, new, write_text, read_audio, get_ota_status}
use sand_os.Host.Written.{write_text_lem}
use sand_os.Host.Audio.{read_audio_lem}
use sand_os.Host.Reports.{Call, calls, no_update, toggling, drawing, writing, get_ota_status-calls}
use sand_os.Host.Requests.{emit_packet, Emitted, emit-serialized}

abbrev strings : BoundedString 256
strings = list_string 256

abbrev microphone : BoundedQueue ℕ 8192
microphone = list_queue ℕ 8192

abbrev telemetry_queue : BoundedQueue TelemetryPacket 32
telemetry_queue = list_queue TelemetryPacket 32

-- A host whose microphone has three bytes.
abbrev host : AbiHost strings microphone
host = record (new strings microphone (Display.new strings)) { audio_buf = 7 ∷ 8 ∷ 9 ∷ [] }

-- The letter a and the euro sign.
abbrev euro : List ℕ
euro = 0x61 ∷ 0xe2 ∷ 0x82 ∷ 0xac ∷ []

euro_chars : from_utf8 euro ≡ some ((0x61 ∷ []) ∷ (0xe2 ∷ 0x82 ∷ 0xac ∷ []) ∷ [])
unfolding from_utf8 first_byte
euro_chars = refl

-- A surrogate is no text.
surrogate_refused : from_utf8 (0xed ∷ 0xa0 ∷ 0x80 ∷ []) ≡ none
unfolding from_utf8 first_byte
surrogate_refused = refl

write_text_lem_example :
    ((length euro ≤ 256)
      × ((chars : List (List ℕ)) × (from_utf8 euro ≡ some chars))
      × ((write_text strings microphone euro host).0 ≡ ok)
      × ((write_text strings microphone euro host).1.display.last_text ≡ euro))
    ⊎ (((length euro ≤ 256)
          × (from_utf8 euro ≡ none)
          × (write_text strings microphone euro host ≡ (err_invalid_arg, host)))
        ⊎ ((256 < length euro) × (write_text strings microphone euro host ≡ (err_bounds, host))))
write_text_lem_example = write_text_lem strings microphone euro host (omega arith)

abbrev room : List ℕ
room = 0 ∷ 0 ∷ []

read_audio_lem_example :
    ((length room ≤ 1024)
      × ((read_audio strings microphone room host).0 ≡ pos 2)
      × ((read_audio strings microphone room host).1.0 ≡ 7 ∷ 8 ∷ [])
      × ((read_audio strings microphone room host).1.1.audio_buf ≡ 9 ∷ []))
    ⊎ ((1024 < length room)
        × (read_audio strings microphone room host ≡ (err_bounds, (room, host))))
read_audio_lem_example = read_audio_lem strings microphone room host (omega arith)

abbrev buffer : List ℕ
buffer = replicate 20 0

abbrev served : List (Call strings microphone)
served = toggling ∷ drawing (pos 3) ∷ writing euro ∷ []

get_ota_status-calls_example :
    OtaStatus.from_bytes
      (get_ota_status strings microphone buffer
        (calls strings microphone served (new strings microphone (Display.new strings)))).1
    ≡ some no_update
get_ota_status-calls_example =
    get_ota_status-calls strings microphone served (Display.new strings) buffer (omega arith)

abbrev wheels : TelemetryPacket
wheels = odometry (record {
  sequence = 1;
  timestamp_us = 2;
  loop_time_us = 3;
  left_speed = pos 4;
  right_speed = negsuc 4;
})

emit-serialized_example :
    Emitted telemetry_queue wheels [] (emit_packet telemetry_queue wheels buffer [])
emit-serialized_example = emit-serialized telemetry_queue wheels buffer [] (omega arith) refl
