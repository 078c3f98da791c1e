-- ===== src/Tests/Sandbox.antt =====
-- Runs of the model of firmware/src/core0/wasm_vm.rs, and its theorems at concrete inputs.
use sand_os.Base.{
  ℕ, ◌≡◌, refl, sym, arith, List, [], ◌∷◌, Option, none, some, length, replicate, slice,
}
use mathlib.Core.Option.{none-ne-some, some-injective}
use mathlib.Core.Path.{subst}
use sand_os.Base.Int.{ℤ, pos, negsuc}
use sand_os.Abi.Telemetry.{TelemetryPacket}
use sand_os.Text.{BoundedString, list_string, from_utf8, first_byte}
use sand_os.Channel.{BoundedQueue, list_queue}
use sand_os.Bus.{MovementIntent}
use sand_os.Motors.{initial}
use sand_os.Display as Display
use sand_os.Host as Host
use sand_os.Mock.{default_host}
use sand_os.Sandbox.{HostCall, call, calls, inferring, logging, driving, brightening, read_memory}
use sand_os.Sandbox.Frame.{Framed, Outside, call-Framed}
use sand_os.Sandbox.Buffers.{mock-FillsBuffers}
use sand_os.Sandbox.Hosts.{Board, board_ops, mock_ops}
use sand_os.Sandbox.View.{Mirrors, IsLoggable, HasRoom}
use sand_os.Sandbox.Simulates.{AllAgreed}

abbrev pub memory : List ℕ
memory = 0x61 ∷ 0x62 ∷ replicate 30 7

call-Framed_example : Framed (Outside (inferring (pos 4))) (some memory) (
    (call mock_ops
      (inferring (pos 4))
      (record { memory = some memory; host = default_host })).1.memory)
call-Framed_example = call-Framed mock_ops mock-FillsBuffers (inferring (pos 4)) memory default_host

abbrev pub strings : BoundedString 256
strings = list_string 256

abbrev pub microphone : BoundedQueue ℕ 8192
microphone = list_queue ℕ 8192

abbrev pub intents : BoundedQueue MovementIntent 8
intents = list_queue MovementIntent 8

abbrev pub packets : BoundedQueue TelemetryPacket 32
packets = list_queue TelemetryPacket 32

-- A board at boot.
abbrev pub board : Board strings microphone intents packets
board = record {
  abi = Host.new strings microphone (Display.new strings);
  now_ms = 0;
  motors = initial;
  intents = [];
  telemetry = [];
  imu_data = 0;
  inference_word = 0;
}

pub board-Mirrors : Mirrors strings microphone intents packets board default_host
unfolding sand_os.Sensors.load_imu sand_os.Abi.ImuReading.decode Host.new
    sand_os.Inference.load_inference_result sand_os.Abi.Inference.unpack
    sand_os.Motors.is_motor_enabled sand_os.Base.Int.as_i32
board-Mirrors = refl

-- A text, a motor command and a brightness.
abbrev pub some_calls : List HostCall
some_calls = logging (pos 0) (pos 2) ∷ driving (pos 100) (negsuc 99) ∷ brightening (pos 9) ∷ []

ab-IsLoggable : IsLoggable (read_memory (pos 0) (pos 2) memory)
unfolding from_utf8 first_byte read_memory slice sand_os.Base.Int.as_u32
ab-IsLoggable bad = none-ne-some _ (sym bad)

pub some_calls-AllAgreed :
    AllAgreed
      (board_ops strings microphone intents packets)
      IsLoggable
      (HasRoom strings microphone intents packets)
      some_calls
      (record { memory = some memory; host = board })
unfolding AllAgreed call sand_os.Sandbox.debug_log sand_os.Sandbox.validated
    sand_os.Abi.Memory.validate_ptr_len sand_os.Base.Int.as_u32
some_calls-AllAgreed = (loggable, (omega arith, (tt, tt)))
  where
    loggable :
        (mem : List ℕ) → some memory ≡ some mem → IsLoggable (read_memory (pos 0) (pos 2) mem)
    loggable mem e =
        subst (λ z. IsLoggable (read_memory (pos 0) (pos 2) z)) (some-injective memory mem e)
          ab-IsLoggable
