-- ===== src/Lib.antt =====
-- SandOS: a robot firmware for the ESP32-S3 with two cores. Core 0 receives commands over ESP-NOW
-- (firmware/src/core0/espnow.rs), receives new Wasm binaries in chunks (core0/ota.rs), and runs the
-- robot's program in a Wasm sandbox; Core 1 runs the balance loop (core1/mod.rs). The cores share
-- atomic words (motors.rs). The crate abi/ holds the types and encodings that all parts share.
--
-- Which file models which part:
-- - Base and its children: shared operators and lemmas; fixed-width integers (Base/Int), bit operations
--   (Base/Bits), little-endian bytes (Base/Bytes), slices and `copy_from_slice` (Base/Slices).
-- - Abi: abi/src/lib.rs. A module per type: Status (codes and limits), Eye, Memory
--   (`validate_ptr_len`), ImuReading, Cdr (`CdrSerializer`), Telemetry, Crc (`crc32`), Inference,
--   OtaStatus, Command (`EspNowCommand` and `cmd`).
-- - Ota: firmware/src/core0/ota.rs. `OtaReceiver` is the struct; each method is a function that
--   returns the result and the next receiver. Ota/Invariant has the events that change a receiver and
--   their runs; Ota/Graph the documented state machine; Ota/Chunks and Ota/Transfer a sender's view.
-- - Radio: firmware/src/core0/espnow.rs. `Link` is the reception time and the receiver that the task
--   owns; what `handle_frame` hands to the executor's channel and signal is a list of effects. A pass
--   of the task is in Radio/Task, over the telemetry queue; Radio/Task/Drains is about its passes and
--   the pushes of other tasks in between, Radio/Update about a binary that is sent in frames.
-- - Core0: `brain_task` of firmware/src/core0/mod.rs. The radio task and the Wasm task share the command
--   queue and the swap signal; `run` is an interleaving of their steps. Core0/Queue is about the order
--   of the commands, Core0/Commands about one command frame, Core0/Rest about the end of the work.
--   The watchdog is only in comments of the source; no step resets the core.
-- - Motors: firmware/src/motors.rs, as functions on the two words; Motors/Race runs the functions of
--   both cores, one atomic access at a time, as a step relation.
-- - Inference: firmware/src/inference.rs, the stub engine (`run`) and the shared result word.
-- - Bus, Sensors, Telemetry: firmware/src/message_bus.rs, sensors.rs and telemetry.rs: the words and
--   queues between the tasks and the cores.
-- - Router: firmware/src/router.rs. `Brain` is the statics that the task shares; `iteration` is a turn
--   of its loop. Router/Drive and Router/Speeds put it together with the host's call for speeds.
-- - Text: UTF-8 as the standard library reads it, and the interface of a bounded string.
-- - Display, Host: firmware/src/display/mod.rs and core0/abi.rs. A method of `AbiHost` is a function of
--   the host and of the words and queues that it touches.
-- - Pid, Ulp: firmware/src/core1/pid.rs, over an interface of f32, and ulp/mod.rs.
-- - Core1: firmware/src/core1/mod.rs, the simulated IMU (Core1/Wave), the blending of the outputs, the
--   telemetry of a pass (Core1/Outputs) and a whole pass (Core1/Tick, Core1/Balanced).
-- - Engine: `wasm_run_task` and `build_vm` of firmware/src/core0/wasm_vm.rs, over an interface of the
--   interpreter. A pass of the loop is a function of the swap signal and the command it finds;
--   its outcomes are a task that goes on, one that has returned, and one in a call of the guest that
--   never returns. Engine/Steps tells the runs as a relation, by the calls of the interpreter.
-- - Sandbox: the closures of `build_linker` in the same file, and the three that only
--   host-tests/src/vm_harness.rs registers, over the methods of any host (`HostOps`). `Vm` is a guest's
--   memory and the host behind it. Sandbox/Frame is about what a call writes; Sandbox/Simulates and
--   Simulation about two hosts whose methods agree; Sandbox/Hosts, View, Mirrors, Sends and Mocked
--   make the firmware's host and the mock such a pair.
-- - Mock: host-tests/src/mock_host.rs, its state in Mock/State; its OTA calls are Mock/Ota, compared
--   with the receiver of the firmware in Mock/Agrees and Mock/Swap, and its inference is Mock/Learn.
-- - Harness: host-tests/src/vm_harness.rs, over the methods of any host: its closures, with what panics
--   on the machine that runs the tests, and in Harness/Load the rest of `WasmHarness`. Harness/Agrees,
--   Pieces, Closures and Runs compare the closures with those of the firmware. Harness/Counted adds
--   the counters of the mock that panic on overflow, Harness/Counts how far a call counts.
-- - Guest: wasm-apps/src/lib.rs, over the closures of Sandbox, its buffers in Guest/Buffers. The
--   addresses that the compiler gives to the guest's locals are a record (`Layout`); that they lie in
--   the memory is a hypothesis. Guest/Queued, Balance and Follow are about its commands on the mock,
--   Guest/Steer about the way from the microphone through router, host and guest to the motors.
-- - Channel: the interface of a bounded queue of the executor's crates, and an instance of it.
-- - Tests: runs at concrete inputs, and each theorem at one.
--
-- Integers: an unsigned w-bit integer is a natural number with `% 2 ^ w` where the code wraps or
-- casts; a signed one is an integer with its range as a hypothesis. Bytes are naturals below 256,
-- which is a hypothesis where it matters. The additions of counters wrap as in the release profile,
-- but for Harness/Counted.
-- All loops of the source that are modelled run over a list or a fixed count, so no fuel is used; a
-- task's endless loop is a function of one pass, and its runs are lists of passes or steps.
--
-- Queues (embassy's `Channel`, heapless' `Deque`) and strings (heapless' `String`) are records of
-- operations and of the laws that their documentation states; a list meets them.
--
-- The arithmetic of f32 is a record of operations, with laws only on comparisons and on the cast to an
-- integer. A panic is the result none. The tests' harness is built with overflow checks or without: a
-- parameter says which.
--
-- Not modelled: the radio driver, the executor, the interpreter (wasmi) and the peripherals, which are
-- not code of the repository; the boot code in firmware/src/main.rs, which only starts the parts; the
-- string constants of the ABI; the tests of the repository. A pass of Core 1 is modelled as a whole,
-- without the other core between its accesses; Motors/Race has the interleavings.
pub mod Base
pub mod Abi
pub mod Ota
pub mod Channel
pub mod Mock
pub mod Motors
pub mod Radio
pub mod Inference
pub mod Bus
pub mod Sensors
pub mod Telemetry
pub mod Text
pub mod Display
pub mod Router
pub mod Host
pub mod Sandbox
pub mod Guest
pub mod Harness
pub mod Core0
pub mod Engine
pub mod Pid
pub mod Ulp
pub mod Core1
pub mod Tests
