-- ===== src/Abi.antt =====
-- abi/src/lib.rs: the contract between the Wasm guest and the host.
pub mod Status
pub mod Eye
pub mod Memory
pub mod ImuReading
pub mod Cdr
pub mod Telemetry
pub mod Crc
pub mod Inference
pub mod OtaStatus
pub mod Command
