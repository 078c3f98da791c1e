-- ===== src/Tests.antt =====
-- Runs at concrete inputs, and the theorems at concrete inputs.
mod Abi
mod Ota
mod Motors
mod Radio
mod Inference
mod Router
mod Host
mod Core1
mod Sandbox
mod Steer
mod Harness
mod Mock
mod Guest
mod Engine
mod Core0
mod Pid
