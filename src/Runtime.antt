-- ===== src/Runtime.antt =====
-- crates/nexus-move-runtime: the execution facade.
pub mod Config
pub mod Data
pub mod Gas
pub mod Metering
pub mod InstrGas
pub mod State
pub mod Changes
pub mod Resources
pub mod Session
pub mod Publisher
pub mod Executor
pub mod Signature
pub mod Abi
pub mod Backend
pub mod Contract
