-- ===== src/Tests.antt =====
-- The system that the tests run on, and the tests with the witnesses of the theorems.
pub mod Interrupts
pub mod Nics
pub mod Swaps
mod Executions
pub mod Commands
pub mod Gathering
pub mod Disks
pub mod Governors
pub mod Toy
pub mod Memory
pub mod Kernel
mod Runs
mod Files
mod Profiles
mod Mounts
mod Modules
mod Engines
