-- ===== src/Stf.antt =====
-- The crate sena-stf: account state, fees, and the instructions of the state transition function.
pub mod Account
pub mod Gas
pub mod Machine
pub mod Instruction
pub mod Social
pub mod Governance
pub mod Keys
pub mod Execute
pub mod Transaction
pub mod Wire
pub mod Signing
pub mod Batch
mod Tests
mod GasTests
mod StepTests
mod WireTests
