-- ===== src/Fraudproof.antt =====
-- The crate sena-fraudproof: assertions, disputes, and the parties that play them.
pub mod Bisection
pub mod Assertion
pub mod Verifier
pub mod Osp
mod Tests
mod ChainTests
mod PlayerTests
mod OspTests
