-- ===== src/Tests.antt =====
-- Runs at concrete inputs: each theorem applied where its hypotheses hold, and values of the code.
pub mod Quarantine
pub mod Access
pub mod Quota
pub mod Gateway
pub mod AuthLimit
pub mod Routes
pub mod Blocks
pub mod Audit
pub mod Trail
pub mod Shelf
