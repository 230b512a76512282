-- ===== src/Mock.antt =====
-- mock.ts: `MockSoroStreamClient`, the in-memory ledger behind the client's interface.
pub mod State
pub mod Claimable
pub mod Create
pub mod Flows
pub mod Lifecycle
pub mod Access
pub mod Reads
pub mod Backing
pub mod Effects
pub mod Solvency
pub mod Accrual
pub mod Splitting
pub mod Refinement
pub mod Payment
pub mod Creation
mod Tests
