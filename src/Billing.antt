-- ===== src/Billing.antt =====
-- The billing component of the platform server (server/src/billing/).
pub mod Ladder
pub mod Model
pub mod Quota
pub mod Tables
pub mod Reads
pub mod Reserve
pub mod Settle
pub mod Rows
pub mod Turn
pub mod Ledger
pub mod Order
pub mod Aborted
pub mod View
mod Tests
