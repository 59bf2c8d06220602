-- ===== src/Kernel.antt =====
-- The storage of the desktop kernel (src/kernel/).
pub mod Messages
pub mod Chain
pub mod Store
pub mod Branches
pub mod Files
pub mod Contract
pub mod Registry
pub mod Dispatch
pub mod Loop
pub mod Scheduler
pub mod Migration
pub mod Mistakes
mod Tests
