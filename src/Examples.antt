-- ===== src/Examples.antt =====
-- Tests and examples: the theorems at concrete inputs.
pub mod Worlds
pub mod Breakers
pub mod Retries
pub mod Uploads
pub mod Jobs
pub mod Approvals
pub mod Timeouts
pub mod Orphans
pub mod Downloads
pub mod Queues
pub mod Sessions
pub mod RateLimits
pub mod Scans
pub mod Documents
pub mod Outlines
pub mod Edits
pub mod Pages
pub mod Keys
pub mod Classifications
pub mod Sweeps
pub mod Conversions
