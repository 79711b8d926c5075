-- ===== src/Messages.antt =====
-- The message queue: the table and its statements, the layers above it, and what they keep.
pub mod Model
pub mod Table
pub mod Watch
pub mod World
pub mod Dao
pub mod Service
pub mod Request
pub mod Controller
pub mod Schedule
pub mod Issued
pub mod Handlers
pub mod Calls
pub mod WellFormed
pub mod Edges
pub mod History
pub mod Rows
pub mod Quiet
pub mod Leases
pub mod Exclusion
pub mod Cuts
pub mod Rounds
pub mod Found
pub mod Create
pub mod Channels
