-- ===== src/Queues.antt =====
-- The queues of internal/queue: first in first out with removal, and by weight.
pub mod Fifo
pub mod Contents
pub mod Weighted
pub mod Removal
pub mod Refinement
pub mod Moves
pub mod Adding
pub mod Sorted
pub mod Orders
