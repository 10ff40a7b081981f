-- ===== src/Spool.antt =====
-- internal/eventspool/store.go: the durable event queue. The keys and counters, the database it
-- stands on, the records, the operations, and below them the proofs.
pub mod Bytes
pub mod Bolt
pub mod Types
pub mod Store
pub mod Records
pub mod Invariant
pub mod Enqueue
pub mod Acknowledge
pub mod Batch
pub mod Refinement
