-- ===== src/Queue.antt =====
-- internal/queue: the lease of the services of which one at a time is active, and the job streams.
pub mod Lease
pub mod Streams
mod Tests
