-- ===== src/Concurrency.antt =====
-- The queues between threads.
pub mod Mpsc
