-- ===== src/TransferQueue.antt =====
-- `src/downloadqueue.c`: the queue of downloads, the three transferers and the threads that use them.
pub mod State
pub mod Steps
pub mod Capacity
pub mod Slots
pub mod Queue
pub mod Active
pub mod QueueRun
pub mod Filling
mod Runs
