-- ===== src/Nethttp.antt =====
-- nethttp: the job producer over net/http, with its counters, samples and mutex.
pub mod State
pub mod Atoi
pub mod Itoa
pub mod Job
pub mod Counts
pub mod Times
pub mod Mutex
pub mod Setup
pub mod Summary
pub mod Threads
pub mod Interleavings
pub mod Concurrent
pub mod Schedules
pub mod Interface
pub mod Returns
pub mod Alone
pub mod History
