-- ===== src/Fasthttp.antt =====
-- fasthttp: the job producer over valyala/fasthttp, with its counters and samples.
pub mod Job
pub mod Samples
pub mod Summary
pub mod History
pub mod Threads
pub mod Concurrent
pub mod Progress
pub mod Interface
pub mod Alone
