-- ===== src/Loadgen.antt =====
-- loadgen: the runner that sends jobs through a semaphore, its controls and its report.
pub mod JobProducer
pub mod Capture
pub mod Flags
pub mod Percent
pub mod Rounding
pub mod RateLimit
pub mod Runner
pub mod Options
pub mod State
pub mod MainLoop
pub mod Controls
pub mod Jobs
pub mod System
pub mod Inversion
pub mod Slots
pub mod Accounts
pub mod Offline
pub mod Number
pub mod Termination
pub mod Progress
pub mod Stopping
pub mod ReportStart
pub mod LiveUi
pub mod Windows
pub mod Plots
pub mod Report
