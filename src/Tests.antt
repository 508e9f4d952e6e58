-- ===== src/Tests.antt =====
-- Runs at concrete inputs, by evaluation, and the theorems applied there.
mod Loadgen
mod Endings
mod Nethttp
mod Fasthttp
mod S3
mod Curl
mod Help
mod LiveUi
mod Examples
mod Report
mod Threads
mod Jobs
mod Transfers
mod Whole
mod Rounds
