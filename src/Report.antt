-- ===== src/Report.antt =====
-- report: what the summaries print, response samples and byte counts.
pub mod Utf8
pub mod PeekBody
pub mod ByteSize
pub mod Units
