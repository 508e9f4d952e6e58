-- ===== src/Curl.antt =====
-- curl: the command line that stands for curl's, turned into a request.
pub mod Strings
pub mod Headers
pub mod Help
pub mod Pattern
pub mod Printed
pub mod Action
pub mod Request
pub mod Agent
pub mod Launch
pub mod Registration
pub mod Refusals
