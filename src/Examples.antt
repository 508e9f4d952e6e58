-- ===== src/Examples.antt =====
-- _examples: programs that extend plt by its hooks.
pub mod Cplt
pub mod Delayed
pub mod Streaks
pub mod Rate
pub mod Timeout
pub mod Playground
pub mod Window
pub mod Presses
