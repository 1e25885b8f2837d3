-- ===== src/LoadTest.antt =====
-- scripts/load-test/: the load test, from its configuration to its verdict.
pub mod Config
pub mod Events
pub mod Pool
pub mod Report
pub mod Results
pub mod Run
pub mod Thresholds
