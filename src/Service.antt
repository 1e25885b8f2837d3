-- ===== src/Service.antt =====
-- gateway-api/src/main.ts and gateway-worker/src/main.ts, with the configurations that they load.
pub mod Connection
pub mod Environment
pub mod Shutdown
pub mod Start
