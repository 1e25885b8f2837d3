-- ===== src/Api.antt =====
-- gateway-api/src: the service that takes in events.
pub mod Request
pub mod Guard
pub mod Validator
pub mod Ingestion
