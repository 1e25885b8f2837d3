-- ===== src/Examples.antt =====
-- The theorems applied to concrete requests, events and services kept in memory.
mod Services
mod Signatures
mod Gateway
mod Processing
mod Workers
mod Monitoring
mod Collections
mod Delivery
mod Retries
mod LoadTests
mod Stopping
mod Replays
mod Redelivery
mod Starts
mod Environments
mod Backoff
mod Results
mod Systems
