-- ===== src/Tests.antt =====
-- The theorems at concrete inputs: each test applies one of them to the data that stands here.
mod Data
mod Encoding
mod Pool
mod Producer
mod Logs
mod Blocks
mod Chains
mod Addresses
mod Handlers
mod Notify
mod Rollback
