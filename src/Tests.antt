-- ===== src/Tests.antt =====
-- The theorems of the other modules at concrete resources, services and clusters.
mod Fixtures
mod Redis
mod Database
mod Connecting
mod Oss
mod Nas
mod Slb
mod Sls
mod External
mod Setup
