-- ===== src/Clients.antt =====
-- pkg/clients: one client for each cloud service, over the vendor's SDK.
pub mod Rds
pub mod Redis
pub mod Oss
pub mod Nas
pub mod Slb
pub mod Sls
