-- ===== src/Controller.antt =====
-- pkg/controller: the handlers that crossplane-runtime calls for each kind of resource.
pub mod Redis
pub mod Database
pub mod Oss
pub mod Nas
pub mod Slb
pub mod Sls
pub mod External
pub mod Setup
