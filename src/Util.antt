-- ===== src/Util.antt =====
-- pkg/util: what every controller needs before it has a client.
pub mod Kube
pub mod Endpoint
pub mod Provider
pub mod Client
pub mod Connect
