-- ===== src/Router.antt =====
-- The requests to upstream hosts of the router filter, src/meta_protocol_proxy/filters/router.
pub mod UpstreamRequest
pub mod Tracing
pub mod Services
pub mod Filter
pub mod Shadow
