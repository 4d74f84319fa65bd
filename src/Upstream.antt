-- ===== src/Upstream.antt =====
-- The connections to upstream hosts: src/meta_protocol_proxy/upstream_handler.h and
-- upstream_handler.cc, upstream_handler_impl.h and upstream_handler_impl.cc, upstream_response.h and
-- upstream_response.cc, and getUpstreamHandler of conn_manager.cc.
pub mod Manager
pub mod Handler
