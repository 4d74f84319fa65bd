-- ===== src/Filters.antt =====
-- src/meta_protocol_proxy/filters/filter_define.h: what a filter answers, and what the decoding of a
-- response answers to the router.
pub data FilterStatus : Type 0 where
  continue_iteration pause_iteration abort_iteration retry : FilterStatus

pub data UpstreamResponseStatus : Type 0 where
  more_data complete reset retry : UpstreamResponseStatus
