-- ===== src/Dubbo/State.antt =====
-- The states of src/application_protocols/dubbo/dubbo_codec.h.
pub data ProtocolState : Type 0 where
  stop_iteration wait_for_data on_decode_stream_header on_decode_stream_data done : ProtocolState
