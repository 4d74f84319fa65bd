-- ===== src/Codec.antt =====
-- src/meta_protocol_proxy/codec/codec.h: the types that the proxy and its codecs share.
use Prim.Native.String.{String}

pub data MessageType : Type 0 where
  request response oneway stream_init stream_data : MessageType
  stream_close_one_way stream_close_two_way heartbeat error : MessageType

pub data ResponseStatus : Type 0 where
  ok error : ResponseStatus

pub data DecodeStatus : Type 0 where
  wait_for_data done : DecodeStatus

pub data ErrorType : Type 0 where
  route_not_found cluster_not_found no_healthy_upstream : ErrorType
  bad_response unspecified over_limit : ErrorType

pub record Error : Type 0 where
  pub type : ErrorType
  pub message : String

-- ReservedHeaders
abbrev pub real_server_address : String
real_server_address = "x-meta-protocol-real-server-address"
