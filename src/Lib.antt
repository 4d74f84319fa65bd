-- ===== src/Lib.antt =====
-- A verification library for the core of the Aeraki MetaProtocol proxy, an Envoy network filter for
-- RPC protocols: the codecs that cut messages out of a byte stream, the decoder that drives them,
-- the connection that keeps the messages under way, and the filters that they pass.
--
-- Bytes arrive at a ConnectionManager, whose dispatch loop calls the decoder until the buffer is used
-- up. The decoder calls the codec of the application protocol, and hands a message that is complete
-- to a new ActiveMessage. That runs the decoder filters, among them the local rate limiter, forwards
-- the messages of a stream, and takes itself from the list of the connection. The last filter is the
-- router, which sends the request upstream and mirrors it. A response comes back through a decoder of
-- its own and the encoder filters, and is written downstream.
--
-- Base: numbers, lists and the outcomes of a call. An Outcome is a value, a C++ exception, a crash
--   (a failed PANIC, a null pointer, freed memory), or `stuck`, which no C++ call is: a loop ran out of fuel.
-- Buffer: Envoy's Buffer::Instance as operations with laws on the bytes; Buffer/ByteList fulfils them.
-- Codec, Filters: the enumerations of src/meta_protocol_proxy/codec/codec.h, decoder_event_handler.h
--   and filters/filter_define.h.
-- Metadata: MetadataImpl of codec_impl.cc, over Envoy's header maps as operations with laws, which
--   Metadata/HeaderFunction fulfils.
-- Trpc/Header: TrpcFixedHeader of src/application_protocols/trpc/protocol.cc.
-- Trpc/Protocol: the class Protocol of protocol.h; the protobuf messages are an interface.
-- Trpc/Checker: CodecChecker of codec_checker.cc. Its loop has four rounds of fuel: each stage that
--   does not wait is followed by a later one, and there are three before the end.
-- Trpc/Codec: TrpcCodec of trpc_codec.cc.
-- Brpc: BrpcCodec of src/application_protocols/brpc/brpc_codec.cc and BrpcHeader of protocol.cc, with
--   three rounds of fuel for the two stages. Metadata that the buffer does not hold is a crash there.
-- Dubbo: src/application_protocols/dubbo. Dubbo/Message: message_impl.cc, metadata.h, hessian_utils.cc;
--   Dubbo/Serializer: the readers of dubbo_hessian2_serializer_impl.cc; Dubbo/Protocol:
--   dubbo_protocol_impl.cc; Dubbo/State, Dubbo/Machine, Dubbo/Codec and Dubbo/Encode: dubbo_codec.h and
--   dubbo_codec.cc. The machine has three rounds of fuel for its two states.
-- Thrift: thrift_codec.h and thrift_codec.cc of src/application_protocols/thrift. Thrift/Protocol: the
--   interfaces of protocol.h and transport.h; Thrift/State, Thrift/Machine: DecoderStateMachine, whose
--   loop has five rounds for a byte, one for a frame of the stack and four more; Thrift/Codec:
--   ThriftCodec.
-- Decoder: DecoderStateMachine, DecoderBase and Decoder of decoder.cc and decoder.h, and the loop of
--   ConnectionManager::dispatch on any fuel.
-- RateLimit: local_ratelimit_impl.cc and local_ratelimit.cc. RateLimit/Interleavings has the two loops
--   on the atomic counter as steps of any number of threads.
-- ConnManager: conn_manager.cc and the way upstream of stream.cc. resetAllMessages has as much fuel as
--   there are messages. ConnManager/Downstream: onHeartbeat with heartbeat_response.cc, and the way
--   downstream of stream.cc, whose loop is on any fuel.
-- ActiveMessage: active_message.cc: the filter chains and onMessageDecoded. ActiveMessage/Response:
--   ActiveResponseDecoder and upstreamData. Filters and the encoders are parameters.
-- Route: route_matcher_impl.cc of src/meta_protocol_proxy/route.
-- Upstream/Manager: upstream_handler.cc and getUpstreamHandler of conn_manager.cc. Upstream/Handler:
--   upstream_handler_impl.cc and upstream_response.cc.
-- Router/UpstreamRequest: upstream_request.cc of src/meta_protocol_proxy/filters/router, the calls on
--   its surroundings as a list of effects.
-- Router/Filter: the router filter of router_impl.cc, Router/Filter/Requests its onMessageDecoded and
--   Router/Filter/Upstream its side of the upstream connection, over Router/Services:
--   prepareUpstreamRequest of router.h and the part of startSpan of tracing/tracer_impl.cc that
--   changes the message.
-- Router/Shadow: shadow_writer_impl.cc and shadow_writer_impl.h, the end of the thread's list among
--   them, over Router/UpstreamRequest, Decoder and Router/Services.
-- RequestId: request_id/config.cc. Router/Tracing: setXRequestID and mutateTracingRequestMetadata of
--   filters/router/router_impl.cc, over RequestId.
-- Examples: the theorems at concrete inputs.
--
-- The state of a C++ object is a record with its members, and a method a function from that record to
-- the one after the call. ASSERT is absent, as in a release build. Logging is left out.
--
-- Not modelled: route discovery and the hash policy, the other filters, the tags of spans and the
-- configuration. Envoy, protobuf and Hessian2 are not in the repository: what is used of them is a
-- parameter.
pub mod Base
pub mod Buffer
pub mod Codec
pub mod Metadata
pub mod Trpc
pub mod Brpc
pub mod Decoder
pub mod Filters
pub mod RateLimit
pub mod ConnManager
pub mod ActiveMessage
pub mod Dubbo
pub mod Thrift
pub mod Route
pub mod RequestId
pub mod Upstream
pub mod Router
pub mod Examples
