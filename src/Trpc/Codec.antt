-- ===== src/Trpc/Codec.antt =====
-- src/application_protocols/trpc/trpc_codec.h and trpc_codec.cc: `TrpcCodec`.
use Prim.Native.String.{String}
use meta_protocol_proxy.Base.{
  ℕ, Bool, true, false, Option, none, some, List, [], ◌∷◌, ◌==◌, ◌||◌, if◌then◌else◌, Outcome, ok,
  throws, panics, ◌>>=◌, envoy_exception,
}
use meta_protocol_proxy.Codec.{MessageType, DecodeStatus, ErrorType, Error}
use meta_protocol_proxy.Buffer.{BufferApi}
use meta_protocol_proxy.Metadata.{Any, HeaderMapApi, Metadata, put, put_string}
use meta_protocol_proxy.Trpc.Header.{
  TrpcFixedHeader, new_fixed_header, get_header_size, get_payload_size,
}
use meta_protocol_proxy.Trpc.Protocol.{ProtoApi, Protocol, mutate_header, encode}
use meta_protocol_proxy.Trpc.Checker.{
  CodecChecker, CodecCheckerCallbacks, DecodeStage, Run, new_checker, on_data, trpc_unary,
}

abbrev pub trpc_stream_frame : ℕ
trpc_stream_frame = 1

abbrev pub trpc_stream_frame_init : ℕ
trpc_stream_frame_init = 1

abbrev pub trpc_stream_frame_data : ℕ
trpc_stream_frame_data = 2

abbrev pub trpc_stream_frame_feedback : ℕ
trpc_stream_frame_feedback = 3

abbrev pub trpc_stream_frame_close : ℕ
trpc_stream_frame_close = 4

-- The generated protobuf classes, with the members that the codec reads and writes. Their error
-- codes and the close type are numbers of trpc.proto.
pub record TrpcApi : Type 1 where
  pub request : ProtoApi
  pub response : ProtoApi
  pub init_meta : ProtoApi
  pub close_meta : ProtoApi
  pub request_id : request.Message → ℕ
  pub caller : request.Message → String
  pub callee : request.Message → String
  pub func : request.Message → String
  pub call_type : request.Message → ℕ
  pub version : request.Message → ℕ
  pub content_type : request.Message → ℕ
  pub content_encoding : request.Message → ℕ
  pub trans_info : request.Message → List (String × String)
  pub response_id : response.Message → ℕ
  pub error_msg : response.Message → String
  pub response_trans_info : response.Message → List (String × String)
  pub init_caller : init_meta.Message → String
  pub init_callee : init_meta.Message → String
  pub init_func : init_meta.Message → String
  pub init_trans_info : init_meta.Message → List (String × String)
  pub closes_one_way : close_meta.Message → Bool
  pub new_request : request.Message
  pub new_response : response.Message
  pub new_init_meta : init_meta.Message
  pub new_close_meta : close_meta.Message
  -- set_request_id, set_error_msg, set_ret and set_func_ret
  pub error_response : ℕ → String → ℕ → response.Message
  -- set_ret and set_error_msg of mutable_response_meta
  pub error_init : String → ℕ → init_meta.Message
  pub server_noservice_err : ℕ
  pub server_system_err : ℕ

module _ (B : BufferApi) (H : HeaderMapApi) (T : TrpcApi) where
  open B use {Buffer, empty, size, add, bytes}

  -- The members behind the checker. `fixed_header_` and `origin_msg_` may be null.
  pub record Client : Type 0 where
    pub fixed_header : Option TrpcFixedHeader
    pub request_header : T.request.Message
    pub response_header : T.response.Message
    pub stream_init_meta : T.init_meta.Message
    pub stream_close_meta : T.close_meta.Message
    pub origin_msg : Option Buffer
    pub message_type : MessageType

  -- Parsing leaves the old message where it fails.
  parse_or : (M : ProtoApi) → List ℕ → M.Message → Bool × M.Message
  parse_or M raw old = elim (M.parse raw) [ none ↦ (false, old) | some m ↦ (true, m) ]

  on_fixed_header_decoded : TrpcFixedHeader → Client → Client
  on_fixed_header_decoded h c = record c { fixed_header = some h }

  on_unary_header : List ℕ → Client → Outcome (Bool × Client)
  unfolding parse_or
  on_unary_header raw c = elim c.message_type [
    | MessageType.request ↦
        let (good, m) = parse_or T.request raw c.request_header in
        ok (good, record c { request_header = m })
    | _ ↦
        let (good, m) = parse_or T.response raw c.response_header in
        ok (good, record c { response_header = m })
  ]

  -- The ASSERT of the source has the same cases as the switch, which panics on a further type.
  stream_frame : ℕ → List ℕ → Client → Outcome (Bool × Client)
  unfolding parse_or
  stream_frame frame_type raw c =
      let (init_good, init) = parse_or T.init_meta raw c.stream_init_meta in
      let (close_good, close) = parse_or T.close_meta raw c.stream_close_meta in
      if frame_type == trpc_stream_frame_init
      then ok (init_good, record c { stream_init_meta = init })
      else if frame_type == trpc_stream_frame_close
      then ok (close_good, record c { stream_close_meta = close })
      else if frame_type == trpc_stream_frame_data || frame_type == trpc_stream_frame_feedback
      then ok (true, c)
      else panics

  -- A null `fixed_header_` is dereferenced: no run of the checker comes here without a header.
  on_stream_frame : List ℕ → Client → Outcome (Bool × Client)
  unfolding stream_frame
  on_stream_frame raw c = elim c.fixed_header [
    | none ↦ panics
    | some h ↦ stream_frame h.stream_frame_type raw c
  ]

  on_completed : Buffer → Client → Client
  on_completed msg c = record c { origin_msg = some msg }

  unfoldable pub callbacks : CodecCheckerCallbacks Buffer Client
  unfolding on_fixed_header_decoded on_unary_header on_stream_frame on_completed
  callbacks = record {
    on_fixed_header_decoded = on_fixed_header_decoded;
    on_unary_header = on_unary_header;
    on_stream_frame = on_stream_frame;
    on_completed = on_completed;
  }

  put_strings : List (String × String) → Metadata B H → Metadata B H
  put_strings [] m = m
  put_strings ((key, value) ∷ kvs) m = put_strings kvs (put_string B H key value m)

  unary_metadata : Client → Metadata B H → Metadata B H
  unfolding put_strings
  unary_metadata c m = elim c.message_type [
    | MessageType.request ↦
        let r = c.request_header in
        let m = record m { request_id = T.request_id r } in
        let m = put_string B H "caller" (T.caller r) m in
        let m = put_string B H "callee" (T.callee r) m in
        let m = put_string B H "func" (T.func r) m in
        let m = put B H "call_type" (Any.uint32 (T.call_type r)) m in
        let m = put B H "version" (Any.uint32 (T.version r)) m in
        let m = put B H "content_type" (Any.uint32 (T.content_type r)) m in
        let m = put B H "content_encoding" (Any.uint32 (T.content_encoding r)) m in
        put_strings (T.trans_info r) m
    | _ ↦
        let r = c.response_header in
        let m = record m { request_id = T.response_id r } in
        let m = put_string B H "error_msg" (T.error_msg r) m in
        put_strings (T.response_trans_info r) m
  ]

  init_metadata : Client → TrpcFixedHeader → Metadata B H → Metadata B H
  unfolding put_strings
  init_metadata c h m =
      let i = c.stream_init_meta in
      let m = record m { message_type = MessageType.stream_init; stream_id = h.stream_id } in
      let m = put_string B H "caller" (T.init_caller i) m in
      let m = put_string B H "callee" (T.init_callee i) m in
      let m = put_string B H "func" (T.init_func i) m in put_strings (T.init_trans_info i) m

  -- The switch of toMetadata on the frame's type; a further type changes nothing.
  frame_metadata : Client → TrpcFixedHeader → Metadata B H → Metadata B H
  unfolding unary_metadata init_metadata
  frame_metadata c h m =
      let t = h.stream_frame_type in
      if t == trpc_unary
      then unary_metadata c m
      else if t == trpc_stream_frame_init
      then init_metadata c h m
      else if t == trpc_stream_frame_data || t == trpc_stream_frame_feedback
      then record m { message_type = MessageType.stream_data; stream_id = h.stream_id }
      else if t == trpc_stream_frame_close
      then record m {
        message_type =
            if T.closes_one_way c.stream_close_meta
            then MessageType.stream_close_one_way
            else MessageType.stream_close_two_way;
        stream_id = h.stream_id;
      }
      else m

  to_metadata : TrpcFixedHeader → Buffer → Client → Metadata B H → Metadata B H
  unfolding frame_metadata
  to_metadata h msg c m =
      let m = record m { header_size = get_header_size h; body_size = get_payload_size h } in
      let m = frame_metadata c h m in
      record m { origin_message = (B.move m.origin_message msg (size msg)).0 }

  pub record TrpcCodec : Type 0 where
    pub decoder_base : CodecChecker
    pub client : Client

  abbrev pub new_codec : TrpcCodec
  new_codec = record {
    decoder_base = new_checker;
    client = record {
      fixed_header = none;
      request_header = T.new_request;
      response_header = T.new_response;
      stream_init_meta = T.new_init_meta;
      stream_close_meta = T.new_close_meta;
      origin_msg = none;
      message_type = MessageType.request;
    };
  }

  abbrev pub Decoded : Type 0
  Decoded = DecodeStatus × TrpcCodec × Buffer × Metadata B H

  metadata_of :
      Option TrpcFixedHeader → Option Buffer → Client → Metadata B H → Outcome (Metadata B H)
  unfolding to_metadata
  metadata_of (some h) (some msg) c m = ok (to_metadata h msg c m)
  metadata_of _ _ c m = panics

  finish : Metadata B H → DecodeStage × Run Buffer Client → Outcome Decoded
  unfolding metadata_of
  finish m t =
      let r = t.1 in
      let codec : TrpcCodec = record { decoder_base = r.checker; client = r.client } in
      elim t.0 [
        | DecodeStage.wait_for_data ↦ ok (DecodeStatus.wait_for_data, codec, r.buffer, m)
        | _ ↦
            metadata_of r.client.fixed_header r.client.origin_msg r.client m
            >>= λ (m' : Metadata B H). ok (
              DecodeStatus.done,
              record codec { client = record r.client { origin_msg = some empty } },
              r.buffer,
              m',
            )
      ]

  unfoldable pub decode : TrpcCodec → Buffer → Metadata B H → Outcome Decoded
  unfolding finish callbacks
  decode codec buffer m =
      on_data B callbacks (record {
        checker = codec.decoder_base;
        client = record codec.client { message_type = m.message_type };
        buffer = buffer;
      })
      >>= finish m

  abbrev encoded :
      (M : ProtoApi) → String → Bool × Protocol Buffer M.Message × Buffer → Outcome Buffer
  encoded M problem r = if r.0 then ok r.2 else throws (envoy_exception problem)

  -- `encode` with a mutation; a message that is no request and no response stays as it is.
  unfoldable pub encode_mutation : Metadata B H → List (String × String) → Buffer → Outcome Buffer
  encode_mutation m [] buffer = ok buffer
  encode_mutation m (kv ∷ kvs) buffer = elim m.message_type [
    | MessageType.request ↦ encoded T.request "encode request failed" (
        mutate_header B T.request (kv ∷ kvs)
          (record {
            fixed_header = new_fixed_header;
            protocol_header = T.new_request;
            body = empty;
          })
          buffer)
    | MessageType.response ↦ encoded T.response "encode response failed" (
        mutate_header B T.response (kv ∷ kvs)
          (record {
            fixed_header = new_fixed_header;
            protocol_header = T.new_response;
            body = empty;
          })
          buffer)
    | _ ↦ ok buffer
  ]

  err_code : ErrorType → ℕ
  err_code ErrorType.route_not_found = T.server_noservice_err
  err_code _ = T.server_system_err

  unfoldable pub on_error : Metadata B H → Error → Buffer → Buffer
  unfolding err_code
  on_error m error buffer = elim m.message_type [
    | MessageType.stream_init ↦
        (encode B T.init_meta
          (record {
            fixed_header = record new_fixed_header {
              stream_id = m.stream_id;
              data_frame_type = trpc_stream_frame;
              stream_frame_type = trpc_stream_frame_init;
            };
            protocol_header = T.error_init error.message (err_code error.type);
            body = empty;
          })
          buffer).2
    | _ ↦
        (encode B T.response
          (record {
            fixed_header = record new_fixed_header { data_frame_type = trpc_unary };
            protocol_header = T.error_response m.request_id error.message (err_code error.type);
            body = empty;
          })
          buffer).2
  ]
