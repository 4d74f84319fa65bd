-- ===== src/Examples.antt =====
-- The theorems at concrete inputs: values of the interfaces and data that the modules below share.
mod Frames
mod Connections
mod Limits
mod Strings
mod Messages
mod Responses
mod DubboFrames
mod Routing
mod Requests
mod Tracing
mod ThriftFrames
mod RouterFilter
use Prim.Native.String.{String}
use meta_protocol_proxy.Base.{
  ℕ, ◌+◌, Bool, true, false, Option, none, some, List, [], ◌∷◌, Outcome, ok,
}
use meta_protocol_proxy.Codec.{MessageType, ResponseStatus, DecodeStatus}
use meta_protocol_proxy.Buffer.ByteList.{byte_list}
use meta_protocol_proxy.Metadata.{HeaderMapApi, Metadata}
use meta_protocol_proxy.Metadata.HeaderFunction.{header_function}
use meta_protocol_proxy.Filters.{UpstreamResponseStatus}
use meta_protocol_proxy.ActiveMessage.{World}
use meta_protocol_proxy.ConnManager.{Stats, Manager}
use meta_protocol_proxy.Decoder.{Mutation, CodecApi, Callbacks, new_decoder}

abbrev pub headers : HeaderMapApi
headers = header_function (λ s. s)

abbrev pub message : Metadata byte_list headers
message = record {
  properties = [];
  origin_message = 7 ∷ 8 ∷ [];
  message_type = MessageType.request;
  response_status = ResponseStatus.ok;
  request_id = 4;
  stream_id = 2;
  header_size = 1;
  body_size = 1;
  operation_name = "";
  headers = λ k. [];
  response_headers = λ k. [];
}

-- A codec of messages of one byte.
abbrev byte_codec_decode :
    Unit {0}
    → List ℕ
    → Metadata byte_list headers
    → Outcome (DecodeStatus × Unit {0} × List ℕ × Metadata byte_list headers)
byte_codec_decode k [] m = ok (DecodeStatus.wait_for_data, k, [], m)
byte_codec_decode k (x ∷ b) m = ok (DecodeStatus.done, k, b, record m { origin_message = x ∷ [] })

abbrev pub byte_codec : CodecApi byte_list headers
byte_codec = record { State = Unit; decode = byte_codec_decode }

-- Callbacks that count the messages.
abbrev pub counter : Callbacks byte_list headers ℕ
counter = record {
  Handler = Unit;
  new_message_handler = λ w. (tt, w);
  on_message_decoded = λ _ m mutation w. ok (w + 1);
  on_heartbeat = λ m w. ok (true, w);
}

abbrev pub stats : Stats
stats = record {
  request = 0;
  request_twoway = 0;
  request_oneway = 0;
  request_event = 0;
  request_decoding_success = 0;
  request_decoding_error = 0;
  response = 0;
  response_decoding_success = 0;
  response_decoding_error = 0;
  response_business_exception = 0;
  response_success = 0;
  response_error = 0;
  response_error_caused_connection_close = 0;
  local_response_success = 0;
  local_response_error = 0;
  local_response_business_exception = 0;
  cx_destroy_local_with_active_rq = 0;
  cx_destroy_remote_with_active_rq = 0;
  idle_timeout = 0;
}

-- A connection with two messages under way and a stream that has its upstream.
abbrev pub manager : Manager
manager = record {
  stats = stats;
  is_open = true;
  messages = 1 ∷ 0 ∷ [];
  next_message = 2;
  streams = (2, record { upstream = some []; client_closed = false; server_closed = false }) ∷ [];
  writes = (1 ∷ []) ∷ [];
  idle_timeout = some 60;
  idle_timer = some 60;
  upstream_handlers = 3 ∷ [];
}

-- A message of that connection, with the decoder of its response at the start.
abbrev pub world : World byte_list headers byte_codec ℕ
world = record {
  manager = manager;
  id = 0;
  metadata = some message;
  pending_stream_decoded = false;
  local_response_sent = false;
  bytes_sent = 0;
  bytes_received = 0;
  response_decoder = some (new_decoder tt MessageType.response);
  response_buffer = [];
  response_metadata = none;
  response_complete = false;
  response_status = UpstreamResponseStatus.more_data;
  environment = 0;
}
