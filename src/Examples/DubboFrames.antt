-- ===== src/Examples/DubboFrames.antt =====
-- The Dubbo codec, over a Hessian2 of one byte for each value.
use Prim.Native.String.{String}
use meta_protocol_proxy.Base.{
  ℕ, ◌+◌, ◌≡◌, ◌≢◌, refl, true, false, none, some, List, [], ◌∷◌, ◌++◌, inl, inr, ok, panics, stuck,
  length, take, drop, Ends, arith,
}
use meta_protocol_proxy.Codec as Proxy
use meta_protocol_proxy.Buffer.{be_bytes, be_value}
use meta_protocol_proxy.Buffer.ByteList.{byte_list}
use meta_protocol_proxy.Decoder.{new_decoder, Run, dispatch_loop}
use meta_protocol_proxy.Dubbo.Message.{
  HessianApi, MessageType, Attachment, RpcInvocation, RpcResult, MessageMetadata, Context,
  new_message_metadata,
}
use meta_protocol_proxy.Dubbo.Serializer.{deserialize_rpc_result}
use meta_protocol_proxy.Dubbo.Protocol.{encode}
use meta_protocol_proxy.Dubbo.Protocol.Written.{Framed, encode_updated}
use meta_protocol_proxy.Dubbo.Codec.{DubboCodec, new_codec, decode, to_metadata}
use meta_protocol_proxy.Dubbo.Codec.Frames.{Holds, Decodes, decode-Decodes}
use meta_protocol_proxy.Dubbo.Codec.Dispatch.{dubbo_api, dubbo_dispatch_ends}
use meta_protocol_proxy.Dubbo.Codec.Crashes.{to_metadata_crashes}
use meta_protocol_proxy.Examples.{headers, message, counter}

abbrev hessian : HessianApi
hessian = record {
  Object = String;
  text_of = λ o. some o;
  string_object = λ s. s;
  entries_of = λ o. some (("k", "v") ∷ []);
  decode_string = λ bytes offset. (some "s", offset + 1);
  decode_int = λ bytes offset. (some 1, offset + 1);
  decode_object = λ bytes offset. (some "o", offset + 1);
  encode_map = λ es. 7 ∷ 8 ∷ 9 ∷ [];
}

abbrev request_head : List ℕ
request_head = 218 ∷ 187 ∷ 194 ∷ 0 ∷ 0 ∷ 0 ∷ 0 ∷ 0 ∷ 0 ∷ 0 ∷ 0 ∷ 5 ∷ []

-- A request of number 5 with a body of eight bytes, and the first byte of the next message.
abbrev two_messages : List ℕ
two_messages = request_head ++ (0 ∷ 0 ∷ 0 ∷ 8 ∷ 1 ∷ 2 ∷ 3 ∷ 4 ∷ 5 ∷ 6 ∷ 7 ∷ 8 ∷ 218 ∷ [])

abbrev codec : DubboCodec byte_list headers hessian
codec = new_codec byte_list headers hessian

between_messages : Holds byte_list headers hessian codec []
between_messages = inl (refl, refl)

decode-Decodes_example :
    Ends
      (Decodes byte_list headers hessian ([] ++ two_messages) message)
      (decode byte_list headers hessian codec two_messages message)
decode-Decodes_example =
    decode-Decodes byte_list headers hessian codec two_messages message [] between_messages

abbrev running : Run byte_list headers (dubbo_api byte_list headers hessian) counter
running = record {
  decoder =
      new_decoder (record { codec = codec; taken = []; holds = between_messages })
        Proxy.MessageType.request;
  buffer = two_messages;
  world = 0;
}

dubbo_dispatch_ends_example :
    dispatch_loop byte_list headers (dubbo_api byte_list headers hessian) counter 26 running ≢ stuck
dubbo_dispatch_ends_example =
    dubbo_dispatch_ends byte_list headers hessian counter
      (λ h m w (e : counter.on_message_decoded h m [] w ≡ stuck). cc)
      (λ m w (e : counter.on_heartbeat m w ≡ stuck). cc) 26 running (omega arith)

abbrev changed : Attachment headers hessian
changed = record {
  updated = true;
  entries = ("k", "v") ∷ [];
  offset = 22;
  headers = headers.create;
}

abbrev invocation : RpcInvocation headers hessian
invocation = record {
  service_name = "s";
  service_version = "v";
  method_name = "m";
  group = none;
  parsed_size = 20;
  attachment = some changed;
}

abbrev call : MessageMetadata headers hessian
call = record (new_message_metadata headers hessian) { invocation_info = some invocation }

abbrev context : Context (List ℕ)
context = record { header_size = 16; body_size = 8; is_heartbeat = false; origin_message = [] }

abbrev whole : List ℕ
whole = request_head ++ ((0 ∷ 0 ∷ 0 ∷ 8 ∷ []) ++ ((1 ∷ 2 ∷ 3 ∷ 4 ∷ 5 ∷ 6 ∷ []) ++ 7 ∷ 8 ∷ []))

whole-Framed :
    Framed byte_list headers hessian whole changed request_head
      (0 ∷ 0 ∷ 0 ∷ 8 ∷ [])
      (1 ∷ 2 ∷ 3 ∷ 4 ∷ 5 ∷ 6 ∷ [])
      (7 ∷ 8 ∷ [])
whole-Framed = record {
  front = refl;
  head_size = refl;
  old_size = refl;
  offset = refl;
  kept_size = omega arith;
}

encode_updated_example :
    (b' : List ℕ) × (encode byte_list headers hessian whole call context "" ≡ ok b')
    × (b' ≡ request_head ++ (be_bytes 4 9 ++ (1 ∷ 2 ∷ 3 ∷ 4 ∷ 5 ∷ 6 ∷ 7 ∷ 8 ∷ 9 ∷ [])))
    × (length b' ≡ 16 + be_value (take 4 (drop 12 b')))
encode_updated_example =
    encode_updated byte_list headers hessian changed whole request_head (0 ∷ 0 ∷ 0 ∷ 8 ∷ [])
      (1 ∷ 2 ∷ 3 ∷ 4 ∷ 5 ∷ 6 ∷ []) (7 ∷ 8 ∷ []) invocation call context "" whole-Framed refl refl
      refl refl refl (omega arith)

abbrev beat : MessageMetadata headers hessian
beat = record (new_message_metadata headers hessian) {
  message_type = MessageType.heartbeat_response;
  response_status = some 20;
  request_id = 5;
}

abbrev value_result : RpcResult headers hessian
value_result = record { has_exception = false; body = "s"; result_attachment = none }

abbrev answer : MessageMetadata headers hessian
answer = record (new_message_metadata headers hessian) {
  message_type = MessageType.response;
  response_status = some 20;
  result_info = some value_result;
}

read_value : deserialize_rpc_result headers hessian 16 2 (1 ∷ 2 ∷ []) ≡ ok value_result
unfolding deserialize_rpc_result
read_value = refl

to_metadata_crashes_example :
    to_metadata byte_list headers hessian (1 ∷ 2 ∷ []) answer message ≡ panics
to_metadata_crashes_example =
    to_metadata_crashes byte_list headers hessian 16 2 1 (1 ∷ 2 ∷ []) (1 ∷ 2 ∷ []) value_result
      answer message refl (inr refl) read_value refl refl
