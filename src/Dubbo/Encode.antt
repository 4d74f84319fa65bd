-- ===== src/Dubbo/Encode.antt =====
-- src/application_protocols/dubbo/dubbo_codec.cc: what DubboCodec writes.
pub mod Errors
use Prim.Native.String.{String}
use meta_protocol_proxy.Base.{
  ℕ, Bool, true, false, Option, none, some, List, [], ◌∷◌, ◌==◌, if◌then◌else◌, Outcome, ok, throws,
  panics, ◌>>=◌, Exception,
}
use meta_protocol_proxy.Codec.{ErrorType, Error}
use meta_protocol_proxy.Codec as Proxy
use meta_protocol_proxy.Buffer.{BufferApi}
use meta_protocol_proxy.Metadata.{Any, HeaderMapApi, Metadata, get_by_key, get_bool}
use meta_protocol_proxy.Decoder.{Mutation}
use meta_protocol_proxy.Dubbo.Message.{
  HessianApi, MessageType, RpcInvocation, RpcResult, MessageMetadata, Context, new_message_metadata,
  mutate_attachment,
}
use meta_protocol_proxy.Dubbo.Serializer.{assign_attachment}
use meta_protocol_proxy.Dubbo.Protocol.{encode as encode_message}
use meta_protocol_proxy.Dubbo.Codec.{
  invocation_any, result_any, protocol_type_any, protocol_version_any, message_type_any,
  serialization_type_any, response_status_any,
}

same_type : Any → Any → Bool
same_type (Any.other s) (Any.other t) = s == t
same_type _ _ = false

-- `std::any_cast` to the type of the first, of a property that may be missing.
optional_cast : Any → Option Any → Outcome Bool
unfolding same_type
optional_cast type none = ok false
optional_cast type (some v) = if same_type type v then ok true else throws Exception.bad_any_cast

-- The same of a property that must be there: `assert`, and a value that is read without a test.
required_cast : Any → Option Any → Outcome Bool
unfolding same_type
required_cast type none = panics
required_cast type (some v) = if same_type type v then ok true else throws Exception.bad_any_cast

cast_timeout : Option Any → Outcome (Option ℕ)
cast_timeout none = ok none
cast_timeout (some (Any.uint32 n)) = ok (some n)
cast_timeout (some _) = throws Exception.bad_any_cast

required_bool : Option Any → Outcome Bool → Outcome Bool
required_bool none o = panics
required_bool (some _) o = o

abbrev kept {ℓ} : {A : Type ℓ} → Bool → Option A → Option A
kept true x = x
kept false x = none

abbrev error_status : ErrorType → ℕ
error_status ErrorType.route_not_found = 60
error_status ErrorType.bad_response = 50
error_status _ = 80

module _ (B : BufferApi) (H : HeaderMapApi) (X : HessianApi) where
  open B use {Buffer, empty}

  abbrev Message : Type 0
  Message = MessageMetadata H X

  -- The metadata, and the values that its properties hold.
  unfoldable pub to_msg_metadata : Metadata B H → Message → Outcome Message
  unfolding optional_cast required_cast cast_timeout required_bool
  to_msg_metadata m g =
      optional_cast invocation_any (get_by_key B H "InvocationInfo" m) >>= λ (i : Bool).
      (optional_cast result_any (get_by_key B H "RpcResultInfo" m) >>= λ (r : Bool).
      (required_cast protocol_type_any (get_by_key B H "ProtocolType" m) >>= λ (p : Bool).
      (required_cast protocol_version_any (get_by_key B H "ProtocolVersion" m) >>= λ (v : Bool).
      (required_cast message_type_any (get_by_key B H "MessageType" m) >>= λ (t : Bool).
      (cast_timeout (get_by_key B H "Timeout" m) >>= λ (timeout : Option ℕ).
      (required_bool (get_by_key B H "TwoWay" m) (get_bool B H "TwoWay" m) >>= λ (two_way : Bool).
      (required_cast serialization_type_any (get_by_key B H "SerializationType" m) >>= λ (s : Bool).
      (optional_cast response_status_any (get_by_key B H "ResponseStatus" m) >>= λ (q : Bool).
      ok (record {
        message_type = g.message_type;
        response_status = kept q g.response_status;
        timeout = timeout;
        invocation_info = kept i g.invocation_info;
        result_info = kept r g.result_info;
        serialization_type = g.serialization_type;
        protocol_version = g.protocol_version;
        request_id = m.request_id;
        is_two_way = two_way;
      })))))))))

  abbrev context_of : Metadata B H → Context Buffer
  context_of m = record {
    header_size = m.header_size;
    body_size = m.body_size;
    is_heartbeat = false;
    origin_message = empty;
  }

  abbrev new_context : Context Buffer
  new_context = record {
    header_size = 0;
    body_size = 0;
    is_heartbeat = false;
    origin_message = empty;
  }

  unfoldable pub encode_heartbeat : Metadata B H → Message → Buffer → Outcome Buffer
  encode_heartbeat m g buffer = to_msg_metadata m g >>= λ (q : Message).
      encode_message B H X buffer
        (record q { response_status = some 20; message_type = MessageType.heartbeat_response })
        new_context ""

  -- The origin of an attachment that is not decoded yet has been moved away.
  mutate_invocation : Mutation → RpcInvocation H X → Outcome (RpcInvocation H X)
  mutate_invocation [] i = ok i
  mutate_invocation (kv ∷ kvs) i = assign_attachment H X [] i >>= λ (j : RpcInvocation H X).
      elim j.attachment [
        | none ↦ panics
        | some a ↦ ok (record j { attachment = some (mutate_attachment H X (kv ∷ kvs) a) })
      ]

  mutate_request : Mutation → Message → Outcome Message
  unfolding mutate_invocation
  mutate_request mutation q = elim q.invocation_info [
    | none ↦ ok q
    | some i ↦ mutate_invocation mutation i >>= λ (j : RpcInvocation H X).
        ok (record q { invocation_info = some j })
  ]

  -- The message after the call shares its invocation and its result with the metadata.
  unfoldable pub encode_request :
      Metadata B H → Message → Mutation → Buffer → Outcome (Message × Buffer)
  unfolding mutate_request
  encode_request m g mutation buffer =
      to_msg_metadata m g >>= mutate_request mutation >>= λ (q : Message).
      (encode_message B H X buffer q (context_of m) "" >>= λ (b : Buffer). ok (q, b))

  mutate_result : Mutation → RpcResult H X → Outcome (RpcResult H X)
  mutate_result mutation r = elim r.result_attachment [
    | none ↦ panics
    | some a ↦ ok (record r { result_attachment = some (mutate_attachment H X mutation a) })
  ]

  -- Without a result or a mutation nothing is written.
  write_response :
      Metadata B H
      → Mutation
      → Buffer
      → Message
      → Option (RpcResult H X)
      → Outcome (Message × Buffer)
  unfolding mutate_result
  write_response m mutation buffer q none = ok (q, buffer)
  write_response m [] buffer q (some r) = ok (q, buffer)
  write_response m (kv ∷ kvs) buffer q (some r) =
      mutate_result (kv ∷ kvs) r >>= λ (r' : RpcResult H X).
      let q' = record q { result_info = some r' } in
      encode_message B H X buffer q' (context_of m) "addheader" >>= λ (b : Buffer). ok (q', b)

  unfoldable pub encode_response :
      Metadata B H → Message → Mutation → Buffer → Outcome (Message × Buffer)
  unfolding write_response
  encode_response m g mutation buffer =
      to_msg_metadata m g >>= λ (q : Message). write_response m mutation buffer q q.result_info

  encode_as :
      Proxy.MessageType → Metadata B H → Message → Mutation → Buffer → Outcome (Message × Buffer)
  unfolding encode_heartbeat encode_request encode_response
  encode_as Proxy.MessageType.heartbeat m g mutation b =
      encode_heartbeat m g b >>= λ (b' : Buffer). ok (g, b')
  encode_as Proxy.MessageType.request m g mutation b = encode_request m g mutation b
  encode_as Proxy.MessageType.response m g mutation b = encode_response m g mutation b
  encode_as Proxy.MessageType.error m g mutation b = ok (g, b)
  encode_as _ m g mutation b = panics

  unfoldable pub encode : Metadata B H → Message → Mutation → Buffer → Outcome (Message × Buffer)
  unfolding encode_as
  encode m g mutation b = encode_as m.message_type m g mutation b

  unfoldable pub on_error : Metadata B H → Message → Error → Buffer → Outcome Buffer
  unfolding to_msg_metadata
  on_error m g e buffer = to_msg_metadata m g >>= λ (q : Message).
      encode_message B H X buffer
        (record q {
          response_status = some (error_status e.type);
          message_type = MessageType.response;
        })
        new_context e.message
