-- ===== src/Dubbo/Protocol.antt =====
-- src/application_protocols/dubbo/dubbo_protocol_impl.cc: the sixteen bytes in front of a message,
-- and what the proxy writes. `size_t` differences wrap.
pub mod Headers
pub mod Written
use Prim.Native.String.{String}
use text.Mathlib.Text.{◌==◌ as str_eq}
use meta_protocol_proxy.Base.{
  ℕ, ◌+◌, ◌-◌, ◌%◌, ◌^◌, bit_and, bit_xor, Bool, true, false, Option, none, some, ◌==◌, ◌||◌, ◌&&◌,
  not, ltb, if◌then◌else◌, Outcome, ok, throws, panics, ◌>>=◌, envoy_exception,
}
use meta_protocol_proxy.Buffer.{BufferApi}
use meta_protocol_proxy.Metadata.{HeaderMapApi}
use meta_protocol_proxy.Dubbo.Message.{
  HessianApi, MessageType, Attachment, RpcInvocation, RpcResult, MessageMetadata, Context,
}
use meta_protocol_proxy.Dubbo.Serializer.{deserialize_rpc_invocation, deserialize_rpc_result}

abbrev pub magic_number : ℕ
magic_number = 55995

-- MessageSize
abbrev pub message_size : ℕ
message_size = 16

abbrev pub max_body_size : ℕ
max_body_size = 16777216

-- The masks of the flag, tested.
abbrev pub is_request : ℕ → Bool
is_request flag = bit_and flag 128 == 128

abbrev pub is_event : ℕ → Bool
is_event flag = bit_and flag 32 == 32

abbrev pub is_two_way_flag : ℕ → Bool
is_two_way_flag flag = bit_and flag 64 == 64

unfoldable pub is_valid_serialization_type : ℕ → Bool
is_valid_serialization_type t = t == 2

unfoldable pub is_valid_response_status : ℕ → Bool
is_valid_response_status s =
    s == 20 || s == 30 || s == 31 || s == 40 || s == 50 || s == 60 || s == 70 || s == 90 || s == 100

abbrev is_heartbeat_request : MessageType → Bool
is_heartbeat_request MessageType.heartbeat_request = true
is_heartbeat_request _ = false

abbrev pub sub_size : ℕ → ℕ → ℕ
sub_size a b = (a + 2 ^ 64 - b) % 2 ^ 64

module _ (B : BufferApi) (H : HeaderMapApi) (X : HessianApi) where
  open B use {Buffer, bytes, empty, size, peek_be, drain, move, add, write_be}
  open X use {encode_map}

  unfoldable pub parse_request_info_from_buffer :
      Buffer → MessageMetadata H X → Outcome (MessageMetadata H X)
  unfolding is_valid_serialization_type
  parse_request_info_from_buffer b m =
      let flag = peek_be 1 2 b in
      let t = bit_and flag 31 in
      let type =
        if not (is_two_way_flag flag) && not (is_heartbeat_request m.message_type)
        then MessageType.oneway
        else m.message_type in
      if not (is_valid_serialization_type t)
      then throws (envoy_exception "invalid dubbo message serialization type")
      else ok (record m { message_type = type; serialization_type = t })

  unfoldable pub parse_response_info_from_buffer :
      Buffer → MessageMetadata H X → Outcome (MessageMetadata H X)
  unfolding is_valid_response_status
  parse_response_info_from_buffer b m =
      let status = peek_be 1 3 b in
      if not (is_valid_response_status status)
      then throws (envoy_exception "invalid dubbo message response status")
      else ok (record m { response_status = some status })

  -- The type, and what the flag or the status says further.
  parse_info : ℕ → Buffer → MessageMetadata H X → Outcome (MessageMetadata H X)
  unfolding parse_request_info_from_buffer parse_response_info_from_buffer
  parse_info flag b m =
      if is_request flag
      then parse_request_info_from_buffer b (record m {
        message_type = if is_event flag then MessageType.heartbeat_request else MessageType.request;
      })
      else parse_response_info_from_buffer b (record m {
        message_type =
            if is_event flag then MessageType.heartbeat_response else MessageType.response;
      })

  -- A negative `int32_t` reads as 2 ^ 31 or more. No context stands for a header that is not there
  -- in full.
  unfoldable pub decode_header :
      Buffer → MessageMetadata H X → Outcome (MessageMetadata H X × Option (Context Buffer))
  unfolding parse_info
  decode_header b m =
      let flag = peek_be 1 2 b in
      let body_size = peek_be 4 12 b in
      if ltb (size b) message_size
      then ok (m, none)
      else if not (peek_be 2 0 b == magic_number)
      then throws (envoy_exception "invalid dubbo message magic number")
      else if ltb max_body_size body_size || not (ltb body_size (2 ^ 31))
      then throws (envoy_exception "invalid dubbo message size")
      else (parse_info flag b (record m { request_id = peek_be 8 4 b })
          >>= λ (m' : MessageMetadata H X). ok (
            m',
            some (record {
              header_size = message_size;
              body_size = body_size;
              is_heartbeat = is_event flag;
              origin_message = empty;
            }),
          ))

  with_result : MessageMetadata H X → RpcResult H X → MessageMetadata H X
  with_result m r = record m {
    result_info = some r;
    message_type = if r.has_exception then MessageType.exception else m.message_type;
  }

  is_ok : Option ℕ → Bool
  is_ok none = false
  is_ok (some s) = s == 20

  decode_body :
      MessageType → Context Buffer → Buffer → MessageMetadata H X → Outcome (MessageMetadata H X)
  unfolding with_result is_ok
  decode_body MessageType.oneway ctx b m =
      deserialize_rpc_invocation H X ctx.header_size ctx.body_size (bytes b)
      >>= λ (i : RpcInvocation H X). ok (record m { invocation_info = some i })
  decode_body MessageType.request ctx b m =
      deserialize_rpc_invocation H X ctx.header_size ctx.body_size (bytes b)
      >>= λ (i : RpcInvocation H X). ok (record m { invocation_info = some i })
  decode_body MessageType.response ctx b m =
      if is_ok m.response_status
      then (deserialize_rpc_result H X ctx.header_size ctx.body_size (bytes b)
          >>= λ (r : RpcResult H X). ok (with_result m r))
      else ok (record m { message_type = MessageType.exception })
  decode_body _ ctx b m = panics

  unfoldable pub decode_data :
      Buffer → Context Buffer → MessageMetadata H X → Outcome (MessageMetadata H X × Bool)
  unfolding decode_body
  decode_data b ctx m =
      if ltb (size b) ctx.body_size
      then ok (m, false)
      else (decode_body m.message_type ctx b m >>= λ (m' : MessageMetadata H X). ok (m', true))

  -- The common part of the two header mutations: the header but for its body size, the new size, the
  -- body up to the attachment, and the attachment encoded again.
  unfoldable pub rewrite_attachment : Attachment H X → ℕ → Buffer → Buffer
  rewrite_attachment a header_size buffer =
      let (origin, rest) = move empty buffer (size buffer) in
      let (head, origin₁) = move rest origin (sub_size header_size 4) in
      let origin₂ = drain 4 origin₁ in
      let encoded = add empty (encode_map a.entries) in
      let kept = sub_size a.offset header_size in
      let sized = write_be 4 (kept + size encoded) head in
      (move (move sized origin₂ kept).0 encoded (size encoded)).0

  rewrite_updated : Option (Attachment H X) → ℕ → Buffer → Buffer
  unfolding rewrite_attachment
  rewrite_updated none header_size b = b
  rewrite_updated (some a) header_size b =
      if a.updated then rewrite_attachment a header_size b else b

  unfoldable pub header_mutation : MessageMetadata H X → Context Buffer → Buffer → Buffer
  unfolding rewrite_updated
  header_mutation m ctx b = elim m.invocation_info [
    | none ↦ b
    | some i ↦ rewrite_updated i.attachment ctx.header_size b
  ]

  rewrite_present : Option (Attachment H X) → ℕ → Buffer → Buffer
  unfolding rewrite_attachment
  rewrite_present none header_size b = b
  rewrite_present (some a) header_size b = rewrite_attachment a header_size b

  unfoldable pub rspheader_mutation : MessageMetadata H X → Context Buffer → Buffer → Buffer
  unfolding rewrite_present
  rspheader_mutation m ctx b = elim m.result_info [
    | none ↦ b
    | some r ↦ rewrite_present r.result_attachment ctx.header_size b
  ]

  status_byte : Option ℕ → Outcome ℕ
  status_byte none = panics
  status_byte (some s) = ok s

  -- The body of a heartbeat is 'N', the null of Hessian2.
  heartbeat_bytes : MessageMetadata H X → Buffer → ℕ → Buffer
  heartbeat_bytes m b status =
      let b₁ = write_be 2 magic_number (drain (size b) b) in
      let b₂ = write_be 1 status (write_be 1 (bit_xor m.serialization_type 32) b₁) in
      write_be 1 b'N' (write_be 4 1 (write_be 8 m.request_id b₂))

  encode_type :
      MessageType → Buffer → MessageMetadata H X → Context Buffer → String → Outcome Buffer
  unfolding heartbeat_bytes status_byte
  encode_type MessageType.heartbeat_response b m ctx content =
      status_byte m.response_status >>= λ (s : ℕ). ok (heartbeat_bytes m b s)
  encode_type MessageType.response b m ctx content =
      ok (if str_eq content "addheader" then rspheader_mutation m ctx b else b)
  encode_type MessageType.request b m ctx content = ok (header_mutation m ctx b)
  encode_type _ b m ctx content = panics

  -- The flag that it returns is always true.
  unfoldable pub encode : Buffer → MessageMetadata H X → Context Buffer → String → Outcome Buffer
  unfolding encode_type
  encode b m ctx content = encode_type m.message_type b m ctx content
