-- ===== src/Dubbo/Protocol/Headers.antt =====
-- What decodeHeader and decodeData of DubboProtocolImpl leave.
use meta_protocol_proxy.Base.{
  ℕ, ◌≤◌, ◌<◌, ◌≡◌, refl, Option, none, some, Bool, true, false, ltb, not, bit_and, ◌==◌, ◌||◌, ◌^◌,
  ok, Ends, returns, raises, crashes, Ends-bind, Ends-if, AnyValue, ltb→lt, ltb→le,
}
use meta_protocol_proxy.Buffer.{BufferApi}
use meta_protocol_proxy.Metadata.{HeaderMapApi}
use meta_protocol_proxy.Dubbo.Message.{HessianApi, MessageType, MessageMetadata, Context}
use meta_protocol_proxy.Dubbo.Serializer.Returns.{
  deserialize_rpc_invocation-Ends, deserialize_rpc_result-Ends,
}
use meta_protocol_proxy.Dubbo.Protocol.{
  is_valid_serialization_type, is_valid_response_status, is_request, is_event, magic_number,
  max_body_size, message_size, parse_info, parse_request_info_from_buffer,
  parse_response_info_from_buffer, decode_header, decode_body, decode_data, is_ok,
}

module _ (B : BufferApi) (H : HeaderMapApi) (X : HessianApi) where
  open B use {Buffer, bytes, empty, size, peek_be}

  parse_info-Ends :
      (flag : ℕ) (b : Buffer) (m : MessageMetadata H X) → Ends AnyValue (parse_info B H X flag b m)
  unfolding parse_info parse_request_info_from_buffer parse_response_info_from_buffer
  parse_info-Ends flag b m =
      Ends-if {b = is_request flag}
        (λ _.
          Ends-if {b = not (is_valid_serialization_type (bit_and (peek_be 1 2 b) 31))} (λ _. raises)
            (λ _. returns tt))
        (λ _.
          Ends-if {b = not (is_valid_response_status (peek_be 1 3 b))} (λ _. raises)
            (λ _. returns tt))

  pub record IsContext (b : Buffer) (ctx : Context Buffer) : Type 0 where
    pub whole : 16 ≤ size b
    pub header : ctx.header_size ≡ 16
    pub body : ctx.body_size ≡ peek_be 4 12 b
    pub fresh : ctx.origin_message ≡ empty

  -- No context where the header is not there in full, and else one with its sizes.
  abbrev pub HeaderRead : Buffer → MessageMetadata H X × Option (Context Buffer) → Type 0
  HeaderRead b (m, none) = size b < 16
  HeaderRead b (m, some ctx) = IsContext b ctx

  abbrev context_at : Buffer → Context Buffer
  context_at b = record {
    header_size = message_size;
    body_size = peek_be 4 12 b;
    is_heartbeat = is_event (peek_be 1 2 b);
    origin_message = empty;
  }

  IsContext-context_at : (b : Buffer) → 16 ≤ size b → IsContext b (context_at b)
  IsContext-context_at b e = record { whole = e; header = refl; body = refl; fresh = refl }

  pub decode_header-Ends :
      (b : Buffer) (m : MessageMetadata H X) → Ends (HeaderRead b) (decode_header B H X b m)
  unfolding decode_header
  decode_header-Ends b m =
      let n = peek_be 4 12 b in
      Ends-if {b = ltb (size b) message_size} (λ e. returns (ltb→lt (size b) 16 e))
        (λ e.
          Ends-if {b = not (peek_be 2 0 b == magic_number)} (λ _. raises)
            (λ _.
              Ends-if {b = ltb max_body_size n || not (ltb n (2 ^ 31))} (λ _. raises)
                (λ _.
                  Ends-bind {f = λ (m' : MessageMetadata H X). ok (m', some (context_at b))}
                    (parse_info-Ends (peek_be 1 2 b) b (record m { request_id = peek_be 8 4 b }))
                    (λ m' _.
                      returns {a = (m', some (context_at b))}
                        (IsContext-context_at b (ltb→le (size b) 16 e))))))

  decode_body-Ends :
      (t : MessageType) (ctx : Context Buffer) (b : Buffer) (m : MessageMetadata H X)
      → Ends AnyValue (decode_body B H X t ctx b m)
  unfolding decode_body
  decode_body-Ends MessageType.oneway ctx b m =
      Ends-bind (deserialize_rpc_invocation-Ends H X ctx.header_size ctx.body_size (bytes b))
        (λ i _. returns tt)
  decode_body-Ends MessageType.request ctx b m =
      Ends-bind (deserialize_rpc_invocation-Ends H X ctx.header_size ctx.body_size (bytes b))
        (λ i _. returns tt)
  decode_body-Ends MessageType.response ctx b m =
      Ends-if {b = is_ok B H X m.response_status}
        (λ _.
          Ends-bind (deserialize_rpc_result-Ends H X ctx.header_size ctx.body_size (bytes b))
            (λ r _. returns tt))
        (λ _. returns tt)
  decode_body-Ends _ ctx b m = crashes

  -- It waits exactly while the body is not there in full.
  abbrev pub DataRead : Buffer → Context Buffer → MessageMetadata H X × Bool → Type 0
  DataRead b ctx (m, false) = size b < ctx.body_size
  DataRead b ctx (m, true) = ctx.body_size ≤ size b

  pub decode_data-Ends :
      (b : Buffer) (ctx : Context Buffer) (m : MessageMetadata H X)
      → Ends (DataRead b ctx) (decode_data B H X b ctx m)
  unfolding decode_data
  decode_data-Ends b ctx m =
      Ends-if (λ e. returns (ltb→lt (size b) ctx.body_size e))
        (λ e.
          Ends-bind (decode_body-Ends m.message_type ctx b m)
            (λ m' _. returns (ltb→le (size b) ctx.body_size e)))
