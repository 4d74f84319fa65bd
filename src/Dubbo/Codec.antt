-- ===== src/Dubbo/Codec.antt =====
-- src/application_protocols/dubbo/dubbo_codec.h and dubbo_codec.cc: DubboCodec.
--
-- What toMetadata stores with `put` is an Any.other that tells the type of the value; the values
-- themselves are the MessageMetadata that decode gives along, and encode takes.
pub mod Frames
pub mod Dispatch
pub mod Crashes
use Prim.Native.String.{String, ◌++◌ as str_append}
use meta_protocol_proxy.Base.{
  ℕ, zero, suc, ◌+◌, Bool, true, false, Option, none, some, List, [], ◌∷◌, ◌==◌, ◌||◌, ltb,
  if◌then◌else◌, Outcome, ok, throws, panics, stuck, ◌>>=◌, Exception,
}
use meta_protocol_proxy.Codec.{DecodeStatus, ErrorType, Error}
use meta_protocol_proxy.Codec as Proxy
use meta_protocol_proxy.Buffer.{BufferApi}
use meta_protocol_proxy.Metadata.{
  Any, HeaderMapApi, Metadata, put, put_string, get_by_key, get_bool,
}
use meta_protocol_proxy.Decoder.{Mutation}
use meta_protocol_proxy.Dubbo.Message.{
  HessianApi, MessageType, Attachment, RpcInvocation, RpcResult, MessageMetadata, Context,
  new_message_metadata, mutate_attachment,
}
use meta_protocol_proxy.Dubbo.Serializer.{assign_attachment}
use meta_protocol_proxy.Dubbo.State.{ProtocolState}
use meta_protocol_proxy.Dubbo.Machine.{Machine, new_machine, run}
use meta_protocol_proxy.Dubbo.Protocol.{encode}

-- The types of the stored values.
abbrev pub invocation_any : Any
invocation_any = Any.other 0

abbrev pub result_any : Any
result_any = Any.other 1

abbrev pub protocol_type_any : Any
protocol_type_any = Any.other 2

abbrev pub protocol_version_any : Any
protocol_version_any = Any.other 3

abbrev pub message_type_any : Any
message_type_any = Any.other 4

-- An absl::optional<uint32_t>, not a uint32_t.
abbrev pub timeout_any : Any
timeout_any = Any.other 5

abbrev pub serialization_type_any : Any
serialization_type_any = Any.other 6

abbrev pub response_status_any : Any
response_status_any = Any.other 7

abbrev has {ℓ} : {A : Type ℓ} → Option A → Bool
has none = false
has (some x) = true

module _ (B : BufferApi) (H : HeaderMapApi) (X : HessianApi) where
  open B use {Buffer, bytes, empty, size, move}

  abbrev Message : Type 0
  Message = MessageMetadata H X

  put_text : Option String → Option String → Metadata B H → Metadata B H
  put_text (some key) (some value) m = put_string B H key value m
  put_text _ _ m = m

  -- The loop over an attachment.
  unfoldable pub put_entries : List (X.Object × X.Object) → Metadata B H → Metadata B H
  unfolding put_text
  put_entries [] m = m
  put_entries ((key, value) ∷ es) m = put_entries es (put_text (X.text_of key) (X.text_of value) m)

  put_invocation : RpcInvocation H X → Metadata B H → Metadata B H
  put_invocation i m =
      let m' =
        put_string B H "method" i.method_name (put_string B H "interface" i.service_name m) in
      record m' { operation_name = str_append i.service_name (str_append "/" i.method_name) }

  with_attachment :
      RpcInvocation H X
      → RpcInvocation H X
      → Metadata B H
      → Option (Attachment H X)
      → Outcome (Option (RpcInvocation H X) × Metadata B H)
  unfolding put_entries put_invocation
  with_attachment i j m none = panics
  with_attachment i j m (some a) = ok (some j, put_entries a.entries (put_invocation i m))

  -- The attachment is decoded when it is first asked for, from the message so far.
  with_invocation :
      List ℕ
      → Option (RpcInvocation H X)
      → Metadata B H
      → Outcome (Option (RpcInvocation H X) × Metadata B H)
  unfolding with_attachment
  with_invocation origin none m = ok (none, m)
  with_invocation origin (some i) m = assign_attachment H X origin i >>= λ (j : RpcInvocation H X).
      with_attachment i j m j.attachment

  put_if : Bool → String → Any → Metadata B H → Metadata B H
  put_if true key value m = put B H key value m
  put_if false key value m = m

  put_head : Message → Metadata B H → Metadata B H
  put_head g m₀ =
      let m₁ = put B H "InvocationInfo" invocation_any m₀ in
      let m₂ = put B H "ProtocolType" protocol_type_any m₁ in
      let m₃ = put B H "ProtocolVersion" protocol_version_any m₂ in
      record (put B H "MessageType" message_type_any m₃) { request_id = g.request_id }

  put_flags : Message → Metadata B H → Metadata B H
  put_flags g m =
      put B H "SerializationType" serialization_type_any
        (put B H "TwoWay" (Any.bool g.is_two_way) m)

  put_values : Message → Metadata B H → Metadata B H
  unfolding put_if put_head put_flags
  put_values g m =
      let m' = put_if (has g.timeout) "Timeout" timeout_any (put_head g m) in
      put_if (has g.response_status) "ResponseStatus" response_status_any (put_flags g m')

  -- The attachment of the result is taken without a test whether it is null.
  put_result_attachment : Option (Attachment H X) → Metadata B H → Outcome (Metadata B H)
  put_result_attachment none m = panics
  put_result_attachment (some a) m =
      ok (put B H "RpcResultInfo" result_any (put_entries a.entries m))

  put_result : Option (RpcResult H X) → Metadata B H → Outcome (Metadata B H)
  unfolding put_result_attachment
  put_result none m = ok m
  put_result (some r) m = put_result_attachment r.result_attachment m

  abbrev proxy_type : MessageType → Proxy.MessageType
  proxy_type MessageType.request = Proxy.MessageType.request
  proxy_type MessageType.response = Proxy.MessageType.response
  proxy_type MessageType.oneway = Proxy.MessageType.oneway
  proxy_type MessageType.exception = Proxy.MessageType.error
  proxy_type _ = Proxy.MessageType.heartbeat

  abbrev proxy_status : Option ℕ → Proxy.ResponseStatus → Proxy.ResponseStatus
  proxy_status none old = old
  proxy_status (some s) old =
      if s == 20 then Proxy.ResponseStatus.ok else Proxy.ResponseStatus.error

  filled : Message → Metadata B H → Metadata B H
  filled g m = record m {
    message_type = proxy_type g.message_type;
    response_status = proxy_status g.response_status m.response_status;
  }

  -- The first toMetadata, over the bytes that the invocation's decoder reads.
  pub to_metadata : List ℕ → Message → Metadata B H → Outcome (Message × Metadata B H)
  unfolding with_invocation put_values put_result filled
  to_metadata origin g m =
      with_invocation origin g.invocation_info m
      >>= λ (t : Option (RpcInvocation H X) × Metadata B H).
          (put_result g.result_info (put_values g t.1) >>= λ (m' : Metadata B H).
          ok (record g { invocation_info = t.0 }, filled g m'))

  -- The second, which takes the sizes and the bytes too.
  to_metadata_with : Context Buffer → Message × Metadata B H → Message × Metadata B H
  to_metadata_with ctx (g, m) = (
    g,
    record m {
      header_size = ctx.header_size;
      body_size = ctx.body_size;
      origin_message = (move m.origin_message ctx.origin_message (size ctx.origin_message)).0;
    },
  )

  pub record DubboCodec : Type 0 where
    pub state_machine : Option (Machine B H X)
    pub decode_started : Bool

  abbrev pub new_codec : DubboCodec
  new_codec = record { state_machine = none; decode_started = false }

  unfoldable pub start : DubboCodec → DubboCodec
  start c = record { state_machine = some (new_machine B H X); decode_started = true }

  unfoldable pub complete : DubboCodec → DubboCodec
  complete c = record { state_machine = none; decode_started = false }

  -- The status, the codec, the buffer, and the metadata with the values that it holds.
  abbrev pub Decoded : Type 0
  Decoded = DecodeStatus × DubboCodec × Buffer × Metadata B H × Option Message

  decoded : DubboCodec → Buffer → Context Buffer → Message × Metadata B H → Outcome Decoded
  unfolding to_metadata_with complete
  decoded c b ctx t =
      let (g, m) = to_metadata_with ctx t in ok (DecodeStatus.done, complete c, b, m, some g)

  finish_with :
      Option (Context Buffer) → DubboCodec → Metadata B H → Machine B H X → Buffer → Outcome Decoded
  unfolding to_metadata decoded
  finish_with none c m s b = panics
  finish_with (some ctx) c m s b =
      to_metadata (bytes ctx.origin_message) s.metadata m >>= decoded c b ctx

  finish : DubboCodec → Metadata B H → ProtocolState × Machine B H X × Buffer → Outcome Decoded
  unfolding finish_with
  finish c m (ProtocolState.wait_for_data, s, b) =
      ok (DecodeStatus.wait_for_data, record c { state_machine = some s }, b, m, none)
  finish c m (_, s, b) = finish_with s.context c m s b

  abbrev started : DubboCodec → DubboCodec
  started c = if c.decode_started then c else start c

  run_codec : Option (Machine B H X) → DubboCodec → Buffer → Metadata B H → Outcome Decoded
  unfolding finish
  run_codec none c b m = panics
  run_codec (some s) c b m = run B H X s b >>= finish c m

  unfoldable pub decode : DubboCodec → Buffer → Metadata B H → Outcome Decoded
  unfolding run_codec start
  decode c b m = let c' = started c in run_codec c'.state_machine c' b m
