-- ===== src/Dubbo/Serializer.antt =====
-- src/application_protocols/dubbo/dubbo_hessian2_serializer_impl.cc, and the lazy parts of
-- message_impl.cc that decode by it.
pub mod Returns
use Prim.Native.String.{String}
use text.Mathlib.Text.{◌==◌ as str_eq}
use meta_protocol_proxy.Base.{
  ℕ, zero, suc, ◌+◌, Bool, true, false, Option, none, some, List, [], ◌∷◌, ◌==◌, ◌||◌, ◌&&◌, not,
  ltb, if◌then◌else◌, Outcome, ok, throws, panics, envoy_exception, ◌>>=◌, codes,
}
use meta_protocol_proxy.Metadata.{HeaderMapApi}
use meta_protocol_proxy.Dubbo.Message.{
  HessianApi, Attachment, RpcInvocation, RpcResult, new_attachment, lookup_attachment,
  parameters_number,
}

-- What a response type brings: an exception, a value, an attachment, and whether anything may
-- stand behind the type.
pub record Shape : Type 0 where
  pub exception : Bool
  pub value : Bool
  pub has_attachment : Bool
  pub value_or_attachment : Bool

abbrev pub exception_shape : Shape
exception_shape = record {
  exception = true;
  value = false;
  has_attachment = false;
  value_or_attachment = false;
}

abbrev pub value_shape : Shape
value_shape = record {
  exception = false;
  value = true;
  has_attachment = false;
  value_or_attachment = true;
}

-- The switch of deserializeRpcResult. A response with a null value falls through to the case
-- with an attachment.
unfoldable pub shape_of : ℕ → Option Shape
shape_of t =
    if t == 0
    then some exception_shape
    else if t == 1
    then some value_shape
    else if t == 2
    then some (record {
      exception = false;
      value = false;
      has_attachment = true;
      value_or_attachment = false;
    })
    else if t == 3
    then some (record {
      exception = true;
      value = false;
      has_attachment = true;
      value_or_attachment = false;
    })
    else if t == 4
    then some (record {
      exception = false;
      value = true;
      has_attachment = true;
      value_or_attachment = true;
    })
    else if t == 5
    then some (record {
      exception = false;
      value = false;
      has_attachment = true;
      value_or_attachment = true;
    })
    else none

module _ (H : HeaderMapApi) (X : HessianApi) where
  open X use {Object, entries_of, decode_string, decode_int, decode_object}

  new_invocation :
      ℕ
      → ℕ
      → Option String
      → Option String
      → Option String
      → Option String
      → Outcome (RpcInvocation H X)
  new_invocation header_size offset (some dubbo) (some service) (some version) (some method) =
      ok (record {
        service_name = service;
        service_version = version;
        method_name = method;
        group = none;
        parsed_size = header_size + offset;
        attachment = none;
      })
  new_invocation header_size offset _ _ _ _ =
      throws (envoy_exception "RpcInvocation has no request metadata")

  -- The header's and the body's size, and the bytes of the buffer. The version of Dubbo is read
  -- first, and only its presence looked at.
  unfoldable pub deserialize_rpc_invocation : ℕ → ℕ → List ℕ → Outcome (RpcInvocation H X)
  unfolding new_invocation
  deserialize_rpc_invocation header_size body_size bytes =
      let (dubbo, o₁) = decode_string bytes 0 in
      let (service, o₂) = decode_string bytes o₁ in
      let (version, o₃) = decode_string bytes o₂ in
      let (method, o₄) = decode_string bytes o₃ in
      if ltb body_size o₄
      then throws (envoy_exception "RpcInvocation size larger than body size")
      else new_invocation header_size o₄ dubbo service version method

  attachment_of : Option Object → ℕ → Attachment H X
  attachment_of none offset = new_attachment H X [] offset
  attachment_of (some o) offset = elim (entries_of o) [
    | none ↦ new_attachment H X [] offset
    | some entries ↦ new_attachment H X entries offset
  ]

  -- The loop of the parameters' callback: the offset behind them.
  parameters : List ℕ → ℕ → ℕ → Outcome ℕ
  parameters bytes zero offset = ok offset
  parameters bytes (suc n) offset =
      let (o, next) = decode_object bytes offset in
      elim o [
        | none ↦ throws (envoy_exception "Cannot parse RpcInvocation parameter from buffer")
        | some _ ↦ parameters bytes n next
      ]

  descriptor_number : Option String → ℕ
  descriptor_number none = 0
  descriptor_number (some types) = parameters_number (codes types)

  abbrev group_of : Option String → Option String → Option String
  group_of old none = old
  group_of old (some g) = some g

  read_attachment : List ℕ → RpcInvocation H X → ℕ → RpcInvocation H X
  unfolding attachment_of
  read_attachment bytes i offset =
      let a = attachment_of (decode_object bytes offset).0 offset in
      record i { attachment = some a; group = group_of i.group (lookup_attachment H X "group" a) }

  -- assignAttachmentIfNeed, over the bytes of the message: the parameters are decoded first.
  unfoldable pub assign_attachment : List ℕ → RpcInvocation H X → Outcome (RpcInvocation H X)
  unfolding parameters descriptor_number read_attachment
  assign_attachment bytes i = elim i.attachment [
    | some _ ↦ ok i
    | none ↦
        let (types, offset) = decode_string bytes i.parsed_size in
        parameters bytes (descriptor_number types) offset >>= λ (next : ℕ).
        ok (read_attachment bytes i next)
  ]

  -- The body of a value is read by dereference, also when it is no string.
  read_body : List ℕ → Bool → ℕ → Outcome (String × ℕ)
  read_body bytes false offset = ok ("", offset)
  read_body bytes true offset =
      let (body, next) = decode_string bytes offset in
      elim body [ none ↦ panics | some s ↦ ok (s, next) ]

  abbrev result_attachment_of : List ℕ → ℕ → Bool → ℕ → Option (Attachment H X)
  result_attachment_of bytes header_size false offset = none
  result_attachment_of bytes header_size true offset =
      some (attachment_of (decode_object bytes offset).0 (header_size + offset))

  result_of : ℕ → ℕ → List ℕ → ℕ → Shape → String × ℕ → Outcome (RpcResult H X)
  unfolding attachment_of
  result_of header_size body_size bytes total_size s (body, offset) =
      if ltb body_size total_size
      then throws (envoy_exception "RpcResult size large than body size")
      else if not s.value_or_attachment && not (body_size == total_size)
      then throws
          (envoy_exception "RpcResult is no value, but the rest of the body size not equal 0")
      else ok (record {
        has_exception = s.exception;
        body = body;
        result_attachment = result_attachment_of bytes header_size s.has_attachment offset;
      })

  shaped : ℕ → ℕ → List ℕ → ℕ → Option Shape → Outcome (RpcResult H X)
  unfolding read_body result_of
  shaped header_size body_size bytes offset none =
      throws (envoy_exception "not supported return type")
  shaped header_size body_size bytes offset (some s) =
      read_body bytes s.value offset >>= result_of header_size body_size bytes offset s

  unfoldable pub deserialize_rpc_result : ℕ → ℕ → List ℕ → Outcome (RpcResult H X)
  unfolding shape_of shaped
  deserialize_rpc_result header_size body_size bytes =
      let (t, offset) = decode_int bytes 0 in
      elim t [
        | none ↦ throws (envoy_exception "Cannot parse RpcResult type from buffer")
        | some n ↦ shaped header_size body_size bytes offset (shape_of n)
      ]
