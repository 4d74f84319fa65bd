-- ===== src/Trpc/Protocol.antt =====
-- src/application_protocols/trpc/protocol.h: a whole tRPC message, `Protocol<T>`.
pub mod Mutation
pub mod Offset
use Prim.Native.String.{String}
use meta_protocol_proxy.Base.{
  ℕ, ◌+◌, ◌%◌, ◌^◌, ◌≡◌, Bool, true, false, Option, none, some, List, [], ◌∷◌, length, ltb, not,
  if◌then◌else◌,
}
use meta_protocol_proxy.Buffer.{BufferApi}
use meta_protocol_proxy.Trpc.Header.{
  TrpcFixedHeader, trpc_magic_value, trpc_proto_prefix_space, get_header_size, get_payload_size,
  decode_header, encode_header,
}

-- The generated protobuf class `T`.
pub record ProtoApi : Type 1 where
  pub Message : Type 0
  -- ParseFromString, `none` where it returns false
  pub parse : List ℕ → Option Message
  -- SerializeAsString
  pub serialize : Message → List ℕ
  -- ByteSizeLong
  pub byte_size : Message → ℕ
  -- (*mutable_trans_info())[key] = value
  pub set_trans_info : String → String → Message → Message
  pub byte_size-serialize : (m : Message) → byte_size m ≡ length (serialize m)

pub record Protocol (Buffer Message : Type 0) : Type 0 where
  pub fixed_header : TrpcFixedHeader
  pub protocol_header : Message
  pub body : Buffer

module _ (B : BufferApi) (P : ProtoApi) where
  open B use {Buffer, bytes, empty, size, copy_out, drain, move, add}
  open P use {Message, parse, serialize, byte_size, set_trans_info}

  -- The returned flag, the object and the buffer after the call.
  abbrev pub Result : Type 0
  Result = Bool × Protocol Buffer Message × Buffer

  decode_parsed : Protocol Buffer Message → Buffer → Option Message → Result
  decode_parsed p buff none = (false, p, buff)
  decode_parsed p buff (some m) =
      let (body, rest) = move p.body buff (get_payload_size p.fixed_header) in
      (true, record p { protocol_header = m; body = body }, rest)

  -- The part of decode behind the fixed header's.
  decode_rest : Protocol Buffer Message → ℕ → Bool × TrpcFixedHeader × Buffer → Result
  unfolding decode_parsed
  decode_rest p ptr_size (false, h, buff) = (false, record p { fixed_header = h }, buff)
  decode_rest p ptr_size (true, h, buff) =
      if ltb ptr_size h.data_frame_size
      then (false, record p { fixed_header = h }, buff)
      else decode_parsed (record p { fixed_header = h }) (drain h.pb_header_size buff)
          (parse (copy_out trpc_proto_prefix_space h.pb_header_size buff))

  unfoldable pub decode : Protocol Buffer Message → Buffer → Result
  unfolding decode_rest
  decode p buff = decode_rest p (size buff) (decode_header B p.fixed_header buff true)

  -- The sizes are `uint16_t` and `uint32_t`.
  pub sized_header : TrpcFixedHeader → Message → ℕ → TrpcFixedHeader
  sized_header h m body_length =
      let h = record h { pb_header_size = byte_size m % 2 ^ 16 } in
      record h { data_frame_size = (get_header_size h + body_length) % 2 ^ 32 }

  unfoldable pub encode : Protocol Buffer Message → Buffer → Result
  unfolding sized_header
  encode p buff =
      let h =
        sized_header (record p.fixed_header { magic_value = trpc_magic_value }) p.protocol_header
          (size p.body) in
      let (_, buff) = encode_header B h buff in
      let buff = add buff (serialize p.protocol_header) in
      (
        true,
        record p { fixed_header = h },
        if ltb 0 (size p.body) then add buff (bytes p.body) else buff,
      )

  unfoldable pub mutate : List (String × String) → Message → Message
  mutate [] m = m
  mutate ((key, value) ∷ kvs) m = mutate kvs (set_trans_info key value m)

  mutate_parsed :
      List (String × String) → Protocol Buffer Message → Buffer → Option Message → Result
  unfolding mutate sized_header
  mutate_parsed mutation p buff none = (false, p, buff)
  mutate_parsed mutation p buff (some m) =
      let (body, buff) = move empty buff (get_payload_size p.fixed_header) in
      let m = mutate mutation m in
      let h = sized_header p.fixed_header m (size body) in
      let (_, buff) = encode_header B h buff in
      (
        true,
        record p { fixed_header = h; protocol_header = m },
        add (add buff (serialize m)) (bytes body),
      )

  -- The part of mutateHeader behind the fixed header's decoding.
  mutate_frame :
      List (String × String)
      → Protocol Buffer Message
      → ℕ
      → Bool × TrpcFixedHeader × Buffer
      → Result
  unfolding mutate_parsed
  mutate_frame mutation p ptr_size (false, h, buff) = (false, record p { fixed_header = h }, buff)
  mutate_frame mutation p ptr_size (true, h, buff) =
      if ltb ptr_size h.data_frame_size
      then (false, record p { fixed_header = h }, buff)
      else mutate_parsed mutation (record p { fixed_header = h }) (drain h.pb_header_size buff)
          (parse (copy_out 0 h.pb_header_size buff))

  unfoldable pub mutate_header : List (String × String) → Protocol Buffer Message → Buffer → Result
  unfolding mutate_frame
  mutate_header mutation p buff =
      mutate_frame mutation p (size buff) (decode_header B p.fixed_header buff true)
