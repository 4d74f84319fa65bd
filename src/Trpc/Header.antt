-- ===== src/Trpc/Header.antt =====
-- src/application_protocols/trpc/protocol.h and protocol.cc: the fixed header of a tRPC frame.
pub mod RoundTrip
use meta_protocol_proxy.Base.{
  ℕ, ◌+◌, ◌-◌, ◌%◌, ◌^◌, Bool, true, false, List, [], ◌∷◌, ltb, ◌==◌, not, if◌then◌else◌,
}
use meta_protocol_proxy.Buffer.{BufferApi}

abbrev pub trpc_proto_prefix_space : ℕ
trpc_proto_prefix_space = 16

abbrev pub trpc_proto_magic_space : ℕ
trpc_proto_magic_space = 2

abbrev pub trpc_proto_dataframe_type_space : ℕ
trpc_proto_dataframe_type_space = 1

abbrev pub trpc_proto_dataframe_state_space : ℕ
trpc_proto_dataframe_state_space = 1

abbrev pub trpc_proto_dataframe_size_space : ℕ
trpc_proto_dataframe_size_space = 4

abbrev pub trpc_proto_header_size_space : ℕ
trpc_proto_header_size_space = 2

abbrev pub trpc_proto_stream_id_space : ℕ
trpc_proto_stream_id_space = 4

abbrev pub trpc_proto_reversed_space : ℕ
trpc_proto_reversed_space = 2

-- TRPC_MAGIC_VALUE
abbrev pub trpc_magic_value : ℕ
trpc_magic_value = 0x930

-- `reserved` is the `char[2]`, byte by byte.
pub record TrpcFixedHeader : Type 0 where
  pub magic_value : ℕ
  pub data_frame_type : ℕ
  pub stream_frame_type : ℕ
  pub data_frame_size : ℕ
  pub pb_header_size : ℕ
  pub stream_id : ℕ
  pub reserved : List ℕ

-- The members' initialisers.
abbrev pub new_fixed_header : TrpcFixedHeader
new_fixed_header = record {
  magic_value = trpc_magic_value;
  data_frame_type = 0;
  stream_frame_type = 0;
  data_frame_size = 0;
  pb_header_size = 0;
  stream_id = 0;
  reserved = 0 ∷ 0 ∷ [];
}

-- Both sums are of `uint32_t`; the difference wraps.
abbrev pub get_header_size : TrpcFixedHeader → ℕ
get_header_size h = (h.pb_header_size + trpc_proto_prefix_space) % 2 ^ 32

abbrev pub get_payload_size : TrpcFixedHeader → ℕ
get_payload_size h = (h.data_frame_size + 2 ^ 32 - get_header_size h) % 2 ^ 32

module _ (B : BufferApi) where
  open B use {Buffer, size, peek_be, copy_out, drain, add, write_be}

  -- The reads behind the magic number, at the offsets that `pos` goes through.
  read_fields : TrpcFixedHeader → Buffer → TrpcFixedHeader
  read_fields h buff =
      let pos : ℕ = trpc_proto_magic_space in
      let frame_type = peek_be 1 pos buff in
      let pos : ℕ = pos + trpc_proto_dataframe_type_space in
      let stream_type = peek_be 1 pos buff in
      let pos : ℕ = pos + trpc_proto_dataframe_state_space in
      let frame_size = peek_be 4 pos buff in
      let pos : ℕ = pos + trpc_proto_dataframe_size_space in
      let header_size = peek_be 2 pos buff in
      let pos : ℕ = pos + trpc_proto_header_size_space in
      let stream = peek_be 4 pos buff in
      let pos : ℕ = pos + trpc_proto_stream_id_space in
      record h {
        data_frame_type = frame_type;
        stream_frame_type = stream_type;
        data_frame_size = frame_size;
        pb_header_size = header_size;
        stream_id = stream;
        reserved = copy_out pos trpc_proto_reversed_space buff;
      }

  -- The returned flag, the header and the buffer after the call. `magic_value` is written before
  -- it is tested.
  unfoldable pub decode_header : TrpcFixedHeader → Buffer → Bool → Bool × TrpcFixedHeader × Buffer
  unfolding read_fields
  decode_header h buff drains =
      let magic = peek_be 2 0 buff in
      let h' = record h { magic_value = magic } in
      if ltb (size buff) trpc_proto_prefix_space
      then (false, h, buff)
      else if not (magic == trpc_magic_value)
      then (false, h', buff)
      else (true, read_fields h' buff, if drains then drain trpc_proto_prefix_space buff else buff)

  unfoldable pub encode_header : TrpcFixedHeader → Buffer → Bool × Buffer
  encode_header h buffer =
      let buffer = write_be 2 h.magic_value buffer in
      let buffer = write_be 1 h.data_frame_type buffer in
      let buffer = write_be 1 h.stream_frame_type buffer in
      let buffer = write_be 4 h.data_frame_size buffer in
      let buffer = write_be 2 h.pb_header_size buffer in
      let buffer = write_be 4 h.stream_id buffer in (true, add buffer h.reserved)
