-- ===== src/Thrift/Protocol.antt =====
-- What the Thrift codec uses of src/application_protocols/thrift/thrift.h, metadata.h, protocol.h and
-- transport.h: the enumerations, the metadata of a message, and the two virtual interfaces.
use Prim.Native.String.{String}
use meta_protocol_proxy.Base.{ℕ, Bool, Option, Outcome}
use meta_protocol_proxy.Buffer.{BufferApi}

pub data ProtocolType : Type 0 where
  binary lax_binary compact twitter auto : ProtocolType

pub data MessageType : Type 0 where
  call reply exception oneway : MessageType

-- A value that is none of the enumerators is `unknown`; of these, Void is never told apart.
pub data FieldType : Type 0 where
  stop bool byte double i16 i32 i64 string struct map set list : FieldType
  unknown : ℕ → FieldType

abbrev pub type_number : ProtocolType → ℕ
type_number binary = 0
type_number lax_binary = 1
type_number compact = 2
type_number twitter = 3
type_number auto = 4

-- MessageMetadata: the members that the codec uses, and the others together.
pub record MessageMetadata (Others : Type 0) : Type 0 where
  pub frame_size : Option ℕ
  pub protocol : Option ProtocolType
  pub method_name : Option String
  pub sequence_id : Option ℕ
  pub message_type : Option MessageType
  pub app_exception : Option (ℕ × String)
  pub others : Others

module _ (B : BufferApi) where
  open B use {Buffer}

  -- A read on the protocol and the buffer: the value, or nothing where it needs more data.
  abbrev pub Reader : Type 0 → Type 0 → Type 0
  Reader P V = P → Buffer → Outcome (Option V × P × Buffer)

  abbrev pub Writer : Type 0 → Type 0 → Type 0
  Writer P V = V → P → Buffer → Outcome (P × Buffer)

  -- Protocol; its state is that of the implementation. A signed integer stands as its bit pattern.
  pub record ProtocolApi : Type 1 where
    pub State : Type 0
    pub Others : Type 0
    pub Double : Type 0
    pub no_others : Others
    pub type : State → ProtocolType
    pub set_type : ProtocolType → State → State
    pub read_message_begin : MessageMetadata Others → Reader State (MessageMetadata Others)
    pub read_message_end : Reader State (Unit {0})
    pub read_struct_begin : Reader State String
    pub read_struct_end : Reader State (Unit {0})
    pub read_field_begin : Reader State (String × FieldType × ℕ)
    pub read_field_end : Reader State (Unit {0})
    pub read_map_begin : Reader State (FieldType × FieldType × ℕ)
    pub read_map_end : Reader State (Unit {0})
    pub read_list_begin : Reader State (FieldType × ℕ)
    pub read_list_end : Reader State (Unit {0})
    pub read_set_begin : Reader State (FieldType × ℕ)
    pub read_set_end : Reader State (Unit {0})
    pub read_bool : Reader State Bool
    pub read_byte : Reader State ℕ
    pub read_int16 : Reader State ℕ
    pub read_int32 : Reader State ℕ
    pub read_int64 : Reader State ℕ
    pub read_double : Reader State Double
    pub read_string : Reader State String
    pub write_message_begin : Writer State (MessageMetadata Others)
    pub write_message_end : Writer State (Unit {0})
    pub write_struct_begin : Writer State String
    pub write_struct_end : Writer State (Unit {0})
    pub write_field_begin : Writer State (String × FieldType × ℕ)
    pub write_field_end : Writer State (Unit {0})
    pub write_map_begin : Writer State (FieldType × FieldType × ℕ)
    pub write_map_end : Writer State (Unit {0})
    pub write_list_begin : Writer State (FieldType × ℕ)
    pub write_list_end : Writer State (Unit {0})
    pub write_set_begin : Writer State (FieldType × ℕ)
    pub write_set_end : Writer State (Unit {0})
    pub write_bool : Writer State Bool
    pub write_byte : Writer State ℕ
    pub write_int16 : Writer State ℕ
    pub write_int32 : Writer State ℕ
    pub write_int64 : Writer State ℕ
    pub write_double : Writer State Double
    pub write_string : Writer State String

  -- Transport, over the same metadata.
  pub record TransportApi (Others : Type 0) : Type 1 where
    pub State : Type 0
    pub decode_frame_start : MessageMetadata Others → Reader State (MessageMetadata Others)
    pub decode_frame_end : Reader State (Unit {0})
    -- The transport and the output buffer after the call, from the output buffer and the message.
    pub encode_frame : MessageMetadata Others → Buffer → Buffer → State → Outcome (State × Buffer)
