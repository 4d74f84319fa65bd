-- ===== src/Thrift/Codec.antt =====
-- The class ThriftCodec of src/application_protocols/thrift/thrift_codec.h and thrift_codec.cc. What
-- the codec holds after an exception is not kept: the connection is closed then.
pub mod Sound
pub mod Sequence
use Prim.Native.String.{String}
use text.Mathlib.Text.{◌==◌ as str_eq}
use meta_protocol_proxy.Base.{
  ℕ, ◌+◌, ◌-◌, ◌%◌, ◌^◌, Bool, true, false, Option, none, some, ltb, ◌==◌, if◌then◌else◌, Outcome,
  ok, throws, panics, Exception, ◌>>=◌,
}
use meta_protocol_proxy.Buffer.{BufferApi}
use meta_protocol_proxy.Codec.{MessageType, DecodeStatus, Error}
use meta_protocol_proxy.Metadata.{HeaderMapApi, Metadata, put_string, get_string}
use meta_protocol_proxy.Decoder.{Mutation}
use meta_protocol_proxy.Thrift.Protocol as Thrift
use meta_protocol_proxy.Thrift.Protocol.{
  ProtocolType, FieldType, MessageMetadata, type_number, ProtocolApi, TransportApi, Writer,
}
use meta_protocol_proxy.Thrift.State.{ProtocolState, is_waiting}
use meta_protocol_proxy.Thrift.Machine.{Machine, new_machine, run}

abbrev pub method_key : String
method_key = "method"

-- `setRequestId(sequenceId())`: an int32_t as an uint64_t.
abbrev pub widened : ℕ → ℕ
widened n = if ltb n (2 ^ 31) then n else n + (2 ^ 64 - 2 ^ 32)

abbrev pub proxy_type : Thrift.MessageType → MessageType
proxy_type Thrift.MessageType.call = MessageType.request
proxy_type Thrift.MessageType.reply = MessageType.response
proxy_type Thrift.MessageType.oneway = MessageType.oneway
proxy_type Thrift.MessageType.exception = MessageType.error

module _ (B : BufferApi) (H : HeaderMapApi) (P : ProtocolApi B) (T : TransportApi B P.Others) where
  open B use {Buffer, empty}

  abbrev pub Message : Type 0
  Message = MessageMetadata P.Others

  -- The machine refers to the protocol and the metadata of the codec and to the data of the call;
  -- its copies of these are set before each run.
  pub record ThriftCodec : Type 0 where
    pub transport : T.State
    pub protocol : P.State
    pub metadata : Option Message
    pub state_machine : Option (Machine B P)
    pub frame_started : Bool
    pub frame_ended : Bool

  abbrev pub Result : Type 0
  Result = Outcome (DecodeStatus × ThriftCodec × Buffer × Metadata B H)

  abbrev new_message : Message
  new_message = record {
    frame_size = none;
    protocol = none;
    method_name = none;
    sequence_id = none;
    message_type = none;
    app_exception = none;
    others = P.no_others;
  }

  unfoldable pub complete : ThriftCodec → ThriftCodec
  complete c = record c { state_machine = none; frame_started = false; frame_ended = false }

  put_method : Option String → Metadata B H → Metadata B H
  put_method none m = m
  put_method (some name) m = put_string B H method_key name m

  put_sequence : Option ℕ → Metadata B H → Metadata B H
  put_sequence none m = m
  put_sequence (some n) m = record m { request_id = widened n }

  type_of : Option Thrift.MessageType → Outcome MessageType
  type_of none = throws Exception.bad_optional_access
  type_of (some t) = ok (proxy_type t)

  -- toMetadata, with the original message of the machine.
  unfoldable pub to_metadata :
      Message → Buffer → T.State → Metadata B H → Outcome (T.State × Metadata B H)
  unfolding put_method put_sequence type_of
  to_metadata msg original t m =
      let m' = put_sequence msg.sequence_id (put_method msg.method_name m) in
      type_of msg.message_type >>= λ (type : MessageType).
      (T.encode_frame msg m'.origin_message original t >>= λ (u : T.State × Buffer).
      ok (u.0, record m' { message_type = type; origin_message = u.1 }))

  unfoldable pub to_msg_metadata : Metadata B H → Message → Outcome Message
  to_msg_metadata m msg = get_string B H method_key m >>= λ (method : String). ok (record msg {
    method_name = if str_eq method "" then msg.method_name else some method;
    sequence_id = some (m.request_id % 2 ^ 32);
  })

  finished :
      ThriftCodec
      → Message
      → Machine B P
      → Metadata B H
      → Option (Unit {0}) × T.State × Buffer
      → Result
  unfolding complete to_metadata
  finished c msg w m (none, t, b) =
      ok (DecodeStatus.wait_for_data, record c { transport = t }, b, m)
  finished c msg w m (some v, t, b) =
      to_metadata msg w.origin_message t m >>= λ (u : T.State × Metadata B H). ok (
        DecodeStatus.done,
        complete (record c { transport = u.0; metadata = none; frame_ended = true }),
        b,
        u.1,
      )

  -- The codec after a run of its machine.
  abbrev kept : ThriftCodec → Machine B P → ThriftCodec
  kept c w = record c { protocol = w.protocol; metadata = some w.metadata; state_machine = some w }

  after_run : ThriftCodec → Metadata B H → ProtocolState × Machine B P → Result
  unfolding finished
  after_run c m (s, w) =
      if is_waiting s
      then ok (DecodeStatus.wait_for_data, kept c w, w.buffer, m)
      else (T.decode_frame_end c.transport w.buffer >>= finished (kept c w) w.metadata w m)

  run_machine : ThriftCodec → Option Message → Option (Machine B P) → Buffer → Metadata B H → Result
  unfolding after_run
  run_machine c (some msg) (some w) b m =
      run B P (record w { protocol = c.protocol; metadata = msg; buffer = b }) >>= after_run c m
  run_machine c _ _ b m = panics

  -- The type that the transport reports.
  checked_protocol : Option ProtocolType → P.State → Outcome P.State
  checked_protocol none p = ok p
  checked_protocol (some type) p =
      if type_number (P.type p) == type_number ProtocolType.auto
      then ok (P.set_type type p)
      else if type_number type == type_number (P.type p)
      then ok p
      else throws (Exception.envoy_exception "transport reports another protocol")

  checked_exception : Option (ℕ × String) → Outcome (Unit {0})
  checked_exception none = ok tt
  checked_exception (some (type, message)) = throws (Exception.envoy_exception message)

  -- The codec with a machine for a frame.
  abbrev started : ThriftCodec → P.State → T.State → Message → Buffer → ThriftCodec
  started c p t msg b = record c {
    transport = t;
    protocol = p;
    metadata = some msg;
    state_machine = some (new_machine B P p msg b);
    frame_started = true;
  }

  frame_start : ThriftCodec → Message → Metadata B H → Option Message × T.State × Buffer → Result
  unfolding run_machine checked_protocol checked_exception
  frame_start c msg m (none, t, b) =
      ok (DecodeStatus.wait_for_data, record c { transport = t; metadata = some msg }, b, m)
  frame_start c msg m (some msg', t, b) =
      checked_protocol msg'.protocol c.protocol >>= λ (p : P.State).
      (checked_exception msg'.app_exception >>= λ (_ : Unit {0}).
      (let c' = started c p t msg' b in run_machine c' c'.metadata c'.state_machine b m))

  abbrev metadata_or_new : Option Message → Message
  metadata_or_new none = new_message
  metadata_or_new (some msg) = msg

  unfoldable pub decode : ThriftCodec → Buffer → Metadata B H → Result
  unfolding frame_start run_machine complete
  decode c b m =
      if c.frame_ended
      then ok (DecodeStatus.done, complete c, b, m)
      else if c.frame_started
      then run_machine c c.metadata c.state_machine b m
      else let msg = metadata_or_new c.metadata in
        (T.decode_frame_start msg c.transport b >>= frame_start c msg m)

  -- encode writes nothing yet; a type without a case ends the process.
  unfoldable pub encode : Metadata B H → Mutation → Buffer → Outcome Buffer
  encode m mutation b = elim m.message_type [
    | MessageType.heartbeat ↦ ok b
    | MessageType.request ↦ ok b
    | MessageType.response ↦ ok b
    | MessageType.error ↦ ok b
    | _ ↦ panics
  ]

  abbrev then_write :
      {V : Type 0} → Writer B P.State V → V → P.State × Buffer → Outcome (P.State × Buffer)
  then_write wr v t = wr v t.0 t.1

  -- The TApplicationException in the protocol's form: its message and its type InternalError.
  exception_body : String → Message → P.State → Outcome (P.State × Buffer)
  exception_body message msg p =
      then_write P.write_message_begin msg (p, empty)
      >>= then_write P.write_struct_begin "TApplicationException"
      >>= then_write P.write_field_begin ("message", FieldType.string, 1)
      >>= then_write P.write_string message
      >>= then_write P.write_field_end tt
      >>= then_write P.write_field_begin ("type", FieldType.i32, 2)
      >>= then_write P.write_int32 6
      >>= then_write P.write_field_end tt
      >>= then_write P.write_field_begin ("", FieldType.stop, 0)
      >>= then_write P.write_struct_end tt
      >>= then_write P.write_message_end tt

  abbrev name_or_empty : Option String → Option String
  name_or_empty none = some ""
  name_or_empty (some name) = some name

  unfoldable pub on_error :
      ThriftCodec → Metadata B H → Error → Buffer → Outcome (ThriftCodec × Buffer)
  unfolding exception_body
  on_error c m error b = to_msg_metadata m new_message >>= λ (msg : Message).
      (let msg' = record msg {
        method_name = name_or_empty msg.method_name;
        message_type = some Thrift.MessageType.exception;
      } in
        exception_body error.message msg' c.protocol >>= λ (u : P.State × Buffer).
        (T.encode_frame msg' b u.1 c.transport >>= λ (v : T.State × Buffer).
        ok (record c { transport = v.0; protocol = u.0 }, v.1)))
