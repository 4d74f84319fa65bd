-- ===== src/Examples/ThriftFrames.antt =====
-- The Thrift codec over a protocol of one byte for a field, a container and a value, and a transport
-- that adds nothing.
use Prim.Native.String.{String}
use text.Mathlib.Text.{◌==◌ as str_eq}
use text.Mathlib.TextEquality.{eq_iff}
use meta_protocol_proxy.Base.{
  ℕ, ◌≤◌, ◌≡◌, ◌≢◌, refl, true, false, Option, none, some, List, [], ◌∷◌, ◌++◌, ◌==◌, if◌then◌else◌,
  Outcome, ok, Safely, gives, arith,
}
use meta_protocol_proxy.Codec.{DecodeStatus}
use meta_protocol_proxy.Buffer.ByteList.{byte_list}
use meta_protocol_proxy.Metadata.{Metadata}
use meta_protocol_proxy.Thrift.Protocol.{
  MessageType, ProtocolType, FieldType, MessageMetadata, ProtocolApi, TransportApi,
}
use meta_protocol_proxy.Thrift.Machine.{new_machine, run}
use meta_protocol_proxy.Thrift.Machine.Steps.{Behaves, Takes}
use meta_protocol_proxy.Thrift.Machine.Lasting.{Incremental, Lasts}
use meta_protocol_proxy.Thrift.Machine.Chunks.{Resumes, run-Resumes}
use meta_protocol_proxy.Thrift.Codec.{ThriftCodec, decode, to_metadata, to_msg_metadata}
use meta_protocol_proxy.Thrift.Codec.Sound.{Carries, Decoded, decode-IsSound}
use meta_protocol_proxy.Thrift.Codec.Sequence.{
  Means, IsExtended, filled, to_msg_metadata-to_metadata,
}
use meta_protocol_proxy.Examples.{headers, message}

module _ {V : Type 0} where
  abbrev at_once : V → Unit {0} → List ℕ → Outcome (Option V × Unit {0} × List ℕ)
  at_once v p b = ok (some v, p, b)

  abbrev byte_as : (ℕ → V) → Unit {0} → List ℕ → Outcome (Option V × Unit {0} × List ℕ)
  byte_as f p [] = ok (none, p, [])
  byte_as f p (x ∷ b) = ok (some (f x), p, b)

  abbrev unwritten : V → Unit {0} → List ℕ → Outcome (Unit {0} × List ℕ)
  unwritten v p o = ok (p, o)

-- The types Stop, Bool, List and Struct, and an unknown one.
abbrev type_of_byte : ℕ → FieldType
type_of_byte n =
    if n == 0
    then FieldType.stop
    else if n == 2
    then FieldType.bool
    else if n == 15
    then FieldType.list
    else if n == 12
    then FieldType.struct
    else FieldType.unknown n

abbrev called : MessageMetadata (Unit {0}) → MessageMetadata (Unit {0})
called m = record m {
  method_name = some "ping";
  sequence_id = some 4294967295;
  message_type = some MessageType.call;
}

abbrev one_byte : ProtocolApi byte_list
one_byte = record {
  State = Unit {0};
  Others = Unit {0};
  Double = ℕ;
  no_others = tt;
  type = λ p. ProtocolType.binary;
  set_type = λ t p. p;
  read_message_begin = λ m. at_once (called m);
  read_message_end = at_once tt;
  read_struct_begin = at_once "";
  read_struct_end = at_once tt;
  read_field_begin = byte_as (λ x. ("", type_of_byte x, x));
  read_field_end = at_once tt;
  read_map_begin = byte_as (λ x. (FieldType.bool, FieldType.bool, x));
  read_map_end = at_once tt;
  read_list_begin = byte_as (λ x. (FieldType.bool, x));
  read_list_end = at_once tt;
  read_set_begin = byte_as (λ x. (FieldType.bool, x));
  read_set_end = at_once tt;
  read_bool = byte_as (λ x. x == 1);
  read_byte = byte_as (λ x. x);
  read_int16 = byte_as (λ x. x);
  read_int32 = byte_as (λ x. x);
  read_int64 = byte_as (λ x. x);
  read_double = byte_as (λ x. x);
  read_string = byte_as (λ x. "");
  write_message_begin = unwritten;
  write_message_end = unwritten;
  write_struct_begin = unwritten;
  write_struct_end = unwritten;
  write_field_begin = unwritten;
  write_field_end = unwritten;
  write_map_begin = unwritten;
  write_map_end = unwritten;
  write_list_begin = unwritten;
  write_list_end = unwritten;
  write_set_begin = unwritten;
  write_set_end = unwritten;
  write_bool = unwritten;
  write_byte = unwritten;
  write_int16 = unwritten;
  write_int32 = unwritten;
  write_int64 = unwritten;
  write_double = unwritten;
  write_string = unwritten;
}

module _ {V : Type 0} where
  at_once-keeps :
      (v : V) (p : Unit {0}) (b : List ℕ)
      → Safely
          (λ (t : Option V × Unit {0} × List ℕ). byte_list.size t.2 ≤ byte_list.size b)
          (at_once v p b)
  at_once-keeps v p b = gives (omega arith)

  byte_as-takes : (f : ℕ → V) → Takes byte_list one_byte (byte_as f)
  byte_as-takes f p [] = gives (omega arith)
  byte_as-takes f p (x ∷ b) = gives (omega arith)

  byte_as-lasts : (f : ℕ → V) (more : List ℕ) → Lasts byte_list one_byte more (byte_as f)
  byte_as-lasts f more p [] = (refl, refl)
  byte_as-lasts f more p (x ∷ b) = refl

one_byte-Behaves : Behaves byte_list one_byte
one_byte-Behaves = record {
  message_begin = λ m. at_once-keeps (called m);
  message_end = at_once-keeps _;
  struct_begin = at_once-keeps _;
  struct_end = at_once-keeps _;
  field_end = at_once-keeps _;
  map_end = at_once-keeps _;
  list_end = at_once-keeps _;
  set_end = at_once-keeps _;
  field_begin = byte_as-takes _;
  map_begin = byte_as-takes _;
  list_begin = byte_as-takes _;
  set_begin = byte_as-takes _;
  bool = byte_as-takes _;
  byte = byte_as-takes _;
  int16 = byte_as-takes _;
  int32 = byte_as-takes _;
  int64 = byte_as-takes _;
  double = byte_as-takes _;
  string = byte_as-takes _;
  writes_message_begin = λ v p b. gives tt;
  writes_message_end = λ v p b. gives tt;
  writes_struct_begin = λ v p b. gives tt;
  writes_struct_end = λ v p b. gives tt;
  writes_field_begin = λ v p b. gives tt;
  writes_field_end = λ v p b. gives tt;
  writes_map_begin = λ v p b. gives tt;
  writes_map_end = λ v p b. gives tt;
  writes_list_begin = λ v p b. gives tt;
  writes_list_end = λ v p b. gives tt;
  writes_set_begin = λ v p b. gives tt;
  writes_set_end = λ v p b. gives tt;
  writes_bool = λ v p b. gives tt;
  writes_byte = λ v p b. gives tt;
  writes_int16 = λ v p b. gives tt;
  writes_int32 = λ v p b. gives tt;
  writes_int64 = λ v p b. gives tt;
  writes_double = λ v p b. gives tt;
  writes_string = λ v p b. gives tt;
}

one_byte-Incremental : (more : List ℕ) → Incremental byte_list one_byte more
one_byte-Incremental more = record {
  message_begin = λ m p b. refl;
  message_end = λ p b. refl;
  struct_begin = λ p b. refl;
  struct_end = λ p b. refl;
  field_end = λ p b. refl;
  map_end = λ p b. refl;
  list_end = λ p b. refl;
  set_end = λ p b. refl;
  field_begin = byte_as-lasts _ more;
  map_begin = byte_as-lasts _ more;
  list_begin = byte_as-lasts _ more;
  set_begin = byte_as-lasts _ more;
  bool = byte_as-lasts _ more;
  byte = byte_as-lasts _ more;
  int16 = byte_as-lasts _ more;
  int32 = byte_as-lasts _ more;
  int64 = byte_as-lasts _ more;
  double = byte_as-lasts _ more;
  string = byte_as-lasts _ more;
}

abbrev plain : TransportApi byte_list (Unit {0})
plain = record {
  State = Unit {0};
  decode_frame_start = λ m. at_once m;
  decode_frame_end = at_once tt;
  encode_frame = λ m b o t. ok (t, b ++ o);
}

plain-Carries : Carries byte_list headers one_byte plain
plain-Carries = record {
  frame_start = λ m t b. gives tt;
  frame_end = λ t b. gives tt;
  encode = λ m b o t. gives tt;
}

abbrev no_message : MessageMetadata (Unit {0})
no_message = record {
  frame_size = none;
  protocol = none;
  method_name = none;
  sequence_id = none;
  message_type = none;
  app_exception = none;
  others = tt;
}

-- A list of three truth values, of which two are there.
run-Resumes_example :
    let w = new_machine byte_list one_byte tt no_message (15 ∷ 3 ∷ 1 ∷ 0 ∷ []) in
    Resumes byte_list one_byte (1 ∷ 0 ∷ 9 ∷ []) w (run byte_list one_byte w)
run-Resumes_example =
    run-Resumes byte_list one_byte (1 ∷ 0 ∷ 9 ∷ []) one_byte-Behaves
      (one_byte-Incremental (1 ∷ 0 ∷ 9 ∷ []))
      (new_machine byte_list one_byte tt no_message (15 ∷ 3 ∷ 1 ∷ 0 ∷ [])) tt refl

abbrev new_codec : ThriftCodec byte_list headers one_byte plain
new_codec = record {
  transport = tt;
  protocol = tt;
  metadata = none;
  state_machine = none;
  frame_started = false;
  frame_ended = false;
}

decode-IsSound_example :
    Safely
      (λ (t : DecodeStatus
          × ThriftCodec byte_list headers one_byte plain
          × List ℕ
          × Metadata byte_list headers).
        Decoded byte_list headers one_byte plain t.0 t.1)
      (decode byte_list headers one_byte plain new_codec (2 ∷ 1 ∷ 0 ∷ 9 ∷ []) message)
decode-IsSound_example =
    decode-IsSound byte_list headers one_byte plain one_byte-Behaves plain-Carries new_codec
      (2 ∷ 1 ∷ 0 ∷ 9 ∷ []) message (record { going = refl; machine = tt })

abbrev ping : String
ping = "ping"

abbrev unnamed : String
unnamed = ""

ping-ne-unnamed : ping ≢ unnamed
ping-ne-unnamed e = let same : str_eq ping unnamed ≡ true = (eq_iff ping unnamed).1 e in cc

to_msg_metadata-to_metadata_example :
    (m' : Metadata byte_list headers) × (to_metadata byte_list headers one_byte plain
        (filled byte_list headers one_byte plain "ping" 4294967295 MessageType.reply no_message)
        (5 ∷ [])
        tt
        message
      ≡ ok (tt, m'))
    × (m'.origin_message ≡ 7 ∷ 8 ∷ 5 ∷ [])
    × Means MessageType.reply m'.message_type
    × IsExtended 4294967295 m'.request_id
    × (to_msg_metadata byte_list headers one_byte plain m' no_message
        ≡ ok (record no_message { method_name = some "ping"; sequence_id = some 4294967295 }))
to_msg_metadata-to_metadata_example =
    to_msg_metadata-to_metadata byte_list headers one_byte plain no_message no_message "ping"
      4294967295 MessageType.reply (5 ∷ []) (7 ∷ 8 ∷ 5 ∷ []) tt tt message ping-ne-unnamed
      (omega arith) refl
