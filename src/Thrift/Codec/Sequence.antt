-- ===== src/Thrift/Codec/Sequence.antt =====
-- The method and the sequence number of a message, to the proxy's metadata and back.
use Prim.Native.String.{String}
use text.Mathlib.Text.{◌==◌ as str_eq}
use text.Mathlib.TextEquality.{eq_iff}
use meta_protocol_proxy.Base.{
  ℕ, ◌%◌, ◌^◌, ◌+◌, ◌≤◌, ◌<◌, ◌≡◌, ◌≢◌, refl, false, some, ok, arith, ltb, Bool-cases, inl, inr,
}
use meta_protocol_proxy.Codec.{MessageType}
use meta_protocol_proxy.Buffer.{BufferApi}
use meta_protocol_proxy.Metadata.{HeaderMapApi, Metadata, put_string, get_string, get_by_key}
use meta_protocol_proxy.Metadata.Strings.{get_string-put_string}
use meta_protocol_proxy.Thrift.Protocol as Thrift
use meta_protocol_proxy.Thrift.Protocol.{MessageMetadata, ProtocolApi, TransportApi}
use meta_protocol_proxy.Thrift.Codec.{
  Message, widened, proxy_type, put_method, put_sequence, type_of, method_key, to_metadata,
  to_msg_metadata,
}

widened_back : (n : ℕ) → n < 2 ^ 32 → widened n % 2 ^ 32 ≡ n
widened_back n lt = ground arith

-- The proxy's types for those of Thrift.
pub data Means : Thrift.MessageType → MessageType → Type 0 where
  a_request : Means Thrift.MessageType.call MessageType.request
  a_response : Means Thrift.MessageType.reply MessageType.response
  a_oneway : Means Thrift.MessageType.oneway MessageType.oneway
  an_error : Means Thrift.MessageType.exception MessageType.error

-- A number of sixty-four bits for one of thirty-two in two's complement: the same integer.
pub data IsExtended (n wide : ℕ) : Type 0 where
  nonnegative : n < 2 ^ 31 → wide ≡ n → IsExtended n wide
  negative : 2 ^ 31 ≤ n → wide + 2 ^ 32 ≡ n + 2 ^ 64 → IsExtended n wide

proxy_type-Means : (t : Thrift.MessageType) → Means t (proxy_type t)
proxy_type-Means Thrift.MessageType.call = a_request
proxy_type-Means Thrift.MessageType.reply = a_response
proxy_type-Means Thrift.MessageType.exception = an_error
proxy_type-Means Thrift.MessageType.oneway = a_oneway

widened-IsExtended : (n : ℕ) → n < 2 ^ 32 → IsExtended n (widened n)
widened-IsExtended n lt = elim (Bool-cases (ltb n (2 ^ 31))) [
  | inl e ↦ nonnegative (ground arith) (rw e refl)
  | inr e ↦ negative (ground arith) (rw e (omega arith))
]

module _ (B : BufferApi) (H : HeaderMapApi) (P : ProtocolApi B) (T : TransportApi B P.Others) where
  open B use {Buffer}

  -- A message with a name, a number and a type.
  abbrev pub filled : String → ℕ → Thrift.MessageType → Message B H P T → Message B H P T
  filled name n type msg = record msg {
    method_name = some name;
    sequence_id = some n;
    message_type = some type;
  }

  -- What `to_metadata` gives for a message with all that it needs.
  pub stored : String → ℕ → Thrift.MessageType → Buffer → Metadata B H → Metadata B H
  stored name n type o m = record (put_string B H method_key name m) {
    request_id = widened n;
    message_type = proxy_type type;
    origin_message = o;
  }

  nonempty : (name : String) → name ≢ "" → str_eq name "" ≡ false
  nonempty name ne = ground (arith, eq_iff name "")

  get_string-stored :
      (name : String) (n : ℕ) (type : Thrift.MessageType) (o : Buffer) (m : Metadata B H)
      → get_string B H method_key (stored name n type o m) ≡ ok name
  unfolding stored get_string get_by_key
  get_string-stored name n type o m = get_string-put_string B H method_key name m

  origin_message-put_string :
      (key value : String) (m : Metadata B H)
      → (put_string B H key value m).origin_message ≡ m.origin_message
  unfolding put_string
  origin_message-put_string key value m = refl

  to_metadata-stored :
      (msg : Message B H P T) (name : String) (n : ℕ) (type : Thrift.MessageType)
      (original o : Buffer) (t t' : T.State) (m : Metadata B H)
      → T.encode_frame (filled name n type msg) m.origin_message original t ≡ ok (t', o)
      → to_metadata B H P T (filled name n type msg) original t m ≡ ok (t', stored name n type o m)
  unfolding to_metadata put_method put_sequence type_of stored
  to_metadata-stored msg name n type original o t t' m ee =
      rw (origin_message-put_string method_key name m, ee) refl

  to_msg_metadata-stored :
      (fresh : Message B H P T) (name : String) (n : ℕ) (type : Thrift.MessageType) (o : Buffer)
      (m : Metadata B H)
      → name ≢ ""
      → n < 2 ^ 32
      → to_msg_metadata B H P T (stored name n type o m) fresh
        ≡ ok (record fresh { method_name = some name; sequence_id = some n })
  unfolding to_msg_metadata stored
  to_msg_metadata-stored fresh name n type o m ne lt =
      rw (get_string-stored name n type o m, nonempty name ne, widened_back n lt) refl

  -- For a message with a name that is not empty, a sequence number of 32 bits and a type, whose frame
  -- the transport encodes: toMetadata gives metadata with that frame as the origin message, the
  -- proxy's type for it (a call is a request, a reply a response, an exception an error), and the
  -- number, of two's complement, extended to 64 bits as the request ID; and toMsgMetadata reads the
  -- name and the number back.
  pub to_msg_metadata-to_metadata :
      (msg fresh : Message B H P T) (name : String) (n : ℕ) (type : Thrift.MessageType)
      (original o : Buffer) (t t' : T.State) (m : Metadata B H)
      → name ≢ ""
      → n < 2 ^ 32
      → T.encode_frame (filled name n type msg) m.origin_message original t ≡ ok (t', o)
      → (m' : Metadata B H) × (to_metadata B H P T (filled name n type msg) original t m
          ≡ ok (t', m'))
        × (m'.origin_message ≡ o)
        × Means type m'.message_type
        × IsExtended n m'.request_id
        × (to_msg_metadata B H P T m' fresh
            ≡ ok (record fresh { method_name = some name; sequence_id = some n }))
  unfolding stored
  to_msg_metadata-to_metadata msg fresh name n type original o t t' m ne lt ee = (
    stored name n type o m,
    to_metadata-stored msg name n type original o t t' m ee,
    refl,
    proxy_type-Means type,
    widened-IsExtended n lt,
    to_msg_metadata-stored fresh name n type o m ne lt,
  )
