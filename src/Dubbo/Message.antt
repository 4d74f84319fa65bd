-- ===== src/Dubbo/Message.antt =====
-- src/application_protocols/dubbo/message.h, message_impl.cc, metadata.h and hessian_utils.cc: what the
-- codec knows of one Dubbo message.
use Prim.Native.String.{String}
use text.Mathlib.Text.{◌==◌ as str_eq}
use meta_protocol_proxy.Base.{
  ℕ, ◌+◌, Bool, true, false, Option, none, some, List, [], ◌∷◌, ◌++◌, ◌==◌, ◌||◌, ◌&&◌, not,
  if◌then◌else◌,
}
use meta_protocol_proxy.Metadata.{HeaderMapApi}

pub data MessageType : Type 0 where
  response request oneway exception heartbeat_request heartbeat_response : MessageType

-- Hessian2::Object and the decoder, over the bytes of a buffer: `decode` gives what it read, or
-- null, and the offset behind it.
pub record HessianApi : Type 1 where
  pub Object : Type 0
  -- toString
  pub text_of : Object → Option String
  -- StringObject
  pub string_object : String → Object
  -- the entries of an UntypedMapObject
  pub entries_of : Object → Option (List (Object × Object))
  pub decode_string : List ℕ → ℕ → Option String × ℕ
  pub decode_int : List ℕ → ℕ → Option ℕ × ℕ
  pub decode_object : List ℕ → ℕ → Option Object × ℕ
  -- Encoder::encode of an UntypedMapObject
  pub encode_map : List (Object × Object) → List ℕ

-- The letters of HessianUtils::getParametersNumber that stand for one parameter by themselves.
is_basic : ℕ → Bool
is_basic ch =
    ch == b'V'
    || ch == b'Z'
    || ch == b'B'
    || ch == b'C'
    || ch == b'D'
    || ch == b'F'
    || ch == b'I'
    || ch == b'J'
    || ch == b'S'

-- One round of its loop: whether the name of a class goes on, and the count.
parameter_step : ℕ → Bool × ℕ → Bool × ℕ
unfolding is_basic
parameter_step ch (next, count) =
    if ch == b'[' || next && not (ch == b';')
    then (next, count)
    else if is_basic ch
    then (next, count + 1)
    else if ch == b'L'
    then (true, count + 1)
    else if ch == b';'
    then (false, count)
    else (next, count)

count_parameters : List ℕ → Bool × ℕ → ℕ
unfolding parameter_step
count_parameters [] (next, count) = count
count_parameters (ch ∷ chs) s = count_parameters chs (parameter_step ch s)

-- HessianUtils::getParametersNumber of a descriptor such as `ILjava/lang/String;[J`.
unfoldable pub parameters_number : List ℕ → ℕ
unfolding count_parameters
parameters_number types = count_parameters types (false, 0)

module _ (H : HeaderMapApi) (X : HessianApi) where
  open H use {HeaderMap, create, remove, add_copy, lower_case}
  open X use {Object, text_of, string_object}

  -- RpcInvocationImpl::Attachment
  pub record Attachment : Type 0 where
    pub updated : Bool
    pub entries : List (Object × Object)
    pub offset : ℕ
    pub headers : HeaderMap

  add_header : Option String → Option String → HeaderMap → HeaderMap
  add_header (some key) (some value) m = add_copy (lower_case key) value m
  add_header _ _ m = m

  headers_of : List (Object × Object) → HeaderMap → HeaderMap
  unfolding add_header
  headers_of [] m = m
  headers_of ((key, value) ∷ es) m = headers_of es (add_header (text_of key) (text_of value) m)

  -- The constructor.
  unfoldable pub new_attachment : List (Object × Object) → ℕ → Attachment
  unfolding headers_of
  new_attachment entries offset = record {
    updated = false;
    entries = entries;
    offset = offset;
    headers = headers_of entries create;
  }

  has_text : String → Option String → Bool
  has_text key none = false
  has_text key (some s) = str_eq s key

  pub find_entry : String → List (Object × Object) → Option Object
  unfolding has_text
  find_entry key [] = none
  find_entry key ((k, v) ∷ es) = if has_text key (text_of k) then some v else find_entry key es

  pub erase_entry : String → List (Object × Object) → List (Object × Object)
  unfolding has_text
  erase_entry key [] = []
  erase_entry key ((k, v) ∷ es) =
      let rest = erase_entry key es in if has_text key (text_of k) then rest else (k, v) ∷ rest

  -- `emplace` leaves an entry of the same key alone.
  emplace_entry : String → String → List (Object × Object) → List (Object × Object)
  unfolding find_entry
  emplace_entry key value es = elim (find_entry key es) [
    | none ↦ es ++ (string_object key, string_object value) ∷ []
    | some _ ↦ es
  ]

  unfoldable pub insert_attachment : String → String → Attachment → Attachment
  unfolding emplace_entry
  insert_attachment key value a =
      let k = lower_case key in
      record a {
        updated = true;
        entries = emplace_entry key value a.entries;
        headers = add_copy k value (remove k a.headers);
      }

  unfoldable pub remove_attachment : String → Attachment → Attachment
  unfolding erase_entry
  remove_attachment key a = record a {
    updated = true;
    entries = erase_entry key a.entries;
    headers = remove (lower_case key) a.headers;
  }

  and_text : Option Object → Option String
  and_text none = none
  and_text (some o) = text_of o

  unfoldable pub lookup_attachment : String → Attachment → Option String
  unfolding find_entry and_text
  lookup_attachment key a = and_text (find_entry key a.entries)

  -- The loop of DubboCodec over a mutation.
  unfoldable pub mutate_attachment : List (String × String) → Attachment → Attachment
  unfolding insert_attachment remove_attachment
  mutate_attachment [] a = a
  mutate_attachment ((key, value) ∷ kvs) a =
      mutate_attachment kvs (insert_attachment key value (remove_attachment key a))

  -- RpcInvocationImpl. `parsed_size` is where the delayed decoder starts; the attachment is null
  -- until it is asked for.
  pub record RpcInvocation : Type 0 where
    pub service_name : String
    pub service_version : String
    pub method_name : String
    pub group : Option String
    pub parsed_size : ℕ
    pub attachment : Option Attachment

  -- RpcResultImpl
  pub record RpcResult : Type 0 where
    pub has_exception : Bool
    pub body : String
    pub result_attachment : Option Attachment

  -- MessageMetadata; the statuses and types of a byte are kept as numbers.
  pub record MessageMetadata : Type 0 where
    pub message_type : MessageType
    pub response_status : Option ℕ
    pub timeout : Option ℕ
    pub invocation_info : Option RpcInvocation
    pub result_info : Option RpcResult
    pub serialization_type : ℕ
    pub protocol_version : ℕ
    pub request_id : ℕ
    pub is_two_way : Bool

  abbrev pub new_message_metadata : MessageMetadata
  new_message_metadata = record {
    message_type = MessageType.request;
    response_status = none;
    timeout = none;
    invocation_info = none;
    result_info = none;
    serialization_type = 2;
    protocol_version = 1;
    request_id = 0;
    is_two_way = false;
  }

-- ContextImpl
pub record Context (Buffer : Type 0) : Type 0 where
  pub header_size : ℕ
  pub body_size : ℕ
  pub is_heartbeat : Bool
  pub origin_message : Buffer
