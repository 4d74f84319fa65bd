-- ===== src/Metadata.antt =====
-- src/meta_protocol_proxy/codec_impl.h and codec_impl.cc: the metadata of one message. Envoy's
-- header maps are an interface; `std::map` is an association list with one entry for each key.
pub mod Strings
pub mod Clone
pub mod HeaderFunction
use Prim.Native.String.{String}
use text.Mathlib.Text.{◌==◌ as str_eq}
use meta_protocol_proxy.Base.{
  ℕ, ◌+◌, ◌≡◌, ◌≢◌, Bool, true, false, Option, none, some, List, [], ◌∷◌, ◌++◌, if◌then◌else◌,
  Outcome, ok, throws, Exception,
}
use meta_protocol_proxy.Codec.{MessageType, ResponseStatus}
use meta_protocol_proxy.Buffer.{BufferApi}

-- The `std::any` values that the getters tell apart; `other` is a value of any further type.
pub data Any : Type 0 where
  string : String → Any
  bool : Bool → Any
  uint32 : ℕ → Any
  other : ℕ → Any

abbrev pub Properties : Type 0
Properties = List (String × Any)

-- Http::RequestHeaderMap and Http::ResponseHeaderMap, with Http::LowerCaseString.
pub record HeaderMapApi : Type 1 where
  pub HeaderMap : Type 0
  pub lower_case : String → String
  pub create : HeaderMap
  pub remove : String → HeaderMap → HeaderMap
  pub add_copy : String → String → HeaderMap → HeaderMap
  -- The values under a lower-case key, in the order of their addition.
  pub values : String → HeaderMap → List String
  pub values-create : (k : String) → values k create ≡ []
  pub values-remove_self : (k : String) (m : HeaderMap) → values k (remove k m) ≡ []
  pub values-remove_ne : (j k : String) (m : HeaderMap) → j ≢ k → values j (remove k m) ≡ values j m
  pub values-add_copy_self :
      (k v : String) (m : HeaderMap) → values k (add_copy k v m) ≡ values k m ++ v ∷ []
  pub values-add_copy_ne :
      (j k v : String) (m : HeaderMap) → j ≢ k → values j (add_copy k v m) ≡ values j m

-- `stream_info_` is not kept.
pub record MetadataImpl (Buffer HeaderMap : Type 0) : Type 0 where
  pub properties : Properties
  pub origin_message : Buffer
  pub message_type : MessageType
  pub response_status : ResponseStatus
  pub request_id : ℕ
  pub stream_id : ℕ
  pub header_size : ℕ
  pub body_size : ℕ
  pub operation_name : String
  pub headers : HeaderMap
  pub response_headers : HeaderMap

-- `properties_.find`
unfoldable pub find : String → Properties → Option Any
find k [] = none
find k ((j, v) ∷ m) = if str_eq j k then some v else find k m

-- `properties_[key] = value`
unfoldable pub assign : String → Any → Properties → Properties
assign k v [] = (k, v) ∷ []
assign k v ((j, w) ∷ m) = if str_eq j k then (j, v) ∷ m else (j, w) ∷ assign k v m

-- `properties_.erase(key)`
unfoldable pub erase : String → Properties → Properties
erase k [] = []
erase k ((j, w) ∷ m) = if str_eq j k then erase k m else (j, w) ∷ erase k m

-- `std::any_cast`, which throws where the value is of another type.
unfoldable pub cast_string : Option Any → Outcome String
cast_string none = ok ""
cast_string (some (Any.string s)) = ok s
cast_string (some _) = throws Exception.bad_any_cast

cast_bool : Option Any → Outcome Bool
cast_bool none = ok false
cast_bool (some (Any.bool b)) = ok b
cast_bool (some _) = throws Exception.bad_any_cast

cast_uint32 : Option Any → Outcome ℕ
cast_uint32 none = ok 0
cast_uint32 (some (Any.uint32 n)) = ok n
cast_uint32 (some _) = throws Exception.bad_any_cast

-- The pointer form of `std::any_cast` gives null instead.
cast_string_pointer : Option Any → Option String
cast_string_pointer (some (Any.string s)) = some s
cast_string_pointer _ = none

module _ (B : BufferApi) (H : HeaderMapApi) where
  open B use {Buffer}
  open H use {HeaderMap, lower_case, create, remove, add_copy}

  abbrev pub Metadata : Type 0
  Metadata = MetadataImpl Buffer HeaderMap

  unfoldable pub new_metadata : Metadata
  new_metadata = record {
    properties = [];
    origin_message = B.empty;
    message_type = MessageType.request;
    response_status = ResponseStatus.ok;
    request_id = 0;
    stream_id = 0;
    header_size = 0;
    body_size = 0;
    operation_name = "";
    headers = create;
    response_headers = create;
  }

  unfoldable pub put : String → Any → Metadata → Metadata
  put key value m = record m { properties = assign key value m.properties }

  unfoldable pub get_by_key : String → Metadata → Option Any
  get_by_key key m = find key m.properties

  unfoldable pub put_string : String → String → Metadata → Metadata
  unfolding put
  put_string key value m =
      let m' = put key (Any.string value) m in
      let k = lower_case key in
      record m' {
        headers = add_copy k value (remove k m.headers);
        response_headers = add_copy k value (remove k m.response_headers);
      }

  unfoldable pub remove_string : String → Metadata → Metadata
  remove_string key m = record m {
    properties = erase key m.properties;
    headers = remove (lower_case key) m.headers;
    response_headers = remove (lower_case key) m.response_headers;
  }

  unfoldable pub get_string : String → Metadata → Outcome String
  unfolding get_by_key cast_string
  get_string key m = cast_string (get_by_key key m)

  unfoldable pub get_bool : String → Metadata → Outcome Bool
  unfolding get_by_key cast_bool
  get_bool key m = cast_bool (get_by_key key m)

  unfoldable pub get_uint32 : String → Metadata → Outcome ℕ
  unfolding get_by_key cast_uint32
  get_uint32 key m = cast_uint32 (get_by_key key m)

  unfoldable pub get_string_pointer : String → Metadata → Option String
  unfolding get_by_key cast_string_pointer
  get_string_pointer key m = cast_string_pointer (get_by_key key m)

  nonempty : Option String → Option String
  nonempty none = none
  nonempty (some s) = if str_eq s "" then none else some s

  -- Tracing::TraceContext::get
  unfoldable pub get : String → Metadata → Option String
  unfolding get_string_pointer nonempty
  get key m = nonempty (get_string_pointer key m)

  unfoldable pub get_message_size : Metadata → ℕ
  get_message_size m = m.header_size + m.body_size

  -- The loop of `clone` over the properties.
  put_all : Properties → Metadata → Metadata
  unfolding put
  put_all [] m = m
  put_all ((key, value) ∷ ps) m = put_all ps (put key value m)

  unfoldable pub clone : Metadata → Metadata
  unfolding put_all new_metadata
  clone m =
      let copy = record new_metadata {
        origin_message = B.add B.empty (B.bytes m.origin_message);
        message_type = m.message_type;
        response_status = m.response_status;
        body_size = m.body_size;
        header_size = m.header_size;
        request_id = m.request_id;
        stream_id = m.stream_id;
      } in
      put_all m.properties copy
