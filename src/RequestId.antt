-- ===== src/RequestId.antt =====
-- UUIDRequestIDExtension of src/meta_protocol_proxy/request_id/config.h and config.cc: the request ID
-- that carries the decision to trace. A character of a string stands for a byte of the source's.
pub mod TraceReasons
use Prim.Native.Char.{Char, char, code}
use Prim.Native.String.{String}
use meta_protocol_proxy.Base.{
  ℕ, zero, suc, Bool, true, false, Option, none, some, ◌==◌, ltb, not, if◌then◌else◌, Outcome, ok,
  ◌>>=◌,
}
use meta_protocol_proxy.Buffer.{BufferApi}
use meta_protocol_proxy.Metadata.{HeaderMapApi, Metadata, get_string, put_string}

-- Envoy's Tracing::Reason
pub data TraceReason : Type 0 where
  not_traceable health_check sampling service_forced client_forced : TraceReason

-- std::string::length, operator[], the assignment to operator[], and substr(0, n).
abbrev pub size_of : String → ℕ
size_of String.[] = 0
size_of (String.◌∷◌ c s) = suc (size_of s)

abbrev pub code_at : ℕ → String → ℕ
code_at _ String.[] = 0
code_at zero (String.◌∷◌ c s) = code c
code_at (suc n) (String.◌∷◌ c s) = code_at n s

abbrev pub set_at : ℕ → Char → String → String
set_at _ d String.[] = String.[]
set_at zero d (String.◌∷◌ c s) = String.◌∷◌ d s
set_at (suc n) d (String.◌∷◌ c s) = String.◌∷◌ c (set_at n d s)

abbrev pub prefix : ℕ → String → String
prefix zero s = String.[]
prefix (suc n) String.[] = String.[]
prefix (suc n) (String.◌∷◌ c s) = String.◌∷◌ c (prefix n s)

abbrev pub is_empty : String → Bool
is_empty String.[] = true
is_empty (String.◌∷◌ c s) = false

abbrev pub request_uuid : String
request_uuid = "x-request-id"

-- Random::RandomGeneratorImpl::UUID_LENGTH
abbrev pub uuid_length : ℕ
uuid_length = 36

abbrev pub trace_byte_position : ℕ
trace_byte_position = 14

-- The switch of getTraceReason, on the byte.
abbrev pub reason_of_byte : ℕ → TraceReason
reason_of_byte n =
    if n == 97
    then service_forced
    else if n == 57
    then sampling
    else if n == 98
    then client_forced
    else not_traceable

-- TRACE_FORCED, TRACE_CLIENT, TRACE_SAMPLED and NO_TRACE.
abbrev pub mark : TraceReason → String → String
mark service_forced s = set_at trace_byte_position (char 97 tt) s
mark client_forced s = set_at trace_byte_position (char 98 tt) s
mark sampling s = set_at trace_byte_position (char 57 tt) s
mark not_traceable s = set_at trace_byte_position (char 52 tt) s
mark health_check s = s

abbrev pub reason_of : String → TraceReason
reason_of uuid =
    if is_empty uuid
    then not_traceable
    else if not (size_of uuid == uuid_length)
    then not_traceable
    else reason_of_byte (code_at trace_byte_position uuid)

-- `atoull` reads a hexadecimal number: StringUtil::atoull with base 16.
abbrev pub integer_of : (String → Option ℕ) → String → Option ℕ
integer_of atoull uuid =
    if is_empty uuid then none else if ltb (size_of uuid) 8 then none else atoull (prefix 8 uuid)

module _ (B : BufferApi) (H : HeaderMapApi) where
  -- `uuid` is the next UUID of the random generator.
  unfoldable pub set : String → Bool → Metadata B H → Outcome (Bool × Metadata B H)
  set uuid force m =
      let renewed = put_string B H request_uuid uuid m in
      if force
      then ok (true, renewed)
      else (get_string B H request_uuid m >>= λ (s : String).
          ok (if is_empty s then (true, renewed) else (false, m)))

  unfoldable pub get : Metadata B H → Outcome String
  get m = get_string B H request_uuid m

  unfoldable pub to_integer : (String → Option ℕ) → Metadata B H → Outcome (Option ℕ)
  to_integer atoull m =
      get_string B H request_uuid m >>= λ (uuid : String). ok (integer_of atoull uuid)

  unfoldable pub get_trace_reason : Metadata B H → Outcome TraceReason
  get_trace_reason m = get_string B H request_uuid m >>= λ (uuid : String). ok (reason_of uuid)

  -- `pack` is pack_trace_reason_.
  unfoldable pub set_trace_reason : Bool → TraceReason → Metadata B H → Outcome (Metadata B H)
  set_trace_reason pack reason m = get_string B H request_uuid m >>= λ (uuid : String). ok (
      if not pack
      then m
      else if is_empty uuid
      then m
      else if not (size_of uuid == uuid_length)
      then m
      else put_string B H request_uuid (mark reason uuid) m)
