-- ===== src/Router/Tracing.antt =====
-- setXRequestID and mutateTracingRequestMetadata of
-- src/meta_protocol_proxy/filters/router/router_impl.cc, over the request ID extension. Envoy's runtime
-- and the configured percentages are a parameter.
pub mod Decisions
use Prim.Native.String.{String}
use meta_protocol_proxy.Base.{
  ℕ, Bool, true, false, Option, none, some, ◌%◌, ◌&&◌, not, if◌then◌else◌, Outcome, ok, ◌>>=◌,
}
use meta_protocol_proxy.Buffer.{BufferApi}
use meta_protocol_proxy.Metadata.{HeaderMapApi, Metadata, get_string}
use meta_protocol_proxy.Decoder.{Mutation}
use meta_protocol_proxy.Route.{set_value}
use meta_protocol_proxy.RequestId.{
  TraceReason, not_traceable, sampling, service_forced, client_forced, is_empty, request_uuid, set,
  get, to_integer, get_trace_reason, set_trace_reason,
}

abbrev pub client_trace_id : String
client_trace_id = "x-client-trace-id"

abbrev pub envoy_force_trace : String
envoy_force_trace = "x-envoy-force-trace"

-- What the router asks: StringUtil::atoull with base 16, the members of the request ID extension, and
-- Runtime::Snapshot::featureEnabled of a key and its configured percentage, drawn at random for the
-- client's requests and at a number for the others.
pub record TracingConfig : Type 0 where
  pub atoull : String → Option ℕ
  pub pack_trace_reason : Bool
  pub use_request_id_for_trace_sampling : Bool
  pub client_enabled : Bool
  pub random_sampling : ℕ → Bool
  pub global_enabled : ℕ → Bool

abbrev pub is_not_traceable : TraceReason → Bool
is_not_traceable not_traceable = true
is_not_traceable _ = false

module _ (B : BufferApi) (H : HeaderMapApi) where
  -- `uuid` is the next UUID of the random generator.
  unfoldable pub set_x_request_id :
      String → Metadata B H → Mutation → Outcome (Bool × Metadata B H × Mutation)
  set_x_request_id uuid m mutation = set B H uuid false m >>= λ (t : Bool × Metadata B H).
      (if t.0
        then (get B H t.1 >>= λ (v : String). ok (true, t.1, set_value request_uuid v mutation))
        else ok (false, t.1, mutation))

  abbrev pub Decision : Type 0
  Decision = TraceReason × Metadata B H

  module _ (T : TracingConfig) where
    open T use {
      atoull, pack_trace_reason, use_request_id_for_trace_sampling, client_enabled, random_sampling,
      global_enabled,
    }

    -- final_reason = reason; setTraceReason(final_reason)
    abbrev pub decide : TraceReason → Metadata B H → Outcome Decision
    decide r m = set_trace_reason B H pack_trace_reason r m >>= λ (m' : Metadata B H). ok (r, m')

    unfoldable pub choose : Bool → Bool → ℕ → TraceReason → Metadata B H → Outcome Decision
    choose has_client_trace_id force_trace n r m =
        if has_client_trace_id && client_enabled
        then decide client_forced m
        else if force_trace
        then decide service_forced m
        else if random_sampling n
        then decide sampling m
        else ok (r, m)

    unfoldable pub limit : ℕ → Decision → Outcome Decision
    limit n (r, m) =
        if not (is_not_traceable r) && not (global_enabled n)
        then decide not_traceable m
        else ok (r, m)

    unfoldable pub first_span : ℕ → TraceReason → Metadata B H → Outcome Decision
    unfolding choose limit
    first_span n r m = get_string B H client_trace_id m >>= λ (c : String).
        (get_string B H envoy_force_trace m >>= λ (f : String).
        (choose (not (is_empty c)) (not (is_empty f)) n r m >>= limit n))

    unfoldable pub with_number : Bool → Option ℕ → Metadata B H → Outcome Decision
    unfolding first_span
    with_number is_first_span none m = ok (not_traceable, m)
    with_number is_first_span (some n) m = get_trace_reason B H m >>= λ (r : TraceReason).
        (if is_first_span then first_span (n % 10000) r m else ok (r, m))

    unfoldable pub mutate_tracing_request_metadata : Bool → Metadata B H → Outcome Decision
    unfolding with_number
    mutate_tracing_request_metadata is_first_span m =
        if not use_request_id_for_trace_sampling
        then ok (sampling, m)
        else (to_integer B H atoull m >>= λ (o : Option ℕ). with_number is_first_span o m)
