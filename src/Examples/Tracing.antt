-- ===== src/Examples/Tracing.antt =====
-- The request ID and the decision to trace.
use Prim.Native.String.{String}
use meta_protocol_proxy.Base.{ℕ, ◌≡◌, refl, true, false, Option, some, [], ◌∷◌, ok, ltb}
use meta_protocol_proxy.Buffer.ByteList.{byte_list}
use meta_protocol_proxy.Metadata.{Any, Metadata, find, get_string, get_by_key}
use meta_protocol_proxy.RequestId.{
  TraceReason, client_forced, get_trace_reason, set_trace_reason, to_integer, request_uuid,
}
use meta_protocol_proxy.RequestId.TraceReasons.{HasUuid, get_trace_reason-set_trace_reason}
use meta_protocol_proxy.Router.Tracing.{
  TracingConfig, client_trace_id, envoy_force_trace, mutate_tracing_request_metadata,
}
use meta_protocol_proxy.Router.Tracing.Decisions.{mutate_tracing_request_metadata_agrees}
use meta_protocol_proxy.Examples.{headers, message}

abbrev fresh_uuid : String
fresh_uuid = "f4dca0a9-12c7-4307-8002-969403baf480"

abbrev with_uuid : Metadata byte_list headers
with_uuid = record message { properties = (request_uuid, Any.string fresh_uuid) ∷ [] }

abbrev always_4000 : String → Option ℕ
always_4000 s = some 4000

abbrev tracing_config : TracingConfig
tracing_config = record {
  atoull = always_4000;
  pack_trace_reason = true;
  use_request_id_for_trace_sampling = true;
  client_enabled = true;
  random_sampling = λ n. ltb n 5000;
  global_enabled = λ n. true;
}

uuid_there : get_string byte_list headers request_uuid with_uuid ≡ ok fresh_uuid
unfolding get_string get_by_key find
uuid_there = refl

no_client_trace_id : get_string byte_list headers client_trace_id with_uuid ≡ ok ""
unfolding get_string get_by_key find
no_client_trace_id = refl

no_force_trace : get_string byte_list headers envoy_force_trace with_uuid ≡ ok ""
unfolding get_string get_by_key find
no_force_trace = refl

with_uuid-HasUuid : HasUuid byte_list headers fresh_uuid with_uuid
with_uuid-HasUuid = record { there = uuid_there; long = refl }

get_trace_reason-set_trace_reason_example :
    (m' : Metadata byte_list headers) × (set_trace_reason byte_list headers true client_forced
        with_uuid
      ≡ ok m')
    × (get_trace_reason byte_list headers m' ≡ ok client_forced)
    × (to_integer byte_list headers always_4000 m'
        ≡ to_integer byte_list headers always_4000 with_uuid)
get_trace_reason-set_trace_reason_example =
    get_trace_reason-set_trace_reason byte_list headers always_4000 client_forced fresh_uuid
      with_uuid with_uuid-HasUuid (λ e. cc)

mutate_tracing_request_metadata_agrees_example :
    (r : TraceReason) × (m' : Metadata byte_list headers) × (mutate_tracing_request_metadata
        byte_list headers tracing_config true with_uuid
      ≡ ok (r, m'))
    × (get_trace_reason byte_list headers m' ≡ ok r)
    × (to_integer byte_list headers always_4000 m' ≡ ok (some 4000))
    × (mutate_tracing_request_metadata byte_list headers tracing_config false m' ≡ ok (r, m'))
mutate_tracing_request_metadata_agrees_example =
    mutate_tracing_request_metadata_agrees byte_list headers tracing_config fresh_uuid "" "" 4000
      with_uuid refl refl with_uuid-HasUuid refl no_client_trace_id no_force_trace
