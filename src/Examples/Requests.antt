-- ===== src/Examples/Requests.antt =====
-- Requests to upstream hosts.
use meta_protocol_proxy.Base.{ℕ, ◌≡◌, refl, true, false, none, some, List, [], ◌∷◌, Outcome, ok}
use meta_protocol_proxy.Buffer.ByteList.{byte_list}
use meta_protocol_proxy.Metadata.{Metadata}
use meta_protocol_proxy.Decoder.{Mutation}
use meta_protocol_proxy.Router.UpstreamRequest.{
  PoolFailureReason, UpstreamRequest, on_pool_failure, on_pool_ready,
}
use meta_protocol_proxy.Router.UpstreamRequest.Failures.{
  named, failure_effects, on_pool_failure_lem,
}
use meta_protocol_proxy.Router.UpstreamRequest.Readiness.{
  ready_request, ready_effects, on_pool_ready_lem,
}
use meta_protocol_proxy.Examples.{headers, message}

abbrev pub waiting_request : UpstreamRequest byte_list headers
waiting_request = record {
  metadata = message;
  mutation = [];
  upstream_host = none;
  upstream_request_buffer = 1 ∷ 2 ∷ [];
  request_complete = false;
  response_started = false;
  response_complete = false;
  stream_reset = false;
  conn_pool_handle = true;
  conn_data = false;
}

on_pool_failure_lem_example :
    (b : List ℕ) × (on_pool_failure byte_list headers PoolFailureReason.timeout
        (some "h")
        waiting_request
      ≡ ok (
        record waiting_request {
          conn_pool_handle = false;
          upstream_host = some "h";
          upstream_request_buffer = b;
        },
        failure_effects byte_list headers PoolFailureReason.timeout (some "h") waiting_request,
      ))
    × (b ≡ [])
on_pool_failure_lem_example =
    on_pool_failure_lem byte_list headers PoolFailureReason.timeout (some "h") waiting_request
      (named "h")

abbrev pub encode_behind : Metadata byte_list headers → Mutation → List ℕ → Outcome (List ℕ)
encode_behind m mutation b = ok (0 ∷ b)

on_pool_ready_lem_example :
    (b : List ℕ) × (on_pool_ready byte_list headers encode_behind "h" "1.2.3.4" waiting_request
      ≡ ok (
        ready_request byte_list headers "h" "1.2.3.4" waiting_request b,
        ready_effects byte_list headers "h" waiting_request (0 ∷ 1 ∷ 2 ∷ []),
      ))
    × (b ≡ [])
on_pool_ready_lem_example =
    on_pool_ready_lem byte_list headers encode_behind "h" "1.2.3.4" waiting_request (0 ∷ 1 ∷ 2 ∷ [])
      refl
