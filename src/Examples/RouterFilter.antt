-- ===== src/Examples/RouterFilter.antt =====
-- The router filter and its mirrored requests.
use meta_protocol_proxy.Base.{
  ℕ, ◌≡◌, refl, true, false, none, some, List, [], ◌∷◌, ◌++◌, Outcome, ok, panics, throws,
  Exception,
}
use meta_protocol_proxy.Codec.{MessageType, DecodeStatus}
use meta_protocol_proxy.Buffer.ByteList.{byte_list}
use meta_protocol_proxy.Metadata.{Metadata}
use meta_protocol_proxy.Decoder.{CodecApi, new_decoder}
use meta_protocol_proxy.Route.{Route, RouteEntryImplBase}
use meta_protocol_proxy.Router.UpstreamRequest.{
  Effect, ConnectionEvent, PoolFailureReason, OutlierResult, reply_message,
  on_upstream_connection_event, on_upstream_connection_reset, reset_reply, reply_about, put_outlier,
  put_for, release_upstream_connection,
}
use meta_protocol_proxy.Router.Services.{ClusterManagerApi, pending}
use meta_protocol_proxy.Router.Filter.{FilterEffect, Router, new_router}
use meta_protocol_proxy.Router.Filter.Requests.{Services}
use meta_protocol_proxy.Router.Filter.Upstream.Responses.{
  run, cut, pieces, receiving, finished, ending_effects, run_lem,
}
use meta_protocol_proxy.Router.Shadow.{
  ShadowEffect, ShadowRouter, on_event, on_upstream_data, run_callbacks, gives_connection,
  shadow_effects, cleanup, reset_stream, end_of_thread,
}
use meta_protocol_proxy.Router.Shadow.Responses.{fails, mirroring, on_upstream_data_mirrored}
use meta_protocol_proxy.Router.Shadow.Lifetime.{
  connection_event, listed, next, IsTidy, Reach-IsTidy,
}
use meta_protocol_proxy.Examples.{headers, message}
use meta_protocol_proxy.Examples.Requests.{waiting_request, encode_behind}

-- A pool in maintenance.
abbrev maintained : ClusterManagerApi
maintained = record {
  Cluster = Unit;
  Pool = Unit;
  thread_local_cluster = λ name. some tt;
  maintenance_mode = λ c. true;
  tcp_conn_pool = λ c. some tt;
  new_connection = λ p. pending;
}

abbrev to_maintained : RouteEntryImplBase Unit
to_maintained = record {
  route_name = "r";
  cluster_name = "c";
  config_headers = [];
  weighted_clusters = [];
  total_cluster_weight = 0;
  request_mutation = [];
  response_mutation = [];
  mirror_policies = [];
}

abbrev services : Services byte_list headers
services = record {
  HeaderData = Unit;
  Handler = Unit;
  clusters = maintained;
  route = some (Route.entry to_maintained);
  uuid = "f4dca0a9-12c7-4307-8002-969403baf480";
  tracing_config = none;
  inject = λ r m. m;
  multiplexing = false;
  get_upstream_handler = λ name. record { error = none; handler = some tt; detail = "" };
  is_pool_ready = λ h. true;
  encode = encode_behind;
  feature_enabled = λ key value n. true;
  random = λ i. i;
  decimals = λ n. "4";
}

abbrev idle : Router byte_list headers
idle = new_router byte_list headers

run_lem_example :
    run byte_list headers
      (pieces byte_list headers 3 cut)
      (receiving byte_list headers "h" message waiting_request idle false)
    ≡ ok (
      finished byte_list headers "h" message waiting_request idle cut,
      FilterEffect.upstream_response_started
          ∷ ending_effects byte_list headers "h" message waiting_request idle cut,
    )
run_lem_example = run_lem byte_list headers "h" message waiting_request idle cut 3

abbrev refusing_decode :
    Unit {0}
    → List ℕ
    → Metadata byte_list headers
    → Outcome (DecodeStatus × Unit {0} × List ℕ × Metadata byte_list headers)
refusing_decode k b m = throws (Exception.envoy_exception "bad")

-- A codec that refuses all bytes.
abbrev refusing : CodecApi byte_list headers
refusing = record { State = Unit; decode = refusing_decode }

on_upstream_data_mirrored_example :
    on_upstream_data byte_list headers refusing
      (1 ∷ [])
      false
      (mirroring byte_list headers refusing waiting_request (new_decoder tt MessageType.response))
    ≡ panics
on_upstream_data_mirrored_example =
    on_upstream_data_mirrored byte_list headers refusing waiting_request
      (new_decoder tt MessageType.response) (fails "bad") (1 ∷ []) false tt refl

abbrev mirrored : ShadowRouter byte_list headers refusing
mirrored =
    mirroring byte_list headers refusing (record waiting_request { upstream_host = some "h" })
      (new_decoder tt MessageType.response)

-- What the close of the connection by the mirror host leaves.
abbrev closed : ShadowRouter byte_list headers refusing × List ShadowEffect
closed = (
  record mirrored {
    upstream_request = record mirrored.upstream_request { stream_reset = true; conn_data = false };
    removed = true;
  },
  ShadowEffect.upstream (
        Effect.local_reply_sent
          (reply_message byte_list headers PoolFailureReason.remote_connection_failure "h"))
      ∷ ShadowEffect.upstream Effect.stream_was_reset
      ∷ ShadowEffect.upstream Effect.connection_closed
      ∷ ShadowEffect.upstream Effect.connection_released
      ∷ ShadowEffect.upstream (Effect.outlier_put OutlierResult.connect_failed)
      ∷ ShadowEffect.removed_from_list
      ∷ [],
)

mirrored-closes :
    on_event byte_list headers refusing ConnectionEvent.remote_close mirrored ≡ ok closed
unfolding on_event on_upstream_connection_event on_upstream_connection_reset reset_reply reply_about
    put_outlier put_for run_callbacks gives_connection shadow_effects cleanup
    release_upstream_connection
mirrored-closes = refl

Reach-IsTidy_example :
    IsTidy byte_list headers refusing tt false encode_behind true closed.0 ([] ++ closed.1)
Reach-IsTidy_example =
    Reach-IsTidy byte_list headers refusing tt false encode_behind true closed.0 ([] ++ closed.1)
      (next (listed mirrored refl) (connection_event ConnectionEvent.remote_close mirrored-closes))

-- The destruction of the list, for a router that is among the callbacks of its connection.
mirrored-end_of_thread :
    end_of_thread byte_list headers refusing true (record mirrored {
      upstream_request = record mirrored.upstream_request { upstream_host = some "h" };
    })
    ≡ panics
unfolding end_of_thread on_event on_upstream_connection_event on_upstream_connection_reset
    reset_reply reply_about run_callbacks gives_connection shadow_effects cleanup
    release_upstream_connection reset_stream
mirrored-end_of_thread = refl
