-- ===== src/Router/Services.antt =====
-- What the router filter and the shadow routers ask of their surroundings: Envoy's clusters, pools and
-- tracers are an interface. RequestOwner::prepareUpstreamRequest of
-- src/meta_protocol_proxy/filters/router/router.h, and MetaProtocolTracerImpl::startSpan of
-- src/meta_protocol_proxy/tracing/tracer_impl.cc as far as it changes the message.
pub mod Preparation
use Prim.Native.String.{String}
use meta_protocol_proxy.Base.{
  Bool, true, false, Option, none, some, List, [], ◌∷◌, if◌then◌else◌, Outcome, ok, ◌>>=◌,
}
use meta_protocol_proxy.Codec.{ErrorType, Error}
use meta_protocol_proxy.Buffer.{BufferApi}
use meta_protocol_proxy.Metadata.{HeaderMapApi, Metadata, get_string}
use meta_protocol_proxy.Decoder.{Mutation}
use meta_protocol_proxy.RequestId.{TraceReason, is_empty, request_uuid}
use meta_protocol_proxy.Route.{set_value}
use meta_protocol_proxy.Upstream.Manager.{quoted}
use meta_protocol_proxy.Router.Tracing.{client_trace_id}
use meta_protocol_proxy.Router.UpstreamRequest.{
  PoolFailureReason, Effect, UpstreamRequest, start, on_pool_ready, on_pool_failure,
}
use meta_protocol_proxy.Filters.{FilterStatus}

-- What `newConnection` of the pool does before it returns: it keeps the callbacks and gives a handle,
-- or calls back at once, with the host and the address of the connection's remote end, or with the
-- reason and the host of the failure, which may be null.
pub data PoolAnswer : Type 0 where
  pending : PoolAnswer
  ready_at_once : String → String → PoolAnswer
  refused_at_once : PoolFailureReason → Option String → PoolAnswer

-- getThreadLocalCluster, maintenanceMode, tcpConnPool and newConnection.
pub record ClusterManagerApi : Type 1 where
  pub Cluster : Type 0
  pub Pool : Type 0
  pub thread_local_cluster : String → Option Cluster
  pub maintenance_mode : Cluster → Bool
  pub tcp_conn_pool : Cluster → Option Pool
  pub new_connection : Pool → PoolAnswer

pub record PrepareUpstreamRequestResult (Pool : Type 0) : Type 0 where
  pub exception : Option Error
  pub conn_pool_data : Option Pool
  pub response_code_detail : String

module _ (C : ClusterManagerApi) where
  open C use {Cluster, Pool}

  abbrev refusal : ErrorType → String → String → PrepareUpstreamRequestResult Pool
  refusal type message detail = record {
    exception = some (record { type = type; message = message });
    conn_pool_data = none;
    response_code_detail = detail;
  }

  from_pool : String → Option Pool → PrepareUpstreamRequestResult Pool
  from_pool name none =
      refusal ErrorType.no_healthy_upstream
        (quoted "meta protocol router: no healthy upstream for '" name) "no_healthy_upstream"
  from_pool name (some p) = record {
    exception = none;
    conn_pool_data = some p;
    response_code_detail = "";
  }

  from_cluster : String → Option Cluster → PrepareUpstreamRequestResult Pool
  unfolding from_pool
  from_cluster name none =
      refusal ErrorType.cluster_not_found (quoted "meta protocol router: unknown cluster '" name)
        "unknown_cluster"
  from_cluster name (some c) =
      if C.maintenance_mode c
      then refusal ErrorType.unspecified
          (quoted "meta protocol router: maintenance mode for cluster '" name)
          "cluster_in_maintenance_mode"
      else from_pool name (C.tcp_conn_pool c)

  unfoldable pub prepare_upstream_request : String → PrepareUpstreamRequestResult Pool
  unfolding from_cluster
  prepare_upstream_request name = from_cluster name (C.thread_local_cluster name)

abbrev pub tracing_headers : List String
tracing_headers =
    "x-request-id" ∷ "x-b3-traceid" ∷ "x-b3-spanid" ∷ "x-b3-parentspanid" ∷ "x-b3-sampled"
    ∷ "x-b3-flags" ∷ "x-ot-span-context" ∷ "x-cloud-trace-context" ∷ "traceparent"
    ∷ "grpc-trace-bin" ∷ []

module _ (B : BufferApi) (H : HeaderMapApi) where
  -- The loop over `tracing_headers`.
  unfoldable pub copy_headers : List String → Metadata B H → Mutation → Outcome Mutation
  copy_headers [] m mutation = ok mutation
  copy_headers (k ∷ ks) m mutation = get_string B H k m >>= λ (v : String).
      copy_headers ks m (if is_empty v then mutation else set_value k v mutation)

  -- A request that is started, with what was done meanwhile.
  abbrev pub Started : Type 0
  Started = FilterStatus × UpstreamRequest B H × List Effect

  -- UpstreamRequest::start, with what the pool calls back before newConnection returns.
  unfoldable pub start_pooled :
      (Metadata B H → Mutation → B.Buffer → Outcome B.Buffer)
      → PoolAnswer
      → UpstreamRequest B H
      → Outcome Started
  unfolding start on_pool_ready on_pool_failure
  start_pooled encode pending q = ok (let (s, q') = start B H true q in (s, q', []))
  start_pooled encode (ready_at_once host address) q =
      on_pool_ready B H encode host address q >>= λ (t : UpstreamRequest B H × List Effect).
      ok (let (s, q') = start B H false t.0 in (s, q', t.1))
  start_pooled encode (refused_at_once reason host) q =
      on_pool_failure B H reason host q >>= λ (t : UpstreamRequest B H × List Effect).
      ok (let (s, q') = start B H false t.0 in (s, q', t.1))

  -- `inject` is the driver's new span, with the injection of its context. Of the tags that the span is
  -- given, only the values that are read of the message for them are kept.
  unfoldable pub start_span :
      (TraceReason → Metadata B H → Metadata B H)
      → TraceReason
      → Metadata B H
      → Mutation
      → Outcome (Metadata B H × Mutation)
  unfolding copy_headers
  start_span inject reason m mutation =
      let m' = inject reason m in
      copy_headers tracing_headers m' mutation >>= λ (mutation' : Mutation).
      (get_string B H request_uuid m' >>= λ (x_request_id : String).
      (get_string B H client_trace_id m' >>= λ (trace_id : String). ok (m', mutation')))
