-- ===== src/Router/Filter/Requests.antt =====
-- onMessageDecoded of Router, src/meta_protocol_proxy/filters/router/router_impl.cc: the request of a
-- message is made, by an upstream handler or by a pool, and started, and mirrored.
pub mod Reads
pub mod Answers
pub mod Refusals
use Prim.Native.String.{String, ◌++◌ as str_append}
use meta_protocol_proxy.Base.{
  ℕ, suc, Bool, true, false, Option, none, some, List, [], ◌∷◌, ◌++◌, if◌then◌else◌, Outcome, ok,
  panics, ◌>>=◌,
}
use meta_protocol_proxy.Codec.{MessageType, ErrorType, Error}
use meta_protocol_proxy.Buffer.{BufferApi}
use meta_protocol_proxy.Metadata.{HeaderMapApi, Metadata, clone}
use meta_protocol_proxy.Decoder.{Mutation}
use meta_protocol_proxy.Filters.{FilterStatus}
use meta_protocol_proxy.RequestId.{TraceReason, not_traceable, health_check}
use meta_protocol_proxy.Route.{
  Route, RequestMirrorPolicy, cluster_name, parent, request_mutation, should_shadow,
}
use meta_protocol_proxy.Upstream.Manager.{GetUpstreamHandlerResult}
use meta_protocol_proxy.Router.Tracing.{
  TracingConfig, set_x_request_id, mutate_tracing_request_metadata,
}
use meta_protocol_proxy.Router.UpstreamRequest.{
  Effect, UpstreamRequest, new_request, start, start_by_handler, on_pool_ready, on_pool_failure,
}
use meta_protocol_proxy.Router.Services.{
  PoolAnswer, pending, ready_at_once, refused_at_once, ClusterManagerApi,
  PrepareUpstreamRequestResult, prepare_upstream_request, start_span, Started, start_pooled,
}
use meta_protocol_proxy.Router.Filter.{
  error_code, FilterEffect, ActiveRequest, Router, upstream_effects, emit_log_entry,
}

-- What the filter asks for one message: its route; the connection's tracing configuration, upstream
-- handlers and codec; the next UUID; the runtime, with the random number of each mirror policy;
-- and a number in decimals.
pub record Services (B : BufferApi) (H : HeaderMapApi) : Type 1 where
  pub HeaderData : Type 0
  pub Handler : Type 0
  pub clusters : ClusterManagerApi
  pub route : Option (Route HeaderData)
  pub uuid : String
  pub tracing_config : Option TracingConfig
  pub inject : TraceReason → Metadata B H → Metadata B H
  pub multiplexing : Bool
  pub get_upstream_handler : String → GetUpstreamHandlerResult Handler
  pub is_pool_ready : Handler → Bool
  pub encode : Metadata B H → Mutation → B.Buffer → Outcome B.Buffer
  pub feature_enabled : String → ℕ × ℕ → ℕ → Bool
  pub random : ℕ → ℕ
  pub decimals : ℕ → String

abbrev pub is_traced : TraceReason → Bool
is_traced not_traceable = false
is_traced health_check = false
is_traced _ = true

module _ (B : BufferApi) (H : HeaderMapApi) (S : Services B H) where
  abbrev pub Effects : Type 0
  Effects = List (FilterEffect B H)

  abbrev pub Answer : Type 0
  Answer = FilterStatus × Router B H × Effects

  -- An error is logged and answered, and the iteration aborted.
  unfoldable pub refuse : Error → String → Effects → Router B H → Outcome Answer
  unfolding emit_log_entry
  refuse error detail before r =
      emit_log_entry B H r.request_metadata none error_code detail r
      >>= λ (t : Router B H × Effects). ok (
        FilterStatus.abort_iteration,
        t.0,
        before ++ (t.1 ++ FilterEffect.local_reply_sent error ∷ []),
      )

  -- The loop over the mirror policies, from the i-th on.
  unfoldable pub mirror : ℕ → List RequestMirrorPolicy → Metadata B H → Mutation → Effects
  unfolding should_shadow clone
  mirror i [] copy mutation = []
  mirror i (p ∷ ps) copy mutation =
      let rest = mirror (suc i) ps copy mutation in
      if should_shadow S.feature_enabled p (S.random i)
      then FilterEffect.request_mirrored p.cluster_name (clone B H copy) mutation ∷ rest
      else rest

  -- What is done once the upstream request is made and started.
  unfoldable pub launched :
      Bool → Option String → Effects → Effects → Router B H → Started B H → Outcome Answer
  launched by_handler cluster before mirrors r (status, q, es) = ok (
    status,
    record r {
      upstream_request = some (record { request = q; by_handler = by_handler });
      request_metadata = some q.metadata;
    },
    before ++ (FilterEffect.cluster_info_set cluster ∷ (upstream_effects B H es ++ mirrors)),
  )

  send_by_handler :
      Option Error
      → Option S.Handler
      → String
      → Metadata B H
      → Mutation
      → Effects
      → Effects
      → Router B H
      → Outcome Answer
  unfolding new_request start_by_handler refuse launched
  send_by_handler (some e) handler detail m mutation before mirrors r = refuse e detail before r
  send_by_handler none none detail m mutation before mirrors r = panics
  send_by_handler none (some h) detail m mutation before mirrors r =
      start_by_handler B H S.encode (S.is_pool_ready h) (new_request B H m mutation)
      >>= launched true none (before ++ FilterEffect.response_callback_added m.request_id ∷ [])
          mirrors r

  send_by_pool :
      String
      → Option Error
      → Option (ClusterManagerApi.Pool S.clusters)
      → String
      → Metadata B H
      → Mutation
      → Effects
      → Effects
      → Router B H
      → Outcome Answer
  unfolding new_request start_pooled refuse launched
  send_by_pool name (some e) pool detail m mutation before mirrors r = refuse e detail before r
  send_by_pool name none none detail m mutation before mirrors r = panics
  send_by_pool name none (some p) detail m mutation before mirrors r =
      start_pooled B H S.encode (ClusterManagerApi.new_connection S.clusters p)
        (new_request B H m mutation)
      >>= launched false (some name) before mirrors r

  -- traceRequest, if there is a tracing configuration: whether there is a span, and the message as it
  -- is then.
  unfoldable pub trace_request :
      Option TracingConfig
      → Bool
      → Metadata B H
      → Mutation
      → Outcome (Bool × Metadata B H × Mutation)
  unfolding mutate_tracing_request_metadata start_span
  trace_request none first m mutation = ok (false, m, mutation)
  trace_request (some T) first m mutation =
      mutate_tracing_request_metadata B H T first m >>= λ (d : TraceReason × Metadata B H).
      (if is_traced d.0
        then (start_span B H S.inject d.0 d.1 mutation >>= λ (t : Metadata B H × Mutation).
            ok (true, t.0, t.1))
        else ok (false, d.1, mutation))

  abbrev pub span_effects : Bool → Effects
  span_effects traced = if traced then FilterEffect.span_started ∷ [] else []

  -- The choice between the upstream handler and the pool. The copy for the mirrors is taken before.
  unfoldable pub send :
      Route S.HeaderData → Bool × Metadata B H × Mutation → Router B H → Outcome Answer
  unfolding clone request_mutation send_by_handler send_by_pool prepare_upstream_request mirror
      cluster_name
  send route (traced, m, mutation) r =
      let mutated = request_mutation route mutation in
      let mirrors = mirror 0 (parent route).mirror_policies (clone B H m) mutated in
      let r' = record r {
        request_metadata = some m;
        active_span = if traced then true else r.active_span;
      } in
      let handler = S.get_upstream_handler (cluster_name route) in
      let prepared = prepare_upstream_request S.clusters (cluster_name route) in
      if S.multiplexing
      then send_by_handler handler.error handler.handler handler.detail m mutated
          (span_effects traced) mirrors r'
      else send_by_pool (cluster_name route) prepared.exception prepared.conn_pool_data
          prepared.response_code_detail m mutated (span_effects traced) mirrors r'

  abbrev pub no_route : Metadata B H → Error
  no_route m = record {
    type = ErrorType.route_not_found;
    message =
        str_append "meta protocol router: no matched route for request '"
          (str_append (S.decimals m.request_id) "'");
  }

  by_route : Option (Route S.HeaderData) → Metadata B H → Mutation → Router B H → Outcome Answer
  unfolding refuse set_x_request_id trace_request send
  by_route none m mutation r = refuse (no_route m) "no_matched_route" [] r
  by_route (some route) m mutation r =
      set_x_request_id B H S.uuid m mutation >>= λ (t : Bool × Metadata B H × Mutation).
      (trace_request S.tracing_config t.0 t.1 t.2 >>= λ (u : Bool × Metadata B H × Mutation).
      send route u (record r { is_first_span = t.0 }))

  unfoldable pub on_message_decoded : Metadata B H → Mutation → Router B H → Outcome Answer
  unfolding by_route
  on_message_decoded m mutation r =
      by_route S.route m mutation (record r { request_metadata = some m })
