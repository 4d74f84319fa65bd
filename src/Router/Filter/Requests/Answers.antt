-- ===== src/Router/Filter/Requests/Answers.antt =====
-- What onMessageDecoded of the router filter can answer: a refusal, or a request that is under way;
-- and the start of a request.
use Prim.Native.String.{String, ◌++◌ as str_append}
use meta_protocol_proxy.Base.{
  ℕ, suc, ◌≡◌, refl, sym, subst, arith, Bool, true, false, Bool-cases, inl, inr, Option, none, some,
  List, [], ◌∷◌, ◌++◌, Outcome, ok, ◌>>=◌, AnyValue, Safely, gives, Safely-bind, Safely-if,
}
use meta_protocol_proxy.Codec.{ErrorType, Error}
use meta_protocol_proxy.Buffer.{BufferApi}
use meta_protocol_proxy.Metadata.{HeaderMapApi, Metadata}
use meta_protocol_proxy.Decoder.{Mutation}
use meta_protocol_proxy.Filters.{FilterStatus}
use meta_protocol_proxy.Route.{Route, RequestMirrorPolicy, cluster_name, should_shadow}
use meta_protocol_proxy.Upstream.Manager.{GetUpstreamHandlerResult}
use meta_protocol_proxy.Router.UpstreamRequest.{
  PoolFailureReason, Effect, UpstreamRequest, start, start_by_handler, encode_data, stream_started,
  on_pool_ready, is_stream_init,
}
use meta_protocol_proxy.Router.UpstreamRequest.Failures.{HasHost, on_pool_failure_lem}
use meta_protocol_proxy.Router.Services.{
  ClusterManagerApi, PoolAnswer, pending, ready_at_once, refused_at_once, Started, start_pooled,
}
use meta_protocol_proxy.Router.Services.Preparation.{Refuses, Offers}
use meta_protocol_proxy.Router.Filter.{error_code, FilterEffect, Router, upstream_effects}
use meta_protocol_proxy.Router.Filter.Requests.{Services, Effects, Answer, mirror, span_effects}

abbrev pub aborts : FilterStatus → Bool
aborts FilterStatus.abort_iteration = true
aborts _ = false

module _ (B : BufferApi) (H : HeaderMapApi) where
  -- How many access log entries and local replies the filter itself makes.
  unfoldable pub reports : List (FilterEffect B H) → ℕ
  reports [] = 0
  reports (FilterEffect.access_logged e ∷ es) = suc (reports es)
  reports (FilterEffect.local_reply_sent e ∷ es) = suc (reports es)
  reports (_ ∷ es) = reports es

  abbrev pub has_request : Router B H → Bool
  has_request r = elim r.upstream_request [ none ↦ false | some a ↦ true ]

  module _ (S : Services B H) where
    -- The reasons for a refusal, with the error and the detail that they give.
    pub data Reason (m : Metadata B H) : Error → String → Type 0 where
      unrouted :
          S.route ≡ none
          → Reason m
              (record {
                type = ErrorType.route_not_found;
                message =
                    str_append "meta protocol router: no matched route for request '"
                      (str_append (S.decimals m.request_id) "'");
              })
              "no_matched_route"
      without_handler :
          (route : Route S.HeaderData) (e : Error)
          → S.route ≡ some route
          → S.multiplexing ≡ true
          → GetUpstreamHandlerResult.error (S.get_upstream_handler (cluster_name route)) ≡ some e
          → Reason m e
              (GetUpstreamHandlerResult.detail (S.get_upstream_handler (cluster_name route)))
      without_pool :
          (route : Route S.HeaderData) (e : Error) (detail : String)
          → S.route ≡ some route
          → S.multiplexing ≡ false
          → Refuses S.clusters (cluster_name route) e detail
          → Reason m e detail

    -- When a request is sent: to an upstream handler that is had, or to a pool of a cluster that is
    -- known and not in maintenance.
    pub data Served : Type 0 where
      by_handler :
          (route : Route S.HeaderData)
          → S.route ≡ some route
          → S.multiplexing ≡ true
          → GetUpstreamHandlerResult.error (S.get_upstream_handler (cluster_name route)) ≡ none
          → Served
      by_pool :
          (route : Route S.HeaderData) (p : ClusterManagerApi.Pool S.clusters)
          → S.route ≡ some route
          → S.multiplexing ≡ false
          → Offers S.clusters (cluster_name route) p
          → Served

    -- A refusal has one log entry and then one reply, behind the start of the span if there is one,
    -- and makes no upstream request. Any other answer has an upstream request, and neither a log
    -- entry nor a reply of the filter.
    pub data Answered (m : Metadata B H) (r : Router B H) : Answer B H S → Type 0 where
      refused :
          {r' : Router B H} {es : Effects B H S} (e : Error) (detail : String) (traced : Bool)
          (headers : H.HeaderMap)
          → Reason m e detail
          → r'.upstream_request ≡ r.upstream_request
          → es
            ≡ span_effects B H S traced
              ++ FilterEffect.access_logged (record {
                response_code = error_code;
                response_code_details = detail;
                request_headers = headers;
                response_headers = none;
              })
                ∷ FilterEffect.local_reply_sent e
                ∷ []
          → Answered m r (FilterStatus.abort_iteration, r', es)
      sent :
          {s : FilterStatus} {r' : Router B H} {es : Effects B H S}
          → Served
          → aborts s ≡ false
          → has_request r' ≡ true
          → reports es ≡ 0
          → Answered m r (s, r', es)

    -- Codecs that return or throw, handlers that are there unless there is an error, and pools that
    -- name the host of a failure unless they refuse to begin.
    pub record IsServing : Type 0 where
      pub encodes :
          (m : Metadata B H) (mutation : Mutation) (b : B.Buffer)
          → Safely AnyValue (S.encode m mutation b)
      pub handles :
          (name : String)
          → GetUpstreamHandlerResult.error (S.get_upstream_handler name) ≡ none
          → (h : S.Handler) × (GetUpstreamHandlerResult.handler (S.get_upstream_handler name)
              ≡ some h)
      pub names :
          (p : ClusterManagerApi.Pool S.clusters) (reason : PoolFailureReason)
          (host : Option String)
          → ClusterManagerApi.new_connection S.clusters p ≡ refused_at_once reason host
          → HasHost B H reason host

  pub reports-append :
      (xs ys : List (FilterEffect B H)) → reports xs ≡ 0 → reports (xs ++ ys) ≡ reports ys
  unfolding reports
  reports-append [] ys e = refl
  reports-append (FilterEffect.access_logged x ∷ xs) ys e = ground arith
  reports-append (FilterEffect.local_reply_sent x ∷ xs) ys e = ground arith
  reports-append (FilterEffect.upstream x ∷ xs) ys e = reports-append xs ys e
  reports-append (FilterEffect.response_callback_added x ∷ xs) ys e = reports-append xs ys e
  reports-append (FilterEffect.cluster_info_set x ∷ xs) ys e = reports-append xs ys e
  reports-append (FilterEffect.request_mirrored x y z ∷ xs) ys e = reports-append xs ys e
  reports-append (FilterEffect.upstream_response_started ∷ xs) ys e = reports-append xs ys e
  reports-append (FilterEffect.span_started ∷ xs) ys e = reports-append xs ys e
  reports-append (FilterEffect.span_finished x ∷ xs) ys e = reports-append xs ys e
  reports-append (FilterEffect.host_result_put x ∷ xs) ys e = reports-append xs ys e
  reports-append (FilterEffect.upstream_response_done ∷ xs) ys e = reports-append xs ys e

  pub reports-upstream_effects : (es : List Effect) → reports (upstream_effects B H es) ≡ 0
  unfolding reports upstream_effects
  reports-upstream_effects [] = refl
  reports-upstream_effects (e ∷ es) = reports-upstream_effects es

  module _ (S : Services B H) where
    pub reports-mirror :
        (i : ℕ) (ps : List RequestMirrorPolicy) (copy : Metadata B H) (mutation : Mutation)
        → reports (mirror B H S i ps copy mutation) ≡ 0
    unfolding reports mirror
    reports-mirror i [] copy mutation = refl
    reports-mirror i (p ∷ ps) copy mutation =
        elim (Bool-cases (should_shadow S.feature_enabled p (S.random i))) [
          | inl e ↦ rw e (reports-mirror (suc i) ps copy mutation)
          | inr e ↦ rw e (reports-mirror (suc i) ps copy mutation)
        ]

    pub reports-span_effects : (b : Bool) → reports (span_effects B H S b) ≡ 0
    unfolding reports
    reports-span_effects true = refl
    reports-span_effects false = refl

    module _ (k : IsServing S) where
      -- A start that does not abort.
      abbrev pub Underway : Started B H → Type 0
      Underway (s, q, es) = aborts s ≡ false

      encode_data-Safely : (q : UpstreamRequest B H) → Safely AnyValue (encode_data B H S.encode q)
      unfolding encode_data
      encode_data-Safely q =
          Safely-bind (k.encodes q.metadata q.mutation q.upstream_request_buffer) (λ b _. gives tt)

      on_pool_ready-Safely :
          (host address : String) (q : UpstreamRequest B H)
          → Safely AnyValue (on_pool_ready B H S.encode host address q)
      unfolding on_pool_ready stream_started
      on_pool_ready-Safely host address q =
          Safely-bind {P = AnyValue}
            (Safely-bind (encode_data-Safely _) (λ t _.
              Safely-bind {P = AnyValue}
                (Safely-if {b = is_stream_init B H (UpstreamRequest.metadata t.0).message_type}
                  (λ _. gives tt) (λ _. gives tt))
                (λ u _. gives tt)))
            (λ u _. gives tt)

      pub start_pooled-Underway :
          (p : ClusterManagerApi.Pool S.clusters) (a : PoolAnswer) (q : UpstreamRequest B H)
          → ClusterManagerApi.new_connection S.clusters p ≡ a
          → Safely Underway (start_pooled B H S.encode a q)
      unfolding start_pooled start
      start_pooled-Underway p pending q gave = gives refl
      start_pooled-Underway p (ready_at_once host address) q gave =
          Safely-bind (on_pool_ready-Safely host address q) (λ t _. gives refl)
      start_pooled-Underway p (refused_at_once reason host) q gave =
          let (b, e, _) = on_pool_failure_lem B H reason host q (k.names p reason host gave) in
          subst
            (λ (c : Outcome (UpstreamRequest B H × List Effect)). Safely Underway (
              c >>= λ (t : UpstreamRequest B H × List Effect).
              ok (let (s, q') = start B H false t.0 in (s, q', t.1))))
            (sym e) (gives refl)

      pub start_by_handler-Underway :
          (ready : Bool) (q : UpstreamRequest B H)
          → Safely Underway (start_by_handler B H S.encode ready q)
      unfolding start_by_handler
      start_by_handler-Underway true q = Safely-bind (encode_data-Safely q) (λ t _. gives refl)
      start_by_handler-Underway false q = gives refl
