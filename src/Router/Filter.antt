-- ===== src/Router/Filter.antt =====
-- Router of src/meta_protocol_proxy/filters/router/router_impl.h and router_impl.cc, the filter that
-- sends a request upstream and takes its response. What it does elsewhere is a list of effects.
pub mod Requests
pub mod Upstream
use Prim.Native.String.{String}
use meta_protocol_proxy.Base.{
  ℕ, Bool, true, false, Option, none, some, List, [], ◌∷◌, ◌++◌, not, if◌then◌else◌, Outcome, ok,
  panics, ◌>>=◌,
}
use meta_protocol_proxy.Codec.{MessageType, ResponseStatus, Error}
use meta_protocol_proxy.Buffer.{BufferApi}
use meta_protocol_proxy.Metadata.{HeaderMapApi, Metadata}
use meta_protocol_proxy.Decoder.{Mutation}
use meta_protocol_proxy.Filters.{FilterStatus, UpstreamResponseStatus}
use meta_protocol_proxy.Router.UpstreamRequest.{
  PoolFailureReason, ConnectionEvent, OutlierResult, ext_origin_request_failed,
  ext_origin_request_success, Effect, UpstreamRequest, release_upstream_connection,
  on_upstream_connection_reset, on_upstream_connection_event, on_response_complete, release_handler,
}

-- The response statuses as the numbers that the access log is given.
abbrev pub ok_code : ℕ
ok_code = 0

abbrev pub error_code : ℕ
error_code = 1

module _ (B : BufferApi) (H : HeaderMapApi) where
  open H use {HeaderMap}

  -- What the access logs are given of a request, with the response code and its details.
  pub record LogEntry : Type 0 where
    pub response_code : ℕ
    pub response_code_details : String
    pub request_headers : HeaderMap
    pub response_headers : Option HeaderMap

  -- `upstream` is what the upstream request does; the other effects are the filter's own. A span is
  -- finished with a response or without; a local reply does not end the stream.
  pub data FilterEffect : Type 0 where
    upstream : Effect → FilterEffect
    access_logged : LogEntry → FilterEffect
    local_reply_sent : Error → FilterEffect
    response_callback_added : ℕ → FilterEffect
    cluster_info_set : Option String → FilterEffect
    request_mirrored : String → Metadata B H → Mutation → FilterEffect
    upstream_response_started : FilterEffect
    span_started : FilterEffect
    span_finished : Bool → FilterEffect
    host_result_put : OutlierResult → FilterEffect
    upstream_response_done : FilterEffect

  -- An UpstreamRequest, or an UpstreamRequestByHandler.
  pub record ActiveRequest : Type 0 where
    pub request : UpstreamRequest B H
    pub by_handler : Bool

  -- The members that change. The metadata of a request is shared with its upstream request.
  pub record Router : Type 0 where
    pub upstream_request : Option ActiveRequest
    pub request_metadata : Option (Metadata B H)
    pub response_metadata : Option (Metadata B H)
    pub active_span : Bool
    pub is_first_span : Bool

  abbrev pub Step : Type 0
  Step = Outcome (Router × List FilterEffect)

  -- A call after a call: its effects come behind.
  abbrev pub then_step : Step → (Router → Step) → Step
  then_step c f = c >>= λ (t : Router × List FilterEffect).
      (f t.0 >>= λ (u : Router × List FilterEffect). ok (u.0, t.1 ++ u.1))

  unfoldable pub upstream_effects : List Effect → List FilterEffect
  upstream_effects [] = []
  upstream_effects (e ∷ es) = FilterEffect.upstream e ∷ upstream_effects es

  -- The dereference of `upstream_request_`.
  unfoldable pub with_request : (ActiveRequest → Router → Step) → Router → Step
  with_request f r = elim r.upstream_request [ none ↦ panics | some a ↦ f a r ]

  abbrev pub new_router : Router
  new_router = record {
    upstream_request = none;
    request_metadata = none;
    response_metadata = none;
    active_span = false;
    is_first_span = false;
  }

  abbrev pub headers_of : Option (Metadata B H) → Option HeaderMap
  headers_of none = none
  headers_of (some m) = some m.response_headers

  -- emitLogEntry, of a request and of its response if there is one.
  unfoldable pub emit_log_entry :
      Option (Metadata B H) → Option (Metadata B H) → ℕ → String → Router → Step
  emit_log_entry none response code detail r = panics
  emit_log_entry (some m) response code detail r = ok (
    r,
    FilterEffect.access_logged (record {
      response_code = code;
      response_code_details = detail;
      request_headers = m.headers;
      response_headers = headers_of response;
    })
        ∷ [],
  )

  -- The calls of the two kinds of request.
  unfoldable pub release : Bool → ActiveRequest → Router → Step
  release close a r =
      let (q, es) =
        if a.by_handler
        then release_handler B H a.request
        else release_upstream_connection B H close a.request in
      ok (record r { upstream_request = some (record a { request = q }) }, upstream_effects es)

  unfoldable pub response_complete : ActiveRequest → Router → Step
  response_complete a r =
      let (q, es) =
        if a.by_handler
        then (record a.request { response_complete = true }, [])
        else on_response_complete B H a.request in
      ok (record r { upstream_request = some (record a { request = q }) }, upstream_effects es)

  unfoldable pub clean_upstream_request : Router → Step
  clean_upstream_request r = ok (record r { upstream_request = none }, [])

  unfoldable pub on_destroy : Router → Step
  unfolding release clean_upstream_request
  on_destroy r = elim r.upstream_request [
    | none ↦ clean_upstream_request r
    | some a ↦ then_step (release false a r) clean_upstream_request
  ]

  -- onMessageEncoded puts the outcome of the response down to the host.
  unfoldable pub response_result : ResponseStatus → MessageType → OutlierResult
  response_result ResponseStatus.ok MessageType.error = ext_origin_request_failed
  response_result ResponseStatus.ok _ = ext_origin_request_success
  response_result ResponseStatus.error _ = ext_origin_request_failed

  put_result : Metadata B H → ActiveRequest → Router → Step
  unfolding response_result
  put_result m a r = elim a.request.upstream_host [
    | none ↦ panics
    | some _ ↦ ok (
      record r { response_metadata = some m },
      FilterEffect.host_result_put (response_result m.response_status m.message_type) ∷ [],
    )
  ]

  -- It always continues the iteration.
  unfoldable pub on_message_encoded : Metadata B H → Router → Step
  unfolding put_result
  on_message_encoded m r = elim r.upstream_request [ none ↦ ok (r, []) | some a ↦ put_result m a r ]

  abbrev pub finish_span : Bool → Router → Step
  finish_span with_response r =
      ok (r, if r.active_span then FilterEffect.span_finished with_response ∷ [] else [])
