-- ===== src/Router/Filter/Upstream.antt =====
-- The upstream side of Router, src/meta_protocol_proxy/filters/router/router_impl.cc: onUpstreamData,
-- the end of a response, and the events of the upstream connection.
pub mod Responses
use Prim.Native.String.{String}
use meta_protocol_proxy.Base.{
  ℕ, Bool, true, false, Option, none, some, List, [], ◌∷◌, ◌++◌, not, if◌then◌else◌, Outcome, ok,
  panics, ◌>>=◌,
}
use meta_protocol_proxy.Codec.{MessageType, ResponseStatus, Error}
use meta_protocol_proxy.Buffer.{BufferApi}
use meta_protocol_proxy.Metadata.{HeaderMapApi, Metadata}
use meta_protocol_proxy.Decoder.{Mutation}
use meta_protocol_proxy.Filters.{FilterStatus, UpstreamResponseStatus}
use meta_protocol_proxy.Router.UpstreamRequest.{
  PoolFailureReason, ConnectionEvent, OutlierResult, ext_origin_request_failed,
  ext_origin_request_success, Effect, UpstreamRequest, release_upstream_connection,
  on_upstream_connection_reset, on_upstream_connection_event, on_response_complete, release_handler,
}
use meta_protocol_proxy.Router.Filter.{
  ok_code, error_code, FilterEffect, ActiveRequest, Router, Step, then_step, upstream_effects,
  with_request, emit_log_entry, release, response_complete, clean_upstream_request, finish_span,
  on_message_encoded,
}

module _ (B : BufferApi) (H : HeaderMapApi) where
  -- finalizeSpanWithResponse dereferences the response.
  finish_with_response : Option (Metadata B H) → Router B H → Step B H
  finish_with_response none r = if r.active_span then panics else ok (r, [])
  finish_with_response (some m) r = finish_span B H true r

  log_response : Option (Metadata B H) → Router B H → Step B H
  unfolding emit_log_entry
  log_response response r = emit_log_entry B H r.request_metadata response ok_code "" r

  unfoldable pub on_upstream_response_complete : Option (Metadata B H) → Router B H → Step B H
  unfolding with_request response_complete clean_upstream_request finish_with_response log_response
  on_upstream_response_complete response r =
      then_step B H (with_request B H (response_complete B H) r) λ r₁.
        then_step B H (clean_upstream_request B H r₁)
          λ r₂. then_step B H (finish_with_response response r₂) (log_response response)

  unfoldable pub on_upstream_response_callback : Metadata B H → Router B H → Step B H
  unfolding on_upstream_response_complete
  on_upstream_response_callback m r =
      then_step B H (on_upstream_response_complete (some m) r)
        λ r₁. ok (r₁, FilterEffect.upstream_response_done ∷ [])

  -- startUpstreamResponse takes the metadata of the request.
  start_response : ActiveRequest B H → Router B H → Step B H
  start_response a r = if a.request.response_started then ok (r, []) else elim r.request_metadata [
    | none ↦ panics
    | some _ ↦ ok (
      record r {
        upstream_request =
            some (record a { request = record a.request { response_started = true } });
      },
      FilterEffect.upstream_response_started ∷ [],
    )
  ]

  reset_request : ActiveRequest B H → Router B H → Step B H
  unfolding on_upstream_connection_reset
  reset_request a r =
      on_upstream_connection_reset B H PoolFailureReason.remote_connection_failure a.request
      >>= λ (t : UpstreamRequest B H × List Effect). ok (
        record r { upstream_request = some (record a { request = t.0 }) },
        upstream_effects B H t.1,
      )

  log_error : String → Router B H → Step B H
  unfolding emit_log_entry
  log_error detail r =
      then_step B H (finish_span B H false r)
        λ r₁. emit_log_entry B H r₁.request_metadata none error_code detail r₁

  incomplete : Router B H → Step B H
  unfolding with_request reset_request response_complete clean_upstream_request log_error
  incomplete r = then_step B H (with_request B H reset_request r) λ r₁.
      then_step B H (with_request B H (response_complete B H) r₁) λ r₂.
        then_step B H (clean_upstream_request B H r₂) (log_error "upstream_response_incomplete")

  -- The switch of onUpstreamData.
  unfoldable pub on_status : UpstreamResponseStatus → Bool → Router B H → Step B H
  unfolding on_upstream_response_complete with_request release log_error incomplete
  on_status UpstreamResponseStatus.complete end_stream r =
      on_upstream_response_complete r.response_metadata r
  on_status UpstreamResponseStatus.reset end_stream r =
      then_step B H (with_request B H (release B H true) r) (log_error "upstream_reset")
  on_status UpstreamResponseStatus.more_data end_stream r =
      if end_stream then incomplete r else ok (r, [])
  on_status UpstreamResponseStatus.retry end_stream r = panics

  -- What `upstreamData` of the callbacks comes to: its answer, and the messages that it hands on its
  -- way to onMessageEncoded of this filter.
  pub record UpstreamAnswer : Type 0 where
    pub encoded : List (Metadata B H)
    pub status : UpstreamResponseStatus

  encode_all : List (Metadata B H) → Router B H → Step B H
  unfolding on_message_encoded
  encode_all [] r = ok (r, [])
  encode_all (m ∷ ms) r = then_step B H (on_message_encoded B H m r) (encode_all ms)

  read_response : UpstreamAnswer → Bool → ActiveRequest B H → Router B H → Step B H
  unfolding start_response encode_all on_status
  read_response answer end_stream a r =
      then_step B H (start_response a r)
        λ r₁. then_step B H (encode_all answer.encoded r₁) (on_status answer.status end_stream)

  unfoldable pub on_upstream_data : UpstreamAnswer → Bool → Router B H → Step B H
  unfolding with_request read_response
  on_upstream_data answer end_stream r = with_request B H (read_response answer end_stream) r

  event_request : ConnectionEvent → ActiveRequest B H → Router B H → Step B H
  unfolding on_upstream_connection_event
  event_request event a r =
      on_upstream_connection_event B H event a.request
      >>= λ (t : UpstreamRequest B H × List Effect). ok (
        record r { upstream_request = some (record a { request = t.0 }) },
        upstream_effects B H t.1,
      )

  unfoldable pub on_event : ConnectionEvent → Router B H → Step B H
  unfolding with_request event_request
  on_event event r =
      then_step B H (with_request B H (event_request event) r) (finish_span B H false)
