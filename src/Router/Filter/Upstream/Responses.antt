-- ===== src/Router/Filter/Upstream/Responses.antt =====
-- A whole response at the router filter: the pieces in which it comes, and its three ends.
use Prim.Native.String.{String}
use meta_protocol_proxy.Base.{
  ℕ, zero, suc, ◌≡◌, refl, Bool, true, false, Bool-cases, inl, inr, Option, none, some, List, [],
  ◌∷◌, ◌++◌, append-nil, ok, if◌then◌else◌,
}
use meta_protocol_proxy.Buffer.{BufferApi}
use meta_protocol_proxy.Metadata.{HeaderMapApi, Metadata}
use meta_protocol_proxy.Filters.{UpstreamResponseStatus}
use meta_protocol_proxy.Router.UpstreamRequest.{
  PoolFailureReason, Effect, UpstreamRequest, is_oneway, reply_message, reset_reply, reply_about,
  on_upstream_connection_reset, on_response_complete, release_upstream_connection,
}
use meta_protocol_proxy.Router.Filter.{
  ok_code, error_code, FilterEffect, Router, Step, then_step, upstream_effects, response_result,
  put_result, on_message_encoded, emit_log_entry, release, response_complete,
  clean_upstream_request, with_request,
}
use meta_protocol_proxy.Router.Filter.Upstream.{
  UpstreamAnswer, finish_with_response, log_response, log_error, incomplete, reset_request,
  on_upstream_response_complete, on_status, start_response, encode_all, read_response,
  on_upstream_data,
}

module _ (B : BufferApi) (H : HeaderMapApi) where
  -- The pieces in the order of their arrival, each with the flag of the end of the stream.
  unfoldable pub run : List (UpstreamAnswer B H × Bool) → Router B H → Step B H
  run [] r = ok (r, [])
  run ((answer, end_stream) ∷ rest) r =
      then_step B H (on_upstream_data B H answer end_stream r) (run rest)

  -- What a response ends with: a message that is complete; a reset; the end of the stream.
  pub data Ending : Type 0 where
    whole : Metadata B H → Ending
    broken : Ending
    cut : Ending

  abbrev pub last_answer : Ending → UpstreamAnswer B H × Bool
  last_answer (whole m) =
      (record { encoded = m ∷ []; status = UpstreamResponseStatus.complete }, false)
  last_answer broken = (record { encoded = []; status = UpstreamResponseStatus.reset }, false)
  last_answer cut = (record { encoded = []; status = UpstreamResponseStatus.more_data }, true)

  -- Any number of pieces that leave the response incomplete, then its end.
  unfoldable pub pieces : ℕ → Ending → List (UpstreamAnswer B H × Bool)
  pieces zero e = last_answer e ∷ []
  pieces (suc n) e =
      (record { encoded = []; status = UpstreamResponseStatus.more_data }, false) ∷ pieces n e

  module _ (host : String) (m : Metadata B H) (q : UpstreamRequest B H) (r : Router B H) where
    -- A pooled request m whose connection to the host is there; `b` tells that its response started.
    abbrev pub receiving : Bool → Router B H
    receiving b = record r {
      upstream_request = some (record {
        request = record q {
          upstream_host = some host;
          response_started = b;
          response_complete = false;
          conn_pool_handle = false;
          conn_data = true;
        };
        by_handler = false;
      });
      request_metadata = some m;
    }

    abbrev opening : Bool → List (FilterEffect B H)
    opening b = if b then [] else FilterEffect.upstream_response_started ∷ []

    abbrev logged : Option (Metadata B H) → ℕ → String → List (FilterEffect B H)
    logged response code detail =
        (if r.active_span
          then FilterEffect.span_finished (elim response [ none ↦ false | some _ ↦ true ]) ∷ []
          else [])
        ++ FilterEffect.access_logged (record {
          response_code = code;
          response_code_details = detail;
          request_headers = m.headers;
          response_headers = elim response [ none ↦ none | some a ↦ some (a.response_headers) ];
        })
          ∷ []

    -- What each end does, and the filter behind it.
    abbrev pub ending_effects : Ending → List (FilterEffect B H)
    ending_effects (whole a) =
        FilterEffect.host_result_put (response_result B H a.response_status a.message_type)
        ∷ FilterEffect.upstream Effect.connection_released
        ∷ logged (some a) ok_code ""
    ending_effects broken =
        FilterEffect.upstream Effect.connection_closed
        ∷ FilterEffect.upstream Effect.connection_released
        ∷ logged none error_code "upstream_reset"
    ending_effects cut =
        (if is_oneway B H q.metadata.message_type
          then FilterEffect.upstream Effect.stream_was_reset ∷ []
          else FilterEffect.upstream (
              Effect.local_reply_sent
                (reply_message B H PoolFailureReason.remote_connection_failure host))
            ∷ FilterEffect.upstream Effect.stream_was_reset
            ∷ [])
        ++ FilterEffect.upstream Effect.connection_released
          ∷ logged none error_code "upstream_response_incomplete"

    abbrev pub finished : Ending → Router B H
    finished (whole a) = record (receiving true) {
      upstream_request = none;
      response_metadata = some a;
    }
    finished broken = record (receiving true) {
      upstream_request = some (record {
        request = record q {
          upstream_host = some host;
          response_started = true;
          response_complete = false;
          stream_reset = true;
          conn_pool_handle = false;
          conn_data = false;
        };
        by_handler = false;
      });
    }
    finished cut = record (receiving true) { upstream_request = none }

    piece_lem :
        (b : Bool)
        → on_upstream_data B H
            (record { encoded = []; status = UpstreamResponseStatus.more_data })
            false
            (receiving b)
          ≡ ok (receiving true, opening b)
    unfolding on_upstream_data read_response with_request start_response encode_all on_status
    piece_lem true = refl
    piece_lem false = refl

    last_lem :
        (e : Ending) (b : Bool)
        → on_upstream_data B H (last_answer e).0 (last_answer e).1 (receiving b)
          ≡ ok (finished e, opening b ++ ending_effects e)
    unfolding on_upstream_data read_response with_request start_response encode_all on_status
        on_upstream_response_complete response_complete clean_upstream_request finish_with_response
        log_response emit_log_entry on_message_encoded put_result release log_error incomplete
        reset_request on_upstream_connection_reset reset_reply reply_about on_response_complete
        upstream_effects release_upstream_connection
    last_lem (whole a) true = refl
    last_lem (whole a) false = refl
    last_lem broken true = refl
    last_lem broken false = refl
    last_lem cut true = elim (Bool-cases (is_oneway B H q.metadata.message_type)) [
      | inl e ↦ rw e refl
      | inr e ↦ rw e refl
    ]
    last_lem cut false = elim (Bool-cases (is_oneway B H q.metadata.message_type)) [
      | inl e ↦ rw e refl
      | inr e ↦ rw e refl
    ]

    run-pieces :
        (e : Ending) (n : ℕ) (b : Bool)
        → run (pieces n e) (receiving b) ≡ ok (finished e, opening b ++ ending_effects e)
    unfolding run pieces
    run-pieces e zero b = rw (last_lem e b, append-nil (opening b ++ ending_effects e)) refl
    run-pieces e (suc n) b = rw (piece_lem b, run-pieces e n true) refl

    -- A pooled request whose connection is there, its response in any number of pieces: onUpstreamData
    -- returns at every piece. The response is started once, with the first piece. A complete message
    -- is put down to the host by its status and type, releases the connection for reuse, finishes the
    -- span if there is one and is logged once with the code Ok. A reset closes the connection and
    -- releases it. The end of the stream answers the downstream that the remote connection failed,
    -- unless the request is one-way, resets the stream and releases the connection. These two are
    -- logged once with the code Error and their own details, and only the reset leaves the upstream
    -- request there.
    pub run_lem :
        (e : Ending) (n : ℕ)
        → run (pieces n e) (receiving false)
          ≡ ok (finished e, FilterEffect.upstream_response_started ∷ ending_effects e)
    run_lem e n = run-pieces e n false
