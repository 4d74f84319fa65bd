-- ===== src/ActiveMessage/Response.antt =====
-- src/meta_protocol_proxy/active_message.cc: ActiveResponseDecoder and ActiveMessage::upstreamData, which
-- take a response from the upstream to the downstream connection.
pub mod Counters
pub mod Forwarding
pub mod Upstream
use Prim.Native.String.{String}
use meta_protocol_proxy.Base.{
  ℕ, zero, suc, ◌+◌, Bool, true, false, not, ◌||◌, Option, none, some, List, [], ◌∷◌, ◌++◌, ◌==◌,
  drop, if◌then◌else◌, Outcome, ok, throws, panics, stuck, Exception,
}
use meta_protocol_proxy.Codec.{MessageType, ResponseStatus, DecodeStatus, ErrorType, Error}
use meta_protocol_proxy.Buffer.{BufferApi}
use meta_protocol_proxy.Metadata.{
  HeaderMapApi, Metadata, new_metadata, put_string, get_string, get_message_size,
}
use meta_protocol_proxy.Decoder.{
  Mutation, CodecApi, Callbacks, DecoderBase, Run, on_data as decoder_on_data,
}
use meta_protocol_proxy.Filters.{FilterStatus, UpstreamResponseStatus}
use meta_protocol_proxy.ConnManager.{
  Stats, Stream, Manager, ResponseType, deferred_delete_message, send_local_reply, find_stream,
  new_active_stream, on_stream, send_to_upstream,
}
use meta_protocol_proxy.ActiveMessage.{
  Call, returns, raises, fails, ◌then_call◌, World, Filter, FilterIterationStartState,
  apply_filters, on_reset, send_local_reply_of, count_response, real_server_address,
}

module _ (B : BufferApi) (H : HeaderMapApi) (K : CodecApi B H) (E : Type 0) where
  open B use {Buffer, size, drain, bytes}

  -- The response. `request` is the metadata that startUpstreamResponse was given, `encode` is
  -- Codec::encode and `on_error_of` Codec::onError, by the bytes that they write.
  module _ (request : Metadata B H) (encode : Metadata B H → Mutation → Buffer → Outcome Buffer)
      (on_error_of : Metadata B H → Error → Outcome (List ℕ)) where
    as_exception : Outcome (List ℕ) → Outcome (ResponseType × List ℕ)
    as_exception (ok reply) = ok (ResponseType.exception, reply)
    as_exception (throws x) = throws x
    as_exception panics = panics
    as_exception stuck = stuck

    -- AppExceptionBase::encode
    app_exception : Error → Metadata B H → Outcome (ResponseType × List ℕ)
    unfolding as_exception
    app_exception e m = as_exception (on_error_of m e)

    abbrev metadata_or_new : Option (Metadata B H) → Metadata B H
    metadata_or_new none = new_metadata B H
    metadata_or_new (some m) = m

    -- ActiveMessage::onError
    unfoldable pub on_error : String → World B H K E → Call (World B H K E) Unit
    unfolding app_exception send_local_reply_of
    on_error what w =
        let m = metadata_or_new w.metadata in
        send_local_reply_of B H K E
          (app_exception (record { type = ErrorType.bad_response; message = what }) m) false
          (record w { metadata = some m })
        then_call λ _ w'. returns tt (on_reset B H K E w')

    raise_or :
        {A : Type 0}
        → World B H K E
        → (A → Call (World B H K E) Unit)
        → Outcome A
        → Call (World B H K E) Unit
    raise_or w f (ok a) = f a
    raise_or w f (throws x) = raises x w
    raise_or w f panics = fails
    raise_or w f stuck = fails

    -- What follows `encode`: the write to the downstream connection and the counters.
    reply_written : Metadata B H → World B H K E → Buffer → Call (World B H K E) Unit
    unfolding count_response
    reply_written m w b = returns tt (record w {
      manager = record w.manager {
        writes = w.manager.writes ++ bytes b ∷ [];
        stats = count_response m.message_type m.response_status w.manager.stats;
      };
      response_metadata = some (record m { origin_message = drain (size b) b });
      response_complete = true;
      response_status = UpstreamResponseStatus.complete;
    })

    -- The part of onMessageDecoded behind the filters.
    forward_response : Mutation → World B H K E → Option (Metadata B H) → Call (World B H K E) Unit
    unfolding raise_or reply_written
    forward_response mutation w none = fails
    forward_response mutation w (some m) =
        raise_or w
          (λ (server : String).
            let m' = put_string B H real_server_address server m in
            let w' = record w { response_metadata = some m' } in
            raise_or w' (reply_written m' w') (encode m' mutation m'.origin_message))
          (get_string B H real_server_address request)

    -- The switch of applyMessageEncodedFilters and the test of its result. A retry resets the decoder
    -- inside its own call, so that the state machine is freed that runs the handler and then stores
    -- its state: this is taken as a crash.
    after_encoder_filters : Mutation → FilterStatus → World B H K E → Call (World B H K E) Unit
    unfolding forward_response
    after_encoder_filters mutation FilterStatus.continue_iteration w =
        if not w.manager.is_open
        then raises Exception.downstream_connection_close w
        else forward_response mutation w w.response_metadata
    after_encoder_filters mutation FilterStatus.retry w = fails
    after_encoder_filters mutation _ w =
        returns tt (record w { response_status = UpstreamResponseStatus.complete })

    -- ActiveResponseDecoder::onMessageDecoded
    unfoldable pub on_response_decoded :
        List (Filter B H K E) → Metadata B H → Mutation → World B H K E → Call (World B H K E) Unit
    unfolding apply_filters after_encoder_filters
    on_response_decoded filters m mutation w =
        apply_filters B H K E filters none FilterIterationStartState.can_start_from_current
          (record w {
            bytes_received = w.bytes_received + get_message_size B H m;
            response_metadata = some m;
          })
        then_call after_encoder_filters mutation

    -- The decoder keeps the message that it decoded, and its handler runs behind the decoder's
    -- clean-up, not before it: neither touches what the other does, but for a retry, which crashes.
    -- Heartbeats are ignored.
    abbrev recorder : Callbacks B H (Option (Metadata B H × Mutation))
    recorder = record {
      Handler = Unit;
      new_message_handler = λ w. (tt, w);
      on_message_decoded = λ _ m mutation w. ok (some (m, mutation));
      on_heartbeat = λ m w. ok (true, w);
    }

    handle_decoded :
        List (Filter B H K E)
        → World B H K E
        → Option (Metadata B H × Mutation)
        → Call (World B H K E) Unit
    unfolding on_response_decoded
    handle_decoded filters w none = returns tt w
    handle_decoded filters w (some (m, mutation)) = on_response_decoded filters m mutation w

    after_response :
        List (Filter B H K E)
        → World B H K E
        → Outcome (Bool × Run B H K recorder)
        → Call (World B H K E) Unit
    unfolding handle_decoded
    after_response filters w (ok (underflow, r)) =
        handle_decoded filters
          (record w { response_decoder = some r.decoder; response_buffer = r.buffer }) r.world
    after_response filters w (throws x) = raises x w
    after_response filters w panics = fails
    after_response filters w stuck = fails

    -- ActiveResponseDecoder::onData, without a decoder a read of a null pointer.
    unfoldable pub on_response_data :
        List (Filter B H K E)
        → World B H K E
        → Option (DecoderBase K.State)
        → Call (World B H K E) Unit
    unfolding after_response
    on_response_data filters w none = fails
    on_response_data filters w (some d) = after_response filters w (
        decoder_on_data B H K recorder
          (record { decoder = d; buffer = w.response_buffer; world = none }))

    -- requestId() of the message and of its response.
    abbrev pub request_id_of : Option (Metadata B H) → ℕ
    request_id_of none = 0
    request_id_of (some m) = m.request_id

    -- The try block of upstreamData behind onData; the exception's text has its numbers left out.
    unfoldable pub check_response :
        UpstreamResponseStatus → World B H K E → Call (World B H K E) UpstreamResponseStatus
    check_response UpstreamResponseStatus.complete w =
        if request_id_of w.metadata == request_id_of w.response_metadata
        then returns UpstreamResponseStatus.complete (on_reset B H K E w)
        else raises (Exception.envoy_exception "response: request ID is not equal") w
    check_response UpstreamResponseStatus.retry w =
        returns UpstreamResponseStatus.retry (record w { response_decoder = none })
    check_response status w = returns status w

    -- The catch blocks of upstreamData; std::bad_any_cast and std::bad_optional_access are in neither.
    catch_response :
        Call (World B H K E) UpstreamResponseStatus → Call (World B H K E) UpstreamResponseStatus
    unfolding on_error
    catch_response (returns status w) = returns status w
    catch_response fails = fails
    catch_response (raises Exception.bad_any_cast w) = raises Exception.bad_any_cast w
    catch_response (raises Exception.bad_optional_access w) = raises Exception.bad_optional_access w
    catch_response (raises Exception.downstream_connection_close w) =
        let c = deferred_delete_message w.id w.manager in
        returns UpstreamResponseStatus.reset (record w {
          manager = record c {
            stats = record c.stats {
              response_error_caused_connection_close =
                  c.stats.response_error_caused_connection_close + 1;
            };
          };
        })
    catch_response (raises (Exception.envoy_exception what) w) =
        let s = w.manager.stats in
        on_error what (record w {
          manager = record w.manager {
            stats = record s { response_decoding_error = s.response_decoding_error + 1 };
          };
        })
        then_call λ _ w'. returns UpstreamResponseStatus.reset w'

    -- ActiveMessage::upstreamData
    unfoldable pub upstream_data :
        List (Filter B H K E) → World B H K E → Call (World B H K E) UpstreamResponseStatus
    unfolding on_response_data check_response catch_response
    upstream_data filters w = catch_response (
        on_response_data filters w w.response_decoder then_call λ _ w'.
        check_response w'.response_status w')
