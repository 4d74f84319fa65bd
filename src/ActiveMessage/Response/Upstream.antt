-- ===== src/ActiveMessage/Response/Upstream.antt =====
-- What becomes of a response: active_message.cc, ActiveMessage::upstreamData and onError.
use Prim.Native.String.{String}
use meta_protocol_proxy.Base.{
  ℕ, ◌+◌, ◌≡◌, ◌≢◌, refl, ap, ◌∙◌, true, false, ◌||◌, some, List, [], ◌∷◌, ◌++◌, if◌then◌else◌,
  ◌==◌, ==_iff, Outcome, ok, Exception, arith,
}
use meta_protocol_proxy.Codec.{ErrorType, Error}
use meta_protocol_proxy.Buffer.{BufferApi}
use meta_protocol_proxy.Metadata.{HeaderMapApi, Metadata}
use meta_protocol_proxy.Decoder.{CodecApi, Mutation}
use meta_protocol_proxy.Filters.{UpstreamResponseStatus}
use meta_protocol_proxy.ConnManager.{
  ResponseType, deferred_delete_message, send_local_reply, remove_from_list, count_reply,
}
use meta_protocol_proxy.ActiveMessage.{
  Call, returns, raises, ◌then_call◌, World, Filter, send_local_reply_of, lift, on_reset,
}
use meta_protocol_proxy.ActiveMessage.Response.{
  app_exception, as_exception, metadata_or_new, on_error, on_response_data, request_id_of,
  check_response, catch_response, upstream_data,
}

not_same : (a b : ℕ) → a ≢ b → (a == b) ≡ false
not_same a b ne = ground arith

module _ (B : BufferApi) (H : HeaderMapApi) (K : CodecApi B H) (E : Type 0) (request : Metadata B H)
    (encode : Metadata B H → Mutation → B.Buffer → Outcome B.Buffer)
    (on_error_of : Metadata B H → Error → Outcome (List ℕ)) where
  open B use {bytes}

  -- A response that is complete, with the request's ID, is answered Complete and its message is
  -- taken from the list.
  pub upstream_data-complete :
      (filters : List (Filter B H K E)) (w v : World B H K E)
      → on_response_data B H K E request encode on_error_of filters w w.response_decoder
        ≡ returns tt v
      → v.response_status ≡ UpstreamResponseStatus.complete
      → request_id_of B H K E request encode on_error_of v.metadata
        ≡ request_id_of B H K E request encode on_error_of v.response_metadata
      → upstream_data B H K E request encode on_error_of filters w
        ≡ returns UpstreamResponseStatus.complete (on_reset B H K E v)
  unfolding upstream_data check_response catch_response
  upstream_data-complete filters w v e hv same =
      ap
        (λ c. catch_response B H K E request encode on_error_of (
          c then_call λ _ w'.
          check_response B H K E request encode on_error_of w'.response_status w'))
        e
      ∙ ap
          (λ s.
            catch_response B H K E request encode on_error_of
              (check_response B H K E request encode on_error_of s v))
          hv
      ∙ ap
          (λ t. catch_response B H K E request encode on_error_of (
            if t
            then returns UpstreamResponseStatus.complete (on_reset B H K E v)
            else raises (Exception.envoy_exception "response: request ID is not equal") v))
          ((==_iff _ _).1 same)

  -- The error reply is written, one decoding error counted, and the message gone from the list.
  abbrev pub Refused : List ℕ → World B H K E → Call (World B H K E) UpstreamResponseStatus → Type 0
  Refused reply v c =
      (u : World B H K E) × (c ≡ returns UpstreamResponseStatus.reset u)
      × (u.manager.writes ≡ v.manager.writes ++ reply ∷ [])
      × (u.manager.stats.response_decoding_error ≡ v.manager.stats.response_decoding_error + 1)
      × (u.manager.messages ≡ remove_from_list v.id v.manager.messages)

  abbrev pub bad_response : String → Error
  bad_response what = record { type = ErrorType.bad_response; message = what }

  -- The world behind the reply to an exception.
  abbrev refused : List ℕ → World B H K E → World B H K E
  refused reply v =
      let s = v.manager.stats in
      let t = record s { response_decoding_error = s.response_decoding_error + 1 } in
      record v {
        metadata = some (metadata_or_new B H K E request encode on_error_of v.metadata);
        local_response_sent = v.local_response_sent || true;
        manager = record v.manager {
          writes = v.manager.writes ++ reply ∷ [];
          is_open = true;
          stats = count_reply ResponseType.exception t;
          messages = remove_from_list v.id v.manager.messages;
        };
      }

  catch_envoy_exception :
      (what : String) (reply : List ℕ) (v : World B H K E)
      → v.manager.is_open ≡ true
      → on_error_of
          (metadata_or_new B H K E request encode on_error_of v.metadata)
          (bad_response what)
        ≡ ok reply
      → Refused reply v (
          catch_response B H K E request encode on_error_of
            (raises (Exception.envoy_exception what) v))
  unfolding catch_response on_error app_exception as_exception send_local_reply_of lift
      send_local_reply deferred_delete_message count_reply
  catch_envoy_exception what reply v hv he =
      let s = v.manager.stats in
      let t = record s { response_decoding_error = s.response_decoding_error + 1 } in
      let m = metadata_or_new B H K E request encode on_error_of v.metadata in
      let v' : World B H K E = record v {
        metadata = some m;
        manager = record v.manager { stats = t };
      } in
      (
        refused reply v,
        ap
              (λ o.
                (send_local_reply_of B H K E (as_exception B H K E request encode on_error_of o)
                    false v'
                  then_call λ _ w'. returns tt (on_reset B H K E w'))
                then_call λ _ w'. returns UpstreamResponseStatus.reset w')
              he
            ∙ rw hv refl,
        refl,
        refl,
        refl,
      )

  -- When decoding or forwarding the response raises an EnvoyException, on an open connection, the
  -- downstream gets the BadResponse reply, the message is deleted and the answer is Reset.
  pub upstream_data_raises :
      (filters : List (Filter B H K E)) (what : String) (reply : List ℕ) (w v : World B H K E)
      → on_response_data B H K E request encode on_error_of filters w w.response_decoder
        ≡ raises (Exception.envoy_exception what) v
      → v.manager.is_open ≡ true
      → on_error_of
          (metadata_or_new B H K E request encode on_error_of v.metadata)
          (bad_response what)
        ≡ ok reply
      → Refused reply v (upstream_data B H K E request encode on_error_of filters w)
  unfolding upstream_data
  upstream_data_raises filters what reply w v e hv he =
      let caught = catch_envoy_exception what reply v hv he in
      (
        caught.0,
        ap
              (λ c. catch_response B H K E request encode on_error_of (
                c then_call λ _ w'.
                check_response B H K E request encode on_error_of w'.response_status w'))
              e
            ∙ caught.1,
        caught.2,
        caught.3,
        caught.4,
      )

  -- When a complete response has another request ID than its request, on an open connection, the
  -- downstream gets the BadResponse reply, the message is deleted and the answer is Reset.
  pub upstream_data_mismatch :
      (filters : List (Filter B H K E)) (reply : List ℕ) (w v : World B H K E)
      → on_response_data B H K E request encode on_error_of filters w w.response_decoder
        ≡ returns tt v
      → v.response_status ≡ UpstreamResponseStatus.complete
      → request_id_of B H K E request encode on_error_of v.metadata
        ≢ request_id_of B H K E request encode on_error_of v.response_metadata
      → v.manager.is_open ≡ true
      → on_error_of
          (metadata_or_new B H K E request encode on_error_of v.metadata)
          (bad_response "response: request ID is not equal")
        ≡ ok reply
      → Refused reply v (upstream_data B H K E request encode on_error_of filters w)
  unfolding upstream_data check_response
  upstream_data_mismatch filters reply w v e hs ne hv he =
      let caught = catch_envoy_exception "response: request ID is not equal" reply v hv he in
      (
        caught.0,
        ap
              (λ c. catch_response B H K E request encode on_error_of (
                c then_call λ _ w'.
                check_response B H K E request encode on_error_of w'.response_status w'))
              e
            ∙ ap
                (λ s.
                  catch_response B H K E request encode on_error_of
                    (check_response B H K E request encode on_error_of s v))
                hs
            ∙ ap
                (λ t. catch_response B H K E request encode on_error_of (
                  if t
                  then returns UpstreamResponseStatus.complete (on_reset B H K E v)
                  else raises (Exception.envoy_exception "response: request ID is not equal") v))
                (not_same _ _ ne)
            ∙ caught.1,
        caught.2,
        caught.3,
        caught.4,
      )
