-- ===== src/ActiveMessage/Dispatch.antt =====
-- What ActiveMessage::onMessageDecoded and maybeDeferredDeleteMessage do with each type of message.
use Prim.Native.String.{String}
use meta_protocol_proxy.Base.{
  ℕ, ◌+◌, ◌≡◌, ◌≢◌, refl, ap, ◌∙◌, Bool, true, false, ◌||◌, Option, none, some, List, [],
  if◌then◌else◌,
}
use meta_protocol_proxy.Codec.{MessageType}
use meta_protocol_proxy.Buffer.{BufferApi}
use meta_protocol_proxy.Metadata.{HeaderMapApi, Metadata, put_string}
use meta_protocol_proxy.Decoder.{CodecApi}
use meta_protocol_proxy.ConnManager.{
  Stats, Stream, Manager, deferred_delete_message, find_stream, on_stream, send_to_upstream,
  remove_from_list,
}
use meta_protocol_proxy.ConnManager.Streams.{on_stream_lem, on_stream-messages}
use meta_protocol_proxy.ActiveMessage.{
  leave, returns, World, Filter, count_request, is_one_way, maybe_deferred_delete_message, type_of,
  written, forward, on_type, filtered, received, decoded, on_message_decoded,
  application_protocol_header,
}
use meta_protocol_proxy.ActiveMessage.Sides.{closes, behind, sent_closed}

-- The types of message that the filters see.
unfoldable pub needs_filters : MessageType → Bool
needs_filters MessageType.request = true
needs_filters MessageType.stream_init = true
needs_filters _ = false

unfoldable pub is_for_stream : MessageType → Bool
is_for_stream MessageType.stream_data = true
is_for_stream MessageType.stream_close_one_way = true
is_for_stream MessageType.stream_close_two_way = true
is_for_stream _ = false

leave-streams : (b : Bool) (id : ℕ) (c : Manager) → (leave b id c).streams ≡ c.streams
unfolding leave deferred_delete_message
leave-streams true id c = refl
leave-streams false id c = refl

leave-stats : (b : Bool) (id : ℕ) (c : Manager) → (leave b id c).stats ≡ c.stats
unfolding leave deferred_delete_message
leave-stats true id c = refl
leave-stats false id c = refl

leave-messages :
    (b : Bool) (id : ℕ) (c : Manager)
    → (leave b id c).messages ≡ (if b then remove_from_list id c.messages else c.messages)
unfolding leave deferred_delete_message
leave-messages true id c = refl
leave-messages false id c = refl

count_request-request : (t : MessageType) (s : Stats) → (count_request t s).request ≡ s.request + 1
unfolding count_request
count_request-request MessageType.request s = refl
count_request-request MessageType.response s = refl
count_request-request MessageType.oneway s = refl
count_request-request MessageType.stream_init s = refl
count_request-request MessageType.stream_data s = refl
count_request-request MessageType.stream_close_one_way s = refl
count_request-request MessageType.stream_close_two_way s = refl
count_request-request MessageType.heartbeat s = refl
count_request-request MessageType.error s = refl

or_true : (a b : Bool) → b ≡ true → (a || b) ≡ true
or_true true b h = refl
or_true false b h = h

stream_is_one_way : (t : MessageType) → is_for_stream t ≡ true → is_one_way t ≡ true
unfolding is_for_stream is_one_way
stream_is_one_way MessageType.request h = absurd (cc)
stream_is_one_way MessageType.response h = absurd (cc)
stream_is_one_way MessageType.oneway h = refl
stream_is_one_way MessageType.stream_init h = refl
stream_is_one_way MessageType.stream_data h = refl
stream_is_one_way MessageType.stream_close_one_way h = refl
stream_is_one_way MessageType.stream_close_two_way h = refl
stream_is_one_way MessageType.heartbeat h = absurd (cc)
stream_is_one_way MessageType.error h = absurd (cc)

module _ (B : BufferApi) (H : HeaderMapApi) (K : CodecApi B H) (E : Type 0) where
  open B use {bytes}

  decoded_unfiltered :
      (filters : List (Filter B H K E)) (t : MessageType) (m : Metadata B H) (w : World B H K E)
      → needs_filters t ≡ false
      → decoded B H K E filters w (on_type B H K E t m w.manager)
        ≡ decoded B H K E [] w (on_type B H K E t m w.manager)
  unfolding decoded on_type filtered needs_filters
  decoded_unfiltered filters MessageType.request m w h = absurd (cc)
  decoded_unfiltered filters MessageType.stream_init m w h = absurd (cc)
  decoded_unfiltered filters MessageType.response m w h = refl
  decoded_unfiltered filters MessageType.oneway m w h = refl
  decoded_unfiltered filters MessageType.stream_data m w h = refl
  decoded_unfiltered filters MessageType.stream_close_one_way m w h = refl
  decoded_unfiltered filters MessageType.stream_close_two_way m w h = refl
  decoded_unfiltered filters MessageType.heartbeat m w h = refl
  decoded_unfiltered filters MessageType.error m w h = refl

  -- A message that is neither a request nor the first of a stream fares the same whatever filters
  -- are configured: a one-way request among them.
  pub on_message_decoded_unfiltered :
      (protocol : String) (filters : List (Filter B H K E)) (m : Metadata B H) (w : World B H K E)
      → needs_filters m.message_type ≡ false
      → on_message_decoded B H K E protocol filters m w ≡ on_message_decoded B H K E protocol [] m w
  unfolding on_message_decoded put_string
  on_message_decoded_unfiltered protocol filters m w h =
      decoded_unfiltered filters m.message_type
        (put_string B H application_protocol_header protocol m) (received B H K E m w) h

  -- maybeDeferredDeleteMessage counts one request, clears the pending flag, and takes the message
  -- from the list exactly when a local reply was sent or its type is one way.
  pub maybe_deferred_delete_message_lem :
      (t : MessageType) (w : World B H K E)
      → let w' = maybe_deferred_delete_message B H K E t w in
        (w'.manager.stats.request ≡ w.manager.stats.request + 1)
        × (w'.pending_stream_decoded ≡ false)
        × (w'.manager.messages ≡ (
            if w.local_response_sent || is_one_way t
            then remove_from_list w.id w.manager.messages
            else w.manager.messages))
        × (w'.manager.streams ≡ w.manager.streams)
  unfolding maybe_deferred_delete_message count_request is_one_way deferred_delete_message
  maybe_deferred_delete_message_lem t w =
      let left = w.local_response_sent || is_one_way t in
      let c = record w.manager { stats = count_request t w.manager.stats } in
      (
        ap (λ s. s.request) (leave-stats left w.id c) ∙ count_request-request t w.manager.stats,
        refl,
        leave-messages left w.id c,
        leave-streams left w.id c,
      )

  on_type_stream :
      (t : MessageType) (m : Metadata B H) (c : Manager)
      → is_for_stream t ≡ true
      → on_type B H K E t m c
        ≡ (false, forward B H K E (closes t) m c (find_stream m.stream_id c.streams))
  unfolding on_type is_for_stream closes
  on_type_stream MessageType.request m c h = absurd (cc)
  on_type_stream MessageType.response m c h = absurd (cc)
  on_type_stream MessageType.oneway m c h = absurd (cc)
  on_type_stream MessageType.stream_init m c h = absurd (cc)
  on_type_stream MessageType.stream_data m c h = refl
  on_type_stream MessageType.stream_close_one_way m c h = refl
  on_type_stream MessageType.stream_close_two_way m c h = refl
  on_type_stream MessageType.heartbeat m c h = absurd (cc)
  on_type_stream MessageType.error m c h = absurd (cc)

  type_of-written :
      (u : Option (List (List ℕ))) (m : Metadata B H)
      → type_of B H K E (some (written B H K E u m)) ≡ m.message_type
  unfolding written
  type_of-written none m = refl
  type_of-written (some x) m = refl

  -- The world in which a message for a stream leaves its list.
  abbrev forwarded : String → Metadata B H → World B H K E → Stream → World B H K E
  forwarded protocol m w s =
      let m' = put_string B H application_protocol_header protocol m in
      record (received B H K E m w) {
        metadata = some (written B H K E s.upstream m');
        manager =
            on_stream m.stream_id
              (λ t. send_to_upstream (bytes m.origin_message) (closes m.message_type t))
              (received B H K E m w).manager;
      }

  on_message_decoded_forwards :
      (protocol : String) (filters : List (Filter B H K E)) (m : Metadata B H) (w : World B H K E)
      (s : Stream)
      → is_for_stream m.message_type ≡ true
      → find_stream m.stream_id w.manager.streams ≡ some s
      → on_message_decoded B H K E protocol filters m w
        ≡ returns tt
            (maybe_deferred_delete_message B H K E m.message_type (forwarded protocol m w s))
  unfolding on_message_decoded put_string received decoded filtered forward
  on_message_decoded_forwards protocol filters m w s h found =
      let m' = put_string B H application_protocol_header protocol m in
      let w' = received B H K E m w in
      ap (decoded B H K E filters w') (on_type_stream m.message_type m' w'.manager h)
      ∙ ap
          (λ o.
            decoded B H K E filters w'
              (false, forward B H K E (closes m.message_type) m' w'.manager o))
          found
      ∙ ap (λ t. returns tt (maybe_deferred_delete_message B H K E t (forwarded protocol m w s)))
          (type_of-written s.upstream m')

  -- A message for a stream that exists: the sides of the stream are closed that it asks to close, the
  -- client's for a one-way close and both for a two-way close; its bytes are written to the upstream
  -- connection of the stream, once and behind the earlier writes, when there is one, and else
  -- nothing is sent; the other streams are as before, and the message leaves the list.
  pub on_message_decoded_stream :
      (protocol : String) (filters : List (Filter B H K E)) (m : Metadata B H) (w : World B H K E)
      (s : Stream) (j : ℕ)
      → is_for_stream m.message_type ≡ true
      → find_stream m.stream_id w.manager.streams ≡ some s
      → j ≢ m.stream_id
      → (w' : World B H K E) × (on_message_decoded B H K E protocol filters m w ≡ returns tt w')
        × (find_stream m.stream_id w'.manager.streams
            ≡ some (record (closes m.message_type s) {
              upstream = behind s.upstream (bytes m.origin_message);
            }))
        × (find_stream j w'.manager.streams ≡ find_stream j w.manager.streams)
        × (w'.manager.messages ≡ remove_from_list w.id w.manager.messages)
  unfolding received
  on_message_decoded_stream protocol filters m w s j h found ne =
      let v = forwarded protocol m w s in
      let w' = maybe_deferred_delete_message B H K E m.message_type v in
      let c = (received B H K E m w).manager in
      let f : Stream → Stream =
        λ t. send_to_upstream (bytes m.origin_message) (closes m.message_type t) in
      let left = maybe_deferred_delete_message_lem m.message_type v in
      let sent = on_stream_lem j m.stream_id f s c ne found in
      (
        w',
        on_message_decoded_forwards protocol filters m w s h found,
        ap (find_stream m.stream_id) left.3
            ∙ (sent.0
                ∙ ap (λ (t : Stream). some t)
                    (sent_closed m.message_type s (bytes m.origin_message))),
        ap (find_stream j) left.3 ∙ sent.1,
        left.2
            ∙ ap (λ b. if b then remove_from_list w.id v.manager.messages else v.manager.messages)
                (or_true w.local_response_sent (is_one_way m.message_type)
                  (stream_is_one_way m.message_type h))
            ∙ ap (remove_from_list w.id) (on_stream-messages m.stream_id f c),
      )
