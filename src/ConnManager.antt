-- ===== src/ConnManager.antt =====
-- src/meta_protocol_proxy/conn_manager.cc and stream.cc: the state that a downstream connection keeps
-- beside its decoder (Decoder.antt): the messages under way, the streams, the idle timer and the
-- counters. A message is known by a number. Closing the connection is the flag `is_open`; the
-- event that Envoy raises then is a call of `on_event` by the environment.
pub mod Messages
pub mod Streams
pub mod Downstream
use meta_protocol_proxy.Base.{
  ℕ, zero, suc, ◌+◌, Bool, true, false, Option, none, some, List, [], ◌∷◌, ◌++◌, length, ◌==◌, not,
  ◌||◌, if◌then◌else◌, Outcome, ok, throws, panics, stuck, Exception,
}

-- Of MetaProtocolProxyStats, the counters that the modelled code moves.
pub record Stats : Type 0 where
  pub request : ℕ
  pub request_twoway : ℕ
  pub request_oneway : ℕ
  pub request_event : ℕ
  pub request_decoding_success : ℕ
  pub request_decoding_error : ℕ
  pub response : ℕ
  pub response_decoding_success : ℕ
  pub response_decoding_error : ℕ
  pub response_business_exception : ℕ
  pub response_success : ℕ
  pub response_error : ℕ
  pub response_error_caused_connection_close : ℕ
  pub local_response_success : ℕ
  pub local_response_error : ℕ
  pub local_response_business_exception : ℕ
  pub cx_destroy_local_with_active_rq : ℕ
  pub cx_destroy_remote_with_active_rq : ℕ
  pub idle_timeout : ℕ

-- `upstream_conn_data_` is null or a connection, of which the writes are kept.
pub record Stream : Type 0 where
  pub upstream : Option (List (List ℕ))
  pub client_closed : Bool
  pub server_closed : Bool

abbrev pub new_stream : Stream
new_stream = record { upstream = none; client_closed = false; server_closed = false }

-- `idle_timeout` is that of the configuration; `idle_timer` is null or the time it is armed with.
-- `upstream_handlers` counts the handlers of upstream_handler_manager_.
pub record Manager : Type 0 where
  pub stats : Stats
  pub is_open : Bool
  pub messages : List ℕ
  pub next_message : ℕ
  pub streams : List (ℕ × Stream)
  pub writes : List (List ℕ)
  pub idle_timeout : Option ℕ
  pub idle_timer : Option ℕ
  pub upstream_handlers : List ℕ

pub data ConnectionEvent : Type 0 where
  local_close remote_close connected : ConnectionEvent

-- DirectResponse::ResponseType
pub data ResponseType : Type 0 where
  success_reply error_reply exception : ResponseType

-- newMessageHandler: `moveIntoList` puts the message in front.
unfoldable pub new_message_handler : Manager → ℕ × Manager
new_message_handler c = (
  c.next_message,
  record c { messages = c.next_message ∷ c.messages; next_message = c.next_message + 1 },
)

unfoldable pub remove_from_list : ℕ → List ℕ → List ℕ
remove_from_list id [] = []
remove_from_list id (x ∷ xs) = if x == id then xs else x ∷ remove_from_list id xs

-- deferredDeleteMessage: a message that is no longer in the list is left alone.
unfoldable pub deferred_delete_message : ℕ → Manager → Manager
unfolding remove_from_list
deferred_delete_message id c = record c { messages = remove_from_list id c.messages }

count_reset : Bool → Stats → Stats
count_reset true s = record s {
  cx_destroy_local_with_active_rq = s.cx_destroy_local_with_active_rq + 1;
}
count_reset false s = record s {
  cx_destroy_remote_with_active_rq = s.cx_destroy_remote_with_active_rq + 1;
}

-- The `while` loop of resetAllMessages: onReset of the front message is deferredDeleteMessage.
reset_loop : ℕ → Bool → Manager → Outcome Manager
unfolding count_reset
reset_loop zero local c = elim c.messages [ [] ↦ ok c | _ ∷ _ ↦ stuck ]
reset_loop (suc fuel) local c = elim c.messages [
  | [] ↦ ok c
  | id ∷ _ ↦
      reset_loop fuel local
        (deferred_delete_message id (record c { stats = count_reset local c.stats }))
]

unfoldable pub reset_all_messages : Bool → Manager → Outcome Manager
unfolding reset_loop
reset_all_messages local c = reset_loop (length c.messages) local c

abbrev pub disable_idle_timer : Manager → Manager
disable_idle_timer c = record c { idle_timer = none }

abbrev pub reset_idle_timer : Manager → Manager
reset_idle_timer c = elim c.idle_timer [
  | none ↦ c
  | some _ ↦ record c { idle_timer = c.idle_timeout }
]

-- onNewConnection
unfoldable pub on_new_connection : Manager → Manager
on_new_connection c = record c { idle_timer = c.idle_timeout }

abbrev then_do : Outcome Manager → (Manager → Manager) → Outcome Manager
then_do o f = elim o [ ok c ↦ ok (f c) | throws x ↦ throws x | panics ↦ panics | stuck ↦ stuck ]

unfoldable pub on_event : ConnectionEvent → Manager → Outcome Manager
on_event ConnectionEvent.local_close c =
    then_do (reset_all_messages true (disable_idle_timer c))
      (λ c'. record c' { upstream_handlers = [] })
on_event ConnectionEvent.remote_close c =
    then_do (reset_all_messages false (disable_idle_timer c))
      (λ c'. record c' { upstream_handlers = [] })
on_event ConnectionEvent.connected c = ok c

-- onIdleTimeout; clearStream empties the map of streams.
unfoldable pub on_idle_timeout : Manager → Outcome Manager
on_idle_timeout c =
    then_do
      (reset_all_messages true
        (record c { stats = record c.stats { idle_timeout = c.stats.idle_timeout + 1 } }))
      (λ c'. record c' { streams = []; is_open = false })

-- The part of onData behind dispatch, when the peer has closed.
unfoldable pub on_end_stream : Manager → Outcome Manager
on_end_stream c =
    then_do (reset_all_messages false c) (λ c'. record c' { streams = []; is_open = false })

-- The catch block of dispatch and what follows it.
unfoldable pub on_dispatch_error : Manager → Outcome Manager
on_dispatch_error c = reset_all_messages true (record c {
  is_open = false;
  stats = record c.stats { request_decoding_error = c.stats.request_decoding_error + 1 };
})

unfoldable pub count_reply : ResponseType → Stats → Stats
count_reply ResponseType.success_reply s = record s {
  local_response_success = s.local_response_success + 1;
}
count_reply ResponseType.error_reply s = record s {
  local_response_error = s.local_response_error + 1;
}
count_reply ResponseType.exception s = record s {
  local_response_business_exception = s.local_response_business_exception + 1;
}

-- sendLocalReply, with the outcome of `response.encode`: the kind of the reply and its bytes. An
-- EnvoyException of the encoder is swallowed, and counted as an error reply; std::bad_any_cast is
-- none, and goes on.
unfoldable pub send_local_reply : Outcome (ResponseType × List ℕ) → Bool → Manager → Outcome Manager
unfolding count_reply
send_local_reply (ok (kind, reply)) end_stream c =
    if not c.is_open
    then ok c
    else ok (record c {
      writes = c.writes ++ reply ∷ [];
      is_open = not end_stream;
      stats = count_reply kind c.stats;
    })
send_local_reply (throws Exception.bad_any_cast) end_stream c =
    if not c.is_open then ok c else throws Exception.bad_any_cast
send_local_reply (throws Exception.bad_optional_access) end_stream c =
    if not c.is_open then ok c else throws Exception.bad_optional_access
send_local_reply (throws x) end_stream c =
    if not c.is_open
    then ok c
    else ok (record c {
      is_open = not end_stream;
      stats = count_reply ResponseType.error_reply c.stats;
    })
send_local_reply panics end_stream c = if not c.is_open then ok c else panics
send_local_reply stuck end_stream c = if not c.is_open then ok c else stuck

-- The map of streams: `active_stream_map_[stream_id] = ...`, `find` and `erase`.
unfoldable pub find_stream : ℕ → List (ℕ × Stream) → Option Stream
find_stream id [] = none
find_stream id ((j, s) ∷ m) = if j == id then some s else find_stream id m

unfoldable pub assign_stream : ℕ → Stream → List (ℕ × Stream) → List (ℕ × Stream)
assign_stream id s [] = (id, s) ∷ []
assign_stream id s ((j, t) ∷ m) = if j == id then (j, s) ∷ m else (j, t) ∷ assign_stream id s m

unfoldable pub erase_stream : ℕ → List (ℕ × Stream) → List (ℕ × Stream)
erase_stream id [] = []
erase_stream id ((j, t) ∷ m) = if j == id then erase_stream id m else (j, t) ∷ erase_stream id m

unfoldable pub new_active_stream : ℕ → Manager → Manager
unfolding assign_stream
new_active_stream id c = record c { streams = assign_stream id new_stream c.streams }

unfoldable pub stream_existed : ℕ → Manager → Bool
stream_existed id c = elim (find_stream id c.streams) [ none ↦ false | some _ ↦ true ]

unfoldable pub close_stream : ℕ → Manager → Manager
unfolding erase_stream
close_stream id c = record c { streams = erase_stream id c.streams }

-- Stream::send2upstream: a write to the upstream connection, if there is one.
unfoldable pub send_to_upstream : List ℕ → Stream → Stream
send_to_upstream bytes s = elim s.upstream [
  | none ↦ s
  | some sent ↦ record s { upstream = some (sent ++ bytes ∷ []) }
]

unfoldable pub set_upstream_conn : Stream → Stream
set_upstream_conn s = record s { upstream = some [] }

-- getActiveStream with a call on the stream that it returns; the ASSERT has no stream missing.
update_stream : ℕ → (Stream → Stream) → Manager → Option Stream → Manager
unfolding assign_stream
update_stream id f c none = c
update_stream id f c (some s) = record c { streams = assign_stream id (f s) c.streams }

unfoldable pub on_stream : ℕ → (Stream → Stream) → Manager → Manager
unfolding update_stream find_stream
on_stream id f c = update_stream id f c (find_stream id c.streams)
