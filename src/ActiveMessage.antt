-- ===== src/ActiveMessage.antt =====
-- src/meta_protocol_proxy/active_message.cc: one message on its way through the filters, and the
-- decoder of its response. The filters, and the encoders of replies and responses, are parameters.
pub mod Chain
pub mod Sides
pub mod Dispatch
pub mod Response
pub use meta_protocol_proxy.Codec.{real_server_address}
use Prim.Native.String.{String}
use meta_protocol_proxy.Base.{
  ℕ, zero, suc, ◌+◌, Bool, true, false, not, ◌||◌, Option, none, some, List, [], ◌∷◌, ◌++◌, ◌==◌,
  drop, if◌then◌else◌, Outcome, ok, throws, panics, stuck, Exception,
}
use meta_protocol_proxy.Codec.{MessageType, ResponseStatus, DecodeStatus, ErrorType, Error}
use meta_protocol_proxy.Buffer.{BufferApi}
use meta_protocol_proxy.Metadata.{
  HeaderMapApi, Metadata, new_metadata, put_string, get_string, get_message_size,
}
use meta_protocol_proxy.Decoder.{
  Mutation, CodecApi, Callbacks, DecoderBase, Run, on_data as decoder_on_data,
}
use meta_protocol_proxy.Filters.{FilterStatus, UpstreamResponseStatus}
use meta_protocol_proxy.ConnManager.{
  Stats, Stream, Manager, ResponseType, deferred_delete_message, send_local_reply, find_stream,
  new_active_stream, on_stream, send_to_upstream,
}

-- FilterIterationStartState
pub data FilterIterationStartState : Type 0 where
  always_start_from_next can_start_from_current : FilterIterationStartState

-- A call that changes a state of type `W`. An exception leaves what was changed before it.
pub data Call (W A : Type 0) : Type 0 where
  returns : A → W → Call W A
  raises : Exception → W → Call W A
  fails : Call W A

infixl 5 ◌then_call◌
abbrev pub ◌then_call◌ : {W A C : Type 0} → Call W A → (A → W → Call W C) → Call W C
(returns a w) then_call f = f a w
(raises x w) then_call f = raises x w
fails then_call f = fails

abbrev pub application_protocol_header : String
application_protocol_header = "x-meta-protocol-application-protocol"

leave : Bool → ℕ → Manager → Manager
leave true id c = deferred_delete_message id c
leave false id c = c

-- The counters of maybeDeferredDeleteMessage, and whether a type of message is one way.
unfoldable pub count_request : MessageType → Stats → Stats
count_request MessageType.request s = record s {
  request = s.request + 1;
  request_twoway = s.request_twoway + 1;
}
count_request MessageType.oneway s = record s {
  request = s.request + 1;
  request_oneway = s.request_oneway + 1;
}
count_request MessageType.stream_init s = record s {
  request = s.request + 1;
  request_event = s.request_event + 1;
}
count_request _ s = record s { request = s.request + 1 }

unfoldable pub is_one_way : MessageType → Bool
is_one_way MessageType.oneway = true
is_one_way MessageType.stream_init = true
is_one_way MessageType.stream_data = true
is_one_way MessageType.stream_close_one_way = true
is_one_way MessageType.stream_close_two_way = true
is_one_way _ = false

count_error : MessageType → Stats → Stats
count_error MessageType.error s = record s {
  response_business_exception = s.response_business_exception + 1;
}
count_error _ s = s

count_status : ResponseStatus → Stats → Stats
count_status ResponseStatus.ok s = record s { response_success = s.response_success + 1 }
count_status ResponseStatus.error s = record s { response_error = s.response_error + 1 }

-- The counters of ActiveResponseDecoder::onMessageDecoded.
unfoldable pub count_response : MessageType → ResponseStatus → Stats → Stats
unfolding count_error count_status
count_response t status s = count_status status (
    count_error t (record s {
      response = s.response + 1;
      response_decoding_success = s.response_decoding_success + 1;
    }))

abbrev pub close_client_stream : Stream → Stream
close_client_stream s = record s { client_closed = true }

abbrev pub close_server_stream : Stream → Stream
close_server_stream s = record s { server_closed = true }

module _ (B : BufferApi) (H : HeaderMapApi) (K : CodecApi B H) (E : Type 0) where
  open B use {Buffer, size, drain, bytes}

  -- Of the message: its number in the list of the connection manager, `metadata_`, the flags and
  -- the bytes that its stream info adds up; of the decoder of its response: the decoder itself, the
  -- buffer that the router hands it, `metadata_`, `complete_` and `response_status_`. `environment`
  -- is what only the filters know.
  pub record World : Type 0 where
    pub manager : Manager
    pub id : ℕ
    pub metadata : Option (Metadata B H)
    pub pending_stream_decoded : Bool
    pub local_response_sent : Bool
    pub bytes_sent : ℕ
    pub bytes_received : ℕ
    pub response_decoder : Option (DecoderBase K.State)
    pub response_buffer : Buffer
    pub response_metadata : Option (Metadata B H)
    pub response_complete : Bool
    pub response_status : UpstreamResponseStatus
    pub environment : E

  -- A filter reads and writes the metadata of the message through the shared pointer.
  abbrev pub Filter : Type 0
  Filter = World → Call World FilterStatus

  after_filter : (World → Call World FilterStatus) → FilterStatus → World → Call World FilterStatus
  after_filter rest FilterStatus.continue_iteration w =
      if w.local_response_sent then returns FilterStatus.continue_iteration w else rest w
  after_filter rest status w =
      if w.local_response_sent then returns FilterStatus.continue_iteration w else returns status w

  -- The loop of applyDecoderFilters and of applyEncoderFilters.
  unfoldable pub iterate : List Filter → World → Call World FilterStatus
  unfolding after_filter
  iterate [] w = returns FilterStatus.continue_iteration w
  iterate (f ∷ fs) w = f w then_call after_filter (iterate fs)

  -- commonDecodePrefix and commonEncodePrefix: null, or the place of the filter in the list.
  unfoldable pub prefix : Option ℕ → FilterIterationStartState → ℕ
  prefix none state = 0
  prefix (some entry) FilterIterationStartState.can_start_from_current = entry
  prefix (some entry) FilterIterationStartState.always_start_from_next = entry + 1

  unfoldable pub apply_filters :
      List Filter → Option ℕ → FilterIterationStartState → World → Call World FilterStatus
  unfolding iterate prefix
  apply_filters filters entry state w =
      if w.local_response_sent
      then returns FilterStatus.continue_iteration w
      else iterate (drop (prefix entry state) filters) w

  -- deferredDeleteMessage(*this), which is also onReset, resetStream and onUpstreamResponse.
  abbrev pub on_reset : World → World
  on_reset w = record w { manager = deferred_delete_message w.id w.manager }

  unfoldable pub maybe_deferred_delete_message : MessageType → World → World
  unfolding count_request is_one_way leave
  maybe_deferred_delete_message t w =
      let c = record w.manager { stats = count_request t w.manager.stats } in
      record w {
        pending_stream_decoded = false;
        manager = leave (w.local_response_sent || is_one_way t) w.id c;
      }

  -- The type of `metadata_`, which is set by then.
  abbrev pub type_of : Option (Metadata B H) → MessageType
  type_of none = MessageType.request
  type_of (some m) = m.message_type

  abbrev finish_message : World → World
  finish_message w = maybe_deferred_delete_message (type_of w.metadata) w

  -- What the write to an upstream connection leaves of the message.
  written : Option (List (List ℕ)) → Metadata B H → Metadata B H
  written none m = m
  written (some _) m = record m { origin_message = drain (size m.origin_message) m.origin_message }

  -- The branch of a message for a stream, with what it closes first; a missing stream is logged.
  forward : (Stream → Stream) → Metadata B H → Manager → Option Stream → Metadata B H × Manager
  unfolding written
  forward close m c none = (m, c)
  forward close m c (some s) = (
    written s.upstream m,
    on_stream m.stream_id (λ t. send_to_upstream (bytes m.origin_message) (close t)) c,
  )

  -- The switch of onMessageDecoded; the flag is `needApplyFilters`.
  unfoldable pub on_type : MessageType → Metadata B H → Manager → Bool × (Metadata B H × Manager)
  unfolding forward
  on_type MessageType.request m c = (true, (m, c))
  on_type MessageType.stream_init m c = (true, (m, new_active_stream m.stream_id c))
  on_type MessageType.stream_data m c =
      (false, forward (λ s. s) m c (find_stream m.stream_id c.streams))
  on_type MessageType.stream_close_one_way m c =
      (false, forward close_client_stream m c (find_stream m.stream_id c.streams))
  on_type MessageType.stream_close_two_way m c = (
    false,
    forward (λ s. close_server_stream (close_client_stream s)) m c
        (find_stream m.stream_id c.streams),
  )
  on_type _ m c = (false, (m, c))

  -- The switch on the status of the filters.
  after_filters : FilterStatus → World → Call World Unit
  after_filters FilterStatus.pause_iteration w =
      returns tt (record w { pending_stream_decoded = true })
  after_filters FilterStatus.abort_iteration w = returns tt (on_reset w)
  after_filters FilterStatus.continue_iteration w = returns tt (finish_message w)
  after_filters FilterStatus.retry w = fails

  filtered : List Filter → Bool → World → Call World Unit
  unfolding apply_filters after_filters
  filtered filters true w =
      apply_filters filters none FilterIterationStartState.can_start_from_current w
      then_call after_filters
  filtered filters false w = returns tt (finish_message w)

  received : Metadata B H → World → World
  received m w = record w {
    manager = record w.manager {
      stats = record w.manager.stats {
        request_decoding_success = w.manager.stats.request_decoding_success + 1;
      };
    };
    bytes_sent = w.bytes_sent + get_message_size B H m;
  }

  decoded : List Filter → World → Bool × (Metadata B H × Manager) → Call World Unit
  unfolding filtered
  decoded filters w (needed, (m, c)) =
      filtered filters needed (record w { metadata = some m; manager = c })

  -- ActiveMessage::onMessageDecoded
  unfoldable pub on_message_decoded : String → List Filter → Metadata B H → World → Call World Unit
  unfolding decoded received on_type
  on_message_decoded protocol filters m w =
      let m' = put_string B H application_protocol_header protocol m in
      decoded filters (received m w) (on_type m'.message_type m' (received m w).manager)

  start_state : ℕ → FilterIterationStartState
  start_state zero = FilterIterationStartState.always_start_from_next
  start_state (suc _) = FilterIterationStartState.can_start_from_current

  after_continue : FilterStatus → World → Call World Unit
  after_continue FilterStatus.continue_iteration w =
      returns tt (if w.pending_stream_decoded then finish_message w else w)
  after_continue _ w = returns tt w

  -- ActiveMessageDecoderFilter::continueDecoding of the filter at a place of the list; without
  -- metadata it reads a null pointer.
  continue_with : List Filter → ℕ → World → Option (Metadata B H) → Call World Unit
  unfolding after_continue start_state apply_filters
  continue_with filters entry w none = fails
  continue_with filters entry w (some m) =
      apply_filters filters (some entry) (start_state (size m.origin_message)) w
      then_call after_continue

  unfoldable pub continue_decoding : List Filter → ℕ → World → Call World Unit
  unfolding continue_with
  continue_decoding filters entry w = continue_with filters entry w w.metadata

  lift : Bool → World → Outcome Manager → Call World Unit
  lift end_stream w (ok c) =
      returns tt
        (record w { manager = c; local_response_sent = w.local_response_sent || not end_stream })
  lift end_stream w (throws x) = raises x w
  lift end_stream w panics = fails
  lift end_stream w stuck = fails

  -- ActiveMessage::sendLocalReply, with the outcome of `response.encode`.
  unfoldable pub send_local_reply_of :
      Outcome (ResponseType × List ℕ) → Bool → World → Call World Unit
  unfolding lift
  send_local_reply_of reply end_stream w =
      lift end_stream w (send_local_reply reply end_stream w.manager)
