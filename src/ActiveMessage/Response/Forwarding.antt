-- ===== src/ActiveMessage/Response/Forwarding.antt =====
-- What onMessageDecoded of ActiveResponseDecoder, active_message.cc, does behind the encoder filters.
use Prim.Native.String.{String}
use meta_protocol_proxy.Base.{
  ℕ, ◌+◌, ◌≡◌, ◌≢◌, refl, sym, subst, Bool, Option, not, true, false, none, some, List, [], ◌∷◌,
  ◌++◌, if◌then◌else◌, Outcome, ok, throws, panics, stuck, Exception,
}
use meta_protocol_proxy.Codec.{Error}
use meta_protocol_proxy.Buffer.{BufferApi}
use meta_protocol_proxy.Metadata.{HeaderMapApi, Metadata, put_string, get_string, get_message_size}
use meta_protocol_proxy.Decoder.{CodecApi, Mutation}
use meta_protocol_proxy.Filters.{FilterStatus, UpstreamResponseStatus}
use meta_protocol_proxy.ActiveMessage.{
  Call, returns, raises, fails, World, Filter, FilterIterationStartState, apply_filters,
  real_server_address,
}
use meta_protocol_proxy.ActiveMessage.Response.{
  raise_or, reply_written, forward_response, after_encoder_filters, on_response_decoded,
}
use meta_protocol_proxy.ActiveMessage.Response.Counters.{counted_once, count_response_lem}

module _ (B : BufferApi) (H : HeaderMapApi) (K : CodecApi B H) (E : Type 0) (request : Metadata B H)
    (encode : Metadata B H → Mutation → B.Buffer → Outcome B.Buffer)
    (on_error_of : Metadata B H → Error → Outcome (List ℕ)) where
  open B use {bytes}

  -- The world in which the encoder filters start.
  abbrev pub response_received : Metadata B H → World B H K E → World B H K E
  response_received m w = record w {
    bytes_received = w.bytes_received + get_message_size B H m;
    response_metadata = some m;
  }

  -- What the answers that stop the filters come to.
  pub data Halted (v : World B H K E) : FilterStatus → Call (World B H K E) Unit → Type 0 where
    paused :
        Halted v FilterStatus.pause_iteration
          (returns tt (record v { response_status = UpstreamResponseStatus.complete }))
    aborted :
        Halted v FilterStatus.abort_iteration
          (returns tt (record v { response_status = UpstreamResponseStatus.complete }))
    retried : Halted v FilterStatus.retry fails

  after_stopped :
      (mutation : Mutation) (status : FilterStatus) (v : World B H K E)
      → status ≢ FilterStatus.continue_iteration
      → Halted v status (after_encoder_filters B H K E request encode on_error_of mutation status v)
  unfolding after_encoder_filters
  after_stopped mutation FilterStatus.continue_iteration v ne = absurd (ne refl)
  after_stopped mutation FilterStatus.pause_iteration v ne = paused
  after_stopped mutation FilterStatus.abort_iteration v ne = aborted
  after_stopped mutation FilterStatus.retry v ne = retried

  -- When the encoder filters answer anything but ContinueIteration, the response is not forwarded:
  -- when they pause or abort, its status becomes Complete and nothing else changes; when one asks for
  -- a retry, the call crashes, since it frees the decoder's state machine that is running.
  pub on_response_decoded_stopped :
      (filters : List (Filter B H K E)) (m : Metadata B H) (mutation : Mutation)
      (status : FilterStatus) (w v : World B H K E)
      → apply_filters B H K E filters none FilterIterationStartState.can_start_from_current
          (response_received m w)
        ≡ returns status v
      → status ≢ FilterStatus.continue_iteration
      → Halted v status
          (on_response_decoded B H K E request encode on_error_of filters m mutation w)
  unfolding on_response_decoded
  on_response_decoded_stopped filters m mutation status w v e ne =
      rw e (after_stopped mutation status v ne)

  abbrev pub located : Metadata B H → String → Metadata B H
  located n server = put_string B H "x-meta-protocol-real-server-address" server n

  pub data Crashes {A : Type 0} : Outcome A → Type 0 where
    by_panic : Crashes panics
    by_loop : Crashes stuck

  -- What a response comes to that the filters let pass, in the world that they leave.
  pub data Forwards (n : Metadata B H) (mutation : Mutation) (v : World B H K E)
      : Call (World B H K E) Unit → Type 0 where
    closed :
        v.manager.is_open ≡ false
        → Forwards n mutation v (raises Exception.downstream_connection_close v)
    unlocated :
        (x : Exception)
        → v.manager.is_open ≡ true
        → get_string B H "x-meta-protocol-real-server-address" request ≡ throws x
        → Forwards n mutation v (raises x v)
    unencoded :
        (server : String) (x : Exception)
        → v.manager.is_open ≡ true
        → get_string B H "x-meta-protocol-real-server-address" request ≡ ok server
        → encode (located n server) mutation n.origin_message ≡ throws x
        → Forwards n mutation v
            (raises x (record v { response_metadata = some (located n server) }))
    lost :
        (o : Outcome String)
        → v.manager.is_open ≡ true
        → get_string B H "x-meta-protocol-real-server-address" request ≡ o
        → Crashes o
        → Forwards n mutation v fails
    broken :
        (server : String) (o : Outcome B.Buffer)
        → v.manager.is_open ≡ true
        → get_string B H "x-meta-protocol-real-server-address" request ≡ ok server
        → encode (located n server) mutation n.origin_message ≡ o
        → Crashes o
        → Forwards n mutation v fails
    sent :
        (server : String) (b : B.Buffer)
        → v.manager.is_open ≡ true
        → get_string B H "x-meta-protocol-real-server-address" request ≡ ok server
        → encode (located n server) mutation n.origin_message ≡ ok b
        → Forwards n mutation v (
            returns tt (record v {
              manager = record v.manager {
                writes = v.manager.writes ++ bytes b ∷ [];
                stats = counted_once n.message_type n.response_status v.manager.stats;
              };
              response_metadata =
                  some (record (located n server) { origin_message = B.drain (B.size b) b });
              response_complete = true;
              response_status = UpstreamResponseStatus.complete;
            }))

  encoded :
      (mutation : Mutation) (n : Metadata B H) (server : String) (v : World B H K E)
      (o : Outcome B.Buffer)
      → v.manager.is_open ≡ true
      → get_string B H real_server_address request ≡ ok server
      → encode (located n server) mutation n.origin_message ≡ o
      → Forwards n mutation v (
          raise_or B H K E request encode on_error_of
            (record v { response_metadata = some (located n server) })
            (reply_written B H K E request encode on_error_of
              (located n server)
              (record v { response_metadata = some (located n server) }))
            o)
  unfolding raise_or reply_written put_string
  encoded mutation n server v (ok b) open_there found e =
      rw (count_response_lem n.message_type n.response_status v.manager.stats)
        (sent server b open_there found e)
  encoded mutation n server v (throws x) open_there found e = unencoded server x open_there found e
  encoded mutation n server v panics open_there found e =
      broken server panics open_there found e by_panic
  encoded mutation n server v stuck open_there found e =
      broken server stuck open_there found e by_loop

  found_server :
      (mutation : Mutation) (n : Metadata B H) (v : World B H K E) (o : Outcome String)
      → v.manager.is_open ≡ true
      → get_string B H real_server_address request ≡ o
      → Forwards n mutation v (
          raise_or B H K E request encode on_error_of v
            (λ (server : String).
              raise_or B H K E request encode on_error_of
                (record v { response_metadata = some (located n server) })
                (reply_written B H K E request encode on_error_of
                  (located n server)
                  (record v { response_metadata = some (located n server) }))
                (encode (located n server) mutation (located n server).origin_message))
            o)
  unfolding raise_or put_string
  found_server mutation n v (ok server) open_there e =
      encoded mutation n server v _ open_there e refl
  found_server mutation n v (throws x) open_there e = unlocated x open_there e
  found_server mutation n v panics open_there e = lost panics open_there e by_panic
  found_server mutation n v stuck open_there e = lost stuck open_there e by_loop

  after_test :
      (mutation : Mutation) (n : Metadata B H) (v : World B H K E) (o : Option (Metadata B H))
      (is_open : Bool)
      → v.manager.is_open ≡ is_open
      → o ≡ some n
      → Forwards n mutation v (
          if not is_open
          then raises Exception.downstream_connection_close v
          else forward_response B H K E request encode on_error_of mutation v o)
  unfolding forward_response
  after_test mutation n v o false e there = closed e
  after_test mutation n v o true e there =
      subst
        (λ (x : Option (Metadata B H)).
          Forwards n mutation v (forward_response B H K E request encode on_error_of mutation v x))
        (sym there) (found_server mutation n v _ e refl)

  after_continued :
      (mutation : Mutation) (n : Metadata B H) (v : World B H K E)
      → v.response_metadata ≡ some n
      → Forwards n mutation v (
          after_encoder_filters B H K E request encode on_error_of mutation
            FilterStatus.continue_iteration v)
  unfolding after_encoder_filters
  after_continued mutation n v there =
      after_test mutation n v v.response_metadata v.manager.is_open refl there

  -- When every encoder filter continues, with the response n in the decoder: on a closed downstream
  -- connection onMessageDecoded raises the exception for it and leaves the world as it is. On an open
  -- one it reads the address of the real server from the request and puts it into the response; an
  -- exception of the read or of the codec is raised with nothing written or counted, and a crash is a
  -- crash. When the codec encodes, its bytes are written behind the earlier writes, once; one response
  -- and one success of decoding are counted, one business exception when the type of the response is
  -- Error, and one success or error by its status, and no other counter changes; the status becomes
  -- Complete and the decoder complete.
  pub on_response_decoded_forwards :
      (filters : List (Filter B H K E)) (m n : Metadata B H) (mutation : Mutation)
      (w v : World B H K E)
      → apply_filters B H K E filters none FilterIterationStartState.can_start_from_current
          (response_received m w)
        ≡ returns FilterStatus.continue_iteration v
      → v.response_metadata ≡ some n
      → Forwards n mutation v
          (on_response_decoded B H K E request encode on_error_of filters m mutation w)
  unfolding on_response_decoded
  on_response_decoded_forwards filters m n mutation w v e there =
      rw e (after_continued mutation n v there)
