-- ===== src/Upstream/Handler.antt =====
-- UpstreamHandlerImpl of src/meta_protocol_proxy/upstream_handler_impl.h and upstream_handler_impl.cc,
-- and the response that it decodes, UpstreamResponse and UpstreamHandlerResponseDecoder of
-- upstream_response.h and upstream_response.cc. What a call does elsewhere is a list of effects.
pub mod Responses
use Prim.Native.String.{String}
use meta_protocol_proxy.Base.{
  ℕ, Bool, true, false, Option, none, some, List, [], ◌∷◌, ◌++◌, ◌==◌, if◌then◌else◌, Outcome, ok,
  throws, panics, stuck, ◌>>=◌, Exception,
}
use meta_protocol_proxy.Codec.{MessageType}
use meta_protocol_proxy.Buffer.{BufferApi}
use meta_protocol_proxy.Metadata.{HeaderMapApi, Metadata}
use meta_protocol_proxy.Decoder.{
  Mutation, CodecApi, Callbacks, DecoderBase, new_decoder, Run, on_data,
}
use meta_protocol_proxy.Filters.{UpstreamResponseStatus}

-- Callbacks are told apart by numbers, as the pointers to them are; hosts by their address.
pub data Effect : Type 0 where
  pool_cancelled : Effect
  handler_deleted : String → Effect
  connection_reset : Effect
  pool_ready_called : ℕ → String → Effect
  pool_failure_called : ℕ → String → Effect
  upstream_written : List ℕ → Bool → Effect
  downstream_written : List ℕ → Effect
  response_called : ℕ → ℕ → Effect

-- What `newConnection` of the pool does before it returns.
pub data PoolAnswer : Type 0 where
  pending : PoolAnswer
  ready_at_once : String → PoolAnswer
  refused_at_once : String → PoolAnswer

pub data ConnectionEvent : Type 0 where
  remote_close local_close connected : ConnectionEvent

pub record UpstreamResponse (State : Type 0) : Type 0 where
  pub decoder : DecoderBase State
  pub complete : Bool

-- `upstream_handle_` and `conn_data_` are kept as whether they are there. A null pointer among the
-- request callbacks is `none`, and so is an empty function among the response callbacks.
pub record UpstreamHandlerImpl (State : Type 0) : Type 0 where
  pub key : String
  pub upstream_handle : Bool
  pub conn_data : Bool
  pub upstream_host : Option String
  pub upstream_request_callbacks : List (Option ℕ)
  pub response_callbacks : List (ℕ × Option ℕ)
  pub upstream_response : Option (UpstreamResponse State)
  pub pool_ready : Bool

unfoldable pub find_callback : ℕ → List (ℕ × Option ℕ) → Option (Option ℕ)
find_callback id [] = none
find_callback id ((i, c) ∷ cs) = if i == id then some c else find_callback id cs

unfoldable pub erase_callback : ℕ → List (ℕ × Option ℕ) → List (ℕ × Option ℕ)
erase_callback id [] = []
erase_callback id ((i, c) ∷ cs) =
    let rest = erase_callback id cs in if i == id then rest else (i, c) ∷ rest

same_callback : Option ℕ → Option ℕ → Bool
same_callback none none = true
same_callback (some i) (some j) = i == j
same_callback _ _ = false

remove_callback : Option ℕ → List (Option ℕ) → List (Option ℕ)
unfolding same_callback
remove_callback c [] = []
remove_callback c (d ∷ ds) =
    let rest = remove_callback c ds in if same_callback d c then rest else d ∷ rest

call_each : (ℕ → Effect) → List (Option ℕ) → List Effect
call_each effect [] = []
call_each effect (none ∷ cs) = call_each effect cs
call_each effect (some c ∷ cs) = effect c ∷ call_each effect cs

module _ {State : Type 0} where
  abbrev pub new_handler : String → UpstreamHandlerImpl State
  new_handler key = record {
    key = key;
    upstream_handle = false;
    conn_data = false;
    upstream_host = none;
    upstream_request_callbacks = [];
    response_callbacks = [];
    upstream_response = none;
    pool_ready = false;
  }

  unfoldable pub on_close : UpstreamHandlerImpl State → UpstreamHandlerImpl State × List Effect
  on_close h = (
    record h { pool_ready = false; upstream_handle = false; conn_data = false },
    handler_deleted h.key ∷ (if h.upstream_handle then pool_cancelled ∷ [] else [])
        ++ (if h.conn_data then connection_reset ∷ [] else []),
  )

  unfoldable pub on_pool_failure :
      String → UpstreamHandlerImpl State → UpstreamHandlerImpl State × List Effect
  unfolding call_each
  on_pool_failure host h = (
    record h { upstream_handle = false; upstream_request_callbacks = [] },
    handler_deleted h.key
        ∷ call_each (λ c. pool_failure_called c host) h.upstream_request_callbacks,
  )

  unfoldable pub on_pool_ready :
      String → UpstreamHandlerImpl State → UpstreamHandlerImpl State × List Effect
  unfolding call_each
  on_pool_ready host h = (
    record h {
      upstream_host = some host;
      conn_data = true;
      upstream_handle = false;
      pool_ready = true;
      upstream_request_callbacks = [];
    },
    call_each (λ c. pool_ready_called c host) h.upstream_request_callbacks,
  )

  unfoldable pub start :
      PoolAnswer → UpstreamHandlerImpl State → UpstreamHandlerImpl State × List Effect
  unfolding on_pool_ready on_pool_failure
  start pending h = (record h { pool_ready = false; upstream_handle = true }, [])
  start (ready_at_once host) h = on_pool_ready host (record h { pool_ready = false })
  start (refused_at_once host) h = on_pool_failure host (record h { pool_ready = false })

  -- The connection is taken without a test.
  unfoldable pub on_data_to_upstream :
      List ℕ → Bool → UpstreamHandlerImpl State → Outcome (UpstreamHandlerImpl State × List Effect)
  on_data_to_upstream data_bytes end_stream h =
      if h.conn_data then ok (h, upstream_written data_bytes end_stream ∷ []) else panics

  unfoldable pub add_response_callback :
      ℕ → Option ℕ → UpstreamHandlerImpl State → UpstreamHandlerImpl State
  unfolding find_callback
  add_response_callback id c h = elim (find_callback id h.response_callbacks) [
    | some _ ↦ h
    | none ↦ record h { response_callbacks = h.response_callbacks ++ (id, c) ∷ [] }
  ]

  unfoldable pub is_pool_ready : UpstreamHandlerImpl State → Bool
  is_pool_ready h = h.pool_ready

  unfoldable pub add_upstream_request_callbacks :
      Option ℕ → UpstreamHandlerImpl State → UpstreamHandlerImpl State
  add_upstream_request_callbacks c h = record h {
    upstream_request_callbacks = h.upstream_request_callbacks ++ c ∷ [];
  }

  unfoldable pub remove_upstream_request_callbacks :
      Option ℕ → UpstreamHandlerImpl State → UpstreamHandlerImpl State
  unfolding remove_callback
  remove_upstream_request_callbacks c h = record h {
    upstream_request_callbacks = remove_callback c h.upstream_request_callbacks;
  }

  unfoldable pub on_event :
      ConnectionEvent → UpstreamHandlerImpl State → UpstreamHandlerImpl State × List Effect
  unfolding on_close
  on_event remote_close h = on_close h
  on_event local_close h = on_close h
  on_event connected h = (h, [])

-- `create_codec` is the state of a new codec, and `encode` its call; `unset` is what `complete_`
-- holds before it is assigned, which its constructor does not do.
module _ (B : BufferApi) (H : HeaderMapApi) (K : CodecApi B H) (create_codec : K.State)
    (encode : Metadata B H → Mutation → B.Buffer → Outcome B.Buffer) (unset : Bool) where
  open B use {Buffer, bytes, size, drain}

  -- The handler, whether the response is complete, and what was done so far.
  pub record World : Type 0 where
    pub handler : UpstreamHandlerImpl K.State
    pub complete : Bool
    pub effects : List Effect

  abbrev finished : ℕ → Option (Option ℕ) → World → World
  finished id (some (some c)) w = record w {
    handler = record w.handler {
      response_callbacks = erase_callback id w.handler.response_callbacks;
    };
    effects = w.effects ++ response_called c id ∷ [];
  }
  finished id _ w = w

  -- UpstreamHandlerImpl::onMessageDecoded
  unfoldable pub on_message_decoded : Metadata B H → World → World
  unfolding find_callback erase_callback
  on_message_decoded m w =
      finished m.request_id (find_callback m.request_id w.handler.response_callbacks)
        (record w { effects = w.effects ++ downstream_written (bytes m.origin_message) ∷ [] })

  -- UpstreamHandlerResponseDecoder::onMessageDecoded
  unfoldable pub on_response_decoded : Metadata B H → Mutation → World → Outcome World
  unfolding on_message_decoded
  on_response_decoded m mutation w = encode m mutation m.origin_message >>= λ (b : Buffer).
      ok (on_message_decoded (record m { origin_message = b }) (record w { complete = true }))

  -- A heartbeat of the upstream is ignored.
  abbrev pub decoder_callbacks : Callbacks B H World
  decoder_callbacks = record {
    Handler = Unit;
    new_message_handler = λ w. (tt, w);
    on_message_decoded = λ _ m mutation w. on_response_decoded m mutation w;
    on_heartbeat = λ m w. ok (true, w);
  }

  abbrev pub new_response : UpstreamResponse K.State
  new_response = record {
    decoder = new_decoder create_codec MessageType.response;
    complete = unset;
  }

  abbrev current : Option (UpstreamResponse K.State) → UpstreamResponse K.State
  current none = new_response
  current (some r) = r

  -- UpstreamHandlerResponseDecoder::decode: what the decoder's call came to. Behind an EnvoyException
  -- the buffer is not known.
  decoded :
      World
      → Outcome (Bool × Run B H K decoder_callbacks)
      → Outcome (UpstreamResponseStatus × World × Option (DecoderBase K.State × Buffer))
  decoded w (ok (underflow, r)) = ok (
    if r.world.complete then UpstreamResponseStatus.complete else UpstreamResponseStatus.more_data,
    r.world,
    some (r.decoder, r.buffer),
  )
  decoded w (throws (Exception.envoy_exception e)) = ok (UpstreamResponseStatus.reset, w, none)
  decoded w (throws e) = throws e
  decoded w panics = panics
  decoded w stuck = stuck

  -- The switch of onUpstreamData. Only `MoreData` keeps the response; `Retry` never comes.
  settled :
      UpstreamResponseStatus × World × Option (DecoderBase K.State × Buffer) → World × Option Buffer
  settled (UpstreamResponseStatus.more_data, w, some (d, b)) = (
    record w {
      handler = record w.handler {
        upstream_response = some (record { decoder = d; complete = w.complete });
      };
    },
    some b,
  )
  settled (s, w, none) =
      (record w { handler = record w.handler { upstream_response = none } }, none)
  settled (s, w, some (d, b)) =
      (record w { handler = record w.handler { upstream_response = none } }, some b)

  unfoldable pub on_upstream_data :
      UpstreamHandlerImpl K.State → Buffer → Outcome (World × Option Buffer)
  unfolding decoded settled
  on_upstream_data h data_buffer =
      let r = current h.upstream_response in
      let w : World = record { handler = h; complete = r.complete; effects = [] } in
      decoded w (
        on_data B H K decoder_callbacks
          (record { decoder = r.decoder; buffer = data_buffer; world = w }))
      >>= λ (t : UpstreamResponseStatus × World × Option (DecoderBase K.State × Buffer)).
          ok (settled t)
