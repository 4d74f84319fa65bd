-- ===== src/Router/Shadow.antt =====
-- ShadowRouterImpl, ActiveRouters and NullResponseDecoder of
-- src/meta_protocol_proxy/filters/router/shadow_writer_impl.h and shadow_writer_impl.cc: mirrored
-- requests, whose responses are thrown away. The owner's callbacks of an upstream request are run:
-- resetStream releases the connection, and the others do nothing.
pub mod Calls
pub mod Moves
pub mod Lifetime
pub mod Responses
use Prim.Native.String.{String}
use meta_protocol_proxy.Base.{
  Bool, true, false, Option, none, some, List, [], ◌∷◌, ◌++◌, ◌||◌, ◌&&◌, if◌then◌else◌, Outcome,
  ok, throws, panics, stuck, ◌>>=◌, Exception,
}
use meta_protocol_proxy.Codec.{MessageType}
use meta_protocol_proxy.Buffer.{BufferApi}
use meta_protocol_proxy.Metadata.{HeaderMapApi, Metadata}
use meta_protocol_proxy.Decoder.{
  Mutation, CodecApi, Callbacks, DecoderBase, new_decoder, Run, on_data,
}
use meta_protocol_proxy.Filters.{FilterStatus, UpstreamResponseStatus}
use meta_protocol_proxy.Router.UpstreamRequest.{
  ConnectionEvent, PoolFailureReason, Effect, UpstreamRequest, new_request,
  release_upstream_connection, on_upstream_connection_event, on_response_complete, on_pool_ready,
  on_pool_failure,
}
use meta_protocol_proxy.Router.Services.{
  ClusterManagerApi, PrepareUpstreamRequestResult, prepare_upstream_request, start_pooled, Started,
}

-- `removed_from_list` is ActiveRouters::remove, which deletes the router later. The event of a
-- connection that is closed is a step of its own.
pub data ShadowEffect : Type 0 where
  upstream : Effect → ShadowEffect
  removed_from_list : ShadowEffect

module _ (B : BufferApi) (H : HeaderMapApi) (K : CodecApi B H) where
  open B use {Buffer}

  -- The members of the decoder: `complete_` has no initial value.
  pub record NullResponseDecoder : Type 0 where
    pub decoder : DecoderBase K.State
    pub complete : Bool

  -- The callbacks of the decoder, over `complete_`.
  abbrev pub null_callbacks : Callbacks B H Bool
  null_callbacks = record {
    Handler = Unit;
    new_message_handler = λ w. (tt, w);
    on_message_decoded = λ _ m mutation w. ok true;
    on_heartbeat = λ m w. ok (true, w);
  }

  abbrev pub NullRun : Type 0
  NullRun = Run B H K null_callbacks

  abbrev pub Decoded : Type 0
  Decoded = UpstreamResponseStatus × Option NullResponseDecoder

  null_status : Bool × NullRun → Outcome Decoded
  null_status (underflow, r) =
      let after = some (record { decoder = r.decoder; complete = r.world }) in
      ok (
        if r.world then UpstreamResponseStatus.complete else UpstreamResponseStatus.more_data,
        after,
      )

  -- Both exceptions are EnvoyExceptions; behind one the decoder is not known.
  caught : Outcome (Bool × NullRun) → Outcome Decoded
  unfolding null_status
  caught (ok t) = null_status t
  caught (throws (Exception.envoy_exception e)) = ok (UpstreamResponseStatus.reset, none)
  caught (throws Exception.downstream_connection_close) = ok (UpstreamResponseStatus.reset, none)
  caught (throws e) = throws e
  caught panics = panics
  caught stuck = stuck

  unfoldable pub decode : NullResponseDecoder → Buffer → Outcome Decoded
  unfolding caught
  decode d data_buffer = caught (
      on_data B H K null_callbacks
        (record { decoder = d.decoder; buffer = data_buffer; world = d.complete }))

  -- A shadow router whose upstream request is made. The decoder is none where it is not known.
  pub record ShadowRouter : Type 0 where
    pub upstream_request : UpstreamRequest B H
    pub removed : Bool
    pub decoder : Option NullResponseDecoder

  abbrev pub Step : Type 0
  Step = Outcome (ShadowRouter × List ShadowEffect)

  unfoldable pub shadow_effects : List Effect → List ShadowEffect
  shadow_effects [] = []
  shadow_effects (e ∷ es) = ShadowEffect.upstream e ∷ shadow_effects es

  -- Whether the connection is given away further on.
  unfoldable pub gives_connection : List Effect → Bool
  gives_connection [] = false
  gives_connection (Effect.connection_given_to_stream ∷ es) = true
  gives_connection (_ ∷ es) = gives_connection es

  abbrev is_reset : Effect → Bool
  is_reset Effect.stream_was_reset = true
  is_reset _ = false

  -- resetStream, where it is called: a connection that is given away further on is still held.
  abbrev reset_at : Bool → UpstreamRequest B H → List Effect → UpstreamRequest B H × List Effect
  reset_at resets q es =
      if resets
      then release_upstream_connection B H true
          (record q { conn_data = q.conn_data || gives_connection es })
      else (q, [])

  -- What a call of the upstream request did, with the callback of resetStream run.
  unfoldable pub run_callbacks :
      UpstreamRequest B H → List Effect → UpstreamRequest B H × List ShadowEffect
  unfolding gives_connection shadow_effects
  run_callbacks q [] = (q, [])
  run_callbacks q (e ∷ es) =
      let (q₁, released) = reset_at (is_reset e) q es in
      let (q₂, rest) = run_callbacks q₁ es in
      (q₂, ShadowEffect.upstream e ∷ (shadow_effects released ++ rest))

  abbrev after_call : ShadowRouter → UpstreamRequest B H × List Effect → Step
  after_call s (q, es) =
      let (q₁, done) = run_callbacks q es in ok (record s { upstream_request = q₁ }, done)

  unfoldable pub cleanup : ShadowRouter → ShadowRouter × List ShadowEffect
  unfolding shadow_effects
  cleanup s =
      if s.removed
      then (s, [])
      else (let (q, es) = release_upstream_connection B H false s.upstream_request in
          (
            record s { upstream_request = q; removed = true },
            shadow_effects es ++ ShadowEffect.removed_from_list ∷ [],
          ))

  -- A call, then `cleanup`.
  abbrev pub then_cleanup : ShadowRouter × List ShadowEffect → Step
  then_cleanup (s, es) = let (s₁, more) = cleanup s in ok (s₁, es ++ more)

  unfoldable pub on_status : UpstreamResponseStatus → Bool → ShadowRouter → Step
  unfolding cleanup shadow_effects
  on_status UpstreamResponseStatus.complete end_stream s =
      let (q, es) = on_response_complete B H s.upstream_request in
      then_cleanup (record s { upstream_request = q }, shadow_effects es)
  on_status UpstreamResponseStatus.more_data end_stream s =
      if end_stream then then_cleanup (s, []) else ok (s, [])
  on_status _ end_stream s = panics

  decode_data : Buffer → Bool → Option NullResponseDecoder → ShadowRouter → Step
  unfolding decode on_status
  decode_data data_buffer end_stream none s = panics
  decode_data data_buffer end_stream (some d) s = decode d data_buffer >>= λ (t : Decoded).
      on_status t.0 end_stream (record s {
        upstream_request = record s.upstream_request { response_started = true };
        decoder = t.1;
      })

  unfoldable pub on_upstream_data : Buffer → Bool → ShadowRouter → Step
  unfolding decode_data
  on_upstream_data data_buffer end_stream s = decode_data data_buffer end_stream s.decoder s

  unfoldable pub on_event : ConnectionEvent → ShadowRouter → Step
  unfolding on_upstream_connection_event run_callbacks cleanup
  on_event event s =
      (on_upstream_connection_event B H event s.upstream_request >>= after_call s) >>= then_cleanup

  -- resetStream.
  unfoldable pub reset_stream : ShadowRouter → ShadowRouter × List ShadowEffect
  unfolding shadow_effects
  reset_stream s =
      let (q, es) = release_upstream_connection B H true s.upstream_request in
      (record s { upstream_request = q }, shadow_effects es)

  -- What the destructor of ActiveRouters does with a router of its list, `hears` telling whether the
  -- router is among the callbacks of its connection: resetStream, whose close of the connection then
  -- calls onEvent, and the removal from the list. If onEvent has removed it already, the destructor
  -- reads the list's element that is gone; this is taken as a crash.
  unfoldable pub end_of_thread : Bool → ShadowRouter → Step
  unfolding reset_stream on_event shadow_effects
  end_of_thread hears s =
      let (s₁, es) = reset_stream s in
      if hears && s.upstream_request.conn_data
      then (on_event ConnectionEvent.local_close (record s {
        upstream_request = record s.upstream_request {
          stream_reset = true;
          conn_pool_handle = false;
        };
      })
          >>= λ (t : ShadowRouter × List ShadowEffect).
              if t.0.removed then panics else ok (s₁, es ++ ShadowEffect.removed_from_list ∷ []))
      else ok (s₁, es ++ ShadowEffect.removed_from_list ∷ [])

  -- The pool calls back later: UpstreamRequest::onPoolFailure and onPoolReady.
  unfoldable pub on_pool_failed : PoolFailureReason → Option String → ShadowRouter → Step
  unfolding on_pool_failure run_callbacks
  on_pool_failed reason host s = on_pool_failure B H reason host s.upstream_request >>= after_call s

  module _ (create_codec : K.State) (unset : Bool)
      (encode : Metadata B H → Mutation → Buffer → Outcome Buffer) where
    unfoldable pub on_pool_connected : String → String → ShadowRouter → Step
    unfolding on_pool_ready run_callbacks
    on_pool_connected host address s =
        on_pool_ready B H encode host address s.upstream_request >>= after_call s

    abbrev pub new_shadow : UpstreamRequest B H → ShadowRouter
    new_shadow q = record {
      upstream_request = q;
      removed = false;
      decoder =
          some
            (record { decoder = new_decoder create_codec MessageType.response; complete = unset });
    }

    started_shadow : Started B H → Step
    unfolding run_callbacks
    started_shadow (status, q, es) = after_call (new_shadow q) (q, es)

    module _ (C : ClusterManagerApi) where
      created :
          Option (ClusterManagerApi.Pool C)
          → Metadata B H
          → Mutation
          → Outcome (Option (ShadowRouter × List ShadowEffect))
      unfolding new_request start_pooled started_shadow
      created none m mutation = panics
      created (some p) m mutation =
          start_pooled B H encode (ClusterManagerApi.new_connection C p)
            (new_request B H m mutation)
          >>= started_shadow
          >>= λ (t : ShadowRouter × List ShadowEffect). ok (some t)

      -- ShadowWriterImpl::submit with createUpstreamRequest: the router that is put into the list, if
      -- one is.
      unfoldable pub submit :
          String → Metadata B H → Mutation → Outcome (Option (ShadowRouter × List ShadowEffect))
      unfolding prepare_upstream_request created
      submit cluster_name m mutation =
          let prepared = prepare_upstream_request C cluster_name in
          elim prepared.exception [
            | some e ↦ ok none
            | none ↦ created prepared.conn_pool_data m mutation
          ]
