-- ===== src/Decoder.antt =====
-- src/meta_protocol_proxy/decoder.h and decoder.cc: the message decoder of a connection, and the
-- loop of ConnectionManager::dispatch (conn_manager.cc) that drives it. The codec and the callbacks
-- are interfaces.
pub mod Reset
pub mod Dispatch
pub mod Spin
pub mod Calls
use Prim.Native.String.{String}
use meta_protocol_proxy.Base.{
  ℕ, zero, suc, Bool, true, false, Option, none, some, List, [], ◌==◌, if◌then◌else◌, Outcome, ok,
  throws, panics, stuck, ◌>>=◌,
}
use meta_protocol_proxy.Codec.{MessageType, DecodeStatus, Error}
use meta_protocol_proxy.Buffer.{BufferApi}
use meta_protocol_proxy.Metadata.{HeaderMapApi, Metadata, new_metadata}

abbrev pub Mutation : Type 0
Mutation = List (String × String)

pub data ProtocolState : Type 0 where
  wait_for_data on_decode_stream_data done : ProtocolState

module _ (B : BufferApi) (H : HeaderMapApi) where
  -- `Codec::decode`, over the state of the codec.
  pub record CodecApi : Type 1 where
    pub State : Type 0
    pub decode :
        State → B.Buffer → Metadata B H → Outcome (DecodeStatus × State × B.Buffer × Metadata B H)

  -- RequestDecoderCallbacks and ResponseDecoderCallbacks, over a world of their own: the new
  -- handler and its onMessageDecoded, and onHeartbeat.
  pub record Callbacks (W : Type 0) : Type 1 where
    pub Handler : Type 0
    pub new_message_handler : W → Handler × W
    pub on_message_decoded : Handler → Metadata B H → Mutation → W → Outcome W
    pub on_heartbeat : Metadata B H → W → Outcome (Bool × W)

-- `state_machine_` is null or in a state; of `stream_` only whether it is null is kept.
pub record DecoderBase (State : Type 0) : Type 0 where
  pub codec : State
  pub has_stream : Bool
  pub state_machine : Option ProtocolState
  pub message_type : MessageType
  pub decode_started : Bool

abbrev pub new_decoder : {State : Type 0} → State → MessageType → DecoderBase State
new_decoder codec t = record {
  codec = codec;
  has_stream = false;
  state_machine = none;
  message_type = t;
  decode_started = false;
}

module _ (B : BufferApi) (H : HeaderMapApi) (K : CodecApi B H) {W : Type 0}
    (C : Callbacks B H W) where
  open B use {Buffer, size}

  -- The decoder, its buffer and the world of the callbacks.
  pub record Run : Type 0 where
    pub decoder : DecoderBase K.State
    pub buffer : Buffer
    pub world : W

  abbrev Step : Type 0
  Step = Outcome (ProtocolState × Run)

  after_heartbeat : Run → Bool × W → Step
  after_heartbeat r (waits, w) =
      ok (if waits then ProtocolState.wait_for_data else ProtocolState.done, record r { world = w })

  -- newStream and onStreamDecoded
  new_stream : Metadata B H → Run → Step
  new_stream m r =
      let (handler, w) = C.new_message_handler r.world in
      C.on_message_decoded handler m [] w >>= λ (w' : W). ok (
        ProtocolState.done,
        record r { decoder = record r.decoder { has_stream = true }; world = w' },
      )

  decoded_message : MessageType → Metadata B H → Run → Step
  unfolding after_heartbeat new_stream
  decoded_message MessageType.heartbeat m r = C.on_heartbeat m r.world >>= after_heartbeat r
  decoded_message _ m r = new_stream m r

  abbrev with_codec : Run → K.State → Buffer → Run
  with_codec r k b = record r { decoder = record r.decoder { codec = k }; buffer = b }

  after_decode : Run → DecodeStatus × K.State × Buffer × Metadata B H → Step
  unfolding decoded_message
  after_decode r (DecodeStatus.wait_for_data, k, b, m) =
      ok (ProtocolState.wait_for_data, with_codec r k b)
  after_decode r (DecodeStatus.done, k, b, m) = decoded_message m.message_type m (with_codec r k b)

  -- DecoderStateMachine::onDecodeStream
  on_decode_stream : Run → Step
  unfolding after_decode
  on_decode_stream r =
      K.decode r.decoder.codec r.buffer
        (record (new_metadata B H) { message_type = r.decoder.message_type })
      >>= after_decode r

  abbrev pub start : DecoderBase K.State → DecoderBase K.State
  start d = record d {
    state_machine = some ProtocolState.on_decode_stream_data;
    decode_started = true;
  }

  abbrev pub complete : DecoderBase K.State → DecoderBase K.State
  complete d = record d { state_machine = none; has_stream = false; decode_started = false }

  abbrev pub waiting : DecoderBase K.State → DecoderBase K.State
  waiting d = record d { state_machine = some ProtocolState.wait_for_data }

  after_run : ProtocolState × Run → Outcome (Bool × Run)
  after_run (ProtocolState.wait_for_data, r) = ok (true, record r { decoder = waiting r.decoder })
  after_run (_, r) = ok (size r.buffer == 0, record r { decoder = complete r.decoder })

  abbrev pub started : Run → Run
  started r = record r { decoder = if r.decoder.decode_started then r.decoder else start r.decoder }

  -- The returned flag is `buffer_underflow`.
  unfoldable pub on_data : Run → Outcome (Bool × Run)
  unfolding on_decode_stream after_run
  on_data r = on_decode_stream (started r) >>= after_run

  -- The `while (!underflow)` loop of ConnectionManager::dispatch.
  pub dispatch_loop : ℕ → Run → Outcome Run
  dispatch_loop zero r = stuck
  dispatch_loop (suc fuel) r =
      on_data r >>= λ (t : Bool × Run). elim t.0 [ true ↦ ok t.1 | false ↦ dispatch_loop fuel t.1 ]
