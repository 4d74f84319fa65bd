-- ===== src/Dubbo/Machine.antt =====
-- The class DecoderStateMachine of src/application_protocols/dubbo/dubbo_codec.h and dubbo_codec.cc.
pub mod Conserves
use meta_protocol_proxy.Base.{
  ℕ, zero, suc, ◌+◌, Bool, true, false, Option, none, some, ltb, if◌then◌else◌, Outcome, ok, panics,
  stuck, ◌>>=◌,
}
use meta_protocol_proxy.Buffer.{BufferApi}
use meta_protocol_proxy.Metadata.{HeaderMapApi}
use meta_protocol_proxy.Dubbo.Message.{
  HessianApi, MessageType, MessageMetadata, Context, new_message_metadata,
}
use meta_protocol_proxy.Dubbo.State.{ProtocolState}
use meta_protocol_proxy.Dubbo.Protocol.{decode_header, decode_data}

module _ (B : BufferApi) (H : HeaderMapApi) (X : HessianApi) where
  open B use {Buffer, bytes, empty, size, move}

  abbrev pub Message : Type 0
  Message = MessageMetadata H X

  -- DecoderStateMachine; the context is null before the first header.
  pub record Machine : Type 0 where
    pub state : ProtocolState
    pub metadata : Message
    pub context : Option (Context Buffer)

  abbrev pub Step : Type 0
  Step = Outcome (ProtocolState × Machine × Buffer)

  abbrev pub new_machine : Machine
  new_machine = record {
    state = ProtocolState.on_decode_stream_header;
    metadata = new_message_metadata H X;
    context = none;
  }

  abbrev is_heartbeat_type : MessageType → Bool
  is_heartbeat_type MessageType.heartbeat_request = true
  is_heartbeat_type MessageType.heartbeat_response = true
  is_heartbeat_type _ = false

  -- `context_->originMessage().move(buffer, n)`
  abbrev moved :
      ProtocolState → Machine → Context Buffer → Buffer → ℕ → ProtocolState × Machine × Buffer
  moved next s ctx b n =
      let (origin, rest) = move ctx.origin_message b n in
      (next, record s { context = some (record ctx { origin_message = origin }) }, rest)

  after_header : Machine → Buffer → Message × Option (Context Buffer) → Step
  after_header s b (m, none) = ok (ProtocolState.wait_for_data, record s { metadata = m }, b)
  after_header s b (m, some ctx) =
      let s' = record s { metadata = m; context = some ctx } in
      if is_heartbeat_type m.message_type
      then if ltb (size b) (ctx.header_size + ctx.body_size)
        then ok (ProtocolState.wait_for_data, s', b)
        else ok (moved ProtocolState.done s' ctx b (ctx.header_size + ctx.body_size))
      else ok (moved ProtocolState.on_decode_stream_data s' ctx b ctx.header_size)

  unfoldable pub on_decode_stream_header : Machine → Buffer → Step
  unfolding after_header
  on_decode_stream_header s b = decode_header B H X b s.metadata >>= after_header s b

  after_data : Machine → Context Buffer → Buffer → Message × Bool → Step
  after_data s ctx b (m, false) = ok (ProtocolState.wait_for_data, record s { metadata = m }, b)
  after_data s ctx b (m, true) =
      ok (moved ProtocolState.done (record s { metadata = m }) ctx b ctx.body_size)

  data_with : Option (Context Buffer) → Machine → Buffer → Step
  unfolding after_data
  data_with none s b = panics
  data_with (some ctx) s b = decode_data B H X b ctx s.metadata >>= after_data s ctx b

  unfoldable pub on_decode_stream_data : Machine → Buffer → Step
  unfolding data_with
  on_decode_stream_data s b = data_with s.context s b

  by_state : ProtocolState → Machine → Buffer → Step
  unfolding on_decode_stream_header on_decode_stream_data
  by_state ProtocolState.on_decode_stream_header s b = on_decode_stream_header s b
  by_state ProtocolState.on_decode_stream_data s b = on_decode_stream_data s b
  by_state _ s b = panics

  unfoldable pub handle_state : Machine → Buffer → Step
  unfolding by_state
  handle_state s b = by_state s.state s b

  -- The state is stored unless it is WaitForData.
  continue : (Machine → Buffer → Step) → ProtocolState × Machine × Buffer → Step
  continue again (ProtocolState.wait_for_data, s, b) = ok (ProtocolState.wait_for_data, s, b)
  continue again (next, s, b) = again (record s { state = next }) b

  round : (Machine → Buffer → Step) → ProtocolState → Machine → Buffer → Step
  unfolding continue handle_state
  round again ProtocolState.done s b = ok (ProtocolState.done, s, b)
  round again state s b = handle_state s b >>= continue again

  run_loop : ℕ → Machine → Buffer → Step
  unfolding round
  run_loop zero s b = stuck
  run_loop (suc fuel) s b = round (run_loop fuel) s.state s b

  -- A message passes two states before Done; the loop takes one round more.
  unfoldable pub run : Machine → Buffer → Step
  unfolding run_loop
  run s b = run_loop 3 s b
