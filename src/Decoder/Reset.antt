-- ===== src/Decoder/Reset.antt =====
-- The state that DecoderBase::onData leaves.
use meta_protocol_proxy.Base.{
  ◌≡◌, ◌≢◌, refl, subst, ◌⊎◌, inl, inr, Bool, true, false, none, some, [], ◌∙◌, ◌==◌, Outcome, ok,
  throws, panics, stuck, ◌>>=◌, arith,
}
use meta_protocol_proxy.Codec.{MessageType, DecodeStatus}
use meta_protocol_proxy.Buffer.{BufferApi}
use meta_protocol_proxy.Metadata.{HeaderMapApi, Metadata}
use meta_protocol_proxy.Decoder.{
  CodecApi, Callbacks, DecoderBase, ProtocolState, Run, on_data, on_decode_stream, after_decode,
  decoded_message, after_heartbeat, new_stream, after_run, started,
}

-- Between calls a decoder is idle or waits for data, and holds no stream.
pub record IsBetween {State : Type 0} (d : DecoderBase State) : Type 0 where
  pub no_stream : d.has_stream ≡ false
  pub idle_or_waiting :
      ((d.decode_started ≡ false) × (d.state_machine ≡ none))
      ⊎ ((d.decode_started ≡ true) × (d.state_machine ≡ some ProtocolState.wait_for_data))

module _ (B : BufferApi) (H : HeaderMapApi) (K : CodecApi B H) {W : Type 0}
    (C : Callbacks B H W) where
  open B use {size}

  -- What a step leaves of the decoder: a stream is there only when the step is done.
  abbrev StepLeaves : Run B H K C → Outcome (ProtocolState × Run B H K C) → Type 0
  StepLeaves r (ok (s, q)) =
      (q.decoder.decode_started ≡ r.decoder.decode_started)
      × (q.decoder.message_type ≡ r.decoder.message_type)
      × ((s ≡ ProtocolState.done) ⊎ (q.decoder.has_stream ≡ r.decoder.has_stream))
      × (s ≢ ProtocolState.on_decode_stream_data)
  StepLeaves r _ = Unit {0}

  heartbeat_leaves :
      (r : Run B H K C) (o : Outcome (Bool × W)) → StepLeaves r (o >>= after_heartbeat B H K C r)
  unfolding after_heartbeat
  heartbeat_leaves r (ok (true, w)) = (refl, refl, inr refl, λ p. cc)
  heartbeat_leaves r (ok (false, w)) = (refl, refl, inl refl, λ p. cc)
  heartbeat_leaves r (throws x) = tt
  heartbeat_leaves r panics = tt
  heartbeat_leaves r stuck = tt

  stream_leaves : (m : Metadata B H) (r : Run B H K C) → StepLeaves r (new_stream B H K C m r)
  unfolding new_stream
  stream_leaves m r = go (
      C.on_message_decoded (C.new_message_handler r.world).0 m [] (C.new_message_handler r.world).1)
    where
      go :
          (o : Outcome W)
          → StepLeaves r (
              o >>= λ (w' : W). ok (
                ProtocolState.done,
                record r { decoder = record r.decoder { has_stream = true }; world = w' },
              ))
      go (ok w) = (refl, refl, inl refl, λ p. cc)
      go (throws x) = tt
      go panics = tt
      go stuck = tt

  message_leaves :
      (t : MessageType) (m : Metadata B H) (r : Run B H K C)
      → StepLeaves r (decoded_message B H K C t m r)
  unfolding decoded_message
  message_leaves MessageType.heartbeat m r = heartbeat_leaves r (C.on_heartbeat m r.world)
  message_leaves _ m r = stream_leaves m r

  decode_leaves :
      (r : Run B H K C) (o : Outcome (DecodeStatus × K.State × B.Buffer × Metadata B H))
      → StepLeaves r (o >>= after_decode B H K C r)
  unfolding after_decode
  decode_leaves r (ok (DecodeStatus.wait_for_data, k, b, m)) = (refl, refl, inr refl, λ p. cc)
  decode_leaves r (ok (DecodeStatus.done, k, b, m)) = message_leaves m.message_type m _
  decode_leaves r (throws x) = tt
  decode_leaves r panics = tt
  decode_leaves r stuck = tt

  -- What a call leaves: a decoder between messages, of the same direction; asking for no more data
  -- is leaving bytes behind with the decoder idle, and an idle decoder asks for more data exactly
  -- when the buffer is empty.
  abbrev pub CallLeaves : MessageType → Outcome (Bool × Run B H K C) → Type 0
  CallLeaves t (ok (underflow, q)) =
      IsBetween q.decoder
      × (q.decoder.message_type ≡ t)
      × ((underflow ≡ true) × (q.decoder.decode_started ≡ true)
          ⊎ (underflow ≡ (size q.buffer == 0)) × (q.decoder.decode_started ≡ false))
  CallLeaves t _ = Unit {0}

  run_leaves :
      (r : Run B H K C) (o : Outcome (ProtocolState × Run B H K C))
      → r.decoder.decode_started ≡ true
      → r.decoder.has_stream ≡ false
      → StepLeaves r o
      → CallLeaves r.decoder.message_type (o >>= after_run B H K C)
  unfolding after_run
  run_leaves r (ok (ProtocolState.wait_for_data, q)) st ns (a, b, c, d) = (
    record {
      no_stream = elim c [ inl e ↦ absurd (cc) | inr e ↦ e ∙ ns ];
      idle_or_waiting = inr (a ∙ st, refl);
    },
    b,
    inl (refl, a ∙ st),
  )
  run_leaves r (ok (ProtocolState.done, q)) st ns (a, b, c, d) =
      (record { no_stream = refl; idle_or_waiting = inl (refl, refl) }, b, inr (refl, refl))
  run_leaves r (ok (ProtocolState.on_decode_stream_data, q)) st ns (a, b, c, d) = absurd (d refl)
  run_leaves r (throws x) st ns h = tt
  run_leaves r panics st ns h = tt
  run_leaves r stuck st ns h = tt

  started_lem :
      (r : Run B H K C)
      → ((started B H K C r).decoder.decode_started ≡ true)
        × ((started B H K C r).decoder.has_stream ≡ r.decoder.has_stream)
        × ((started B H K C r).decoder.message_type ≡ r.decoder.message_type)
  started_lem r = ground arith

  -- A call on a decoder between messages leaves, when it returns, a decoder between messages of the
  -- same direction. Either it asks for more data and goes on with the message, or the message is
  -- complete, the decoder idle, and it asks for more data exactly when the buffer is empty.
  pub on_data-CallLeaves :
      (r : Run B H K C)
      → IsBetween r.decoder
      → CallLeaves r.decoder.message_type (on_data B H K C r)
  unfolding on_data on_decode_stream
  on_data-CallLeaves r v =
      let (going, stream, same) = started_lem r in
      subst (λ t. CallLeaves t (on_data B H K C r)) same
        (run_leaves (started B H K C r) (on_decode_stream B H K C (started B H K C r)) going
          (stream ∙ v.no_stream) (decode_leaves (started B H K C r) _))
