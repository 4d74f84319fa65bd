-- ===== src/Decoder/Spin.antt =====
-- A codec that completes messages without taking bytes keeps the dispatch loop running.
use meta_protocol_proxy.Base.{
  ℕ, zero, suc, ◌≡◌, ◌≢◌, refl, sym, subst, ◌∙◌, true, false, [], ◌==◌, ok, stuck, ◌>>=◌, arith,
}
use meta_protocol_proxy.Codec.{MessageType, DecodeStatus}
use meta_protocol_proxy.Buffer.{BufferApi}
use meta_protocol_proxy.Metadata.{HeaderMapApi, Metadata, new_metadata}
use meta_protocol_proxy.Decoder.{
  CodecApi, Callbacks, ProtocolState, Run, on_data, on_decode_stream, after_decode, decoded_message,
  new_stream, after_run, started, complete, dispatch_loop,
}

nonzero : (n : ℕ) → n ≢ 0 → (n == 0) ≡ false
nonzero n h = ground arith

module _ (B : BufferApi) (H : HeaderMapApi) (K : CodecApi B H) {W : Type 0}
    (C : Callbacks B H W) where
  open B use {Buffer, size}

  -- From a codec state and a buffer in `Spins` a message completes, with bytes left, and the codec
  -- is in `Spins` again.
  pub record SpinsBy (t : MessageType) (Spins : K.State → Buffer → Type 0) : Type 0 where
    pub again :
        (k : K.State) (b : Buffer) (m : Metadata B H)
        → Spins k b
        → m.message_type ≡ t
        → (k' : K.State) × (b' : Buffer) × (m' : Metadata B H) × (K.decode k b m
            ≡ ok (DecodeStatus.done, k', b', m'))
          × Spins k' b'
          × (size b' ≢ 0)
          × (m'.message_type ≢ MessageType.heartbeat)
    pub handles :
        (h : C.Handler) (m : Metadata B H) (w : W)
        → (w' : W) × (C.on_message_decoded h m [] w ≡ ok w')

  started_kept :
      (r : Run B H K C)
      → ((started B H K C r).decoder.codec ≡ r.decoder.codec)
        × ((started B H K C r).decoder.message_type ≡ r.decoder.message_type)
  started_kept r = ground arith

  message_lem :
      (t : MessageType) (m : Metadata B H) (r : Run B H K C)
      → t ≢ MessageType.heartbeat
      → decoded_message B H K C t m r ≡ new_stream B H K C m r
  unfolding decoded_message
  message_lem MessageType.heartbeat m r ne = absurd (ne refl)
  message_lem _ m r ne = refl

  module _ {t : MessageType} {Spins : K.State → Buffer → Type 0} (s : SpinsBy t Spins) where
    stream_lem :
        (m : Metadata B H) (r : Run B H K C)
        → (w : W) × (new_stream B H K C m r
            ≡ ok (
              ProtocolState.done,
              record r { decoder = record r.decoder { has_stream = true }; world = w },
            ))
    unfolding new_stream
    stream_lem m r =
        let (w, e) =
          s.handles (C.new_message_handler r.world).0 m (C.new_message_handler r.world).1 in
        (w, rw e)

    -- Where a completed message leaves the decoder that ran, with its world.
    abbrev completed : Run B H K C → K.State → Buffer → W → Run B H K C
    completed r k b w = record {
      decoder = complete B H K C (record r.decoder { codec = k });
      buffer = b;
      world = w;
    }

    step_spins :
        (r : Run B H K C) (k : K.State) (b : Buffer) (m : Metadata B H)
        → K.decode r.decoder.codec r.buffer
            (record (new_metadata B H) { message_type = r.decoder.message_type })
          ≡ ok (DecodeStatus.done, k, b, m)
        → size b ≢ 0
        → m.message_type ≢ MessageType.heartbeat
        → (w : W) × ((on_decode_stream B H K C r >>= after_run B H K C)
            ≡ ok (false, completed r k b w))
    unfolding on_decode_stream after_decode after_run
    step_spins r k b m e ne nh =
        let r' = record r { decoder = record r.decoder { codec = k }; buffer = b } in
        let (w, str) = stream_lem m r' in
        (w, rw (e, message_lem m.message_type m r' nh, str, nonzero (size b) ne))

    on_data_spins :
        (r : Run B H K C)
        → r.decoder.message_type ≡ t
        → Spins r.decoder.codec r.buffer
        → (q : Run B H K C) × (on_data B H K C r ≡ ok (false, q))
          × (q.decoder.message_type ≡ t)
          × Spins q.decoder.codec q.buffer
    unfolding on_data
    on_data_spins r e h =
        let st = started B H K C r in
        let (same, kind) = started_kept r in
        let (k, b, m, dec, h', ne, nh) =
          s.again st.decoder.codec r.buffer
            (record (new_metadata B H) { message_type = st.decoder.message_type })
            (subst (λ c. Spins c r.buffer) (sym same) h) (kind ∙ e) in
        let (w, step) = step_spins st k b m dec ne nh in (completed st k b w, step, kind ∙ e, h')

    -- From such a state no number of rounds ends the loop.
    pub dispatch_loop_spins :
        (fuel : ℕ) (r : Run B H K C)
        → r.decoder.message_type ≡ t
        → Spins r.decoder.codec r.buffer
        → dispatch_loop B H K C fuel r ≡ stuck
    unfolding dispatch_loop
    dispatch_loop_spins zero r e h = refl
    dispatch_loop_spins (suc fuel) r e h =
        let (q, stepped, e', h') = on_data_spins r e h in
        rw stepped (dispatch_loop_spins fuel q e' h')
