-- ===== src/Decoder/Dispatch.antt =====
-- When the loop of ConnectionManager::dispatch ends, and when it does not.
use meta_protocol_proxy.Base.{
  ℕ, zero, suc, ◌≤◌, ◌<◌, ◌≡◌, ◌≢◌, refl, ◌⊎◌, inl, inr, Bool, true, false, [], Outcome, ok, throws,
  panics, stuck, ◌>>=◌, arith,
}
use meta_protocol_proxy.Codec.{MessageType, DecodeStatus}
use meta_protocol_proxy.Buffer.{BufferApi}
use meta_protocol_proxy.Metadata.{HeaderMapApi, Metadata}
use meta_protocol_proxy.Decoder.{
  CodecApi, Callbacks, ProtocolState, Run, on_data, on_decode_stream, after_decode, decoded_message,
  after_heartbeat, new_stream, after_run, started, dispatch_loop,
}

module _ (B : BufferApi) (H : HeaderMapApi) (K : CodecApi B H) {W : Type 0}
    (C : Callbacks B H W) where
  open B use {Buffer, size}

  -- A codec that takes at least a byte for each message, and calls that come back.
  pub record Progresses : Type 0 where
    pub takes :
        (k k' : K.State) (b b' : Buffer) (m m' : Metadata B H)
        → K.decode k b m ≡ ok (DecodeStatus.done, k', b', m')
        → size b' < size b
    pub decodes : (k : K.State) (b : Buffer) (m : Metadata B H) → K.decode k b m ≢ stuck
    pub handles : (h : C.Handler) (m : Metadata B H) (w : W) → C.on_message_decoded h m [] w ≢ stuck
    pub beats : (m : Metadata B H) (w : W) → C.on_heartbeat m w ≢ stuck

  -- No loop inside a step runs out of fuel, and a step that is done leaves less than `n` bytes.
  abbrev StepBelow : ℕ → Outcome (ProtocolState × Run B H K C) → Type 0
  StepBelow n (ok (s, q)) = (s ≡ ProtocolState.wait_for_data) ⊎ (size q.buffer < n)
  StepBelow n stuck = ⊥
  StepBelow n _ = Unit {0}

  module _ (p : Progresses) where
    heartbeat_below :
        (n : ℕ) (r : Run B H K C) (o : Outcome (Bool × W))
        → o ≢ stuck
        → size r.buffer < n
        → StepBelow n (o >>= after_heartbeat B H K C r)
    unfolding after_heartbeat
    heartbeat_below n r (ok (t, w)) ne h = inr h
    heartbeat_below n r (throws x) ne h = tt
    heartbeat_below n r panics ne h = tt
    heartbeat_below n r stuck ne h = ne refl

    handled_below :
        (n : ℕ) (r : Run B H K C) (o : Outcome W)
        → o ≢ stuck
        → size r.buffer < n
        → StepBelow n (
            o >>= λ (w' : W). ok (
              ProtocolState.done,
              record r { decoder = record r.decoder { has_stream = true }; world = w' },
            ))
    handled_below n r (ok w) ne h = inr h
    handled_below n r (throws x) ne h = tt
    handled_below n r panics ne h = tt
    handled_below n r stuck ne h = ne refl

    stream_below :
        (n : ℕ) (m : Metadata B H) (r : Run B H K C)
        → size r.buffer < n
        → StepBelow n (new_stream B H K C m r)
    unfolding new_stream
    stream_below n m r h =
        handled_below n r
          (C.on_message_decoded (C.new_message_handler r.world).0 m []
            (C.new_message_handler r.world).1)
          (p.handles _ m _) h

    message_below :
        (n : ℕ) (t : MessageType) (m : Metadata B H) (r : Run B H K C)
        → size r.buffer < n
        → StepBelow n (decoded_message B H K C t m r)
    unfolding decoded_message
    message_below n MessageType.heartbeat m r h =
        heartbeat_below n r (C.on_heartbeat m r.world) (p.beats m r.world) h
    message_below n _ m r h = stream_below n m r h

    decode_below :
        (r : Run B H K C) (m : Metadata B H)
        (o : Outcome (DecodeStatus × K.State × Buffer × Metadata B H))
        → K.decode r.decoder.codec r.buffer m ≡ o
        → StepBelow (size r.buffer) (o >>= after_decode B H K C r)
    unfolding after_decode
    decode_below r m (ok (DecodeStatus.wait_for_data, k, b, m')) e = inl refl
    decode_below r m (ok (DecodeStatus.done, k, b, m')) e =
        message_below (size r.buffer) m'.message_type m' _ (p.takes _ k _ b m m' e)
    decode_below r m (throws x) e = tt
    decode_below r m panics e = tt
    decode_below r m stuck e = p.decodes _ _ m e

    -- A call comes back; it goes on only with fewer bytes than it was given.
    abbrev CallBelow : ℕ → Outcome (Bool × Run B H K C) → Type 0
    CallBelow n (ok (underflow, q)) = (underflow ≡ true) ⊎ (size q.buffer < n)
    CallBelow n stuck = ⊥
    CallBelow n _ = Unit {0}

    run_below :
        (n : ℕ) (o : Outcome (ProtocolState × Run B H K C))
        → StepBelow n o
        → CallBelow n (o >>= after_run B H K C)
    unfolding after_run
    run_below n (ok (ProtocolState.wait_for_data, q)) h = inl refl
    run_below n (ok (ProtocolState.done, q)) (inl e) = absurd (cc)
    run_below n (ok (ProtocolState.done, q)) (inr h) = inr h
    run_below n (ok (ProtocolState.on_decode_stream_data, q)) (inl e) = absurd (cc)
    run_below n (ok (ProtocolState.on_decode_stream_data, q)) (inr h) = inr h
    run_below n (throws x) h = tt
    run_below n panics h = tt
    run_below n stuck h = h

    on_data_below : (r : Run B H K C) → CallBelow (size r.buffer) (on_data B H K C r)
    unfolding on_data on_decode_stream
    on_data_below r = run_below (size r.buffer) _ (decode_below (started B H K C r) _ _ refl)

    loop_ends :
        (fuel : ℕ) (o : Outcome (Bool × Run B H K C))
        → CallBelow fuel o
        → ((r : Run B H K C) → size r.buffer < fuel → dispatch_loop B H K C fuel r ≢ stuck)
        → (o >>= λ (t : Bool × Run B H K C). elim t.0 [
          | true ↦ ok t.1
          | false ↦ dispatch_loop B H K C fuel t.1
        ])
          ≢ stuck
    loop_ends fuel (ok (true, q)) h again = λ e. cc
    loop_ends fuel (ok (false, q)) (inl e) again = absurd (cc)
    loop_ends fuel (ok (false, q)) (inr h) again = again q h
    loop_ends fuel (throws x) h again = λ e. cc
    loop_ends fuel panics h again = λ e. cc
    loop_ends fuel stuck h again = absurd h

    CallBelow-mono :
        (m n : ℕ) (o : Outcome (Bool × Run B H K C)) → m ≤ n → CallBelow m o → CallBelow n o
    CallBelow-mono m n (ok (u, q)) le (inl e) = inl e
    CallBelow-mono m n (ok (u, q)) le (inr h) = inr (omega arith)
    CallBelow-mono m n (throws x) le h = tt
    CallBelow-mono m n panics le h = tt
    CallBelow-mono m n stuck le h = h

    -- When the codec takes at least a byte for each message, and the codec and the callbacks come
    -- back, the dispatch loop ends: one round more than the buffer has bytes is enough.
    pub dispatch_loop_ends :
        (fuel : ℕ) (r : Run B H K C) → size r.buffer < fuel → dispatch_loop B H K C fuel r ≢ stuck
    unfolding dispatch_loop
    dispatch_loop_ends zero r h = absurd (omega arith)
    dispatch_loop_ends (suc fuel) r h =
        loop_ends fuel (on_data B H K C r)
          (CallBelow-mono (size r.buffer) fuel (on_data B H K C r) (omega arith) (on_data_below r))
          (dispatch_loop_ends fuel)
