-- ===== src/Trpc/Checker/Framing.antt =====
-- One frame through `CodecChecker::onData`.
use meta_protocol_proxy.Base.{
  ℕ, suc, ◌+◌, ◌≤◌, ◌≡◌, ◌≢◌, refl, sym, ap, ◌∙◌, true, List, ◌++◌, length, take, drop, ◌==◌,
  if◌then◌else◌, Outcome, ok, arith, le→ltb, drop-append_length,
}
use meta_protocol_proxy.Buffer.{BufferApi}
use meta_protocol_proxy.Trpc.Header.{TrpcFixedHeader, new_fixed_header}
use meta_protocol_proxy.Trpc.Header.RoundTrip.{
  IsHeader, header_bytes, decode_header_peek, size_header,
}
use meta_protocol_proxy.Trpc.Checker.{
  CodecCheckerCallbacks, DecodeStage, Run, new_checker, trpc_unary, stage, handle_state,
  fixed_header_stage, unary_header_stage, payload_stage, after_header, after_callback, continue,
  loop, on_data, at, round,
}

unary-ne-done : DecodeStage.decode_unary_protocol_header ≢ DecodeStage.decode_done
unary-ne-done p = cc

unary-ne-wait : DecodeStage.decode_unary_protocol_header ≢ DecodeStage.wait_for_data
unary-ne-wait p = cc

payload-ne-done : DecodeStage.decode_payload ≢ DecodeStage.decode_done
payload-ne-done p = cc

payload-ne-wait : DecodeStage.decode_payload ≢ DecodeStage.wait_for_data
payload-ne-wait p = cc

done-ne-wait : DecodeStage.decode_done ≢ DecodeStage.wait_for_data
done-ne-wait p = cc

module _ (B : BufferApi) {S : Type 0} (C : CodecCheckerCallbacks B.Buffer S) where
  open B use {Buffer, bytes, empty, size, copy_out, move}

  continue_lem :
      (again : Run Buffer S → Outcome (DecodeStage × Run Buffer S)) (d : DecodeStage)
      (q : Run Buffer S)
      → d ≢ DecodeStage.wait_for_data
      → continue B C again d q ≡ again (at d q)
  unfolding continue
  continue_lem again DecodeStage.wait_for_data q h = absurd (h refl)
  continue_lem again _ q h = refl

  round_lem :
      (again : Run Buffer S → Outcome (DecodeStage × Run Buffer S)) (d d' : DecodeStage)
      (r q : Run Buffer S)
      → d ≢ DecodeStage.decode_done
      → handle_state B C r ≡ ok (d', q)
      → round B C again d r ≡ continue B C again d' q
  unfolding round
  round_lem again DecodeStage.decode_done d' r q nd h = absurd (nd refl)
  round_lem again _ d' r q nd h = rw h

  loop_advances :
      (fuel : ℕ) (r q : Run Buffer S) (d : DecodeStage)
      → r.checker.decode_stage ≢ DecodeStage.decode_done
      → d ≢ DecodeStage.wait_for_data
      → handle_state B C r ≡ ok (d, q)
      → loop B C (suc fuel) r ≡ loop B C fuel (at d q)
  unfolding loop
  loop_advances fuel r q d nd nw h =
      round_lem (loop B C fuel) r.checker.decode_stage d r q nd h
      ∙ continue_lem (loop B C fuel) d q nw

  loop_waits :
      (fuel : ℕ) (r q : Run Buffer S)
      → r.checker.decode_stage ≢ DecodeStage.decode_done
      → handle_state B C r ≡ ok (DecodeStage.wait_for_data, q)
      → loop B C (suc fuel) r ≡ ok (DecodeStage.wait_for_data, q)
  unfolding loop continue
  loop_waits fuel r q nd h =
      round_lem (loop B C fuel) r.checker.decode_stage DecodeStage.wait_for_data r q nd h

  loop_done :
      (fuel : ℕ) (r : Run Buffer S)
      → r.checker.decode_stage ≡ DecodeStage.decode_done
      → loop B C (suc fuel) r ≡ ok (DecodeStage.decode_done, record r { checker = new_checker })
  unfolding loop round
  loop_done fuel r e = rw (e, loop, round)

  -- The run behind the header stage.
  abbrev header_read : TrpcFixedHeader → Run Buffer S → Run Buffer S
  header_read h r = record r {
    checker = record r.checker {
      total_size = h.data_frame_size;
      protocol_header_size = h.pb_header_size;
    };
    client = C.on_fixed_header_decoded h r.client;
  }

  module _ (h : TrpcFixedHeader) (v : IsHeader h) (r : Run Buffer S) (rest : List ℕ)
      (e : bytes r.buffer ≡ header_bytes h ++ rest) where
    length-frame : length (bytes r.buffer) ≡ 16 + length rest
    length-frame = sym (B.size-bytes r.buffer) ∙ size_header B h v r.buffer rest e

    copied :
        h.pb_header_size ≤ length rest
        → copy_out 16 h.pb_header_size r.buffer ≡ take h.pb_header_size rest
    copied fits =
        B.copy_out-bytes 16 h.pb_header_size r.buffer (omega (arith, length-frame))
        ∙ rw e (rw (drop-append_length 2 h.reserved rest v.reserved_size))

    fixed_header_stage_lem : fixed_header_stage B C r ≡ (
        if h.stream_frame_type == trpc_unary
        then ok (DecodeStage.decode_unary_protocol_header, header_read h r)
        else ok (DecodeStage.decode_stream_frame, header_read h r))
    unfolding fixed_header_stage after_header
    fixed_header_stage_lem = rw (
      le→ltb (size r.buffer) 16 (omega (arith, size_header B h v r.buffer rest e)),
      decode_header_peek B h v r.buffer rest e new_fixed_header,
    )

    unary_header_stage_lem :
        (s : S)
        → h.pb_header_size ≤ length rest
        → C.on_unary_header (take h.pb_header_size rest) (C.on_fixed_header_decoded h r.client)
          ≡ ok (true, s)
        → unary_header_stage B C (at DecodeStage.decode_unary_protocol_header (header_read h r))
          ≡ ok (
            DecodeStage.decode_payload,
            record (at DecodeStage.decode_unary_protocol_header (header_read h r)) { client = s },
          )
    unfolding unary_header_stage after_callback
    unary_header_stage_lem s fits good =
        rw
          (le→ltb (size r.buffer) (16 + h.pb_header_size)
            (omega (arith, size_header B h v r.buffer rest e)))
          (rw (copied fits) (rw good))

    payload_stage_lem :
        (q : Run Buffer S)
        → q.buffer ≡ r.buffer
        → q.checker.total_size ≤ 16 + length rest
        → payload_stage B C q
          ≡ ok (
            DecodeStage.decode_done,
            record q {
              client = C.on_completed (move empty q.buffer q.checker.total_size).0 q.client;
              buffer = (move empty q.buffer q.checker.total_size).1;
            },
          )
    unfolding payload_stage
    payload_stage_lem q same fits = rw (
        le→ltb (size q.buffer) q.checker.total_size
          (omega (arith, ap (λ (b : Buffer). size b) same, size_header B h v r.buffer rest e)))

    unary_bytes :
        h.stream_frame_type ≡ trpc_unary
        → fixed_header_stage B C r ≡ ok (DecodeStage.decode_unary_protocol_header, header_read h r)
    unary_bytes unary = fixed_header_stage_lem ∙ rw unary

    -- A whole unary frame in front of the buffer, its header stage pending: when the message
    -- callback accepts the `pb_header_size` bytes behind the fixed header, onData completes with the
    -- first `data_frame_size` bytes, leaves the rest in the buffer and resets the checker.
    pub on_data_unary :
        (s : S)
        → r.checker.decode_stage ≡ DecodeStage.decode_fixed_header
        → h.stream_frame_type ≡ trpc_unary
        → h.pb_header_size ≤ length rest
        → h.data_frame_size ≤ 16 + length rest
        → C.on_unary_header (take h.pb_header_size rest) (C.on_fixed_header_decoded h r.client)
          ≡ ok (true, s)
        → (msg left : Buffer) × (on_data B C r
            ≡ ok (
              DecodeStage.decode_done,
              record { checker = new_checker; client = C.on_completed msg s; buffer = left },
            ))
          × (bytes msg ≡ take h.data_frame_size (header_bytes h ++ rest))
          × (bytes left ≡ drop h.data_frame_size (header_bytes h ++ rest))
    unfolding on_data handle_state
    on_data_unary s start unary fits whole good = (
      (move empty r.buffer h.data_frame_size).0,
      (move empty r.buffer h.data_frame_size).1,
      loop_advances 3 r _ _ (λ (p : r.checker.decode_stage ≡ DecodeStage.decode_done). cc)
            unary-ne-wait
            (ap (λ (d : DecodeStage). stage B C d r) start ∙ unfold stage in unary_bytes unary)
          ∙ loop_advances 2 _ _ _ unary-ne-done payload-ne-wait
              (unfold stage in unary_header_stage_lem s fits good)
          ∙ loop_advances 1 _ _ _ payload-ne-done done-ne-wait
              (unfold stage in payload_stage_lem _ refl whole)
          ∙ loop_done 0
              (record {
                checker = record {
                  decode_stage = DecodeStage.decode_done;
                  total_size = h.data_frame_size;
                  protocol_header_size = h.pb_header_size;
                };
                client = C.on_completed (move empty r.buffer h.data_frame_size).0 s;
                buffer = (move empty r.buffer h.data_frame_size).1;
              })
              refl,
      B.bytes-move_to empty r.buffer h.data_frame_size (omega (arith, length-frame))
          ∙ rw (B.bytes-empty, e),
      B.bytes-move_from empty r.buffer h.data_frame_size (omega (arith, length-frame)) ∙ rw e,
    )
