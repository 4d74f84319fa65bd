-- ===== src/Trpc/Checker.antt =====
-- src/application_protocols/trpc/codec_checker.h and codec_checker.cc: the resumable frame decoder.
-- The callbacks are a parameter, over a state of their own.
pub mod Framing
use meta_protocol_proxy.Base.{
  ℕ, zero, suc, ◌+◌, ◌-◌, ◌%◌, ◌^◌, Bool, true, false, List, [], ◌∷◌, ltb, ◌==◌, not, if◌then◌else◌,
  Outcome, ok, throws, panics, stuck, ◌>>=◌, envoy_exception,
}
use meta_protocol_proxy.Buffer.{BufferApi}
use meta_protocol_proxy.Trpc.Header.{
  TrpcFixedHeader, new_fixed_header, trpc_proto_prefix_space, decode_header,
}

-- TrpcStreamFrameType::TRPC_UNARY
abbrev pub trpc_unary : ℕ
trpc_unary = 0

pub data DecodeStage : Type 0 where
  decode_fixed_header decode_unary_protocol_header decode_stream_frame : DecodeStage
  decode_payload decode_done wait_for_data : DecodeStage

pub record CodecChecker : Type 0 where
  pub decode_stage : DecodeStage
  pub total_size : ℕ
  pub protocol_header_size : ℕ

abbrev pub new_checker : CodecChecker
new_checker = record {
  decode_stage = DecodeStage.decode_fixed_header;
  total_size = 0;
  protocol_header_size = 0;
}

pub record CodecCheckerCallbacks (Buffer S : Type 0) : Type 0 where
  pub on_fixed_header_decoded : TrpcFixedHeader → S → S
  pub on_unary_header : List ℕ → S → Outcome (Bool × S)
  pub on_stream_frame : List ℕ → S → Outcome (Bool × S)
  pub on_completed : Buffer → S → S

-- The checker, the state of the callbacks and the input buffer.
pub record Run (Buffer S : Type 0) : Type 0 where
  pub checker : CodecChecker
  pub client : S
  pub buffer : Buffer

abbrev pub at : {Buffer : Type 0} {S : Type 0} → DecodeStage → Run Buffer S → Run Buffer S
at d r = record r { checker = record r.checker { decode_stage = d } }

module _ (B : BufferApi) {S : Type 0} (C : CodecCheckerCallbacks B.Buffer S) where
  open B use {Buffer, empty, size, copy_out, move}

  abbrev pub Stage : Type 0
  Stage = Outcome (DecodeStage × Run Buffer S)

  after_header : CodecChecker → S → Buffer → Bool → TrpcFixedHeader → Stage
  after_header c s buffer false h = throws (envoy_exception "protocol invalid")
  after_header c s buffer true h =
      let r : Run Buffer S = record {
        checker = record c {
          total_size = h.data_frame_size;
          protocol_header_size = h.pb_header_size;
        };
        client = C.on_fixed_header_decoded h s;
        buffer = buffer;
      } in
      if h.stream_frame_type == trpc_unary
      then ok (DecodeStage.decode_unary_protocol_header, r)
      else ok (DecodeStage.decode_stream_frame, r)

  fixed_header_stage : Run Buffer S → Stage
  unfolding after_header
  fixed_header_stage r =
      let (read, h, buffer) = decode_header B new_fixed_header r.buffer false in
      if ltb (size r.buffer) trpc_proto_prefix_space
      then ok (DecodeStage.wait_for_data, r)
      else after_header r.checker r.client buffer read h

  after_callback : Run Buffer S → Bool × S → Stage
  after_callback r (false, s) = throws (envoy_exception "parse header failed")
  after_callback r (true, s) = ok (DecodeStage.decode_payload, record r { client = s })

  unary_header_stage : Run Buffer S → Stage
  unfolding after_callback
  unary_header_stage r =
      let n = r.checker.protocol_header_size in
      if ltb (size r.buffer) (trpc_proto_prefix_space + n)
      then ok (DecodeStage.wait_for_data, r)
      else (C.on_unary_header (copy_out trpc_proto_prefix_space n r.buffer) r.client
          >>= after_callback r)

  -- `frame_size` is a `uint32_t`: the difference wraps.
  stream_frame_stage : Run Buffer S → Stage
  unfolding after_callback
  stream_frame_stage r =
      let frame_size = (r.checker.total_size + 2 ^ 32 - trpc_proto_prefix_space) % 2 ^ 32 in
      if ltb (size r.buffer) r.checker.total_size
      then ok (DecodeStage.wait_for_data, r)
      else (C.on_stream_frame (copy_out trpc_proto_prefix_space frame_size r.buffer) r.client
          >>= after_callback r)

  payload_stage : Run Buffer S → Stage
  payload_stage r =
      let (msg, rest) = move empty r.buffer r.checker.total_size in
      if ltb (size r.buffer) r.checker.total_size
      then ok (DecodeStage.wait_for_data, r)
      else ok (
        DecodeStage.decode_done,
        record r { client = C.on_completed msg r.client; buffer = rest },
      )

  stage : DecodeStage → Run Buffer S → Stage
  unfolding fixed_header_stage unary_header_stage stream_frame_stage payload_stage
  stage DecodeStage.decode_fixed_header r = fixed_header_stage r
  stage DecodeStage.decode_unary_protocol_header r = unary_header_stage r
  stage DecodeStage.decode_stream_frame r = stream_frame_stage r
  stage DecodeStage.decode_payload r = payload_stage r
  stage _ r = panics

  pub handle_state : Run Buffer S → Stage
  handle_state r = stage r.checker.decode_stage r

  continue : (Run Buffer S → Stage) → DecodeStage → Run Buffer S → Stage
  continue again DecodeStage.wait_for_data r = ok (DecodeStage.wait_for_data, r)
  continue again d r = again (at d r)

  round : (Run Buffer S → Stage) → DecodeStage → Run Buffer S → Stage
  unfolding continue
  round again DecodeStage.decode_done r =
      ok (DecodeStage.decode_done, record r { checker = new_checker })
  round again d r = handle_state r >>= λ (t : DecodeStage × Run Buffer S). continue again t.0 t.1

  -- The `while` loop of onData, with `reset` behind it.
  loop : ℕ → Run Buffer S → Stage
  unfolding round
  loop zero r = stuck
  loop (suc fuel) r = round (loop fuel) r.checker.decode_stage r

  -- A frame passes three stages before `decode_done`; the loop takes one round more.
  unfoldable pub on_data : Run Buffer S → Stage
  unfolding loop handle_state stage
  on_data r = loop 4 r
