-- ===== src/Brpc.antt =====
-- src/application_protocols/brpc: the bRPC header and codec.
pub mod Frames
pub mod Spin
use meta_protocol_proxy.Base.{
  ℕ, zero, suc, ◌+◌, ◌%◌, ◌^◌, Bool, true, false, List, ltb, if◌then◌else◌, Outcome, ok, throws,
  panics, stuck, ◌>>=◌, envoy_exception,
}
use meta_protocol_proxy.Codec.{DecodeStatus}
use meta_protocol_proxy.Buffer.{BufferApi}
use meta_protocol_proxy.Metadata.{HeaderMapApi, Metadata}

-- BrpcHeader::HEADER_SIZE, a `uint32_t`
abbrev pub header_size : ℕ
header_size = 12

pub record BrpcHeader : Type 0 where
  pub body_len : ℕ
  pub meta_len : ℕ

pub data BrpcDecodeStatus : Type 0 where
  decode_header decode_payload decode_done wait_for_data : BrpcDecodeStatus

-- Sums of `uint32_t`.
abbrev pub frame_size : BrpcHeader → ℕ
frame_size h = (header_size + h.body_len) % 2 ^ 32

module _ (B : BufferApi) where
  open B use {Buffer, size, peek_be, write_be}

  -- The returned flag and the header after the call. The magic number is not checked.
  unfoldable pub decode_brpc_header : BrpcHeader → Buffer → Bool × BrpcHeader
  decode_brpc_header h buffer =
      if ltb (size buffer) header_size
      then (false, h)
      else (true, record { body_len = peek_be 4 4 buffer; meta_len = peek_be 4 8 buffer })

  -- `magic` is the number that the bytes "PRPC" are on the host, whose byte order decides it.
  unfoldable pub encode_brpc_header : ℕ → BrpcHeader → Buffer → Bool × Buffer
  encode_brpc_header magic h buffer =
      (true, write_be 4 h.meta_len (write_be 4 h.body_len (write_be 4 magic buffer)))

pub record BrpcCodec (Buffer Meta : Type 0) : Type 0 where
  pub decode_status : BrpcDecodeStatus
  pub brpc_header : BrpcHeader
  pub meta : Meta
  pub origin_msg : Buffer

pub record Run (Buffer Meta : Type 0) : Type 0 where
  pub codec : BrpcCodec Buffer Meta
  pub buffer : Buffer

-- `parse_from_array` is ParseFromArray of the generated class RpcMeta: its flag is not looked at.
module _ (B : BufferApi) (H : HeaderMapApi) {Meta : Type 0}
    (parse_from_array : List ℕ → Meta → Meta) where
  open B use {Buffer, empty, size, copy_out, move}

  abbrev pub Stage : Type 0
  Stage = Outcome (BrpcDecodeStatus × Run Buffer Meta)

  header_stage : Run Buffer Meta → Stage
  header_stage r =
      let (good, h) = decode_brpc_header B r.codec.brpc_header r.buffer in
      if ltb (size r.buffer) header_size
      then ok (BrpcDecodeStatus.wait_for_data, r)
      else if good
      then ok
          (BrpcDecodeStatus.decode_payload, record r { codec = record r.codec { brpc_header = h } })
      else throws (envoy_exception "brpc header invalid")

  -- linearize aborts when the header and the metadata it states are more than the buffer holds; a
  -- length of the metadata for which their sum wraps is read past the end, and taken as a crash too.
  body_stage : Run Buffer Meta → Stage
  body_stage r =
      let h = r.codec.brpc_header in
      let meta = parse_from_array (copy_out header_size h.meta_len r.buffer) r.codec.meta in
      let (msg, rest) = move empty r.buffer (frame_size h) in
      if ltb (size r.buffer) (frame_size h)
      then ok (BrpcDecodeStatus.wait_for_data, r)
      else if ltb (size r.buffer) (header_size + h.meta_len)
      then panics
      else ok (
        BrpcDecodeStatus.decode_done,
        record { codec = record r.codec { meta = meta; origin_msg = msg }; buffer = rest },
      )

  stage : BrpcDecodeStatus → Run Buffer Meta → Stage
  unfolding header_stage body_stage
  stage BrpcDecodeStatus.decode_header r = header_stage r
  stage BrpcDecodeStatus.decode_payload r = body_stage r
  stage _ r = panics

  handle_state : Run Buffer Meta → Stage
  unfolding stage
  handle_state r = stage r.codec.decode_status r

  abbrev at : BrpcDecodeStatus → Run Buffer Meta → Run Buffer Meta
  at d r = record r { codec = record r.codec { decode_status = d } }

  -- The status is stored before it is tested, `WaitForData` too.
  continue : (Run Buffer Meta → Stage) → BrpcDecodeStatus → Run Buffer Meta → Stage
  continue again BrpcDecodeStatus.wait_for_data r =
      ok (BrpcDecodeStatus.wait_for_data, at BrpcDecodeStatus.wait_for_data r)
  continue again d r = again (at d r)

  round : (Run Buffer Meta → Stage) → BrpcDecodeStatus → Run Buffer Meta → Stage
  unfolding continue handle_state
  round again BrpcDecodeStatus.decode_done r = ok (BrpcDecodeStatus.decode_done, r)
  round again d r =
      handle_state r >>= λ (t : BrpcDecodeStatus × Run Buffer Meta). continue again t.0 t.1

  loop : ℕ → Run Buffer Meta → Stage
  unfolding round
  loop zero r = stuck
  loop (suc fuel) r = round (loop fuel) r.codec.decode_status r

  abbrev pub Decoded : Type 0
  Decoded = DecodeStatus × BrpcCodec Buffer Meta × Buffer × Metadata B H

  finish : Metadata B H → BrpcDecodeStatus × Run Buffer Meta → Outcome Decoded
  finish m t =
      let r = t.1 in
      let (origin, msg) = move m.origin_message r.codec.origin_msg (size r.codec.origin_msg) in
      elim t.0 [
        | BrpcDecodeStatus.wait_for_data ↦ ok (DecodeStatus.wait_for_data, r.codec, r.buffer, m)
        | _ ↦ ok (
          DecodeStatus.done,
          record r.codec { decode_status = BrpcDecodeStatus.decode_header; origin_msg = msg },
          r.buffer,
          record m { origin_message = origin },
        )
      ]

  -- A message passes two stages before `decode_done`; the loop takes one round more.
  unfoldable pub decode : BrpcCodec Buffer Meta → Buffer → Metadata B H → Outcome Decoded
  unfolding loop finish
  decode codec buffer m = loop 3 (record { codec = codec; buffer = buffer }) >>= finish m
