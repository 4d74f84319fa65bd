-- ===== src/Brpc/Spin.antt =====
-- The bRPC codec under the dispatch loop, with a body length at which the frame size wraps to 0.
use meta_protocol_proxy.Base.{
  ℕ, ◌-◌, ◌^◌, ◌≡◌, ◌≢◌, ◌≤◌, sym, ap, ◌∙◌, List, [], ◌++◌, drop, length, ok, stuck, arith,
}
use meta_protocol_proxy.Codec.{MessageType, DecodeStatus}
use meta_protocol_proxy.Buffer.{BufferApi}
use meta_protocol_proxy.Metadata.{HeaderMapApi, Metadata}
use meta_protocol_proxy.Decoder.{CodecApi, Callbacks, Run, dispatch_loop}
use meta_protocol_proxy.Decoder.Spin.{dispatch_loop_spins}
use meta_protocol_proxy.Brpc.{BrpcHeader, BrpcDecodeStatus, BrpcCodec, frame_size, decode}
use meta_protocol_proxy.Brpc.Frames.{IsHeader, header_bytes, decode_frame, size_frame}

module _ (B : BufferApi) (H : HeaderMapApi) {Meta : Type 0}
    (parse_from_array : List ℕ → Meta → Meta) where
  open B use {Buffer, bytes, size}

  -- The bRPC codec behind the interface of the decoder.
  abbrev pub brpc_api : CodecApi B H
  brpc_api = record { State = BrpcCodec Buffer Meta; decode = decode B H parse_from_array }

  -- The buffer begins with a header whose frame size is 0 modulo 2 ^ 32, and holds the metadata that
  -- the header states.
  pub record Wraps (c : BrpcCodec Buffer Meta) (b : Buffer) : Type 0 where
    pub magic : ℕ
    pub header : BrpcHeader
    pub rest : List ℕ
    pub is_header : IsHeader header
    pub body : header.body_len ≡ 2 ^ 32 - 12
    pub meta : header.meta_len ≤ length rest
    pub ready : c.decode_status ≡ BrpcDecodeStatus.decode_header
    pub front : bytes b ≡ header_bytes magic header ++ rest

  decode_ready :
      (c : BrpcCodec Buffer Meta) (b : Buffer) (m : Metadata B H)
      → c.decode_status ≡ BrpcDecodeStatus.decode_header
      → decode B H parse_from_array
          (record c { decode_status = BrpcDecodeStatus.decode_header })
          b
          m
        ≡ decode B H parse_from_array c b m
  decode_ready c b m e = λ i. decode B H parse_from_array (record c { decode_status = sym e i }) b m

  module _ {W : Type 0} (C : Callbacks B H W)
      (handles : (h : C.Handler) (m : Metadata B H) (w : W)
        → (w' : W) × (C.on_message_decoded h m [] w ≡ ok w')) where
    Wraps-again :
        (c : BrpcCodec Buffer Meta) (b : Buffer) (m : Metadata B H)
        → Wraps c b
        → m.message_type ≡ MessageType.request
        → (c' : BrpcCodec Buffer Meta) × (b' : Buffer) × (m' : Metadata B H) × (decode B H
              parse_from_array c b m
            ≡ ok (DecodeStatus.done, c', b', m'))
          × Wraps c' b'
          × (size b' ≢ 0)
          × (m'.message_type ≢ MessageType.heartbeat)
    Wraps-again c b m v t =
        let zero_size : frame_size v.header ≡ 0 = omega (arith, v.body) in
        let (c', left, origin, e, ready, _, dropped) =
          decode_frame B H parse_from_array v.magic v.header v.is_header b v.rest v.front c m
            (omega (arith, v.body)) v.meta in
        let kept : bytes left ≡ header_bytes v.magic v.header ++ v.rest =
          dropped ∙ ap (λ (n : ℕ). drop n (header_bytes v.magic v.header ++ v.rest)) zero_size in
        (
          c',
          left,
          record m { origin_message = origin },
          sym (decode_ready c b m v.ready) ∙ e,
          record {
            magic = v.magic;
            header = v.header;
            rest = v.rest;
            is_header = v.is_header;
            body = v.body;
            meta = v.meta;
            ready = ready;
            front = kept;
          },
          λ (p : size left ≡ 0).
              absurd (omega (arith, p, size_frame B v.magic v.header v.is_header left v.rest kept)),
          λ (p : m.message_type ≡ MessageType.heartbeat). cc,
        )

    -- A request whose header says a body length of 2 ^ 32 - 12, and no more metadata than there is
    -- behind the header, keeps the dispatch loop of the
    -- connection running for ever: no number of rounds ends it, when the message handlers return.
    pub brpc_dispatch_spins :
        (fuel : ℕ) (r : Run B H brpc_api C)
        → r.decoder.message_type ≡ MessageType.request
        → Wraps r.decoder.codec r.buffer
        → dispatch_loop B H brpc_api C fuel r ≡ stuck
    brpc_dispatch_spins fuel r t v =
        dispatch_loop_spins B H brpc_api C {t = MessageType.request} {Spins = Wraps}
          (record { again = Wraps-again; handles = handles }) fuel r t v
