-- ===== src/Brpc/Frames.antt =====
-- What `BrpcCodec::decode` does with whole, partial and malformed messages.
use meta_protocol_proxy.Base.{
  ℕ, zero, suc, ◌+◌, ◌%◌, ◌^◌, ◌≤◌, ◌<◌, ◌≡◌, refl, sym, ap, ◌∙◌, true, List, ◌++◌, length, take,
  drop, Outcome, ok, throws, panics, stuck, ◌>>=◌, arith, le→ltb, lt→ltb,
}
use meta_protocol_proxy.Codec.{DecodeStatus}
use meta_protocol_proxy.Buffer.{BufferApi, be_bytes}
use meta_protocol_proxy.Buffer.Moves.{bytes-move_all}
use meta_protocol_proxy.Metadata.{HeaderMapApi, Metadata}
use meta_protocol_proxy.Brpc.{
  BrpcHeader, BrpcDecodeStatus, BrpcCodec, Run, frame_size, decode_brpc_header, encode_brpc_header,
  header_stage, body_stage, stage, handle_state, continue, round, loop, finish, decode,
}

pub record IsHeader (h : BrpcHeader) : Type 0 where
  pub body : h.body_len < 2 ^ 32
  pub meta : h.meta_len < 2 ^ 32

-- The twelve bytes of a header, the first four of them free.
abbrev pub header_bytes : ℕ → BrpcHeader → List ℕ
header_bytes magic h = be_bytes 4 magic ++ (be_bytes 4 h.body_len ++ be_bytes 4 h.meta_len)

module _ (B : BufferApi) where
  open B use {Buffer, bytes, empty, size, peek_be}

  module _ (magic : ℕ) (h : BrpcHeader) (v : IsHeader h) (b : Buffer) (rest : List ℕ)
      (e : bytes b ≡ header_bytes magic h ++ rest) where
    pub size_frame : size b ≡ 12 + length rest
    size_frame = B.size-bytes b ∙ ap (λ (l : List ℕ). length l) e ∙ omega arith

    peeks_body : peek_be 4 4 b ≡ h.body_len
    peeks_body = B.peek_be-bytes 4 4 b (rw e (omega arith)) ∙ rw e (omega (arith, v.body))

    peeks_meta : peek_be 4 8 b ≡ h.meta_len
    peeks_meta = B.peek_be-bytes 4 8 b (rw e (omega arith)) ∙ rw e (omega (arith, v.meta))

    pub decode_brpc_header_lem : (h₀ : BrpcHeader) → decode_brpc_header B h₀ b ≡ (true, h)
    unfolding decode_brpc_header
    decode_brpc_header_lem h₀ =
        rw (le→ltb (size b) 12 (omega (arith, size_frame)))
          (λ i. (true, record { body_len = peeks_body i; meta_len = peeks_meta i }))

  -- A buffer that begins with an encoded header decodes to it, from any earlier value and whatever
  -- the magic number in front is.
  pub decode_brpc_header-encode_brpc_header :
      (magic : ℕ) (h h₀ : BrpcHeader) (b : Buffer) (rest : List ℕ)
      → IsHeader h
      → bytes b ≡ bytes (encode_brpc_header B magic h empty).1 ++ rest
      → decode_brpc_header B h₀ b ≡ (true, h)
  unfolding encode_brpc_header
  decode_brpc_header-encode_brpc_header magic h h₀ b rest v e =
      decode_brpc_header_lem magic h v b rest (e ∙ simp (B.bytes-write_be, B.bytes-empty)) h₀

module _ (B : BufferApi) (H : HeaderMapApi) {Meta : Type 0}
    (parse_from_array : List ℕ → Meta → Meta) where
  open B use {Buffer, bytes, empty, size, move, copy_out}

  module _ (again : Run Buffer Meta → Outcome (BrpcDecodeStatus × Run Buffer Meta))
      (later : (r q : Run Buffer Meta)
        → again r ≡ ok (BrpcDecodeStatus.wait_for_data, q)
        → q.codec.decode_status ≡ BrpcDecodeStatus.wait_for_data) where
    continue_waits :
        (d : BrpcDecodeStatus) (r q : Run Buffer Meta)
        → continue B H parse_from_array again d r ≡ ok (BrpcDecodeStatus.wait_for_data, q)
        → q.codec.decode_status ≡ BrpcDecodeStatus.wait_for_data
    unfolding continue
    continue_waits BrpcDecodeStatus.wait_for_data r q e = ground arith
    continue_waits _ r q e = later _ q e

    stage_waits :
        (o : Outcome (BrpcDecodeStatus × Run Buffer Meta)) (q : Run Buffer Meta)
        → (o >>= λ (t : BrpcDecodeStatus × Run Buffer Meta).
            continue B H parse_from_array again t.0 t.1)
          ≡ ok (BrpcDecodeStatus.wait_for_data, q)
        → q.codec.decode_status ≡ BrpcDecodeStatus.wait_for_data
    stage_waits (ok (d, r)) q e = continue_waits d r q e
    stage_waits (throws x) q e = cc
    stage_waits panics q e = cc
    stage_waits stuck q e = cc

    round_waits :
        (d : BrpcDecodeStatus) (r q : Run Buffer Meta)
        → round B H parse_from_array again d r ≡ ok (BrpcDecodeStatus.wait_for_data, q)
        → q.codec.decode_status ≡ BrpcDecodeStatus.wait_for_data
    unfolding round
    round_waits BrpcDecodeStatus.decode_done r q e = cc
    round_waits _ r q e = stage_waits (handle_state B H parse_from_array r) q e

  loop_leaves_wait :
      (fuel : ℕ) (r q : Run Buffer Meta)
      → loop B H parse_from_array fuel r ≡ ok (BrpcDecodeStatus.wait_for_data, q)
      → q.codec.decode_status ≡ BrpcDecodeStatus.wait_for_data
  unfolding loop
  loop_leaves_wait zero r q e = cc
  loop_leaves_wait (suc fuel) r q e =
      round_waits (loop B H parse_from_array fuel) (loop_leaves_wait fuel) r.codec.decode_status r q
        e

  finish_waits :
      (t : Outcome (BrpcDecodeStatus × Run Buffer Meta)) (c' : BrpcCodec Buffer Meta) (b' : Buffer)
      (m m' : Metadata B H)
      → (t >>= finish B H parse_from_array m) ≡ ok (DecodeStatus.wait_for_data, c', b', m')
      → (q : Run Buffer Meta) × (t ≡ ok (BrpcDecodeStatus.wait_for_data, q)) × (q.codec ≡ c')
  unfolding finish
  finish_waits (ok (BrpcDecodeStatus.wait_for_data, r)) c' b' m m' e = (r, refl, ground arith)
  finish_waits (ok (BrpcDecodeStatus.decode_header, r)) c' b' m m' e = cc
  finish_waits (ok (BrpcDecodeStatus.decode_payload, r)) c' b' m m' e = cc
  finish_waits (ok (BrpcDecodeStatus.decode_done, r)) c' b' m m' e = cc
  finish_waits (throws x) c' b' m m' e = cc
  finish_waits panics c' b' m m' e = cc
  finish_waits stuck c' b' m m' e = cc

  decode_in_wait :
      (c : BrpcCodec Buffer Meta) (b : Buffer) (m : Metadata B H)
      → c.decode_status ≡ BrpcDecodeStatus.wait_for_data
      → decode B H parse_from_array c b m ≡ panics
  unfolding decode loop round handle_state stage
  decode_in_wait c b m e = simp (e, decode, loop, round, handle_state, stage)

  -- Whenever decode asks for more data, the next call with the same codec panics, whatever the
  -- buffer holds by then.
  pub decode_wait_panics :
      (c c' : BrpcCodec Buffer Meta) (b b' later : Buffer) (m m' m₂ : Metadata B H)
      → decode B H parse_from_array c b m ≡ ok (DecodeStatus.wait_for_data, c', b', m')
      → decode B H parse_from_array c' later m₂ ≡ panics
  unfolding decode
  decode_wait_panics c c' b b' later m m' m₂ e =
      let w =
        finish_waits (loop B H parse_from_array 3 (record { codec = c; buffer = b })) c' b' m m'
          e in
      decode_in_wait c' later m₂ (
        ap (λ (k : BrpcCodec Buffer Meta). k.decode_status) (sym w.2)
        ∙ loop_leaves_wait 3 _ w.0 w.1)

  module _ (magic : ℕ) (h : BrpcHeader) (v : IsHeader h) (b : Buffer) (rest : List ℕ)
      (e : bytes b ≡ header_bytes magic h ++ rest) where
    length-frame : length (bytes b) ≡ 12 + length rest
    length-frame = sym (B.size-bytes b) ∙ size_frame B magic h v b rest e

    -- A message in front of the buffer that is there, with the metadata that its header states, and a
    -- codec that waits for a header: decode consumes `12 + body_len` modulo 2 ^ 32 bytes, appends
    -- them to the message of the metadata, and is ready for the next header. Nothing else of the
    -- metadata changes.
    pub decode_frame :
        (c : BrpcCodec Buffer Meta) (m : Metadata B H)
        → (12 + h.body_len) % 2 ^ 32 ≤ 12 + length rest
        → h.meta_len ≤ length rest
        → (c' : BrpcCodec Buffer Meta) × (left origin : Buffer) × (decode B H parse_from_array
              (record c { decode_status = BrpcDecodeStatus.decode_header })
              b
              m
            ≡ ok (DecodeStatus.done, c', left, record m { origin_message = origin }))
          × (c'.decode_status ≡ BrpcDecodeStatus.decode_header)
          × (bytes origin
              ≡ bytes m.origin_message
                ++ take ((12 + h.body_len) % 2 ^ 32) (header_bytes magic h ++ rest))
          × (bytes left ≡ drop ((12 + h.body_len) % 2 ^ 32) (header_bytes magic h ++ rest))
    unfolding decode loop round continue handle_state stage header_stage body_stage finish
    decode_frame c m whole stated =
        let parts = move empty b (frame_size h) in
        let origins = move m.origin_message parts.0 (size parts.0) in
        (
          record c {
            decode_status = BrpcDecodeStatus.decode_header;
            brpc_header = h;
            meta = parse_from_array (copy_out 12 h.meta_len b) c.meta;
            origin_msg = origins.1;
          },
          parts.1,
          origins.0,
          rw (
            le→ltb (size b) 12 (omega (arith, size_frame B magic h v b rest e)),
            decode_brpc_header_lem B magic h v b rest e c.brpc_header,
            le→ltb (size b) (frame_size h) (omega (arith, size_frame B magic h v b rest e)),
            le→ltb (size b) (12 + h.meta_len) (omega (arith, size_frame B magic h v b rest e)),
          ),
          refl,
          bytes-move_all B m.origin_message (move empty b (frame_size h)).0
              ∙ ap (λ (l : List ℕ). bytes m.origin_message ++ l)
                  (B.bytes-move_to empty b (frame_size h) (omega (arith, length-frame))
                    ∙ rw (B.bytes-empty, e)),
          B.bytes-move_from empty b (frame_size h) (omega (arith, length-frame)) ∙ rw e,
        )

    -- A whole message whose header states more metadata than the buffer holds: decode crashes.
    decode_crashes :
        (c : BrpcCodec Buffer Meta) (m : Metadata B H)
        → (12 + h.body_len) % 2 ^ 32 ≤ 12 + length rest
        → length rest < h.meta_len
        → decode B H parse_from_array
            (record c { decode_status = BrpcDecodeStatus.decode_header })
            b
            m
          ≡ panics
    unfolding decode loop round continue handle_state stage header_stage body_stage finish
    decode_crashes c m whole more =
        rw
          (
            le→ltb (size b) 12 (omega (arith, size_frame B magic h v b rest e)),
            decode_brpc_header_lem B magic h v b rest e c.brpc_header,
            le→ltb (size b) (frame_size h) (omega (arith, size_frame B magic h v b rest e)),
            lt→ltb (size b) (12 + h.meta_len) (omega (arith, size_frame B magic h v b rest e)),
          )
          refl
