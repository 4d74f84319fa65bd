-- ===== src/Trpc/Header/RoundTrip.antt =====
-- `TrpcFixedHeader::encode` and `decode` against each other.
use meta_protocol_proxy.Base.{
  ℕ, ◌+◌, ◌^◌, ◌≤◌, ◌<◌, ◌≡◌, refl, sym, ap, ◌∙◌, Bool, true, false, List, ◌++◌, length, take, drop,
  if◌then◌else◌, arith, append_assoc, length-append, drop-append_length, take-append_length, le→ltb,
}
use meta_protocol_proxy.Buffer.{BufferApi, be_bytes, be_value}
use meta_protocol_proxy.Trpc.Header.{
  TrpcFixedHeader, trpc_magic_value, decode_header, encode_header, read_fields,
}

-- The widths of the members, and the magic number.
pub record IsHeader (h : TrpcFixedHeader) : Type 0 where
  pub magic : h.magic_value ≡ trpc_magic_value
  pub frame_type : h.data_frame_type < 2 ^ 8
  pub stream_type : h.stream_frame_type < 2 ^ 8
  pub frame_size : h.data_frame_size < 2 ^ 32
  pub header_size : h.pb_header_size < 2 ^ 16
  pub stream : h.stream_id < 2 ^ 32
  pub reserved_size : length h.reserved ≡ 2

-- The sixteen bytes of a header.
abbrev pub header_bytes : TrpcFixedHeader → List ℕ
header_bytes h =
    be_bytes 2 h.magic_value
    ++ (be_bytes 1 h.data_frame_type
        ++ (be_bytes 1 h.stream_frame_type
            ++ (be_bytes 4 h.data_frame_size
                ++ (be_bytes 2 h.pb_header_size ++ (be_bytes 4 h.stream_id ++ h.reserved)))))

module _ (B : BufferApi) where
  open B use {Buffer, bytes, empty, size, peek_be, copy_out}

  pub bytes-encode_header :
      (h : TrpcFixedHeader) (b : Buffer) → bytes (encode_header B h b).1 ≡ bytes b ++ header_bytes h
  unfolding encode_header
  bytes-encode_header h b = simp (B.bytes-add, B.bytes-write_be, append_assoc)

  -- What a read inside the buffer returns when the buffer begins with a header.
  module _ (h : TrpcFixedHeader) (v : IsHeader h) (b : Buffer) (rest : List ℕ)
      (e : bytes b ≡ header_bytes h ++ rest) where
    peeks :
        (w pos : ℕ)
        → pos + w ≤ length (header_bytes h ++ rest)
        → peek_be w pos b ≡ be_value (take w (drop pos (header_bytes h ++ rest)))
    peeks w pos lt = B.peek_be-bytes w pos b (rw e lt) ∙ rw e

    room : length (header_bytes h ++ rest) ≡ 16 + length rest
    room = omega (arith, length-append h.reserved rest, v.reserved_size)

    sized : size b ≡ 16 + length rest
    sized = B.size-bytes b ∙ ap (λ (l : List ℕ). length l) e ∙ room

    peeks_magic : peek_be 2 0 b ≡ h.magic_value
    peeks_magic = peeks 2 0 (omega (arith, room)) ∙ omega (arith, v.magic)

    peeks_frame_type : peek_be 1 2 b ≡ h.data_frame_type
    peeks_frame_type = peeks 1 2 (omega (arith, room)) ∙ omega (arith, v.frame_type)

    peeks_stream_type : peek_be 1 3 b ≡ h.stream_frame_type
    peeks_stream_type = peeks 1 3 (omega (arith, room)) ∙ omega (arith, v.stream_type)

    peeks_frame_size : peek_be 4 4 b ≡ h.data_frame_size
    peeks_frame_size = peeks 4 4 (omega (arith, room)) ∙ omega (arith, v.frame_size)

    peeks_header_size : peek_be 2 8 b ≡ h.pb_header_size
    peeks_header_size = peeks 2 8 (omega (arith, room)) ∙ omega (arith, v.header_size)

    peeks_stream : peek_be 4 10 b ≡ h.stream_id
    peeks_stream = peeks 4 10 (omega (arith, room)) ∙ omega (arith, v.stream)

    copies_reserved : copy_out 14 2 b ≡ h.reserved
    copies_reserved =
        B.copy_out-bytes 14 2 b (rw e (omega (arith, room)))
        ∙ rw e (take-append_length 2 h.reserved rest v.reserved_size)

    read_fields_lem :
        (h₀ : TrpcFixedHeader) → h₀.magic_value ≡ h.magic_value → read_fields B h₀ b ≡ h
    unfolding read_fields
    read_fields_lem h₀ m = λ i. record {
      magic_value = m i;
      data_frame_type = peeks_frame_type i;
      stream_frame_type = peeks_stream_type i;
      data_frame_size = peeks_frame_size i;
      pb_header_size = peeks_header_size i;
      stream_id = peeks_stream i;
      reserved = copies_reserved i;
    }

    drained : bytes (B.drain 16 b) ≡ rest
    drained =
        B.bytes-drain 16 b (rw e (omega (arith, room)))
        ∙ rw e (drop-append_length 2 h.reserved rest v.reserved_size)

    drained_if :
        (drains : Bool)
        → bytes (if drains then B.drain 16 b else b)
          ≡ (if drains then rest else header_bytes h ++ rest)
    drained_if true = drained
    drained_if false = e

    pub decode_header_lem :
        (h₀ : TrpcFixedHeader) (drains : Bool)
        → ((decode_header B h₀ b drains).0 ≡ true)
          × ((decode_header B h₀ b drains).1 ≡ h)
          × (bytes (decode_header B h₀ b drains).2
              ≡ (if drains then rest else header_bytes h ++ rest))
    unfolding decode_header
    decode_header_lem h₀ drains =
        rw (le→ltb (size b) 16 (omega (arith, sized)), peeks_magic ∙ v.magic)
          (
            refl,
            read_fields_lem (record h₀ { magic_value = trpc_magic_value }) (sym v.magic),
            drained_if drains,
          )

    -- The same call, with nothing drained: the buffer is the one that was given.
    pub decode_header_peek : (h₀ : TrpcFixedHeader) → decode_header B h₀ b false ≡ (true, h, b)
    unfolding decode_header
    decode_header_peek h₀ =
        rw (le→ltb (size b) 16 (omega (arith, sized)), peeks_magic ∙ v.magic)
          (λ i. (
            true,
            read_fields_lem (record h₀ { magic_value = trpc_magic_value }) (sym v.magic) i,
            b,
          ))

    pub size_header : size b ≡ 16 + length rest
    size_header = sized

  -- A buffer that begins with what `encode` writes for a well-formed header decodes to that header,
  -- from any earlier value of the members; what is behind it is left, and the sixteen bytes are
  -- drained exactly when asked.
  pub decode_header-encode_header :
      (h h₀ : TrpcFixedHeader) (b : Buffer) (rest : List ℕ) (drains : Bool)
      → IsHeader h
      → bytes b ≡ bytes (encode_header B h empty).1 ++ rest
      → ((decode_header B h₀ b drains).0 ≡ true)
        × ((decode_header B h₀ b drains).1 ≡ h)
        × (bytes (decode_header B h₀ b drains).2
            ≡ (if drains then rest else bytes (encode_header B h empty).1 ++ rest))
  decode_header-encode_header h h₀ b rest drains v e =
      let written : bytes (encode_header B h empty).1 ≡ header_bytes h =
        bytes-encode_header h empty ∙ ap (λ (l : List ℕ). l ++ header_bytes h) B.bytes-empty in
      let same : bytes b ≡ header_bytes h ++ rest = e ∙ ap (λ (l : List ℕ). l ++ rest) written in
      let (good, read, left) = decode_header_lem h v b rest same h₀ drains in
      (
        good,
        read,
        left
            ∙ ap (λ (l : List ℕ). if drains then rest else l)
                (ap (λ (l : List ℕ). l ++ rest) (sym written)),
      )
