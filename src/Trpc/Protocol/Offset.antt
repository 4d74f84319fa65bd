-- ===== src/Trpc/Protocol/Offset.antt =====
-- Which bytes Protocol::decode of protocol.h takes for the protocol header.
use meta_protocol_proxy.Base.{
  ℕ, ◌+◌, ◌≤◌, ◌≡◌, refl, ap, ◌∙◌, true, some, List, ◌++◌, length, take, drop, arith, le→ltb,
}
use meta_protocol_proxy.Buffer.{BufferApi}
use meta_protocol_proxy.Trpc.Header.{TrpcFixedHeader, decode_header, trpc_proto_prefix_space}
use meta_protocol_proxy.Trpc.Header.RoundTrip.{
  IsHeader, header_bytes, decode_header_lem, size_header,
}
use meta_protocol_proxy.Trpc.Protocol.{ProtoApi, Protocol, decode_parsed, decode_rest, decode}

module _ (B : BufferApi) (P : ProtoApi) where
  open B use {Buffer, bytes, size, copy_out, drain}
  open P use {Message, parse}

  rest_lem :
      (p : Protocol Buffer Message) (n : ℕ) (h : TrpcFixedHeader) (c : Buffer)
      → h.data_frame_size ≤ n
      → decode_rest B P p n (true, h, c)
        ≡ decode_parsed B P
            (record p { fixed_header = h })
            (drain h.pb_header_size c)
            (parse (copy_out trpc_proto_prefix_space h.pb_header_size c))
  unfolding decode_rest
  rest_lem p n h c le = rw (le→ltb n h.data_frame_size le) refl

  -- On a buffer with a whole frame and enough bytes behind it, decode takes as the protocol header
  -- the bytes that stand sixteen behind the end of the fixed header, and not those next to it.
  pub decode_offset :
      (p : Protocol Buffer Message) (h : TrpcFixedHeader) (rest : List ℕ) (m : Message) (b : Buffer)
      → IsHeader h
      → bytes b ≡ header_bytes h ++ rest
      → 16 + h.pb_header_size ≤ length rest
      → h.data_frame_size ≤ 16 + length rest
      → parse (take h.pb_header_size (drop 16 rest)) ≡ some m
      → ((decode B P p b).0 ≡ true) × ((decode B P p b).1.protocol_header ≡ m)
  unfolding decode decode_parsed
  decode_offset p h rest m b v e long whole pm =
      let d = decode_header B p.fixed_header b true in
      let (read, same, behind) = decode_header_lem B h v b rest e p.fixed_header true in
      let read_all : d ≡ (true, h, d.2) = λ i. (read i, same i, d.2) in
      let room : 16 + h.pb_header_size ≤ length (bytes d.2) = rw behind long in
      let copied : copy_out trpc_proto_prefix_space h.pb_header_size d.2
          ≡ take h.pb_header_size (drop 16 rest) =
        B.copy_out-bytes trpc_proto_prefix_space h.pb_header_size d.2 room ∙ rw behind refl in
      let fits : h.data_frame_size ≤ size b = omega (arith, size_header B h v b rest e) in
      let done : decode B P p b
          ≡ decode_parsed B P (record p { fixed_header = h }) (drain h.pb_header_size d.2)
              (some m) =
        ap (decode_rest B P p (size b)) read_all
        ∙ rest_lem p (size b) h d.2 fits
        ∙ ap (decode_parsed B P (record p { fixed_header = h }) (drain h.pb_header_size d.2))
            (ap parse copied ∙ pm) in
      (ap (λ r. r.0) done, ap (λ r. r.1.protocol_header) done)
