-- ===== src/Trpc/Protocol/Mutation.antt =====
-- What Protocol::mutateHeader of protocol.h makes of a whole frame.
use Prim.Native.String.{String}
use meta_protocol_proxy.Base.{
  ℕ, ◌+◌, ◌%◌, ◌^◌, ◌∷◌, ◌≤◌, ◌≡◌, refl, sym, ap, ◌∙◌, true, some, List, [], ◌++◌, length, arith,
  le→ltb, length-append, append_assoc, take-append_length, drop-append_length, take_all, drop_all,
}
use meta_protocol_proxy.Buffer.{BufferApi}
use meta_protocol_proxy.Trpc.Header.{TrpcFixedHeader, get_payload_size, decode_header}
use meta_protocol_proxy.Trpc.Header.RoundTrip.{
  IsHeader, header_bytes, bytes-encode_header, decode_header_lem,
}
use meta_protocol_proxy.Trpc.Protocol.{
  ProtoApi, Protocol, sized_header, mutate, mutate_parsed, mutate_frame, mutate_header,
}

module _ (B : BufferApi) (P : ProtoApi) where
  open B use {Buffer, bytes, empty, size, copy_out, drain, move, add}
  open P use {Message, parse, serialize, set_trans_info}

  -- The message with the entries put in, one after another.
  unfoldable pub with_entries : Message → List (String × String) → Message
  with_entries m [] = m
  with_entries m ((k, v) ∷ es) = with_entries (set_trans_info k v m) es

  -- A header with the sizes of the bytes `head` and of as many bytes of body as `n`: the first is of
  -- sixteen bits, and the second, which adds it up, of thirty-two.
  abbrev pub resized : TrpcFixedHeader → List ℕ → ℕ → TrpcFixedHeader
  resized h head n = record h {
    pb_header_size = length head % 2 ^ 16;
    data_frame_size = (16 + length head % 2 ^ 16 + n) % 2 ^ 32;
  }

  mutate-with_entries :
      (es : List (String × String)) (m : Message) → mutate B P es m ≡ with_entries m es
  unfolding mutate with_entries
  mutate-with_entries [] m = refl
  mutate-with_entries ((k, v) ∷ es) m = mutate-with_entries es (set_trans_info k v m)

  sized_header-resized :
      (h : TrpcFixedHeader) (m : Message) (n : ℕ)
      → sized_header B P h m n ≡ resized h (serialize m) n
  unfolding sized_header
  sized_header-resized h m n =
      let size_eq = P.byte_size-serialize m in
      let header_eq : P.byte_size m % 2 ^ 16 ≡ length (serialize m) % 2 ^ 16 =
        omega (arith, size_eq) in
      let frame_eq : ((P.byte_size m % 2 ^ 16 + 16) % 2 ^ 32 + n) % 2 ^ 32
          ≡ (16 + length (serialize m) % 2 ^ 16 + n) % 2 ^ 32 =
        omega (arith, size_eq) in
      λ i. record h { pb_header_size = header_eq i; data_frame_size = frame_eq i }

  mutated :
      (mutation : List (String × String)) (q : Protocol Buffer Message) (body : List ℕ)
      (m : Message) (c : Buffer)
      → bytes c ≡ body
      → length body ≡ get_payload_size q.fixed_header
      → bytes (mutate_parsed B P mutation q c (some m)).2
        ≡ header_bytes (sized_header B P q.fixed_header (mutate B P mutation m) (length body))
          ++ (serialize (mutate B P mutation m) ++ body)
  unfolding mutate_parsed
  mutated mutation q body m c e l =
      let n = get_payload_size q.fixed_header in
      let fits : n ≤ length (bytes c) = rw e (omega (arith, l)) in
      let moved : bytes (move empty c n).0 ≡ body =
        B.bytes-move_to empty c n fits ∙ rw (B.bytes-empty, e, sym l) (take_all body) in
      let left : bytes (move empty c n).1 ≡ [] =
        B.bytes-move_from empty c n fits ∙ rw (e, sym l) (drop_all body) in
      let sized : size (move empty c n).0 ≡ length body =
        B.size-bytes (move empty c n).0 ∙ ap (λ (xs : List ℕ). length xs) moved in
      simp (B.bytes-add, bytes-encode_header B, moved, left, sized, append_assoc)

  framed :
      (mutation : List (String × String)) (p : Protocol Buffer Message) (n : ℕ)
      (h : TrpcFixedHeader) (c : Buffer)
      → h.data_frame_size ≤ n
      → mutate_frame B P mutation p n (true, h, c)
        ≡ mutate_parsed B P mutation
            (record p { fixed_header = h })
            (drain h.pb_header_size c)
            (parse (copy_out 0 h.pb_header_size c))
  unfolding mutate_frame
  framed mutation p n h c le = rw (le→ltb n h.data_frame_size le) refl

  frame_length :
      (h : TrpcFixedHeader) (v : IsHeader h) (b : Buffer) (head body : List ℕ)
      → bytes b ≡ header_bytes h ++ (head ++ body)
      → length (bytes b) ≡ 16 + length head + length body
  frame_length h v b head body e =
      ap (λ (xs : List ℕ). length xs) e
      ∙ omega
          (arith, v.reserved_size, length-append h.reserved (head ++ body), length-append head body)

  -- On a buffer that holds just one frame, whose protocol header `head` parses, mutateHeader
  -- answers true and leaves the frame with the protocol header that has all the entries, the same
  -- body, and a fixed header with the size of the new protocol header modulo 2 ^ 16, and with that
  -- size, the sixteen bytes and the size of the body added up modulo 2 ^ 32.
  pub mutate_header_lem :
      (mutation : List (String × String)) (p : Protocol Buffer Message) (h : TrpcFixedHeader)
      (head body : List ℕ) (m : Message) (b : Buffer)
      → IsHeader h
      → bytes b ≡ header_bytes h ++ (head ++ body)
      → length head ≡ h.pb_header_size
      → 16 + length head + length body ≡ h.data_frame_size
      → parse head ≡ some m
      → ((mutate_header B P mutation p b).0 ≡ true)
        × (bytes (mutate_header B P mutation p b).2
            ≡ header_bytes (resized h (serialize (with_entries m mutation)) (length body))
              ++ (serialize (with_entries m mutation) ++ body))
  unfolding mutate_header mutate_parsed
  mutate_header_lem mutation p h head body m b v e hl fl pm =
      let d = decode_header B p.fixed_header b true in
      let (read, same, behind) = decode_header_lem B h v b (head ++ body) e p.fixed_header true in
      let read_all : d ≡ (true, h, d.2) = λ i. (read i, same i, d.2) in
      let c = drain h.pb_header_size d.2 in
      let q = record p { fixed_header = h } in
      let room : h.pb_header_size ≤ length (bytes d.2) =
        rw behind (omega (arith, hl, length-append head body)) in
      let copied : copy_out 0 h.pb_header_size d.2 ≡ head =
        B.copy_out-bytes 0 h.pb_header_size d.2 (omega (arith, room))
        ∙ rw behind (take-append_length h.pb_header_size head body hl) in
      let left : bytes c ≡ body =
        B.bytes-drain h.pb_header_size d.2 room
        ∙ rw behind (drop-append_length h.pb_header_size head body hl) in
      let whole : h.data_frame_size ≤ size b =
        omega (arith, fl, B.size-bytes b, frame_length h v b head body e) in
      let done : mutate_header B P mutation p b ≡ mutate_parsed B P mutation q c (some m) =
        ap (mutate_frame B P mutation p (size b)) read_all
        ∙ framed mutation p (size b) h d.2 whole
        ∙ ap (mutate_parsed B P mutation q c) (ap parse copied ∙ pm) in
      (
        ap (λ r. r.0) done,
        ap (λ r. bytes r.2) done
            ∙ mutated mutation q body m c left (omega (arith, hl, fl, v.frame_size, v.header_size))
            ∙ ap
                (λ (x : TrpcFixedHeader).
                  header_bytes x ++ (serialize (mutate B P mutation m) ++ body))
                (sized_header-resized h (mutate B P mutation m) (length body))
            ∙ ap
                (λ (x : Message).
                  header_bytes (resized h (serialize x) (length body)) ++ (serialize x ++ body))
                (mutate-with_entries mutation m),
      )
