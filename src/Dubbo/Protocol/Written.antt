-- ===== src/Dubbo/Protocol/Written.antt =====
-- The messages that DubboProtocolImpl writes.
use Prim.Native.String.{String}
use text.Mathlib.Text.{◌==◌ as str_eq}
use meta_protocol_proxy.Base.{
  ℕ, ◌+◌, ◌^◌, ◌≤◌, ◌<◌, ◌≡◌, refl, sym, ap, ◌∙◌, true, false, some, List, [], ◌++◌, length, take,
  drop, ok, arith, append_assoc, length-append, take-append_length, drop-append_length, drop_all,
}
use meta_protocol_proxy.Buffer.{BufferApi, be_bytes, be_value}
use meta_protocol_proxy.Buffer.Moves.{bytes-move_all}
use meta_protocol_proxy.Metadata.{HeaderMapApi}
use meta_protocol_proxy.Dubbo.Message.{
  HessianApi, MessageType, Attachment, RpcInvocation, MessageMetadata, Context,
}
use meta_protocol_proxy.Dubbo.Protocol.{
  sub_size, rewrite_attachment, rewrite_updated, header_mutation, heartbeat_bytes, status_byte,
  encode_type, encode, decode_header, parse_info, is_valid_response_status,
  parse_response_info_from_buffer,
}

module _ (B : BufferApi) (H : HeaderMapApi) (X : HessianApi) where
  open B use {Buffer, bytes, empty, size, peek_be, drain, move, add, write_be}
  open X use {encode_map}

  -- A message whose attachment begins behind `kept` bytes of the body.
  pub record Framed (b : Buffer) (a : Attachment H X) (head old kept rest : List ℕ) : Type 0 where
    pub front : bytes b ≡ head ++ (old ++ (kept ++ rest))
    pub head_size : length head ≡ 12
    pub old_size : length old ≡ 4
    pub offset : a.offset ≡ 16 + length kept
    pub kept_size : length kept < 2 ^ 64

  module _ (a : Attachment H X) (b : Buffer) (head old kept rest : List ℕ)
      (f : Framed b a head old kept rest) where
    abbrev origin : Buffer
    origin = (move empty b (size b)).0

    bytes-origin : bytes origin ≡ head ++ (old ++ (kept ++ rest))
    bytes-origin = bytes-move_all B empty b ∙ rw (B.bytes-empty, f.front) refl

    emptied : bytes (move empty b (size b)).1 ≡ []
    emptied =
        B.bytes-move_from empty b (size b) (omega (arith, B.size-bytes b))
        ∙ rw (B.size-bytes b) (drop_all (bytes b))

    kept_bytes : sub_size a.offset 16 ≡ length kept
    kept_bytes = omega (arith, f.offset, f.kept_size)

    abbrev header_moved : Buffer × Buffer
    header_moved = move (move empty b (size b)).1 origin (sub_size 16 4)

    bytes-header : bytes header_moved.0 ≡ head
    bytes-header =
        B.bytes-move_to (move empty b (size b)).1 origin 12
          (rw bytes-origin (omega (arith, f.head_size, length-append head (old ++ (kept ++ rest)))))
        ∙ rw (emptied, bytes-origin)
            (take-append_length 12 head (old ++ (kept ++ rest)) f.head_size)

    bytes-behind : bytes (drain 4 header_moved.1) ≡ kept ++ rest
    bytes-behind =
        let o : bytes header_moved.1 ≡ old ++ (kept ++ rest) =
          B.bytes-move_from (move empty b (size b)).1 origin 12 (
            rw bytes-origin
              (omega (arith, f.head_size, length-append head (old ++ (kept ++ rest)))))
          ∙ rw bytes-origin (drop-append_length 12 head (old ++ (kept ++ rest)) f.head_size) in
        B.bytes-drain 4 header_moved.1
          (rw o (omega (arith, f.old_size, length-append old (kept ++ rest))))
        ∙ rw o (drop-append_length 4 old (kept ++ rest) f.old_size)

    abbrev encoded : Buffer
    encoded = add empty (encode_map a.entries)

    bytes-encoded : bytes encoded ≡ encode_map a.entries
    bytes-encoded = B.bytes-add empty (encode_map a.entries) ∙ rw B.bytes-empty refl

    size-encoded : size encoded ≡ length (encode_map a.entries)
    size-encoded = B.size-bytes encoded ∙ ap (λ (l : List ℕ). length l) bytes-encoded

    pub bytes-rewrite_attachment :
        bytes (rewrite_attachment B H X a 16 b)
        ≡ head
          ++ (be_bytes 4 (length kept + length (encode_map a.entries))
              ++ (kept ++ encode_map a.entries))
    unfolding rewrite_attachment
    bytes-rewrite_attachment =
        let n = sub_size a.offset 16 in
        let sized = write_be 4 (n + size encoded) header_moved.0 in
        let fits : n ≤ length (bytes (drain 4 header_moved.1)) =
          rw bytes-behind (omega (arith, kept_bytes, length-append kept rest)) in
        let size_written : bytes sized
            ≡ head ++ be_bytes 4 (length kept + length (encode_map a.entries)) =
          B.bytes-write_be 4 (n + size encoded) header_moved.0
          ∙ rw (bytes-header, kept_bytes, size-encoded) refl in
        let body_moved : bytes (move sized (drain 4 header_moved.1) n).0 ≡ bytes sized ++ kept =
          B.bytes-move_to sized (drain 4 header_moved.1) n fits
          ∙ rw bytes-behind (
              ap (λ (l : List ℕ). bytes sized ++ l)
                (take-append_length n kept rest (sym kept_bytes))) in
        bytes-move_all B (move sized (drain 4 header_moved.1) n).0 encoded
        ∙ rw (body_moved, bytes-encoded, size_written)
            (append_assoc (head ++ be_bytes 4 (length kept + length (encode_map a.entries))) kept
                (encode_map a.entries)
              ∙ append_assoc head (be_bytes 4 (length kept + length (encode_map a.entries)))
                  (kept ++ encode_map a.entries))

    rewrites :
        (i : RpcInvocation H X) (m : MessageMetadata H X) (ctx : Context Buffer)
        → m.invocation_info ≡ some i
        → i.attachment ≡ some a
        → a.updated ≡ true
        → ctx.header_size ≡ 16
        → header_mutation B H X m ctx b ≡ rewrite_attachment B H X a 16 b
    unfolding header_mutation rewrite_updated
    rewrites i m ctx ei ea eu eh = rw (ei, ea, eu, eh) refl

  stated :
      (head tail : List ℕ) (n : ℕ)
      → length head ≡ 12
      → n < 2 ^ 32
      → be_value (take 4 (drop 12 (head ++ (be_bytes 4 n ++ tail)))) ≡ n
  stated head tail n l lt =
      rw (drop-append_length 12 head (be_bytes 4 n ++ tail) l) (omega (arith, lt))

  -- A request whose attachment was changed, and begins behind `kept` bytes of the body, is written
  -- with the header that it had but for the body size, the same bytes up to the attachment, and the
  -- attachment encoded again; the body size that it states is the one that it has, when that is less
  -- than 2 ^ 32.
  pub encode_updated :
      (a : Attachment H X) (b : Buffer) (head old kept rest : List ℕ) (i : RpcInvocation H X)
      (m : MessageMetadata H X) (ctx : Context Buffer) (content : String)
      → Framed b a head old kept rest
      → m.message_type ≡ MessageType.request
      → m.invocation_info ≡ some i
      → i.attachment ≡ some a
      → a.updated ≡ true
      → ctx.header_size ≡ 16
      → length kept + length (encode_map a.entries) < 2 ^ 32
      → (b' : Buffer) × (encode B H X b m ctx content ≡ ok b')
        × (bytes b'
            ≡ head
              ++ (be_bytes 4 (length kept + length (encode_map a.entries))
                  ++ (kept ++ encode_map a.entries)))
        × (length (bytes b') ≡ 16 + be_value (take 4 (drop 12 (bytes b'))))
  unfolding encode encode_type header_mutation
  encode_updated a b head old kept rest i m ctx content f em ei ea eu eh lt =
      let n = length kept + length (encode_map a.entries) in
      let tail = kept ++ encode_map a.entries in
      let e = bytes-rewrite_attachment a b head old kept rest f in
      (
        rewrite_attachment B H X a 16 b,
        rw em (ap (λ (x : Buffer). ok x) (rewrites a b head old kept rest f i m ctx ei ea eu eh)),
        e,
        rw e (
            omega (
              arith,
              stated head tail n f.head_size lt,
              f.head_size,
              length-append head (be_bytes 4 n ++ tail),
              length-append kept (encode_map a.entries),
            )),
      )

  abbrev heartbeat_frame : ℕ → List ℕ
  heartbeat_frame id =
      be_bytes 2 55995
      ++ (be_bytes 1 34 ++ (be_bytes 1 20 ++ (be_bytes 8 id ++ (be_bytes 4 1 ++ be_bytes 1 78))))

  bytes-heartbeat :
      (m : MessageMetadata H X) (b : Buffer)
      → m.serialization_type ≡ 2
      → bytes (heartbeat_bytes B H X m b 20) ≡ heartbeat_frame m.request_id
  unfolding heartbeat_bytes
  bytes-heartbeat m b e =
      let cleared : bytes (drain (size b) b) ≡ [] =
        B.bytes-drain (size b) b (omega (arith, B.size-bytes b))
        ∙ rw (B.size-bytes b) (drop_all (bytes b)) in
      rw e (simp (B.bytes-write_be, cleared, append_assoc))

  module _ (id : ℕ) (lt : id < 2 ^ 64) (b : Buffer) (e : bytes b ≡ heartbeat_frame id) where
    heartbeat_peeks :
        (w pos : ℕ)
        → pos + w ≤ 17
        → peek_be w pos b ≡ be_value (take w (drop pos (heartbeat_frame id)))
    heartbeat_peeks w pos le = B.peek_be-bytes w pos b (rw e le) ∙ rw e refl

    heartbeat_size : size b ≡ 17
    heartbeat_size = B.size-bytes b ∙ rw e refl

    heartbeat_id : peek_be 8 4 b ≡ id
    heartbeat_id = heartbeat_peeks 8 4 (omega arith) ∙ omega (arith, lt)

    heartbeat_read :
        (m : MessageMetadata H X)
        → decode_header B H X b m
          ≡ ok (
            record m {
              message_type = MessageType.heartbeat_response;
              response_status = some 20;
              request_id = id;
            },
            some (record {
              header_size = 16;
              body_size = 1;
              is_heartbeat = true;
              origin_message = empty;
            }),
          )
    unfolding decode_header parse_info parse_response_info_from_buffer is_valid_response_status
    heartbeat_read m =
        rw
          (
            heartbeat_size,
            heartbeat_peeks 2 0 (omega arith),
            heartbeat_peeks 1 2 (omega arith),
            heartbeat_peeks 1 3 (omega arith),
            heartbeat_peeks 4 12 (omega arith),
            heartbeat_id,
          )
          refl

  -- A heartbeat response with status Ok and the one serialization there is, is written as the
  -- seventeen bytes of one frame, whatever the buffer held, and decodeHeader reads it as a heartbeat
  -- response with the same number and status.
  pub decode_header-encode_heartbeat :
      (m n : MessageMetadata H X) (ctx : Context Buffer) (b : Buffer) (content : String)
      → m.message_type ≡ MessageType.heartbeat_response
      → m.response_status ≡ some 20
      → m.serialization_type ≡ 2
      → m.request_id < 2 ^ 64
      → (b' : Buffer) × (encode B H X b m ctx content ≡ ok b')
        × (size b' ≡ 17)
        × (decode_header B H X b' n
            ≡ ok (
              record n {
                message_type = MessageType.heartbeat_response;
                response_status = some 20;
                request_id = m.request_id;
              },
              some (record {
                header_size = 16;
                body_size = 1;
                is_heartbeat = true;
                origin_message = empty;
              }),
            ))
  unfolding encode encode_type status_byte
  decode_header-encode_heartbeat m n ctx b content em es et lt =
      let b' = heartbeat_bytes B H X m b 20 in
      let e = bytes-heartbeat m b et in
      (
        b',
        rw (em, es) refl,
        heartbeat_size m.request_id lt b' e,
        heartbeat_read m.request_id lt b' e n,
      )

  pub encode_response_silent :
      (m : MessageMetadata H X) (ctx : Context Buffer) (b : Buffer) (content : String)
      → m.message_type ≡ MessageType.response
      → str_eq content "addheader" ≡ false
      → encode B H X b m ctx content ≡ ok b
  unfolding encode encode_type
  encode_response_silent m ctx b content em es = rw (em, es) refl
