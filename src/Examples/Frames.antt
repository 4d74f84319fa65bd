-- ===== src/Examples/Frames.antt =====
-- Fixed headers and frames of tRPC and bRPC.
use meta_protocol_proxy.Base.{
  ℕ, ◌+◌, ◌≡◌, refl, true, List, [], ◌∷◌, length, some, ◌++◌, take, drop, ok, panics, stuck, arith,
}
use meta_protocol_proxy.Codec.{MessageType, DecodeStatus}
use meta_protocol_proxy.Buffer.ByteList.{byte_list}
use meta_protocol_proxy.Decoder.{new_decoder, dispatch_loop}
use meta_protocol_proxy.Trpc.Header.{
  TrpcFixedHeader, new_fixed_header, decode_header, encode_header, trpc_magic_value,
}
use meta_protocol_proxy.Trpc.Header.RoundTrip.{IsHeader, header_bytes, decode_header-encode_header}
use meta_protocol_proxy.Trpc.Checker.{CodecCheckerCallbacks, DecodeStage, new_checker, on_data}
use meta_protocol_proxy.Trpc.Checker.Framing.{on_data_unary}
use meta_protocol_proxy.Trpc.Protocol.Offset.{decode_offset}
use meta_protocol_proxy.Trpc.Protocol.{decode as protocol_decode, ProtoApi, Protocol, mutate_header}
use meta_protocol_proxy.Trpc.Protocol.Mutation.{resized, with_entries, mutate_header_lem}
use meta_protocol_proxy.Brpc.{BrpcHeader, BrpcDecodeStatus, BrpcCodec, decode}
use meta_protocol_proxy.Brpc.Frames.{
  IsHeader as IsBrpcHeader, header_bytes as brpc_bytes, decode_wait_panics, decode_frame,
}
use meta_protocol_proxy.Brpc.Spin.{brpc_api, brpc_dispatch_spins}
use meta_protocol_proxy.Examples.{headers, message, counter}

-- A unary tRPC frame with a protocol header of one byte and a body of two.
abbrev unary : TrpcFixedHeader
unary = record {
  magic_value = trpc_magic_value;
  data_frame_type = 0;
  stream_frame_type = 0;
  data_frame_size = 19;
  pb_header_size = 1;
  stream_id = 0;
  reserved = 0 ∷ 0 ∷ [];
}

unary-IsHeader : IsHeader unary
unary-IsHeader = record {
  magic = refl;
  frame_type = omega arith;
  stream_type = omega arith;
  frame_size = omega arith;
  header_size = omega arith;
  stream = omega arith;
  reserved_size = refl;
}

abbrev behind : List ℕ
behind = 1 ∷ 2 ∷ 3 ∷ 4 ∷ []

decode_header-encode_header_example :
    ((decode_header byte_list new_fixed_header (header_bytes unary ++ behind) true).0 ≡ true)
    × ((decode_header byte_list new_fixed_header (header_bytes unary ++ behind) true).1 ≡ unary)
    × ((decode_header byte_list new_fixed_header (header_bytes unary ++ behind) true).2 ≡ behind)
unfolding encode_header
decode_header-encode_header_example =
    decode_header-encode_header byte_list unary new_fixed_header (header_bytes unary ++ behind)
      behind true unary-IsHeader refl

abbrev accepting : CodecCheckerCallbacks (List ℕ) ℕ
accepting = record {
  on_fixed_header_decoded = λ h s. s;
  on_unary_header = λ bytes s. ok (true, s + 1);
  on_stream_frame = λ bytes s. ok (true, s);
  on_completed = λ msg s. s + 10;
}

on_data_unary_example :
    (msg left : List ℕ) × (on_data byte_list accepting
        (record { checker = new_checker; client = 0; buffer = header_bytes unary ++ behind })
      ≡ ok (DecodeStage.decode_done, record { checker = new_checker; client = 11; buffer = left }))
    × (msg ≡ take 19 (header_bytes unary ++ behind))
    × (left ≡ drop 19 (header_bytes unary ++ behind))
on_data_unary_example =
    on_data_unary byte_list accepting unary unary-IsHeader
      (record { checker = new_checker; client = 0; buffer = header_bytes unary ++ behind }) behind
      refl 1 refl refl (omega arith) (omega arith) refl

abbrev short : BrpcHeader
short = record { body_len = 3; meta_len = 1 }

short-IsHeader : IsBrpcHeader short
short-IsHeader = record { body = omega arith; meta = omega arith }

abbrev brpc_codec : BrpcCodec (List ℕ) (List ℕ)
brpc_codec = record {
  decode_status = BrpcDecodeStatus.decode_header;
  brpc_header = record { body_len = 0; meta_len = 0 };
  meta = [];
  origin_msg = [];
}

abbrev parse : List ℕ → List ℕ → List ℕ
parse bytes meta = bytes

decode_frame_example :
    (c' : BrpcCodec (List ℕ) (List ℕ)) × (left origin : List ℕ) × (decode byte_list headers parse
        brpc_codec
        (brpc_bytes 5 short ++ behind)
        message
      ≡ ok (DecodeStatus.done, c', left, record message { origin_message = origin }))
    × (c'.decode_status ≡ BrpcDecodeStatus.decode_header)
    × (origin ≡ 7 ∷ 8 ∷ take 15 (brpc_bytes 5 short ++ behind))
    × (left ≡ drop 15 (brpc_bytes 5 short ++ behind))
decode_frame_example =
    decode_frame byte_list headers parse 5 short short-IsHeader (brpc_bytes 5 short ++ behind)
      behind refl brpc_codec message (omega arith) (omega arith)

short_waits :
    decode byte_list headers parse brpc_codec [] message
    ≡ ok (
      DecodeStatus.wait_for_data,
      record brpc_codec { decode_status = BrpcDecodeStatus.wait_for_data },
      [],
      message,
    )
unfolding decode
short_waits = refl

decode_wait_panics_example :
    decode byte_list headers parse
      (record brpc_codec { decode_status = BrpcDecodeStatus.wait_for_data })
      behind
      message
    ≡ panics
decode_wait_panics_example =
    decode_wait_panics byte_list headers parse brpc_codec
      (record brpc_codec { decode_status = BrpcDecodeStatus.wait_for_data }) [] [] behind message
      message message short_waits

abbrev wrapping : BrpcHeader
wrapping = record { body_len = 4294967284; meta_len = 0 }

brpc_dispatch_spins_example :
    dispatch_loop byte_list headers (brpc_api byte_list headers parse) counter 1000 (record {
      decoder = new_decoder brpc_codec MessageType.request;
      buffer = brpc_bytes 5 wrapping;
      world = 0;
    })
    ≡ stuck
brpc_dispatch_spins_example =
    brpc_dispatch_spins byte_list headers parse counter (λ h m w. (w + 1, refl)) 1000
      (record {
        decoder = new_decoder brpc_codec MessageType.request;
        buffer = brpc_bytes 5 wrapping;
        world = 0;
      })
      refl
      (record {
        magic = 5;
        header = wrapping;
        rest = [];
        is_header = record { body = omega arith; meta = omega arith };
        body = refl;
        meta = omega arith;
        ready = refl;
        front = refl;
      })

-- Protobuf messages that are their bytes; a mutation puts one byte more in front.
abbrev plain : ProtoApi
plain = record {
  Message = List ℕ;
  parse = λ bytes. some bytes;
  serialize = λ m. m;
  byte_size = λ m. length m;
  set_trans_info = λ key value m. 255 ∷ m;
  byte_size-serialize = λ m. refl;
}

abbrev protocol : Protocol (List ℕ) (List ℕ)
protocol = record { fixed_header = unary; protocol_header = []; body = [] }

mutate_header_lem_example :
    ((mutate_header byte_list plain
        (("k", "v") ∷ [])
        protocol
        (header_bytes unary ++ (1 ∷ 2 ∷ 3 ∷ []))).0
      ≡ true)
    × ((mutate_header byte_list plain
          (("k", "v") ∷ [])
          protocol
          (header_bytes unary ++ (1 ∷ 2 ∷ 3 ∷ []))).2
        ≡ header_bytes (resized byte_list plain unary (255 ∷ 1 ∷ []) 2) ++ (255 ∷ 1 ∷ 2 ∷ 3 ∷ []))
unfolding with_entries
mutate_header_lem_example =
    mutate_header_lem byte_list plain (("k", "v") ∷ []) protocol unary (1 ∷ []) (2 ∷ 3 ∷ [])
      (1 ∷ []) (header_bytes unary ++ (1 ∷ 2 ∷ 3 ∷ [])) unary-IsHeader refl refl refl refl

-- Sixteen bytes, the first of them the protocol header of `unary`, and two more.
abbrev sixteen_and_two : List ℕ
sixteen_and_two = 1 ∷ 2 ∷ 3 ∷ 0 ∷ 0 ∷ 0 ∷ 0 ∷ 0 ∷ 0 ∷ 0 ∷ 0 ∷ 0 ∷ 0 ∷ 0 ∷ 0 ∷ 0 ∷ 77 ∷ 78 ∷ []

decode_offset_example :
    ((protocol_decode byte_list plain protocol (header_bytes unary ++ sixteen_and_two)).0 ≡ true)
    × ((protocol_decode byte_list plain protocol
          (header_bytes unary ++ sixteen_and_two)).1.protocol_header
        ≡ 77 ∷ [])
decode_offset_example =
    decode_offset byte_list plain protocol unary sixteen_and_two (77 ∷ [])
      (header_bytes unary ++ sixteen_and_two) unary-IsHeader refl (omega arith) (omega arith) refl
