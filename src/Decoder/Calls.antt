-- ===== src/Decoder/Calls.antt =====
-- What one call of DecoderBase::onData comes to, by what the codec answers.
use meta_protocol_proxy.Base.{
  ◌≡◌, refl, ap, ◌∙◌, ◌⊎◌, inl, inr, true, [], ◌==◌, ok, throws, Exception,
}
use meta_protocol_proxy.Codec.{MessageType, DecodeStatus}
use meta_protocol_proxy.Buffer.{BufferApi}
use meta_protocol_proxy.Metadata.{HeaderMapApi, Metadata, new_metadata}
use meta_protocol_proxy.Decoder.{
  CodecApi, Callbacks, ProtocolState, Run, on_data, on_decode_stream, after_decode, decoded_message,
  new_stream, after_run, started, complete, waiting,
}

module _ (B : BufferApi) (H : HeaderMapApi) (K : CodecApi B H) {W : Type 0} (C : Callbacks B H W)
    (r : Run B H K C) where
  open B use {Buffer, size}

  abbrev pub ready : Run B H K C
  ready = started B H K C r

  abbrev pub fresh : Metadata B H
  fresh = record (new_metadata B H) { message_type = ready.decoder.message_type }

  abbrev pub after_codec : K.State → Buffer → Run B H K C
  after_codec k b = record ready { decoder = record ready.decoder { codec = k }; buffer = b }

  module _ (k : K.State) (b : Buffer) (m : Metadata B H) where
    pub on_data_waits :
        K.decode ready.decoder.codec r.buffer fresh ≡ ok (DecodeStatus.wait_for_data, k, b, m)
        → on_data B H K C r
          ≡ ok (
            true,
            record (after_codec k b) {
              decoder = waiting B H K C (record ready.decoder { codec = k });
            },
          )
    unfolding on_data on_decode_stream after_decode after_run
    on_data_waits e = rw e refl

    decoded_response :
        (w : W) (q : Run B H K C)
        → (m.message_type ≡ MessageType.response) ⊎ (m.message_type ≡ MessageType.error)
        → C.on_message_decoded
            (C.new_message_handler q.world).0
            m
            []
            (C.new_message_handler q.world).1
          ≡ ok w
        → decoded_message B H K C m.message_type m q
          ≡ ok (
            ProtocolState.done,
            record q { decoder = record q.decoder { has_stream = true }; world = w },
          )
    unfolding decoded_message new_stream
    decoded_response w q (inl e) h =
        ap (λ (t : MessageType). decoded_message B H K C t m q) e ∙ rw h refl
    decoded_response w q (inr e) h =
        ap (λ (t : MessageType). decoded_message B H K C t m q) e ∙ rw h refl

    pub on_data_gives :
        (w : W)
        → K.decode ready.decoder.codec r.buffer fresh ≡ ok (DecodeStatus.done, k, b, m)
        → (m.message_type ≡ MessageType.response) ⊎ (m.message_type ≡ MessageType.error)
        → C.on_message_decoded
            (C.new_message_handler r.world).0
            m
            []
            (C.new_message_handler r.world).1
          ≡ ok w
        → on_data B H K C r
          ≡ ok (
            size b == 0,
            record (after_codec k b) {
              decoder = complete B H K C (record ready.decoder { codec = k });
              world = w;
            },
          )
    unfolding on_data on_decode_stream after_decode after_run
    on_data_gives w e t h = rw (e, decoded_response w (after_codec k b) t h) refl

  pub on_data_raises :
      (x : Exception)
      → K.decode ready.decoder.codec r.buffer fresh ≡ throws x
      → on_data B H K C r ≡ throws x
  unfolding on_data on_decode_stream
  on_data_raises x e = rw e refl
