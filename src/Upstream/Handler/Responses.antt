-- ===== src/Upstream/Handler/Responses.antt =====
-- What onUpstreamData of UpstreamHandlerImpl does with a response.
use meta_protocol_proxy.Base.{
  ℕ, ◌≡◌, refl, ap, ◌∙◌, ◌⊎◌, Bool, true, false, Option, none, some, [], ◌∷◌, ◌++◌, if◌then◌else◌,
  Outcome, ok, ◌>>=◌,
}
use meta_protocol_proxy.Codec.{MessageType, DecodeStatus}
use meta_protocol_proxy.Buffer.{BufferApi}
use meta_protocol_proxy.Metadata.{HeaderMapApi, Metadata, new_metadata}
use meta_protocol_proxy.Decoder.{Mutation, CodecApi, DecoderBase, Run, on_data, waiting}
use meta_protocol_proxy.Decoder.Calls.{ready, on_data_waits, on_data_gives}
use meta_protocol_proxy.Filters.{UpstreamResponseStatus}
use meta_protocol_proxy.Upstream.Handler.{
  downstream_written, response_called, UpstreamHandlerImpl, UpstreamResponse, find_callback,
  erase_callback, World, on_message_decoded, on_response_decoded, decoder_callbacks, new_response,
  current, decoded, settled, on_upstream_data,
}

module _ (B : BufferApi) (H : HeaderMapApi) (K : CodecApi B H) (create_codec : K.State)
    (encode : Metadata B H → Mutation → B.Buffer → Outcome B.Buffer) (unset : Bool) where
  open B use {Buffer, bytes}

  abbrev TheWorld : Type 0
  TheWorld = World B H K create_codec encode unset

  -- The metadata that the codec is given for a response.
  abbrev pub blank : Metadata B H
  blank = record (new_metadata B H) { message_type = MessageType.response }

  answered :
      (m : Metadata B H) (b : Buffer) (w : TheWorld) (c : ℕ)
      → encode m [] m.origin_message ≡ ok b
      → find_callback m.request_id w.handler.response_callbacks ≡ some (some c)
      → on_response_decoded B H K create_codec encode unset m [] w
        ≡ ok (record {
          handler = record w.handler {
            response_callbacks = erase_callback m.request_id w.handler.response_callbacks;
          };
          complete = true;
          effects =
              (w.effects ++ downstream_written (bytes b) ∷ [])
              ++ response_called c m.request_id ∷ [];
        })
  unfolding on_response_decoded on_message_decoded
  answered m b w c e f = rw (e, f) refl

  -- A handler between responses: the next bytes find a new decoder.
  abbrev begun :
      UpstreamHandlerImpl K.State
      → Buffer
      → Run B H K (decoder_callbacks B H K create_codec encode unset)
  begun h b = record {
    decoder = (new_response B H K create_codec encode unset).decoder;
    buffer = b;
    world = record { handler = h; complete = unset; effects = [] };
  }

  started_anew :
      (h : UpstreamHandlerImpl K.State) (b : Buffer)
      → h.upstream_response ≡ none
      → on_upstream_data B H K create_codec encode unset h b ≡ (
          decoded B H K create_codec encode unset
            (begun h b).world
            (on_data B H K (decoder_callbacks B H K create_codec encode unset) (begun h b))
          >>= λ t. ok (settled B H K create_codec encode unset t))
  unfolding on_upstream_data
  started_anew h b e =
      ap
        (λ (o : Option (UpstreamResponse K.State)).
          let r = current B H K create_codec encode unset o in
          let w : TheWorld = record { handler = h; complete = r.complete; effects = [] } in
          (decoded B H K create_codec encode unset w (
              on_data B H K (decoder_callbacks B H K create_codec encode unset)
                (record { decoder = r.decoder; buffer = b; world = w }))
            >>= λ t. ok (settled B H K create_codec encode unset t)))
        e

  -- The whole of a response, on a handler between responses: the bytes that the codec encodes for it
  -- are written downstream once, then the callback of its request ID is called once and is there no
  -- more; the decoder is dropped, and what the codec left stays in the buffer, be it a further
  -- response.
  pub on_upstream_data_whole :
      (h : UpstreamHandlerImpl K.State) (b b' reply : Buffer) (k : K.State) (m : Metadata B H)
      (c : ℕ)
      → h.upstream_response ≡ none
      → K.decode create_codec b blank ≡ ok (DecodeStatus.done, k, b', m)
      → (m.message_type ≡ MessageType.response) ⊎ (m.message_type ≡ MessageType.error)
      → encode m [] m.origin_message ≡ ok reply
      → find_callback m.request_id h.response_callbacks ≡ some (some c)
      → on_upstream_data B H K create_codec encode unset h b
        ≡ ok (
          record {
            handler = record h {
              response_callbacks = erase_callback m.request_id h.response_callbacks;
              upstream_response = none;
            };
            complete = true;
            effects = downstream_written (bytes reply) ∷ response_called c m.request_id ∷ [];
          },
          some b',
        )
  unfolding decoded settled
  on_upstream_data_whole h b b' reply k m c e d t en f =
      let C = decoder_callbacks B H K create_codec encode unset in
      started_anew h b e
      ∙ rw
          (on_data_gives B H K C (begun h b) k b' m _ d t
            (answered m reply (begun h b).world c en f))
          refl

  settled_by :
      (u : Bool) (w : TheWorld) (d : DecoderBase K.State) (b : Buffer)
      → settled B H K create_codec encode unset (
        if u then UpstreamResponseStatus.complete else UpstreamResponseStatus.more_data,
        w,
        some (d, b),
      )
        ≡ (
          record w {
            handler = record w.handler {
              upstream_response =
                  if u then none else some (record { decoder = d; complete = w.complete });
            };
          },
          some b,
        )
  unfolding settled
  settled_by true w d b = refl
  settled_by false w d b = refl

  -- A response that has not arrived in full, on a handler between responses: the decoder and what its
  -- codec has taken are kept for the next bytes exactly when the member `complete_`, which nothing
  -- sets before the response is complete, happens to be false; nothing is written or called.
  pub on_upstream_data_part :
      (h : UpstreamHandlerImpl K.State) (b b' : Buffer) (k : K.State) (m : Metadata B H)
      → h.upstream_response ≡ none
      → K.decode create_codec b blank ≡ ok (DecodeStatus.wait_for_data, k, b', m)
      → (r : UpstreamResponse K.State) × (r.decoder.codec ≡ k)
        × (on_upstream_data B H K create_codec encode unset h b
            ≡ ok (
              record {
                handler = record h { upstream_response = if unset then none else some r };
                complete = unset;
                effects = [];
              },
              some b',
            ))
  unfolding decoded settled
  on_upstream_data_part h b b' k m e d =
      let C = decoder_callbacks B H K create_codec encode unset in
      let w = (begun h b).world in
      let d' : DecoderBase K.State =
        waiting B H K C (record (ready B H K C (begun h b)).decoder { codec = k }) in
      (
        record { decoder = d'; complete = unset },
        refl,
        started_anew h b e
            ∙ rw (on_data_waits B H K C (begun h b) k b' m d)
                (ap (λ (t : TheWorld × Option Buffer). ok t) (settled_by unset w d' b')),
      )
