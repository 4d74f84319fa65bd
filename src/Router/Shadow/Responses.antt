-- ===== src/Router/Shadow/Responses.antt =====
-- What the bytes of a mirrored response come to, by what the codec answers.
use Prim.Native.String.{String}
use meta_protocol_proxy.Base.{
  ◌≡◌, refl, ◌⊎◌, Bool, true, false, Option, some, [], ◌∷◌, Outcome, ok, throws, panics, Exception,
  if◌then◌else◌,
}
use meta_protocol_proxy.Codec.{MessageType, DecodeStatus}
use meta_protocol_proxy.Buffer.{BufferApi}
use meta_protocol_proxy.Metadata.{HeaderMapApi, Metadata}
use meta_protocol_proxy.Decoder.{CodecApi, DecoderBase, complete, waiting}
use meta_protocol_proxy.Decoder.Calls.{ready, fresh, on_data_waits, on_data_gives, on_data_raises}
use meta_protocol_proxy.Router.UpstreamRequest.{
  Effect, UpstreamRequest, release_upstream_connection, on_response_complete,
}
use meta_protocol_proxy.Router.Shadow.{
  ShadowEffect, NullResponseDecoder, NullRun, null_callbacks, null_status, caught, decode,
  ShadowRouter, Step, shadow_effects, cleanup, on_status, decode_data, on_upstream_data,
}

module _ (B : BufferApi) (H : HeaderMapApi) (K : CodecApi B H) where
  open B use {Buffer, size}

  pub data CodecAnswer : Type 0 where
    gives : K.State → Buffer → Metadata B H → CodecAnswer
    waits : K.State → Buffer → Metadata B H → CodecAnswer
    fails : String → CodecAnswer

  abbrev pub outcome_of : CodecAnswer → Outcome (DecodeStatus × K.State × Buffer × Metadata B H)
  outcome_of (gives k b m) = ok (DecodeStatus.done, k, b, m)
  outcome_of (waits k b m) = ok (DecodeStatus.wait_for_data, k, b, m)
  outcome_of (fails e) = throws (Exception.envoy_exception e)

  -- A message that the codec gives is a response or an error.
  abbrev pub IsResponse : CodecAnswer → Type 0
  IsResponse (gives k b m) =
      (m.message_type ≡ MessageType.response) ⊎ (m.message_type ≡ MessageType.error)
  IsResponse _ = Unit

  module _ (q : UpstreamRequest B H) (d : DecoderBase K.State) where
    -- A mirrored request whose connection is there, and whose response is not complete.
    abbrev pub mirroring : ShadowRouter B H K
    mirroring = record {
      upstream_request = record q {
        response_complete = false;
        conn_pool_handle = false;
        conn_data = true;
      };
      removed = false;
      decoder = some (record { decoder = d; complete = false });
    }

    abbrev pub reading : Buffer → NullRun B H K
    reading b = record { decoder = d; buffer = b; world = false }

    abbrev kept : DecoderBase K.State → Bool → Option (NullResponseDecoder B H K)
    kept d' b = some (record { decoder = d'; complete = b })

    -- The router behind the whole of a response, or behind the end of the stream.
    abbrev pub ended : Bool → Option (NullResponseDecoder B H K) → Step B H K
    ended whole o = ok (
      record mirroring {
        upstream_request = record q {
          response_started = true;
          response_complete = whole;
          stream_reset = true;
          conn_pool_handle = false;
          conn_data = false;
        };
        removed = true;
        decoder = o;
      },
      ShadowEffect.upstream Effect.connection_released ∷ ShadowEffect.removed_from_list ∷ [],
    )

    abbrev pub expected : CodecAnswer → Bool → Buffer → Step B H K
    expected (gives k b' m) end_stream b = ended true (
        kept
          (complete B H K (null_callbacks B H K)
            (record (ready B H K (null_callbacks B H K) (reading b)).decoder { codec = k }))
          true)
    expected (waits k b' m) end_stream b =
        let d' =
          waiting B H K (null_callbacks B H K)
            (record (ready B H K (null_callbacks B H K) (reading b)).decoder { codec = k }) in
        if end_stream
        then ended false (kept d' false)
        else ok (
          record mirroring {
            upstream_request = record mirroring.upstream_request { response_started = true };
            decoder = kept d' false;
          },
          [],
        )
    expected (fails e) end_stream b = panics

    -- Bytes for a mirrored request whose connection is there, from an Envoy buffer and whatever the
    -- decoder has read before, with `complete_` false. With a whole response, the connection is
    -- released and the router removed from its list; with a part of one, the decoder keeps what the
    -- codec took, and the router goes only with the end of the stream. A response that the codec
    -- refuses with an EnvoyException crashes the proxy.
    pub on_upstream_data_mirrored :
        (a : CodecAnswer) (b : Buffer) (end_stream : Bool)
        → IsResponse a
        → K.decode
            (ready B H K (null_callbacks B H K) (reading b)).decoder.codec
            b
            (fresh B H K (null_callbacks B H K) (reading b))
          ≡ outcome_of a
        → on_upstream_data B H K b end_stream mirroring ≡ expected a end_stream b
    unfolding on_upstream_data decode_data decode caught null_status on_status cleanup
        release_upstream_connection on_response_complete shadow_effects
    on_upstream_data_mirrored (gives k b' m) b end_stream t e =
        rw (on_data_gives B H K (null_callbacks B H K) (reading b) k b' m true e t refl) refl
    on_upstream_data_mirrored (waits k b' m) b true t e =
        rw (on_data_waits B H K (null_callbacks B H K) (reading b) k b' m e) refl
    on_upstream_data_mirrored (waits k b' m) b false t e =
        rw (on_data_waits B H K (null_callbacks B H K) (reading b) k b' m e) refl
    on_upstream_data_mirrored (fails x) b end_stream t e =
        rw (on_data_raises B H K (null_callbacks B H K) (reading b) _ e) refl
