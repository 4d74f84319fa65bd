-- ===== src/Router/UpstreamRequest/Readiness.antt =====
-- What becomes of a request to an upstream host whose connection is ready.
use Prim.Native.String.{String}
use meta_protocol_proxy.Base.{
  ℕ, ◌≡◌, refl, Bool, true, false, some, List, [], ◌∷◌, ◌++◌, not, if◌then◌else◌, Outcome, ok,
  Bool-cases, inl, inr,
}
use meta_protocol_proxy.Buffer.{BufferApi}
use meta_protocol_proxy.Codec.{MessageType}
use meta_protocol_proxy.Metadata.{HeaderMapApi, Metadata, put, put_string}
use meta_protocol_proxy.Decoder.{Mutation}
use meta_protocol_proxy.Router.UpstreamRequest.{
  OutlierResult, Effect, UpstreamRequest, is_request, encode_data, stream_started, is_stream_init,
  on_pool_ready,
}
use meta_protocol_proxy.Router.UpstreamRequest.Failures.{drained}

module _ (B : BufferApi) (H : HeaderMapApi) where
  open B use {Buffer, bytes, empty, size, drain}

  -- The parts of onPoolReady that depend on the type of the message.
  unfoldable pub callback_effects : MessageType → List Effect
  callback_effects MessageType.request = Effect.callbacks_added ∷ []
  callback_effects _ = []

  unfoldable pub stream_effects : MessageType → List Effect
  stream_effects MessageType.stream_init =
      Effect.stream_was_reset ∷ Effect.connection_given_to_stream ∷ []
  stream_effects _ = []

  unfoldable pub keeps_connection : MessageType → Bool
  keeps_connection MessageType.stream_init = false
  keeps_connection _ = true

  -- The effects of a connection that is ready, with the bytes that are written, as they are meant.
  abbrev pub ready_effects : String → UpstreamRequest B H → List ℕ → List Effect
  ready_effects host r written =
      Effect.host_selected (some host)
      ∷ Effect.outlier_put OutlierResult.connect_success
      ∷ ((callback_effects r.metadata.message_type
            ++ (if r.conn_pool_handle then Effect.decoding_continued ∷ [] else []))
          ++ (Effect.upstream_written written ∷ stream_effects r.metadata.message_type))

  abbrev pub ready_request : String → String → UpstreamRequest B H → Buffer → UpstreamRequest B H
  ready_request host address r b = record r {
    upstream_host = some host;
    conn_pool_handle = false;
    conn_data = keeps_connection r.metadata.message_type;
    metadata = put_string B H "x-meta-protocol-real-server-address" address r.metadata;
    upstream_request_buffer = b;
    request_complete = true;
  }

  callback_effects-is_request :
      (t : MessageType)
      → callback_effects t ≡ (if is_request B H t then Effect.callbacks_added ∷ [] else [])
  unfolding callback_effects
  callback_effects-is_request MessageType.request = refl
  callback_effects-is_request MessageType.response = refl
  callback_effects-is_request MessageType.oneway = refl
  callback_effects-is_request MessageType.stream_init = refl
  callback_effects-is_request MessageType.stream_data = refl
  callback_effects-is_request MessageType.stream_close_one_way = refl
  callback_effects-is_request MessageType.stream_close_two_way = refl
  callback_effects-is_request MessageType.heartbeat = refl
  callback_effects-is_request MessageType.error = refl

  stream_effects-is_stream_init :
      (t : MessageType)
      → stream_effects t ≡ (
          if is_stream_init B H t
          then Effect.stream_was_reset ∷ Effect.connection_given_to_stream ∷ []
          else [])
  unfolding stream_effects
  stream_effects-is_stream_init MessageType.request = refl
  stream_effects-is_stream_init MessageType.response = refl
  stream_effects-is_stream_init MessageType.oneway = refl
  stream_effects-is_stream_init MessageType.stream_init = refl
  stream_effects-is_stream_init MessageType.stream_data = refl
  stream_effects-is_stream_init MessageType.stream_close_one_way = refl
  stream_effects-is_stream_init MessageType.stream_close_two_way = refl
  stream_effects-is_stream_init MessageType.heartbeat = refl
  stream_effects-is_stream_init MessageType.error = refl

  keeps_connection-is_stream_init :
      (t : MessageType) → keeps_connection t ≡ not (is_stream_init B H t)
  unfolding keeps_connection
  keeps_connection-is_stream_init MessageType.request = refl
  keeps_connection-is_stream_init MessageType.response = refl
  keeps_connection-is_stream_init MessageType.oneway = refl
  keeps_connection-is_stream_init MessageType.stream_init = refl
  keeps_connection-is_stream_init MessageType.stream_data = refl
  keeps_connection-is_stream_init MessageType.stream_close_one_way = refl
  keeps_connection-is_stream_init MessageType.stream_close_two_way = refl
  keeps_connection-is_stream_init MessageType.heartbeat = refl
  keeps_connection-is_stream_init MessageType.error = refl

  -- When the connection is ready and the codec encodes the request: onPoolReady returns, with the host
  -- kept, the handle gone, the address of the host put into the metadata, the buffer of the request
  -- empty, the request complete and the connection kept unless the message opens a stream. It does
  -- just this, in this order: it tells the owner the host and puts the success down to it; it waits for
  -- the response of a request; it lets the decoding go on exactly when the request waited for the
  -- pool; it writes the encoded bytes once; and the connection of a stream it gives to the stream, once
  -- the owner is reset.
  pub on_pool_ready_lem :
      (encode : Metadata B H → Mutation → Buffer → Outcome Buffer) (host address : String)
      (r : UpstreamRequest B H) (b : Buffer)
      → encode
          (put_string B H "x-meta-protocol-real-server-address" address r.metadata)
          r.mutation
          r.upstream_request_buffer
        ≡ ok b
      → (b' : Buffer) × (on_pool_ready B H encode host address r
          ≡ ok (ready_request host address r b', ready_effects host r (bytes b)))
        × (bytes b' ≡ [])
  unfolding on_pool_ready encode_data stream_started put_string put
  on_pool_ready_lem encode host address r b e =
      let t = r.metadata.message_type in
      (
        drain (size b) b,
        elim (Bool-cases (is_stream_init B H t)) [
          | inl i ↦
              rw
                (
                  e,
                  callback_effects-is_request t,
                  stream_effects-is_stream_init t,
                  keeps_connection-is_stream_init t,
                  i,
                )
                refl
          | inr i ↦
              rw
                (
                  e,
                  callback_effects-is_request t,
                  stream_effects-is_stream_init t,
                  keeps_connection-is_stream_init t,
                  i,
                )
                refl
        ],
        drained B H b,
      )
