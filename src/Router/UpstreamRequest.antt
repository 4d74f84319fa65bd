-- ===== src/Router/UpstreamRequest.antt =====
-- UpstreamRequestBase, UpstreamRequest and UpstreamRequestByHandler of
-- src/meta_protocol_proxy/filters/router/upstream_request.h and upstream_request.cc. The calls of the
-- owner, the pool, the host and the handler are a list of effects; what these call back is not run.
pub mod Failures
pub mod Readiness
use Prim.Native.String.{String, ◌++◌ as str_append}
use meta_protocol_proxy.Base.{
  ℕ, Bool, true, false, Option, none, some, List, [], ◌∷◌, ◌++◌, not, if◌then◌else◌, ◌&&◌, Outcome,
  ok, panics, ◌>>=◌,
}
use meta_protocol_proxy.Codec.{MessageType, real_server_address}
use meta_protocol_proxy.Buffer.{BufferApi}
use meta_protocol_proxy.Metadata.{HeaderMapApi, Metadata, put_string}
use meta_protocol_proxy.Decoder.{Mutation}
use meta_protocol_proxy.Filters.{FilterStatus}

-- ConnectionPool::PoolFailureReason
pub data PoolFailureReason : Type 0 where
  overflow local_connection_failure remote_connection_failure timeout : PoolFailureReason

pub data ConnectionEvent : Type 0 where
  remote_close local_close connected : ConnectionEvent

-- Upstream::Outlier::Result, as far as it is put.
pub data OutlierResult : Type 0 where
  connect_failed connect_success connect_timeout : OutlierResult
  ext_origin_request_failed ext_origin_request_success : OutlierResult

-- A local reply is given by its message: its type is Unspecified and it does not end the stream.
pub data Effect : Type 0 where
  host_selected : Option String → Effect
  decoding_continued : Effect
  local_reply_sent : String → Effect
  stream_was_reset : Effect
  outlier_put : OutlierResult → Effect
  pool_cancelled : Effect
  callbacks_added : Effect
  connection_closed : Effect
  connection_released : Effect
  connection_given_to_stream : Effect
  upstream_written : List ℕ → Effect
  handler_callbacks_added : Effect
  handler_callbacks_removed : Effect

module _ (B : BufferApi) (H : HeaderMapApi) where
  open B use {Buffer, bytes, empty, size, drain, move}

  -- The members of the base class and of UpstreamRequest; of the handle and the connection only
  -- whether they are there. UpstreamRequestByHandler has neither.
  pub record UpstreamRequest : Type 0 where
    pub metadata : Metadata B H
    pub mutation : Mutation
    pub upstream_host : Option String
    pub upstream_request_buffer : Buffer
    pub request_complete : Bool
    pub response_started : Bool
    pub response_complete : Bool
    pub stream_reset : Bool
    pub conn_pool_handle : Bool
    pub conn_data : Bool

  abbrev pub Call : Type 0
  Call = Outcome (UpstreamRequest × List Effect)

  -- A call after a call: its effects come behind.
  abbrev pub then_do : Call → (UpstreamRequest → Call) → Call
  then_do c f = c >>= λ (t : UpstreamRequest × List Effect).
      (f t.0 >>= λ (u : UpstreamRequest × List Effect). ok (u.0, t.1 ++ u.1))

  abbrev pub effect : List Effect → UpstreamRequest → Call
  effect es r = ok (r, es)

  -- The constructor, which takes the bytes of the message.
  unfoldable pub new_request : Metadata B H → Mutation → UpstreamRequest
  new_request m mutation =
      let (data_buffer, rest) = move empty m.origin_message (size m.origin_message) in
      record {
        metadata = record m { origin_message = rest };
        mutation = mutation;
        upstream_host = none;
        upstream_request_buffer = data_buffer;
        request_complete = false;
        response_started = false;
        response_complete = false;
        stream_reset = false;
        conn_pool_handle = false;
        conn_data = false;
      }

  -- UpstreamRequest::start: whether the pool gave a handle to wait for.
  unfoldable pub start : Bool → UpstreamRequest → FilterStatus × UpstreamRequest
  start waits r =
      if waits
      then (FilterStatus.pause_iteration, record r { conn_pool_handle = true })
      else (FilterStatus.continue_iteration, r)

  unfoldable pub release_upstream_connection :
      Bool → UpstreamRequest → UpstreamRequest × List Effect
  release_upstream_connection close r = (
    record r { stream_reset = true; conn_pool_handle = false; conn_data = false },
    (if r.conn_pool_handle then pool_cancelled ∷ [] else [])
        ++ (if close && r.conn_data then connection_closed ∷ [] else [])
        ++ (if r.conn_data then connection_released ∷ [] else []),
  )

  abbrev message_with : String → String → String → String
  message_with front host back =
      str_append "meta protocol upstream request: " (str_append front (str_append host back))

  unfoldable pub reply_about : (String → String) → Option String → UpstreamRequest → Call
  reply_about f none r = panics
  reply_about f (some host) r = ok (r, local_reply_sent (f host) ∷ [])

  -- The messages of onUpstreamConnectionReset; all but one name the host.
  abbrev pub reply_message : PoolFailureReason → String → String
  reply_message overflow host = "meta protocol upstream request: too many connections"
  reply_message local_connection_failure host = message_with "local connection failure '" host "'"
  reply_message remote_connection_failure host = message_with "remote connection failure '" host "'"
  reply_message timeout host = message_with "connection failure '" host "' due to timeout"

  unfoldable pub reset_reply : PoolFailureReason → UpstreamRequest → Call
  unfolding reply_about
  reset_reply overflow r = ok (r, local_reply_sent (reply_message overflow "") ∷ [])
  reset_reply reason r = reply_about (reply_message reason) r.upstream_host r

  abbrev pub is_oneway : MessageType → Bool
  is_oneway MessageType.oneway = true
  is_oneway _ = false

  unfoldable pub on_upstream_connection_reset : PoolFailureReason → UpstreamRequest → Call
  unfolding reset_reply
  on_upstream_connection_reset reason r =
      if is_oneway r.metadata.message_type
      then ok (r, stream_was_reset ∷ [])
      else then_do (reset_reply reason r)
          (λ r'. effect (if r'.response_complete then [] else stream_was_reset ∷ []) r')

  unfoldable pub put_for : Option String → OutlierResult → UpstreamRequest → Call
  put_for none result r = panics
  put_for (some _) result r = ok (r, outlier_put result ∷ [])

  unfoldable pub put_outlier : OutlierResult → UpstreamRequest → Call
  unfolding put_for
  put_outlier result r = put_for r.upstream_host result r

  unfoldable pub on_upstream_connection_event : ConnectionEvent → UpstreamRequest → Call
  unfolding on_upstream_connection_reset put_outlier
  on_upstream_connection_event remote_close r =
      then_do (on_upstream_connection_reset remote_connection_failure r)
        (put_outlier connect_failed)
  on_upstream_connection_event local_close r =
      on_upstream_connection_reset local_connection_failure r
  on_upstream_connection_event connected r = panics

  abbrev pub is_connection_error : PoolFailureReason → Bool
  is_connection_error overflow = false
  is_connection_error _ = true

  -- The result that is put for the host of the pool, which may be null.
  unfoldable pub outlier_of : PoolFailureReason → Option String → UpstreamRequest → Call
  unfolding put_for
  outlier_of timeout host r = put_for host connect_timeout r
  outlier_of remote_connection_failure host r = put_for host connect_failed r
  outlier_of _ host r = ok (r, [])

  abbrev pub drained_request : UpstreamRequest → UpstreamRequest
  drained_request r = record r {
    upstream_request_buffer = drain (size r.upstream_request_buffer) r.upstream_request_buffer;
  }

  -- UpstreamRequest::onPoolFailure, with the host, which is null when the pool refuses to begin. The
  -- host's result is put before the decoding goes on.
  unfoldable pub on_pool_failure : PoolFailureReason → Option String → UpstreamRequest → Call
  unfolding on_upstream_connection_reset outlier_of
  on_pool_failure reason host r = then_do (ok (r, host_selected host ∷ [])) λ r₁.
      then_do
        (on_upstream_connection_reset reason
          (record r₁ { conn_pool_handle = false; upstream_host = host }))
        λ r₂.
          then_do (outlier_of reason host (drained_request r₂))
            (effect (if is_connection_error reason then decoding_continued ∷ [] else []))

  -- UpstreamRequestByHandler::onPoolFailure puts no result.
  unfoldable pub on_handler_pool_failure :
      PoolFailureReason → Option String → UpstreamRequest → Call
  unfolding on_upstream_connection_reset
  on_handler_pool_failure reason host r = then_do (ok (r, host_selected host ∷ [])) λ r₁.
      then_do (on_upstream_connection_reset reason (record r₁ { upstream_host = host })) λ r₂. ok (
        record r₂ {
          upstream_request_buffer =
              drain (size r₂.upstream_request_buffer) r₂.upstream_request_buffer;
        },
        if is_connection_error reason then decoding_continued ∷ [] else [],
      )

  abbrev pub is_request : MessageType → Bool
  is_request MessageType.request = true
  is_request _ = false

  abbrev pub is_stream_init : MessageType → Bool
  is_stream_init MessageType.stream_init = true
  is_stream_init _ = false

  unfoldable pub on_response_complete : UpstreamRequest → UpstreamRequest × List Effect
  on_response_complete r = (
    record r { response_complete = true; conn_data = false },
    if r.conn_data then connection_released ∷ [] else [],
  )

  -- `encode` is the call on a new codec.
  module _ (encode : Metadata B H → Mutation → Buffer → Outcome Buffer) where
    -- encodeData; the write takes all of the buffer.
    unfoldable pub encode_data : UpstreamRequest → Call
    encode_data r = encode r.metadata r.mutation r.upstream_request_buffer >>= λ (b : Buffer).
        ok
          (record r { upstream_request_buffer = drain (size b) b }, upstream_written (bytes b) ∷ [])

    -- What is done once the connection is there, before the data is written.
    abbrev pub connected_request : String → String → UpstreamRequest → UpstreamRequest
    connected_request host address r = record r {
      upstream_host = some host;
      conn_data = true;
      conn_pool_handle = false;
      metadata = put_string B H real_server_address address r.metadata;
    }

    abbrev pub connected_effects : String → UpstreamRequest → List Effect
    connected_effects host r =
        host_selected (some host)
          ∷ outlier_put connect_success
          ∷ (if is_request r.metadata.message_type then callbacks_added ∷ [] else [])
        ++ (if r.conn_pool_handle then decoding_continued ∷ [] else [])

    unfoldable pub stream_started : UpstreamRequest → Call
    stream_started r =
        if is_stream_init r.metadata.message_type
        then ok (
          record r { conn_data = false; request_complete = true },
          stream_was_reset ∷ connection_given_to_stream ∷ [],
        )
        else ok (record r { request_complete = true }, [])

    -- UpstreamRequest::onPoolReady, with the address of the connection's remote end.
    unfoldable pub on_pool_ready : String → String → UpstreamRequest → Call
    unfolding encode_data stream_started
    on_pool_ready host address r =
        then_do (ok (connected_request host address r, connected_effects host r))
          λ r₁. then_do (encode_data r₁) stream_started

    -- UpstreamRequestByHandler::onPoolReady
    unfoldable pub on_handler_pool_ready : String → UpstreamRequest → Call
    unfolding encode_data
    on_handler_pool_ready host r =
        then_do
          (ok (
            record r { upstream_host = some host },
            host_selected (some host) ∷ decoding_continued ∷ [],
          ))
          λ r₁. then_do (encode_data r₁) λ r₂. ok (record r₂ { request_complete = true }, [])

    -- UpstreamRequestByHandler::start
    unfoldable pub start_by_handler :
        Bool → UpstreamRequest → Outcome (FilterStatus × UpstreamRequest × List Effect)
    unfolding encode_data
    start_by_handler pool_ready r =
        if pool_ready
        then (encode_data r >>= λ (t : UpstreamRequest × List Effect).
            ok (FilterStatus.continue_iteration, t.0, t.1))
        else ok (FilterStatus.pause_iteration, r, handler_callbacks_added ∷ [])

  -- UpstreamRequestByHandler::releaseUpStreamConnection
  unfoldable pub release_handler : UpstreamRequest → UpstreamRequest × List Effect
  release_handler r = (r, handler_callbacks_removed ∷ [])
