-- ===== src/Router/UpstreamRequest/Failures.antt =====
-- What becomes of a request to an upstream host when the pool fails.
use Prim.Native.String.{String, ◌++◌ as str_append}
use meta_protocol_proxy.Base.{
  ◌≡◌, refl, ◌∙◌, Bool, false, Option, none, some, List, [], ◌∷◌, ◌++◌, if◌then◌else◌, ok,
  Bool-cases, inl, inr, drop_all, arith,
}
use meta_protocol_proxy.Buffer.{BufferApi}
use meta_protocol_proxy.Codec.{MessageType}
use meta_protocol_proxy.Metadata.{HeaderMapApi}
use meta_protocol_proxy.Router.UpstreamRequest.{
  PoolFailureReason, OutlierResult, Effect, UpstreamRequest, is_oneway, reset_reply, reply_about,
  on_upstream_connection_reset, is_connection_error, outlier_of, put_for, then_do, effect,
  drained_request, on_pool_failure,
}

module _ (B : BufferApi) (H : HeaderMapApi) where
  open B use {Buffer, bytes, empty, size, drain}

  pub drained : (b : Buffer) → bytes (drain (size b) b) ≡ []
  drained b =
      B.bytes-drain (size b) b (omega (arith, B.size-bytes b))
      ∙ rw (B.size-bytes b) (drop_all (bytes b))

  -- The hosts that the pool may give with a failure: any, or none, when it refuses to begin, and else
  -- one that is there.
  pub data HasHost : PoolFailureReason → Option String → Type 0 where
    refused_to_begin : {host : Option String} → HasHost PoolFailureReason.overflow host
    named : {reason : PoolFailureReason} (host : String) → HasHost reason (some host)

  abbrev pub name_of : Option String → String
  name_of none = ""
  name_of (some host) = host

  -- The texts of the replies.
  unfoldable pub reply_text : PoolFailureReason → String → String
  reply_text PoolFailureReason.overflow host =
      "meta protocol upstream request: too many connections"
  reply_text PoolFailureReason.local_connection_failure host =
      str_append "meta protocol upstream request: "
        (str_append "local connection failure '" (str_append host "'"))
  reply_text PoolFailureReason.remote_connection_failure host =
      str_append "meta protocol upstream request: "
        (str_append "remote connection failure '" (str_append host "'"))
  reply_text PoolFailureReason.timeout host =
      str_append "meta protocol upstream request: "
        (str_append "connection failure '" (str_append host "' due to timeout"))

  -- What the owner is told of the failure, by the type of the request and by whether its response is
  -- complete; what is put down to the host; and whether the decoding goes on.
  unfoldable pub answer_effects : MessageType → Bool → String → List Effect
  answer_effects MessageType.oneway complete text = Effect.stream_was_reset ∷ []
  answer_effects _ complete text =
      Effect.local_reply_sent text ∷ (if complete then [] else Effect.stream_was_reset ∷ [])

  unfoldable pub final_effects : PoolFailureReason → List Effect
  final_effects PoolFailureReason.overflow = []
  final_effects PoolFailureReason.local_connection_failure = Effect.decoding_continued ∷ []
  final_effects PoolFailureReason.remote_connection_failure =
      Effect.outlier_put OutlierResult.connect_failed ∷ Effect.decoding_continued ∷ []
  final_effects PoolFailureReason.timeout =
      Effect.outlier_put OutlierResult.connect_timeout ∷ Effect.decoding_continued ∷ []

  -- The effects of a failure, as they are meant.
  abbrev pub failure_effects : PoolFailureReason → Option String → UpstreamRequest B H → List Effect
  failure_effects reason host r =
      Effect.host_selected host
      ∷ (answer_effects r.metadata.message_type r.response_complete
            (reply_text reason (name_of host))
          ++ final_effects reason)

  abbrev failed : Option String → UpstreamRequest B H → UpstreamRequest B H
  failed host r = record r { conn_pool_handle = false; upstream_host = host }

  replied :
      (reason : PoolFailureReason) (host : Option String) (r : UpstreamRequest B H)
      → HasHost reason host
      → reset_reply B H reason (failed host r)
        ≡ ok (failed host r, Effect.local_reply_sent (reply_text reason (name_of host)) ∷ [])
  unfolding reset_reply reply_about reply_text
  replied PoolFailureReason.overflow host r h = refl
  replied PoolFailureReason.local_connection_failure host r (named x) = refl
  replied PoolFailureReason.remote_connection_failure host r (named x) = refl
  replied PoolFailureReason.timeout host r (named x) = refl

  answer_effects-is_oneway :
      (t : MessageType) (complete : Bool) (text : String)
      → answer_effects t complete text ≡ (
          if is_oneway B H t
          then Effect.stream_was_reset ∷ []
          else Effect.local_reply_sent text
            ∷ (if complete then [] else Effect.stream_was_reset ∷ []))
  unfolding answer_effects
  answer_effects-is_oneway MessageType.request complete text = refl
  answer_effects-is_oneway MessageType.response complete text = refl
  answer_effects-is_oneway MessageType.oneway complete text = refl
  answer_effects-is_oneway MessageType.stream_init complete text = refl
  answer_effects-is_oneway MessageType.stream_data complete text = refl
  answer_effects-is_oneway MessageType.stream_close_one_way complete text = refl
  answer_effects-is_oneway MessageType.stream_close_two_way complete text = refl
  answer_effects-is_oneway MessageType.heartbeat complete text = refl
  answer_effects-is_oneway MessageType.error complete text = refl

  reset_effects :
      (reason : PoolFailureReason) (host : Option String) (r : UpstreamRequest B H)
      → HasHost reason host
      → on_upstream_connection_reset B H reason (failed host r)
        ≡ ok (
          failed host r,
          answer_effects r.metadata.message_type r.response_complete
              (reply_text reason (name_of host)),
        )
  unfolding on_upstream_connection_reset
  reset_effects reason host r h =
      let told =
        answer_effects-is_oneway r.metadata.message_type r.response_complete
          (reply_text reason (name_of host)) in
      elim (Bool-cases (is_oneway B H r.metadata.message_type)) [
        | inl e ↦ rw (told, e) refl
        | inr e ↦ rw (told, e, replied reason host r h) refl
      ]

  outlier_effects :
      (reason : PoolFailureReason) (host : Option String) (r : UpstreamRequest B H)
      → HasHost reason host
      → then_do B H (outlier_of B H reason host r) (
          effect B H
            (if is_connection_error B H reason then Effect.decoding_continued ∷ [] else []))
        ≡ ok (r, final_effects reason)
  unfolding outlier_of put_for final_effects
  outlier_effects PoolFailureReason.overflow host r h = refl
  outlier_effects PoolFailureReason.local_connection_failure host r h = refl
  outlier_effects PoolFailureReason.remote_connection_failure host r (named x) = refl
  outlier_effects PoolFailureReason.timeout host r (named x) = refl

  -- When the pool fails, for whatever reason and whatever was done before, with a host unless it
  -- refuses to begin: onPoolFailure returns, with the host kept, the handle gone and the buffer of the
  -- request empty, and does just this, in this order: it tells the owner the host; a one-way request
  -- it resets, and for any other it sends one local reply with the text of the reason, and resets it
  -- unless its response is complete; it puts a timeout down to the host as a timeout and a remote
  -- failure as a failed connection; and unless the pool refused to begin, the decoding goes on.
  pub on_pool_failure_lem :
      (reason : PoolFailureReason) (host : Option String) (r : UpstreamRequest B H)
      → HasHost reason host
      → (b : Buffer) × (on_pool_failure B H reason host r
          ≡ ok (
            record r {
              conn_pool_handle = false;
              upstream_host = host;
              upstream_request_buffer = b;
            },
            failure_effects reason host r,
          ))
        × (bytes b ≡ [])
  unfolding on_pool_failure
  on_pool_failure_lem reason host r h = (
    drain (size r.upstream_request_buffer) r.upstream_request_buffer,
    rw
        (
          reset_effects reason host r h,
          outlier_effects reason host (drained_request B H (failed host r)) h,
        )
        refl,
    drained r.upstream_request_buffer,
  )
