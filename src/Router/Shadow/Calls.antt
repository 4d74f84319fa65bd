-- ===== src/Router/Shadow/Calls.antt =====
-- The calls of the upstream request in a shadow router: they take it off no list, and a request that
-- holds nothing gets nothing.
use Prim.Native.String.{String}
use meta_protocol_proxy.Base.{
  ℕ, suc, ◌+◌, ◌≡◌, refl, ◌∙◌, Bool, true, false, Option, none, some, List, [], ◌∷◌, ◌++◌, IfOk,
  IfOk-bind, IfOk-if, value, crashed, arith,
}
use meta_protocol_proxy.Buffer.{BufferApi}
use meta_protocol_proxy.Metadata.{HeaderMapApi}
use meta_protocol_proxy.Decoder.{CodecApi}
use meta_protocol_proxy.Router.UpstreamRequest.{
  ConnectionEvent, PoolFailureReason, Effect, UpstreamRequest, is_oneway, reset_reply, reply_about,
  put_for, put_outlier, OutlierResult, release_upstream_connection, on_upstream_connection_reset,
  on_upstream_connection_event,
}
use meta_protocol_proxy.Router.Shadow.{
  ShadowEffect, shadow_effects, run_callbacks, is_reset, reset_at,
}

module _ (B : BufferApi) (H : HeaderMapApi) (K : CodecApi B H) where
  open B use {Buffer}

  -- How often the router is taken off the list.
  unfoldable pub removals : List ShadowEffect → ℕ
  removals [] = 0
  removals (ShadowEffect.removed_from_list ∷ es) = suc (removals es)
  removals (ShadowEffect.upstream e ∷ es) = removals es

  -- No connection, and none awaited.
  pub record IsFree (q : UpstreamRequest B H) : Type 0 where
    pub no_handle : q.conn_pool_handle ≡ false
    pub no_conn : q.conn_data ≡ false

  pub removals-append :
      (xs ys : List ShadowEffect) → removals (xs ++ ys) ≡ removals xs + removals ys
  unfolding removals
  removals-append [] ys = ground arith
  removals-append (ShadowEffect.removed_from_list ∷ xs) ys = omega (arith, removals-append xs ys)
  removals-append (ShadowEffect.upstream e ∷ xs) ys = removals-append xs ys

  pub removals-shadow_effects : (es : List Effect) → removals (shadow_effects B H K es) ≡ 0
  unfolding removals shadow_effects
  removals-shadow_effects [] = refl
  removals-shadow_effects (e ∷ es) = removals-shadow_effects es

  -- A call's effects with its callbacks: no removal, and a request that holds nothing gets nothing.
  pub record RunsQuietly (q : UpstreamRequest B H) (es : List Effect) : Type 0 where
    pub no_removal : removals (run_callbacks B H K q es).1 ≡ 0
    pub stays_free : IsFree q → IsFree (run_callbacks B H K q es).0

  pub released-IsFree :
      (close : Bool) (q : UpstreamRequest B H) → IsFree (release_upstream_connection B H close q).0
  unfolding release_upstream_connection
  released-IsFree close q = record { no_handle = refl; no_conn = refl }

  pub run_callbacks-RunsQuietly : (q : UpstreamRequest B H) (es : List Effect) → RunsQuietly q es
  unfolding run_callbacks removals
  run_callbacks-RunsQuietly q [] = record { no_removal = refl; stays_free = λ f. f }
  run_callbacks-RunsQuietly q (e ∷ es) =
      let (q₁, released) = reset_at B H K (is_reset B H K e) q es in
      let rest = run_callbacks-RunsQuietly q₁ es in
      record {
        no_removal =
            removals-append (shadow_effects B H K released) _
            ∙ omega (arith, removals-shadow_effects released, rest.no_removal);
        stays_free = λ f. rest.stays_free (reset_at-IsFree (is_reset B H K e) f);
      }
    where
      reset_at-IsFree : (b : Bool) → IsFree q → IsFree (reset_at B H K b q es).0
      reset_at-IsFree true f = released-IsFree true _
      reset_at-IsFree false f = f

  -- A call of the upstream request that leaves its handle and its connection as they are.
  abbrev pub Holds : UpstreamRequest B H → UpstreamRequest B H × List Effect → Type 0
  Holds q (q', es) = IsFree q → IsFree q'

  reply_about-Holds :
      (f : String → String) (o : Option String) (q : UpstreamRequest B H)
      → IfOk (Holds q) (reply_about B H f o q)
  unfolding reply_about
  reply_about-Holds f none q = crashed
  reply_about-Holds f (some host) q = value (λ f. f)

  reset_reply-Holds :
      (reason : PoolFailureReason) (q : UpstreamRequest B H)
      → IfOk (Holds q) (reset_reply B H reason q)
  unfolding reset_reply reply_about
  reset_reply-Holds PoolFailureReason.overflow q = value (λ f. f)
  reset_reply-Holds PoolFailureReason.local_connection_failure q =
      reply_about-Holds _ q.upstream_host q
  reset_reply-Holds PoolFailureReason.remote_connection_failure q =
      reply_about-Holds _ q.upstream_host q
  reset_reply-Holds PoolFailureReason.timeout q = reply_about-Holds _ q.upstream_host q

  put_for-Holds :
      (o : Option String) (result : OutlierResult) (q : UpstreamRequest B H)
      → IfOk (Holds q) (put_for B H o result q)
  unfolding put_for
  put_for-Holds none result q = crashed
  put_for-Holds (some host) result q = value (λ f. f)

  on_reset-Holds :
      (reason : PoolFailureReason) (q : UpstreamRequest B H)
      → IfOk (Holds q) (on_upstream_connection_reset B H reason q)
  unfolding on_upstream_connection_reset
  on_reset-Holds reason q =
      IfOk-if (is_oneway B H q.metadata.message_type) (value (λ f. f))
        (IfOk-bind (reset_reply-Holds reason q) (λ t h. value h))

  pub on_event-Holds :
      (e : ConnectionEvent) (q : UpstreamRequest B H)
      → IfOk (Holds q) (on_upstream_connection_event B H e q)
  unfolding on_upstream_connection_event put_outlier
  on_event-Holds ConnectionEvent.remote_close q =
      (IfOk-bind (on_reset-Holds PoolFailureReason.remote_connection_failure q)
        (λ (t : UpstreamRequest B H × List Effect) h.
          IfOk-bind (put_for-Holds t.0.upstream_host OutlierResult.connect_failed t.0)
            (λ u g. value (λ f. g (h f)))))
  on_event-Holds ConnectionEvent.local_close q =
      (on_reset-Holds PoolFailureReason.local_connection_failure q)
  on_event-Holds ConnectionEvent.connected q = crashed
