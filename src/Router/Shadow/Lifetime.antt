-- ===== src/Router/Shadow/Lifetime.antt =====
-- The life of a shadow router, over all orders of what can happen to it.
use Prim.Native.String.{String}
use meta_protocol_proxy.Base.{
  ◌≡◌, refl, ◌∙◌, Bool, true, false, Option, List, [], ◌∷◌, ◌++◌, ◌&&◌, ◌>>=◌, if◌then◌else◌,
  Outcome, ok, panics, value, crashed, IfOk, IfOk-if, IfOk-bind, IfOk-eq, IfOk-map, IfOk-any, arith,
}
use meta_protocol_proxy.Buffer.{BufferApi}
use meta_protocol_proxy.Metadata.{HeaderMapApi, Metadata}
use meta_protocol_proxy.Decoder.{Mutation, CodecApi}
use meta_protocol_proxy.Router.UpstreamRequest.{
  ConnectionEvent, PoolFailureReason, Effect, UpstreamRequest, on_pool_failure, on_pool_ready,
  release_upstream_connection,
}
use meta_protocol_proxy.Router.UpstreamRequest.Failures.{
  HasHost, failure_effects, on_pool_failure_lem,
}
use meta_protocol_proxy.Router.Shadow.{
  ShadowEffect, ShadowRouter, run_callbacks, on_upstream_data, on_event, reset_stream,
  end_of_thread, shadow_effects, on_pool_failed, on_pool_connected,
}
use meta_protocol_proxy.Router.Shadow.Calls.{
  removals, IsFree, removals-append, removals-shadow_effects, released-IsFree,
  run_callbacks-RunsQuietly,
}
use meta_protocol_proxy.Router.Shadow.Moves.{
  Moves, stays, leaves, after_call-IsPlaced, on_event-Moves, on_upstream_data-Moves,
}

module _ (B : BufferApi) (H : HeaderMapApi) (K : CodecApi B H) (create_codec : K.State)
    (unset : Bool) (encode : Metadata B H → Mutation → B.Buffer → Outcome B.Buffer) where
  -- The pool calls back only for a request that waits for it.
  pub data Step (s : ShadowRouter B H K) : ShadowRouter B H K × List ShadowEffect → Type 0 where
    data_came :
        {t : ShadowRouter B H K × List ShadowEffect} (b : B.Buffer) (end_stream : Bool)
        → on_upstream_data B H K b end_stream s ≡ ok t
        → Step s t
    connection_event :
        {t : ShadowRouter B H K × List ShadowEffect} (e : ConnectionEvent)
        → on_event B H K e s ≡ ok t
        → Step s t
    pool_failed :
        {t : ShadowRouter B H K × List ShadowEffect} (reason : PoolFailureReason)
        (host : Option String)
        → s.upstream_request.conn_pool_handle ≡ true
        → on_pool_failed B H K reason host s ≡ ok t
        → Step s t
    pool_connected :
        {t : ShadowRouter B H K × List ShadowEffect} (host address : String)
        → s.upstream_request.conn_pool_handle ≡ true
        → on_pool_connected B H K create_codec unset encode host address s ≡ ok t
        → Step s t

  -- From a router in the list, in any number of steps, while the list of the thread lives; and when
  -- the list is destroyed, which does nothing more with a router that is off it.
  pub data Reach : Bool → ShadowRouter B H K → List ShadowEffect → Type 0 where
    listed : (s : ShadowRouter B H K) → s.removed ≡ false → Reach true s []
    next :
        {s s' : ShadowRouter B H K} {es ds : List ShadowEffect}
        → Reach true s es
        → Step s (s', ds)
        → Reach true s' (es ++ ds)
    ended :
        {s s' : ShadowRouter B H K} {es ds : List ShadowEffect} (hears : Bool)
        → Reach true s es
        → s.removed ≡ false
        → end_of_thread B H K hears s ≡ ok (s', ds)
        → Reach false s' (es ++ ds)

  Step-Moves :
      {s : ShadowRouter B H K} {t : ShadowRouter B H K × List ShadowEffect}
      → Step s t
      → Moves B H K s t
  unfolding on_pool_failed on_pool_connected
  Step-Moves (data_came b end_stream e) = IfOk-eq (on_upstream_data-Moves B H K b end_stream _) e
  Step-Moves (connection_event v e) = IfOk-eq (on_event-Moves B H K v _) e
  Step-Moves {s = s} (pool_failed reason host waits e) = stays (
      IfOk-eq
        (after_call-IsPlaced B H K {s = s} (
          IfOk-map (IfOk-any (on_pool_failure B H reason host s.upstream_request))
            (λ t _ r f. cc (waits, IsFree.no_handle f))))
        e)
  Step-Moves {s = s} (pool_connected host address waits e) = stays (
      IfOk-eq
        (after_call-IsPlaced B H K {s = s} (
          IfOk-map (IfOk-any (on_pool_ready B H encode host address s.upstream_request))
            (λ t _ r f. cc (waits, IsFree.no_handle f))))
        e)

  -- A shadow router is off the list, removed once and with neither a connection nor a wait for one;
  -- or it is on the list, never removed; or it went with the list, removed once and with nothing held.
  pub data IsTidy : Bool → ShadowRouter B H K → List ShadowEffect → Type 0 where
    on_list :
        {s : ShadowRouter B H K} {es : List ShadowEffect}
        → s.removed ≡ false
        → removals B H K es ≡ 0
        → IsTidy true s es
    off_list :
        {s : ShadowRouter B H K} {es : List ShadowEffect}
        → s.removed ≡ true
        → removals B H K es ≡ 1
        → IsFree B H K s.upstream_request
        → IsTidy true s es
    gone_with_list :
        {s : ShadowRouter B H K} {es : List ShadowEffect}
        → removals B H K es ≡ 1
        → IsFree B H K s.upstream_request
        → IsTidy false s es

  Moves-IsTidy :
      {s s' : ShadowRouter B H K} {es ds : List ShadowEffect}
      → IsTidy true s es
      → Moves B H K s (s', ds)
      → IsTidy true s' (es ++ ds)
  Moves-IsTidy {es = es} {ds = ds} (on_list here none) (stays p) =
      on_list (p.same ∙ here) (removals-append B H K es ds ∙ omega (arith, none, p.none_gone))
  Moves-IsTidy {es = es} {ds = ds} (on_list here none) (leaves _ gone once free) =
      off_list gone (removals-append B H K es ds ∙ omega (arith, none, once)) free
  Moves-IsTidy {es = es} {ds = ds} (off_list gone once free) (stays p) =
      off_list (p.same ∙ gone) (removals-append B H K es ds ∙ omega (arith, once, p.none_gone))
        (p.kept gone free)
  Moves-IsTidy (off_list gone once free) (leaves here _ _ _) = cc (gone, here)

  never_taken :
      {s : ShadowRouter B H K} {es : List ShadowEffect}
      → s.removed ≡ false
      → IsTidy true s es
      → removals B H K es ≡ 0
  never_taken here (on_list _ none) = none
  never_taken here (off_list gone _ _) = cc (gone, here)

  -- What the destruction of the list leaves of a router on it, when it returns.
  abbrev IsLeft : ShadowRouter B H K × List ShadowEffect → Type 0
  IsLeft t = (removals B H K t.1 ≡ 1) × IsFree B H K t.0.upstream_request

  reset-IsLeft :
      (s : ShadowRouter B H K)
      → IsLeft (
        (reset_stream B H K s).0,
        (reset_stream B H K s).1 ++ ShadowEffect.removed_from_list ∷ [],
      )
  unfolding reset_stream removals
  reset-IsLeft s = (
    removals-append B H K
          (shadow_effects B H K (release_upstream_connection B H true s.upstream_request).1)
          (ShadowEffect.removed_from_list ∷ [])
        ∙ omega (
          arith,
          removals-shadow_effects B H K (release_upstream_connection B H true s.upstream_request).1,
        ),
    released-IsFree B H K true s.upstream_request,
  )

  behind_event :
      (hears : Bool) (o : Outcome (ShadowRouter B H K × List ShadowEffect))
      (t : ShadowRouter B H K × List ShadowEffect)
      → IsLeft t
      → IfOk IsLeft (
          if hears
          then (o >>= λ (u : ShadowRouter B H K × List ShadowEffect).
              if u.0.removed then panics else ok t)
          else ok t)
  behind_event true o t left =
      IfOk-bind {o = o} (IfOk-any o)
        (λ (u : ShadowRouter B H K × List ShadowEffect) _. IfOk-if u.0.removed crashed (value left))
  behind_event false o t left = value left

  end_of_thread-IsLeft :
      (hears : Bool) (s : ShadowRouter B H K) → IfOk IsLeft (end_of_thread B H K hears s)
  unfolding end_of_thread
  end_of_thread-IsLeft hears s =
      behind_event (hears && s.upstream_request.conn_data)
        (on_event B H K ConnectionEvent.local_close (record s {
          upstream_request = record s.upstream_request {
            stream_reset = true;
            conn_pool_handle = false;
          };
        }))
        _ (reset-IsLeft s)

  -- In whatever order data and events of the connection come, the pool calls back, and the list of
  -- active routers is destroyed with its thread: as long as the calls return, a shadow router is taken
  -- off the list at most once. While the list lives: a router that is on it has not been taken off,
  -- and one that is off it neither has a connection nor waits for one, and this stays so. Once the
  -- list is destroyed, each router that was on it has been taken off exactly once and holds nothing.
  pub Reach-IsTidy :
      (lives : Bool) (s : ShadowRouter B H K) (es : List ShadowEffect)
      → Reach lives s es
      → IsTidy lives s es
  unfolding removals
  Reach-IsTidy true s es (listed _ here) = on_list here refl
  Reach-IsTidy true s es (next r t) = Moves-IsTidy (Reach-IsTidy true _ _ r) (Step-Moves t)
  Reach-IsTidy false s es (ended {es = before} {ds = ds} hears r here e) =
      let (once, free) = IfOk-eq (end_of_thread-IsLeft hears _) e in
      gone_with_list
        (removals-append B H K before ds
          ∙ omega (arith, once, never_taken here (Reach-IsTidy true _ _ r)))
        free

  abbrev after_call_pair :
      ShadowRouter B H K
      → UpstreamRequest B H
      → List Effect
      → ShadowRouter B H K × List ShadowEffect
  after_call_pair s q es =
      let (q₁, done) = run_callbacks B H K q es in (record s { upstream_request = q₁ }, done)

  -- When the pool fails for a router without a connection, it stays on its list, though it neither
  -- has a connection nor waits for one, so that no event of a connection can take it off.
  on_pool_failed_lem :
      (reason : PoolFailureReason) (host : Option String) (s : ShadowRouter B H K)
      → HasHost B H reason host
      → s.upstream_request.conn_data ≡ false
      → (t : ShadowRouter B H K × List ShadowEffect) × (on_pool_failed B H K reason host s ≡ ok t)
        × (t.0.removed ≡ s.removed)
        × (removals B H K t.1 ≡ 0)
        × IsFree B H K t.0.upstream_request
  unfolding on_pool_failed
  on_pool_failed_lem reason host s given e =
      let (b, came, _) = on_pool_failure_lem B H reason host s.upstream_request given in
      let q : UpstreamRequest B H = record s.upstream_request {
        conn_pool_handle = false;
        upstream_host = host;
        upstream_request_buffer = b;
      } in
      let es = failure_effects B H reason host s.upstream_request in
      let quiet = run_callbacks-RunsQuietly B H K q es in
      (
        after_call_pair s q es,
        rw came refl,
        refl,
        quiet.no_removal,
        quiet.stays_free (record { no_handle = refl; no_conn = e }),
      )
