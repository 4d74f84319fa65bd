-- ===== src/Router/Shadow/Moves.antt =====
-- What a call of a shadow router may do: it leaves the list of its writer with nothing held, or stays
-- in its place.
use meta_protocol_proxy.Base.{
  ◌≡◌, refl, sym, ◌∙◌, Bool, true, false, Option, none, some, List, [], ◌++◌, Outcome, ◌>>=◌, IfOk,
  IfOk-bind, IfOk-if, IfOk-map, IfOk-any, value, crashed, if◌then◌else◌, arith,
}
use meta_protocol_proxy.Buffer.{BufferApi}
use meta_protocol_proxy.Metadata.{HeaderMapApi}
use meta_protocol_proxy.Decoder.{CodecApi}
use meta_protocol_proxy.Filters.{UpstreamResponseStatus}
use meta_protocol_proxy.Router.UpstreamRequest.{
  ConnectionEvent, Effect, UpstreamRequest, release_upstream_connection, on_response_complete,
}
use meta_protocol_proxy.Router.Shadow.{
  ShadowEffect, NullResponseDecoder, Decoded, ShadowRouter, shadow_effects, cleanup, then_cleanup,
  after_call, decode, on_status, decode_data, on_upstream_data, on_event,
}
use meta_protocol_proxy.Router.Shadow.Calls.{
  removals, IsFree, removals-append, removals-shadow_effects, released-IsFree,
  run_callbacks-RunsQuietly, Holds, on_event-Holds,
}

module _ (B : BufferApi) (H : HeaderMapApi) (K : CodecApi B H) where
  open B use {Buffer}

  -- The router stays as it is in its list, and gets nothing to hold if it is off it.
  pub record IsPlaced (s : ShadowRouter B H K) (t : ShadowRouter B H K × List ShadowEffect)
      : Type 0 where
    pub same : t.0.removed ≡ s.removed
    pub none_gone : removals B H K t.1 ≡ 0
    pub kept :
        s.removed ≡ true → IsFree B H K s.upstream_request → IsFree B H K t.0.upstream_request

  -- What a step may do: the router stays in its place; or it leaves the list, once, with nothing held.
  pub data Moves (s : ShadowRouter B H K) : ShadowRouter B H K × List ShadowEffect → Type 0 where
    stays : {t : ShadowRouter B H K × List ShadowEffect} → IsPlaced s t → Moves s t
    leaves :
        {s' : ShadowRouter B H K} {es : List ShadowEffect}
        → s.removed ≡ false
        → s'.removed ≡ true
        → removals B H K es ≡ 1
        → IsFree B H K s'.upstream_request
        → Moves s (s', es)

  Moves-if :
      {s : ShadowRouter B H K} {x y : ShadowRouter B H K × List ShadowEffect} (b : Bool)
      → (b ≡ true → Moves s x)
      → (b ≡ false → Moves s y)
      → Moves s (if b then x else y)
  Moves-if true p q = p refl
  Moves-if false p q = q refl

  cleanup-Moves : (s : ShadowRouter B H K) → Moves s (cleanup B H K s)
  unfolding cleanup removals
  cleanup-Moves s =
      Moves-if s.removed (λ _. stays (record { same = refl; none_gone = refl; kept = λ _ f. f }))
        (λ e.
          leaves e refl
            (removals-append B H K
                (shadow_effects B H K (release_upstream_connection B H false s.upstream_request).1)
                _
              ∙ omega (
                arith,
                removals-shadow_effects B H K
                    (release_upstream_connection B H false s.upstream_request).1,
              ))
            (released-IsFree B H K false s.upstream_request))

  -- A step behind a call that leaves the router in its place.
  after-Moves :
      {s : ShadowRouter B H K} (t u : ShadowRouter B H K × List ShadowEffect)
      → IsPlaced s t
      → Moves t.0 u
      → Moves s (u.0, t.1 ++ u.1)
  after-Moves t u p (stays q) = stays (record {
    same = q.same ∙ p.same;
    none_gone = removals-append B H K t.1 u.1 ∙ omega (arith, p.none_gone, q.none_gone);
    kept = λ r f. q.kept (p.same ∙ r) (p.kept r f);
  })
  after-Moves t u p (leaves here gone once free) =
      leaves (sym p.same ∙ here) gone
        (removals-append B H K t.1 _ ∙ omega (arith, p.none_gone, once)) free

  then_cleanup-Moves :
      {s : ShadowRouter B H K} (t : ShadowRouter B H K × List ShadowEffect)
      → IsPlaced s t
      → IfOk (Moves s) (then_cleanup B H K t)
  then_cleanup-Moves t p = value (after-Moves t (cleanup B H K t.0) p (cleanup-Moves t.0))

  -- A call of the upstream request, with its callbacks.
  pub after_call-IsPlaced :
      {s : ShadowRouter B H K} {o : Outcome (UpstreamRequest B H × List Effect)}
      → IfOk (λ t. s.removed ≡ true → Holds B H K s.upstream_request t) o
      → IfOk (IsPlaced s) (o >>= after_call B H K s)
  after_call-IsPlaced p = IfOk-bind p (λ (t : UpstreamRequest B H × List Effect) h.
      let quiet = run_callbacks-RunsQuietly B H K t.0 t.1 in
      value (record {
        same = refl;
        none_gone = quiet.no_removal;
        kept = λ r f. quiet.stays_free (h r f);
      }))

  pub on_event-Moves :
      (e : ConnectionEvent) (s : ShadowRouter B H K) → IfOk (Moves s) (on_event B H K e s)
  unfolding on_event
  on_event-Moves e s =
      IfOk-bind
        (after_call-IsPlaced (IfOk-map (on_event-Holds B H K e s.upstream_request) (λ t h r. h)))
        (λ t p. then_cleanup-Moves t p)

  on_status-Moves :
      (status : UpstreamResponseStatus) (end_stream : Bool) (s s₀ : ShadowRouter B H K)
      → s.removed ≡ s₀.removed
      → (IsFree B H K s₀.upstream_request → IsFree B H K s.upstream_request)
      → IfOk (Moves s₀) (on_status B H K status end_stream s)
  unfolding on_status on_response_complete removals
  on_status-Moves UpstreamResponseStatus.complete end_stream s s₀ same kept =
      then_cleanup-Moves _ (record {
        same = same;
        none_gone = removals-shadow_effects B H K (on_response_complete B H s.upstream_request).1;
        kept = λ r f. record { no_handle = (kept f).no_handle; no_conn = refl };
      })
  on_status-Moves UpstreamResponseStatus.more_data end_stream s s₀ same kept =
      let placed : IsPlaced s₀ (s, []) = record {
        same = same;
        none_gone = refl;
        kept = λ r f. kept f;
      } in
      IfOk-if end_stream (then_cleanup-Moves (s, []) placed) (value (stays placed))
  on_status-Moves UpstreamResponseStatus.reset end_stream s s₀ same kept = crashed
  on_status-Moves UpstreamResponseStatus.retry end_stream s s₀ same kept = crashed

  decode_data-Moves :
      (b : Buffer) (end_stream : Bool) (o : Option (NullResponseDecoder B H K))
      (s : ShadowRouter B H K)
      → IfOk (Moves s) (decode_data B H K b end_stream o s)
  unfolding decode_data
  decode_data-Moves b end_stream none s = crashed
  decode_data-Moves b end_stream (some d) s =
      IfOk-bind (IfOk-any (decode B H K d b)) (λ (t : Decoded B H K) _.
        on_status-Moves t.0 end_stream _ s refl
          (λ f. record { no_handle = f.no_handle; no_conn = f.no_conn }))

  pub on_upstream_data-Moves :
      (b : Buffer) (end_stream : Bool) (s : ShadowRouter B H K)
      → IfOk (Moves s) (on_upstream_data B H K b end_stream s)
  unfolding on_upstream_data
  on_upstream_data-Moves b end_stream s = decode_data-Moves b end_stream s.decoder s
