-- ===== src/RateLimit/Requests.antt =====
-- Which bucket a request is charged to, and what the filter answers.
use meta_protocol_proxy.Base.{
  ◌+◌, ◌-◌, ◌<◌, ◌≡◌, refl, sym, ap, ◌∙◌, Bool, true, false, List, [], ◌∷◌, ◌++◌, All, ◌==◌, not,
  if◌then◌else◌, arith, inl, inr, Bool-cases, ==_iff,
}
use meta_protocol_proxy.Codec.{ErrorType}
use meta_protocol_proxy.Filters.{FilterStatus}
use meta_protocol_proxy.RateLimit.{
  TokenState, LocalRateLimitCondition, LocalRateLimiter, LocalRateLimit, take_token, take_global,
  request_loop, request_allowed, should_rate_limit, on_message_decoded,
}

take_empty : (s : TokenState) → s.tokens ≡ 0 → take_token s ≡ (false, s)
unfolding take_token
take_empty s h = ground arith

take_some :
    (s : TokenState) → 0 < s.tokens → take_token s ≡ (true, record s { tokens = s.tokens - 1 })
unfolding take_token
take_some s h = ground arith

module _ {Match Headers : Type 0} (matches : Headers → Match → Bool) (headers : Headers) where
  abbrev pub Passes : LocalRateLimitCondition Match → Type 0
  Passes c = matches headers c.match ≡ false

  loop_governed :
      (before : List (LocalRateLimitCondition Match)) (c : LocalRateLimitCondition Match)
      (after : List (LocalRateLimitCondition Match)) (l : LocalRateLimiter Match)
      → All Passes before
      → matches headers c.match ≡ true
      → request_loop matches headers (before ++ (c ∷ after)) l ≡ (
        (take_token c.token_state).0,
        record l {
          conditions = before ++ (record c { token_state = (take_token c.token_state).1 } ∷ after);
        },
      )
  unfolding request_loop
  loop_governed [] c after l h m = rw m
  loop_governed (b ∷ before) c after l (hb, h) m = rw (hb, loop_governed before c after l h m)

  loop_ungoverned :
      (cs : List (LocalRateLimitCondition Match)) (l : LocalRateLimiter Match)
      → All Passes cs
      → request_loop matches headers cs l ≡ (
        (take_global matches l).0,
        record l {
          global_token_state = (take_global matches l).1.global_token_state;
          conditions = cs;
        },
      )
  unfolding request_loop take_global
  loop_ungoverned [] l h = ground arith
  loop_ungoverned (c ∷ cs) l (hc, h) = rw (hc, loop_ungoverned cs l h)

  abbrev charged : LocalRateLimitCondition Match → LocalRateLimitCondition Match
  charged c = record c { token_state = record c.token_state { tokens = c.token_state.tokens - 1 } }

  -- The first condition that matches governs the request, whatever stands behind it and whatever
  -- the global bucket holds: the request is refused and nothing changes when its bucket is empty,
  -- and else it is allowed and that bucket alone loses one token.
  pub request_allowed_governed :
      (before : List (LocalRateLimitCondition Match)) (c : LocalRateLimitCondition Match)
      (after : List (LocalRateLimitCondition Match)) (l : LocalRateLimiter Match)
      → l.conditions ≡ before ++ (c ∷ after)
      → All Passes before
      → matches headers c.match ≡ true
      → request_allowed matches headers l ≡ (
          if c.token_state.tokens == 0
          then (false, l)
          else (true, record l { conditions = before ++ (charged c ∷ after) }))
  unfolding request_allowed
  request_allowed_governed before c after l e h m =
      ap (λ cs. request_loop matches headers cs l) e
      ∙ loop_governed before c after l h m
      ∙ elim (Bool-cases (c.token_state.tokens == 0)) [
        | inl z ↦
            rw (z, take_empty c.token_state ((==_iff c.token_state.tokens 0).0 z))
              (λ i. (false, record l { conditions = sym e i }))
        | inr z ↦ rw (z, take_some c.token_state (ground arith)) refl
      ]

  -- A request that no condition matches is allowed when there is no global bucket; otherwise it is
  -- refused and nothing changes when the global bucket is empty, and else takes one token from it.
  pub request_allowed_ungoverned :
      (l : LocalRateLimiter Match)
      → All Passes l.conditions
      → let s = l.global_token_state in
        request_allowed matches headers l ≡ (
          if not l.has_token_bucket
          then (true, l)
          else if s.tokens == 0
          then (false, l)
          else (true, record l { global_token_state = record s { tokens = s.tokens - 1 } }))
  unfolding request_allowed take_global take_token
  request_allowed_ungoverned l h = loop_ungoverned l.conditions l h ∙ ground arith

  -- The filter stops the chain with one OverLimit reply exactly when the limiter refuses, and lets
  -- the message through otherwise; each message is counted once, under what was decided.
  pub on_message_decoded_lem :
      (f : LocalRateLimit matches)
      → let (allowed, l) = request_allowed matches headers f.rate_limiter in
        let (status, g) = on_message_decoded matches headers f in
        (status
          ≡ (if allowed then FilterStatus.continue_iteration else FilterStatus.abort_iteration))
        × (g.local_replies
            ≡ (if allowed then f.local_replies else ErrorType.over_limit ∷ f.local_replies))
        × (g.rate_limited_count + g.ok_count ≡ f.rate_limited_count + f.ok_count + 1)
        × (g.ok_count ≡ (if allowed then f.ok_count + 1 else f.ok_count))
        × (g.rate_limiter ≡ l)
  unfolding on_message_decoded should_rate_limit
  on_message_decoded_lem f = elim (Bool-cases (request_allowed matches headers f.rate_limiter).0) [
    | inl e ↦ rw (e, on_message_decoded) (refl, refl, omega arith, refl, refl)
    | inr e ↦ rw (e, on_message_decoded) (refl, refl, omega arith, refl, refl)
  ]
