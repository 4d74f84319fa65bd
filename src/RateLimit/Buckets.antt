-- ===== src/RateLimit/Buckets.antt =====
-- Bounds, accounting and priority of the token buckets.
use meta_protocol_proxy.Base.{
  ℕ, ◌+◌, ◌^◌, ◌≤◌, ◌<◌, ◌≡◌, refl, ap, ◌⊎◌, inl, inr, min, Bool, true, false, List, [], ◌∷◌, map,
  All, ltb, ◌==◌, ◌||◌, if◌then◌else◌, ok, throws, Exception, arith, Bool-cases, subst, ltb→le,
}
use meta_protocol_proxy.RateLimit.{
  TokenBucket, TokenState, ConditionConfig, LocalRateLimitCondition, LocalRateLimiter, fill_tokens,
  fill_if_due, minimum_interval, new_condition, new_limiter, on_fill_timer, fill_condition,
}

-- A fill that does not overflow adds `tokens_per_fill` up to the maximum.
pub fill_tokens_lem :
    (b : TokenBucket) (tokens : ℕ)
    → tokens + b.tokens_per_fill < 2 ^ 32
    → fill_tokens b tokens ≡ min b.max_tokens (tokens + b.tokens_per_fill)
unfolding fill_tokens
fill_tokens_lem b tokens h = ap (min b.max_tokens) (omega arith)

-- A fill of 32-bit numbers whose sum reaches 2 ^ 32 leaves fewer tokens than there were.
pub fill_tokens_overflow :
    (b : TokenBucket) (tokens : ℕ)
    → b.tokens_per_fill < 2 ^ 32
    → tokens < 2 ^ 32
    → 2 ^ 32 ≤ tokens + b.tokens_per_fill
    → fill_tokens b tokens < tokens
unfolding fill_tokens
fill_tokens_overflow b tokens hb ht h = omega arith

pub fill_tokens-le-add :
    (b : TokenBucket) (tokens : ℕ) → fill_tokens b tokens ≤ tokens + b.tokens_per_fill
unfolding fill_tokens
fill_tokens-le-add b tokens = omega arith

pub fill_tokens-le : (b : TokenBucket) (tokens : ℕ) → fill_tokens b tokens ≤ b.max_tokens
unfolding fill_tokens
fill_tokens-le b tokens = omega arith

fill_if_due-le :
    (now : ℕ) (b : TokenBucket) (s : TokenState)
    → s.tokens ≤ b.max_tokens
    → (fill_if_due now b s).tokens ≤ b.max_tokens
unfolding fill_if_due
fill_if_due-le now b s h = ground (arith, fill_tokens-le b s.tokens)

if_ok {ℓ} :
    {A : Type ℓ} (t : Bool) (x : Exception) (a b : A)
    → (if t then throws x else ok a) ≡ ok b
    → (t ≡ false) × (a ≡ b)
if_ok true x a b e = absurd (cc)
if_ok false x a b e = (refl, cc)

module _ {Match : Type 0} where
  abbrev pub BoundedCondition : LocalRateLimitCondition Match → Type 0
  BoundedCondition c = c.token_state.tokens ≤ c.token_bucket.max_tokens

  -- No bucket holds more than its maximum.
  pub record IsBounded (l : LocalRateLimiter Match) : Type 0 where
    pub global : l.global_token_state.tokens ≤ l.global_token_bucket.max_tokens
    pub each : All BoundedCondition l.conditions

  fill-All :
      (now : ℕ) (cs : List (LocalRateLimitCondition Match))
      → All BoundedCondition cs
      → All BoundedCondition (map (fill_condition now) cs)
  fill-All now [] h = tt
  fill-All now (c ∷ cs) (h, hs) =
      (fill_if_due-le now c.token_bucket c.token_state h, fill-All now cs hs)

  new-All :
      (now : ℕ) (cs : List (ConditionConfig Match))
      → All BoundedCondition (map (new_condition now) cs)
  new-All now [] = tt
  new-All now (c ∷ cs) = (omega arith, new-All now cs)

  -- A run of the fill timer, at any time, leaves no bucket with more than its maximum.
  pub on_fill_timer-IsBounded :
      (now : ℕ) (l : LocalRateLimiter Match) → IsBounded l → IsBounded (on_fill_timer now l)
  unfolding on_fill_timer
  on_fill_timer-IsBounded now l v = record {
    global = elim (Bool-cases l.has_token_bucket) [
      | inl e ↦ rw e (fill_if_due-le now l.global_token_bucket l.global_token_state v.global)
      | inr e ↦ rw e v.global
    ];
    each = fill-All now l.conditions v.each;
  }

  -- A new limiter has no bucket above its maximum, and its timer takes 50 milliseconds at least.
  pub new_limiter-IsBounded :
      (has : Bool) (b : TokenBucket) (cs : List (ConditionConfig Match)) (now : ℕ)
      (l : LocalRateLimiter Match)
      → new_limiter has b cs now ≡ ok l
      → IsBounded l × (50 ≤ l.timer_duration)
  unfolding new_limiter
  new_limiter-IsBounded has b cs now l e =
      let (long, same) = if_ok (ltb (minimum_interval b.fill_interval cs) 50) _ _ l e in
      subst (λ k. IsBounded k × (50 ≤ k.timer_duration)) same
        (record { global = omega arith; each = new-All now cs }, ltb→le _ 50 long)

  abbrev IsInterval : ConditionConfig Match → Type 0
  IsInterval c = 0 < c.bucket.fill_interval

  abbrev AtMost : ℕ → ConditionConfig Match → Type 0
  AtMost n c = n ≤ c.bucket.fill_interval

  abbrev OneOf : ℕ → List (ConditionConfig Match) → Type 0
  OneOf n [] = ⊥
  OneOf n (c ∷ cs) = (n ≡ c.bucket.fill_interval) ⊎ OneOf n cs

  -- The least of a number and the intervals of a list of conditions.
  abbrev pub IsLeast : ℕ → ℕ → List (ConditionConfig Match) → Type 0
  IsLeast n d cs = (n ≤ d) × All (AtMost n) cs × ((n ≡ d) ⊎ OneOf n cs)

  -- Among positive intervals the duration of the timer is the least: it is at most each of them,
  -- and it is one of them.
  pub minimum_interval-IsLeast :
      (d : ℕ) (cs : List (ConditionConfig Match))
      → 0 < d
      → All IsInterval cs
      → IsLeast (minimum_interval d cs) d cs
  unfolding minimum_interval
  minimum_interval-IsLeast d [] h hs = (omega arith, tt, inl refl)
  minimum_interval-IsLeast d (c ∷ cs) h (hc, hs) =
      let i = c.bucket.fill_interval in
      elim (Bool-cases (d == 0 || ltb i d)) [
        | inl e ↦
            let (le, each, one) = minimum_interval-IsLeast i cs hc hs in
            let below : i ≤ d = ground arith in
            subst (λ n. IsLeast n d (c ∷ cs)) (rw e refl) (omega arith, (le, each), inr one)
        | inr e ↦
            let (le, each, one) = minimum_interval-IsLeast d cs h hs in
            let above : d ≤ i = ground arith in
            subst (λ n. IsLeast n d (c ∷ cs)) (rw e refl)
              (le, (omega arith, each), elim one [ inl s ↦ inl s | inr s ↦ inr (inr s) ])
      ]
