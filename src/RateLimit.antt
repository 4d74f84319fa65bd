-- ===== src/RateLimit.antt =====
-- src/meta_protocol_proxy/filters/local_ratelimit: the token buckets of the local rate limiter
-- (local_ratelimit_impl.cc) and the filter in front of them (local_ratelimit.cc). A call runs here
-- with no other thread between its load and its exchange; RateLimit/Interleavings has the threads.
-- Times are nanoseconds of the monotonic clock, intervals milliseconds.
pub mod Buckets
pub mod Requests
pub mod Interleavings
use meta_protocol_proxy.Base.{
  ℕ, ◌+◌, ◌-◌, ◌/◌, ◌%◌, ◌^◌, min, Bool, true, false, List, [], ◌∷◌, map, ltb, leb, ◌==◌, ◌||◌, not,
  if◌then◌else◌, Outcome, ok, throws, envoy_exception, ◌>>=◌,
}
use meta_protocol_proxy.Codec.{Error, ErrorType}
use meta_protocol_proxy.Filters.{FilterStatus}

pub record TokenBucket : Type 0 where
  pub max_tokens : ℕ
  pub tokens_per_fill : ℕ
  pub fill_interval : ℕ

pub record TokenState : Type 0 where
  pub tokens : ℕ
  pub fill_time : ℕ

-- A condition of the configuration, with the defaults of the PROTOBUF_GET macros filled in:
-- an interval of 0 and one token per fill.
pub record ConditionConfig (Match : Type 0) : Type 0 where
  pub match : Match
  pub bucket : TokenBucket

pub record LocalRateLimitCondition (Match : Type 0) : Type 0 where
  pub match : Match
  pub token_bucket : TokenBucket
  pub token_state : TokenState

-- Without a token bucket in the configuration the two global members are never read.
pub record LocalRateLimiter (Match : Type 0) : Type 0 where
  pub has_token_bucket : Bool
  pub global_token_bucket : TokenBucket
  pub global_token_state : TokenState
  pub conditions : List (LocalRateLimitCondition Match)
  pub timer_duration : ℕ

-- The update of onFillTimerHelper, in `uint32_t`.
unfoldable pub fill_tokens : TokenBucket → ℕ → ℕ
fill_tokens b tokens = min b.max_tokens ((tokens + b.tokens_per_fill) % 2 ^ 32)

-- The elapsed time is cut to milliseconds by `duration_cast`.
unfoldable pub fill_if_due : ℕ → TokenBucket → TokenState → TokenState
unfolding fill_tokens
fill_if_due now b s =
    if leb b.fill_interval ((now - s.fill_time) / 1_000_000)
    then record { tokens = fill_tokens b s.tokens; fill_time = now }
    else s

-- requestAllowedHelper
unfoldable pub take_token : TokenState → Bool × TokenState
take_token s = if s.tokens == 0 then (false, s) else (true, record s { tokens = s.tokens - 1 })

module _ {Match : Type 0} where
  -- The loop that picks the duration of the timer.
  unfoldable pub minimum_interval : ℕ → List (ConditionConfig Match) → ℕ
  minimum_interval duration [] = duration
  minimum_interval duration (c ∷ cs) =
      minimum_interval
        (if duration == 0 || ltb c.bucket.fill_interval duration
          then c.bucket.fill_interval
          else duration)
        cs

  abbrev pub new_condition : ℕ → ConditionConfig Match → LocalRateLimitCondition Match
  new_condition now c = record {
    match = c.match;
    token_bucket = c.bucket;
    token_state = record { tokens = c.bucket.max_tokens; fill_time = now };
  }

  -- The constructor. The time of the last fill of the global bucket stays at the clock's epoch.
  unfoldable pub new_limiter :
      Bool → TokenBucket → List (ConditionConfig Match) → ℕ → Outcome (LocalRateLimiter Match)
  unfolding minimum_interval
  new_limiter has_bucket bucket conditions now =
      let duration = minimum_interval bucket.fill_interval conditions in
      if ltb duration 50
      then throws (envoy_exception "local rate limit token bucket fill timer must be >= 50ms")
      else ok (record {
        has_token_bucket = has_bucket;
        global_token_bucket = bucket;
        global_token_state = record { tokens = bucket.max_tokens; fill_time = 0 };
        conditions = map (new_condition now) conditions;
        timer_duration = duration;
      })

  abbrev fill_condition : ℕ → LocalRateLimitCondition Match → LocalRateLimitCondition Match
  fill_condition now c = record c { token_state = fill_if_due now c.token_bucket c.token_state }

  -- onFillTimerConditionHelper
  unfoldable pub on_fill_timer : ℕ → LocalRateLimiter Match → LocalRateLimiter Match
  on_fill_timer now l = record l {
    global_token_state =
        if l.has_token_bucket
        then fill_if_due now l.global_token_bucket l.global_token_state
        else l.global_token_state;
    conditions = map (fill_condition now) l.conditions;
  }

-- `matches` is HeaderUtility::matchHeaders.
module _ {Match Headers : Type 0} (matches : Headers → Match → Bool) where
  take_global : LocalRateLimiter Match → Bool × LocalRateLimiter Match
  take_global l =
      let (allowed, s) = take_token l.global_token_state in
      if not l.has_token_bucket then (true, l) else (allowed, record l { global_token_state = s })

  -- The loop over the conditions that are left, `l` being the limiter with them.
  request_loop :
      Headers
      → List (LocalRateLimitCondition Match)
      → LocalRateLimiter Match
      → Bool × LocalRateLimiter Match
  unfolding take_global
  request_loop headers [] l = take_global (record l { conditions = [] })
  request_loop headers (c ∷ cs) l =
      let (allowed, s) = take_token c.token_state in
      let (later, l') = request_loop headers cs l in
      if matches headers c.match
      then (allowed, record l { conditions = record c { token_state = s } ∷ cs })
      else (later, record l' { conditions = c ∷ l'.conditions })

  unfoldable pub request_allowed : Headers → LocalRateLimiter Match → Bool × LocalRateLimiter Match
  unfolding request_loop
  request_allowed headers l = request_loop headers l.conditions l

  -- The filter, with its two counters and the local replies that it sent.
  pub record LocalRateLimit : Type 0 where
    pub rate_limiter : LocalRateLimiter Match
    pub ok_count : ℕ
    pub rate_limited_count : ℕ
    pub local_replies : List ErrorType

  unfoldable pub should_rate_limit : Headers → LocalRateLimit → Bool × LocalRateLimit
  should_rate_limit headers f =
      let (allowed, l) = request_allowed headers f.rate_limiter in
      if allowed
      then (false, record f { rate_limiter = l; ok_count = f.ok_count + 1 })
      else (true, record f { rate_limiter = l; rate_limited_count = f.rate_limited_count + 1 })

  unfoldable pub on_message_decoded : Headers → LocalRateLimit → FilterStatus × LocalRateLimit
  on_message_decoded headers f =
      let (limited, f') = should_rate_limit headers f in
      if limited
      then (
        FilterStatus.abort_iteration,
        record f' { local_replies = ErrorType.over_limit ∷ f'.local_replies },
      )
      else (FilterStatus.continue_iteration, f')
