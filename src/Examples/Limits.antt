-- ===== src/Examples/Limits.antt =====
-- The local rate limiter.
use meta_protocol_proxy.Base.{ℕ, ◌<◌, ◌≡◌, refl, Bool, true, List, [], ◌∷◌, ok, arith, ◌==◌}
use meta_protocol_proxy.RateLimit.{
  TokenBucket, ConditionConfig, LocalRateLimitCondition, LocalRateLimiter, LocalRateLimit,
  fill_tokens, minimum_interval, new_limiter, request_allowed,
}
use meta_protocol_proxy.RateLimit.Buckets.{fill_tokens_overflow}
use meta_protocol_proxy.RateLimit.Requests.{request_allowed_governed}
use meta_protocol_proxy.RateLimit.Interleavings.{
  loads_request, grants, here, next, Accounts, start, begin_request, grant, Reach-Accounts,
}

abbrev bucket : TokenBucket
bucket = record { max_tokens = 5; tokens_per_fill = 2; fill_interval = 100 }

-- A maximum near 2 ^ 32.
abbrev huge : TokenBucket
huge = record { max_tokens = 4294967295; tokens_per_fill = 10; fill_interval = 100 }

fill_tokens_overflow_example : fill_tokens huge 4294967290 < 4294967290
fill_tokens_overflow_example =
    fill_tokens_overflow huge 4294967290 (omega arith) (omega arith) (omega arith)

abbrev same_number : ℕ → ℕ → Bool
same_number a b = a == b

abbrev condition : LocalRateLimitCondition ℕ
condition = record {
  match = 1;
  token_bucket = bucket;
  token_state = record { tokens = 2; fill_time = 0 };
}

abbrev limiter : LocalRateLimiter ℕ
limiter = record {
  has_token_bucket = true;
  global_token_bucket = bucket;
  global_token_state = record { tokens = 3; fill_time = 0 };
  conditions = condition ∷ [];
  timer_duration = 100;
}

abbrev new_one : LocalRateLimiter ℕ
new_one = record {
  has_token_bucket = true;
  global_token_bucket = bucket;
  global_token_state = record { tokens = 5; fill_time = 0 };
  conditions = [];
  timer_duration = 100;
}

made : new_limiter true bucket [] 9 ≡ ok new_one
unfolding new_limiter minimum_interval
made = refl

abbrev configured : List (ConditionConfig ℕ)
configured = record { match = 1; bucket = bucket } ∷ []

request_allowed_governed_example : request_allowed same_number 1 limiter ≡ (
  true,
  record limiter {
    conditions = record condition { token_state = record { tokens = 1; fill_time = 0 } } ∷ [];
  },
)
request_allowed_governed_example =
    request_allowed_governed same_number 1 [] condition [] limiter refl tt refl

abbrev filter : LocalRateLimit same_number
filter = record { rate_limiter = limiter; ok_count = 0; rate_limited_count = 0; local_replies = [] }

Reach-Accounts_example : Accounts bucket 3 (grant 0 3 (begin_request 0 (start 3)))
Reach-Accounts_example = Reach-Accounts bucket 3 (omega arith) (
    next (next here (loads_request 0 refl refl))
      (grants 0 3 refl (λ (e : 3 ≡ 0). omega arith) refl refl))
