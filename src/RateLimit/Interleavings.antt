-- ===== src/RateLimit/Interleavings.antt =====
-- The compare-and-exchange loops of onFillTimerHelper and requestAllowedHelper on one atomic
-- counter, run by any number of threads. A thread is at the load, or holds what it expects the
-- counter to be; an exchange may also fail where it could succeed (`compare_exchange_weak`).
use meta_protocol_proxy.Base.{
  ℕ, ◌+◌, ◌-◌, ◌*◌, ◌≤◌, ◌<◌, ◌≡◌, ◌≢◌, sym, subst, ◌==◌, if◌then◌else◌, ◌⊎◌, inl, inr, arith,
}
use meta_protocol_proxy.RateLimit.{TokenBucket, fill_tokens}
use meta_protocol_proxy.RateLimit.Buckets.{fill_tokens-le, fill_tokens-le-add}

pub data Position : Type 0 where
  idle : Position
  requesting : ℕ → Position
  filling : ℕ → Position

-- The counter, the threads, and how many requests were granted and refused and how many fills
-- were made.
pub record Pool : Type 0 where
  pub tokens : ℕ
  pub position : ℕ → Position
  pub granted : ℕ
  pub refused : ℕ
  pub fills : ℕ

abbrev put : ℕ → Position → (ℕ → Position) → ℕ → Position
put i p f j = if i == j then p else f j

abbrev pub start : ℕ → Pool
start n = record { tokens = n; position = λ i. Position.idle; granted = 0; refused = 0; fills = 0 }

abbrev pub begin_request : ℕ → Pool → Pool
begin_request i s = record s { position = put i (Position.requesting s.tokens) s.position }

abbrev pub refuse : ℕ → Pool → Pool
refuse i s = record s { position = put i Position.idle s.position; refused = s.refused + 1 }

abbrev pub grant : ℕ → ℕ → Pool → Pool
grant i e s = record s {
  tokens = e - 1;
  position = put i Position.idle s.position;
  granted = s.granted + 1;
}

abbrev pub begin_fill : ℕ → Pool → Pool
begin_fill i s = record s { position = put i (Position.filling s.tokens) s.position }

abbrev pub fill : TokenBucket → ℕ → ℕ → Pool → Pool
fill b i e s = record s {
  tokens = fill_tokens b e;
  position = put i Position.idle s.position;
  fills = s.fills + 1;
}

-- A step of thread `i`.
pub data Step (b : TokenBucket) (s t : Pool) : Type 0 where
  loads_request : (i : ℕ) → s.position i ≡ Position.idle → t ≡ begin_request i s → Step b s t
  refuses : (i : ℕ) → s.position i ≡ Position.requesting 0 → t ≡ refuse i s → Step b s t
  grants :
      (i e : ℕ)
      → s.position i ≡ Position.requesting e
      → e ≢ 0
      → s.tokens ≡ e
      → t ≡ grant i e s
      → Step b s t
  retries_request :
      (i e : ℕ) → s.position i ≡ Position.requesting e → e ≢ 0 → t ≡ begin_request i s → Step b s t
  loads_fill : (i : ℕ) → s.position i ≡ Position.idle → t ≡ begin_fill i s → Step b s t
  fills_bucket :
      (i e : ℕ) → s.position i ≡ Position.filling e → s.tokens ≡ e → t ≡ fill b i e s → Step b s t
  retries_fill : (i e : ℕ) → s.position i ≡ Position.filling e → t ≡ begin_fill i s → Step b s t

pub data Reach (b : TokenBucket) (s : Pool) : Pool → Type 0 where
  here : Reach b s s
  next : {t u : Pool} → Reach b s t → Step b t u → Reach b s u

-- The tokens of a bucket that began with `n`, those it granted, and its fills.
pub record Accounts (b : TokenBucket) (n : ℕ) (s : Pool) : Type 0 where
  pub bounded : s.tokens ≤ b.max_tokens
  pub covered : s.tokens + s.granted ≤ n + s.fills * b.tokens_per_fill
  pub kept : (0 < s.fills) ⊎ (s.tokens + s.granted ≡ n)

kept_after_grant :
    (b : TokenBucket) (n : ℕ) (s : Pool) (e : ℕ)
    → e ≢ 0
    → s.tokens ≡ e
    → Accounts b n s
    → (0 < s.fills) ⊎ (e - 1 + (s.granted + 1) ≡ n)
kept_after_grant b n s e ne c v = elim v.kept [ inl h ↦ inl h | inr h ↦ inr (omega arith) ]

Step-Accounts :
    (b : TokenBucket) (n : ℕ) (s t : Pool) → Step b s t → Accounts b n s → Accounts b n t
Step-Accounts b n s t (loads_request i p e) v = ground arith
Step-Accounts b n s t (refuses i p e) v = ground arith
Step-Accounts b n s t (grants i e p ne c u) v = subst (Accounts b n) (sym u) (record {
  bounded = omega arith;
  covered = omega arith;
  kept = kept_after_grant b n s e ne c v;
})
Step-Accounts b n s t (retries_request i e p ne u) v = ground arith
Step-Accounts b n s t (loads_fill i p e) v = ground arith
Step-Accounts b n s t (fills_bucket i e p c u) v = subst (Accounts b n) (sym u) (record {
  bounded = fill_tokens-le b e;
  covered = omega (arith, fill_tokens-le-add b e);
  kept = inl (omega arith);
})
Step-Accounts b n s t (retries_fill i e p u) v = ground arith

-- In every interleaving of requests and fills, by any number of threads, from a bucket that holds
-- no more than its maximum: the bucket never holds more than its maximum, every token granted was
-- there at the start or came from a fill, and as long as there is no fill no token is lost.
pub Reach-Accounts :
    (b : TokenBucket) (n : ℕ) {t : Pool} → n ≤ b.max_tokens → Reach b (start n) t → Accounts b n t
Reach-Accounts b n h here = record { bounded = h; covered = omega arith; kept = inr (omega arith) }
Reach-Accounts b n h (next r s) = Step-Accounts b n _ _ s (Reach-Accounts b n h r)
