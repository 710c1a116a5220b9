-- ===== src/Tests/Limits.antt =====
-- The rate limiter at concrete inputs.
use cf_knowledge_kiln.Base.{
  ℕ, ◌+◌, ◌-◌, ◌*◌, ◌≤◌, ◌≡◌, refl, inl, inr, false, some, [], ◌∷◌, arith, ℕ_discrete,
}
use cf_knowledge_kiln.Base.OrderedDict.{get}
use cf_knowledge_kiln.Api.RateLimit.{TokenBucketLimiter, hit, spend, refilled, find_bucket}
use cf_knowledge_kiln.Api.RateLimit.Laws.{IsValid, get-hit_self, current}
use cf_knowledge_kiln.Api.RateLimit.Fairness.{granted, granted_bound}

-- Two hits in a window of six ticks, two buckets at most; key 7 has half a token left.
abbrev limiter : TokenBucketLimiter ℕ
limiter = record {
  capacity = 2;
  window = 6;
  max_buckets = 2;
  buckets = (7, record { tokens = 3; last_refill = 100 }) ∷ [];
}

limiter-IsValid : IsValid ℕ_discrete limiter
unfolding get
limiter-IsValid = record {
  capacity_positive = omega arith;
  window_positive = omega arith;
  room = omega arith;
  distinct = (refl, tt);
  bounded = omega arith;
  filled = (omega arith, tt);
}

get-hit_self_example :
    get ℕ_discrete 7 (hit ℕ_discrete limiter 7 101).0.buckets
    ≡ some (spend 2 6 (current ℕ_discrete limiter 7 101) 101).0
get-hit_self_example = get-hit_self ℕ_discrete limiter 7 101 limiter-IsValid

granted_bound_example :
    granted ℕ_discrete limiter 7 ((7, 101) ∷ (8, 101) ∷ (7, 103) ∷ []) * 6 ≤ 2 * 6 + (104 - 100) * 2
unfolding get ℕ_discrete
granted_bound_example =
    granted_bound ℕ_discrete (7 ∷ 8 ∷ []) limiter 7 ((7, 101) ∷ (8, 101) ∷ (7, 103) ∷ []) 100 104
      limiter-IsValid
      (record {
        enough = omega arith;
        tracked = (inl refl, tt);
        calling = (inl refl, (inr (inl refl), (inl refl, tt)));
      })
      (omega arith, (omega arith, (omega arith, omega arith))) (omega arith)

limiter_denied : (hit ℕ_discrete limiter 7 100).1 ≡ false
unfolding hit spend refilled find_bucket get ℕ_discrete
limiter_denied = refl
