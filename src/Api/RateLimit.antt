-- ===== src/Api/RateLimit.antt =====
-- The token-bucket rate limiter of src/cf_knowledge_kiln/api/rate_limit.py.
-- Times are whole numbers of ticks of the clock, and `window` is the window in ticks. A bucket
-- holds `tokens` in units of 1 / window of a token, so the refill of `capacity` tokens per window
-- is `capacity` units per tick and every quantity is exact.
pub mod Tokens
pub mod Laws
pub mod Fairness
use cf_knowledge_kiln.Base.{
  ℕ, ◌+◌, ◌-◌, ◌*◌, min, Bool, true, false, Option, none, some, List, [], ◌∷◌, ◌++◌, ltb, leb, ◌==◌,
  if◌then◌else◌, length,
}
use cf_knowledge_kiln.Base.OrderedDict.{get, move_to_end, pop_oldest, write}

pub record Bucket : Type 0 where
  pub tokens : ℕ
  pub last_refill : ℕ

pub record TokenBucketLimiter (K : Type 0) : Type 0 where
  pub capacity : ℕ
  pub window : ℕ
  pub max_buckets : ℕ
  pub buckets : List (K × Bucket)

-- `none` is the ValueError of a bound that is not positive.
unfoldable pub init : {K : Type 0} → ℕ → ℕ → ℕ → Option (TokenBucketLimiter K)
init capacity window max_buckets =
    if capacity == 0
    then none
    else if window == 0
    then none
    else if max_buckets == 0
    then none
    else some
        (record { capacity = capacity; window = window; max_buckets = max_buckets; buckets = [] })

-- The tokens of a bucket at time `t`: `elapsed` stops at 0, and the level at the capacity.
unfoldable pub refilled : ℕ → ℕ → Bucket → ℕ → ℕ
refilled capacity window b t = min (capacity * window) (b.tokens + (t - b.last_refill) * capacity)

-- The end of `hit`: refill, and take one token if there is one.
unfoldable pub spend : ℕ → ℕ → Bucket → ℕ → Bucket × Bool
spend capacity window b t =
    let tokens = refilled capacity window b t in
    if leb window tokens
    then (record { tokens = tokens - window; last_refill = t }, true)
    else (record { tokens = tokens; last_refill = t }, false)

module _ {K : Type 0} (dec : Discrete K) where
  -- The bucket that `hit` works on, and the dictionary with the bucket in it.
  unfoldable pub find_bucket : TokenBucketLimiter K → K → ℕ → Bucket × List (K × Bucket)
  find_bucket l key t = elim (get dec key l.buckets) [
    | none ↦
        let bucket : Bucket = record { tokens = l.capacity * l.window; last_refill = t } in
        let grown = l.buckets ++ (key, bucket) ∷ [] in
        (bucket, if ltb l.max_buckets (length grown) then pop_oldest grown else grown)
    | some b ↦ (b, move_to_end dec key l.buckets)
  ]

  unfoldable pub hit : TokenBucketLimiter K → K → ℕ → TokenBucketLimiter K × Bool
  hit l key t =
      let (bucket, buckets) = find_bucket l key t in
      let (spent, allowed) = spend l.capacity l.window bucket t in
      (record l { buckets = write dec key spent buckets }, allowed)
