-- ===== src/Api/RateLimit/Laws.antt =====
-- What `hit` leaves in the dictionary of buckets, and the limiter's invariant.
use cf_knowledge_kiln.Base.{
  ℕ, suc, ◌-◌, ◌*◌, ◌≤◌, ◌<◌, ◌≡◌, refl, ◌≢◌, none, some, List, [], ◌∷◌, ◌++◌, arith, leb,
  if◌then◌else◌, length, All, All-append, length-append, Option-cases, if_pos, inl, inr, ◌⊎◌,
  Bool-cases,
}
use cf_knowledge_kiln.Base.OrderedDict.{
  get, delete, move_to_end, pop_oldest, IsDistinct, IsDistinct-delete, IsDistinct-snoc,
  IsDistinct-pop_oldest, get-delete_self, get-delete_ne, length-delete, write_snoc, pop_oldest_snoc,
  All-delete, get-snoc, length-pop_oldest, All-pop_oldest, get-pop_oldest_of_none,
}
use cf_knowledge_kiln.Api.RateLimit.{Bucket, TokenBucketLimiter, spend, find_bucket, hit}
use cf_knowledge_kiln.Api.RateLimit.Tokens.{refilled-le, spend_cases}

module _ {K : Type 0} (dec : Discrete K) where
  -- The entries that stay beside the key's own.
  unfoldable pub others : TokenBucketLimiter K → K → List (K × Bucket)
  others l key = elim (get dec key l.buckets) [
    | none ↦ if leb l.max_buckets (length l.buckets) then pop_oldest l.buckets else l.buckets
    | some _ ↦ delete dec key l.buckets
  ]

  -- The bucket that a hit at `t` draws on.
  unfoldable pub current : TokenBucketLimiter K → K → ℕ → Bucket
  current l key t = elim (get dec key l.buckets) [
    | none ↦ record { tokens = l.capacity * l.window; last_refill = t }
    | some b ↦ b
  ]

  pub record IsValid (l : TokenBucketLimiter K) : Type 0 where
    pub capacity_positive : 0 < l.capacity
    pub window_positive : 0 < l.window
    pub room : 0 < l.max_buckets
    pub distinct : IsDistinct dec l.buckets
    pub bounded : length l.buckets ≤ l.max_buckets
    pub filled : All (λ e. e.1.tokens ≤ l.capacity * l.window) l.buckets

  module _ (l : TokenBucketLimiter K) (key : K) (t : ℕ) where
    others_fresh : IsDistinct dec l.buckets → get dec key (others l key) ≡ none
    unfolding others
    others_fresh d = elim (Option-cases (get dec key l.buckets)) [
      | inl e ↦ rw (e, others) (ground (arith, get-pop_oldest_of_none dec key l.buckets e))
      | inr (b, e) ↦ rw (e, others) (get-delete_self dec key l.buckets d)
    ]

    find_bucket_lem :
        IsValid l
        → find_bucket dec l key t ≡ (current l key t, others l key ++ (key, current l key t) ∷ [])
    unfolding find_bucket others current move_to_end
    find_bucket_lem v = ground (
      arith,
      length-append l.buckets
          ((key, record { tokens = l.capacity * l.window; last_refill = t }) ∷ []),
      pop_oldest_snoc l.buckets (key, record { tokens = l.capacity * l.window; last_refill = t })
          (l.max_buckets - 1),
    )

    pub hit_lem :
        IsValid l
        → hit dec l key t ≡ (
            let s = spend l.capacity l.window (current l key t) t in
            (record l { buckets = others l key ++ (key, s.0) ∷ [] }, s.1))
    unfolding hit
    hit_lem v =
        rw (find_bucket_lem v, hit) (rw (write_snoc dec key _ _ _ (others_fresh v.distinct)))

  others-bounded :
      (l : TokenBucketLimiter K) (key : K) → IsValid l → suc (length (others l key)) ≤ l.max_buckets
  unfolding others
  others-bounded l key v = elim (Option-cases (get dec key l.buckets)) [
    | inl e ↦ rw (e, others) (ground (arith, length-pop_oldest l.buckets))
    | inr (b, e) ↦ rw (e, others) (omega (arith, length-delete dec key l.buckets b e))
  ]

  others-IsDistinct :
      (l : TokenBucketLimiter K) (key : K) → IsValid l → IsDistinct dec (others l key)
  unfolding others
  others-IsDistinct l key v = elim (Option-cases (get dec key l.buckets)) [
    | inl e ↦
        rw (e, others)
          (elim (Bool-cases (leb l.max_buckets (length l.buckets))) [
            | inl full ↦ rw full (IsDistinct-pop_oldest dec l.buckets v.distinct)
            | inr free ↦ rw free v.distinct
          ])
    | inr (b, e) ↦ rw (e, others) (IsDistinct-delete dec key l.buckets v.distinct)
  ]

  abbrev WithinCapacity : TokenBucketLimiter K → Bucket → Type 0
  WithinCapacity l b = b.tokens ≤ l.capacity * l.window

  pub hit-settings :
      (l : TokenBucketLimiter K) (key : K) (t : ℕ)
      → ((hit dec l key t).0.capacity ≡ l.capacity)
        × ((hit dec l key t).0.window ≡ l.window)
        × ((hit dec l key t).0.max_buckets ≡ l.max_buckets)
  unfolding hit
  hit-settings l key t = (refl, refl, refl)

  -- What holds of every entry holds of those that stay.
  pub others-All :
      (P : K × Bucket → Type 0) (l : TokenBucketLimiter K) (key : K)
      → All P l.buckets
      → All P (others l key)
  unfolding others
  others-All P l key h = elim (Option-cases (get dec key l.buckets)) [
    | inl e ↦
        rw (e, others)
          (elim (Bool-cases (leb l.max_buckets (length l.buckets))) [
            | inl full ↦ rw full (All-pop_oldest P l.buckets h)
            | inr free ↦ rw free h
          ])
    | inr (b, e) ↦ rw (e, others) (All-delete dec P key l.buckets h)
  ]

  -- A hit keeps the limiter valid: positive settings, distinct keys, no more buckets than the cap,
  -- and no bucket above the capacity.
  pub hit-IsValid :
      (l : TokenBucketLimiter K) (key : K) (t : ℕ) → IsValid l → IsValid (hit dec l key t).0
  hit-IsValid l key t v = rw (hit_lem l key t v) (record {
    capacity_positive = v.capacity_positive;
    window_positive = v.window_positive;
    room = v.room;
    distinct =
        IsDistinct-snoc dec key _ (others l key) (others_fresh l key t v.distinct)
          (others-IsDistinct l key v);
    bounded =
        omega (arith, length-append (others l key) ((key, spent) ∷ []), others-bounded l key v);
    filled =
        All-append _ (others l key) _ (others-All (λ e. WithinCapacity l e.1) l key v.filled)
          (fits, tt);
  })
    where
      spent : Bucket
      spent = (spend l.capacity l.window (current l key t) t).0

      fits : spent.tokens ≤ l.capacity * l.window
      fits = omega (
        arith,
        spend_cases l.capacity l.window (current l key t) t,
        refilled-le l.capacity l.window (current l key t) t,
      )

  -- The bucket of the key that was hit is the one that was drawn on, less what was spent.
  pub get-hit_self :
      (l : TokenBucketLimiter K) (key : K) (t : ℕ)
      → IsValid l
      → get dec key (hit dec l key t).0.buckets
        ≡ some (spend l.capacity l.window (current l key t) t).0
  get-hit_self l key t v =
      rw (hit_lem l key t v, get-snoc dec key key _ (others l key), others_fresh l key t v.distinct)
        (if_pos (dec key key) refl _ _)

  -- A hit of a valid limiter leaves the bucket of every other key as it is, if the hit's own key
  -- has a bucket or the table has room.
  pub get-hit_ne :
      (l : TokenBucketLimiter K) (key q : K) (t : ℕ)
      → IsValid l
      → q ≢ key
      → (get dec key l.buckets ≢ none) ⊎ (length l.buckets < l.max_buckets)
      → get dec q (hit dec l key t).0.buckets ≡ get dec q l.buckets
  unfolding others
  get-hit_ne l key q t v ne kept =
      rw (hit_lem l key t v, get-snoc dec key q _ (others l key))
        (ground (arith, get-delete_ne dec key q l.buckets ne))
