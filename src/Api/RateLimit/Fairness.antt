-- ===== src/Api/RateLimit/Fairness.antt =====
-- How many hits of one key the limiter grants over a stretch of time, whatever the other keys do.
use cf_knowledge_kiln.Base.{
  ℕ, ◌+◌, ◌-◌, ◌*◌, ◌≤◌, ◌<◌, ◌≡◌, sym, ◌≢◌, Option, none, some, List, [], ◌∷◌, arith,
  if◌then◌else◌, length, All, Option-cases, inl, inr, ◌⊎◌, ite, if_pos, if_neg, All-append,
}
use cf_knowledge_kiln.Base.OrderedDict.{get}
use cf_knowledge_kiln.Base.OrderedDict.Keys.{IsOn, length-le_of_keys}
use cf_knowledge_kiln.Api.RateLimit.{Bucket, TokenBucketLimiter, refilled, hit}
use cf_knowledge_kiln.Api.RateLimit.Tokens.{
  refilled-le, refilled_later, refilled_now, spend_cases, spend_total, mul_split,
}
use cf_knowledge_kiln.Api.RateLimit.Laws.{
  IsValid, others, current, hit_lem, hit-settings, hit-IsValid, get-hit_self, get-hit_ne,
  others-All,
}

-- What a bucket can give at time `t`; a key with no bucket would be given a full one.
unfoldable pub stock : ℕ → ℕ → Option Bucket → ℕ → ℕ
stock capacity window none t = capacity * window
stock capacity window (some b) t = refilled capacity window b t

-- The clock stood no later than `t` when the bucket was last touched.
abbrev pub Seen : Option Bucket → ℕ → Type 0
Seen none t = Unit
Seen (some b) t = b.last_refill ≤ t

stock-le :
    (capacity window : ℕ) (o : Option Bucket) (t : ℕ)
    → stock capacity window o t ≤ capacity * window
unfolding stock
stock-le capacity window none t = omega arith
stock-le capacity window (some b) t = refilled-le capacity window b t

stock_later :
    (capacity window : ℕ) (o : Option Bucket) (s t : ℕ)
    → Seen o s
    → s ≤ t
    → (stock capacity window o t ≤ stock capacity window o s + (t - s) * capacity) × Seen o t
unfolding stock
stock_later capacity window none s t seen h = (omega arith, tt)
stock_later capacity window (some b) s t seen h =
    (refilled_later capacity window b s t seen h, omega arith)

module _ {K : Type 0} (dec : Discrete K) (l : TokenBucketLimiter K) (key : K) (t : ℕ) where
  stock-current :
      refilled l.capacity l.window (current dec l key t) t
      ≡ stock l.capacity l.window (get dec key l.buckets) t
  unfolding stock current
  stock-current = elim (Option-cases (get dec key l.buckets)) [
    | inl e ↦
        rw (e, current, stock)
          (refilled_now l.capacity l.window
            (record { tokens = l.capacity * l.window; last_refill = t }) (omega arith))
    | inr (b, e) ↦ rw (e, current, stock)
  ]

  -- A granted hit takes one token from the stock, a denied one nothing.
  stock-hit :
      IsValid dec l
      → (stock l.capacity l.window (get dec key (hit dec l key t).0.buckets) t
            + (if (hit dec l key t).1 then l.window else 0)
          ≡ stock l.capacity l.window (get dec key l.buckets) t)
        × Seen (get dec key (hit dec l key t).0.buckets) t
  unfolding stock
  stock-hit v =
      rw (get-hit_self dec l key t v, hit_lem dec l key t v, ← stock-current)
        (
          spend_total l.capacity l.window (current dec l key t) t,
          omega (arith, spend_cases l.capacity l.window (current dec l key t) t),
        )

-- The calls happen in order, none before `from` and none after `until`.
abbrev pub InOrder {ℓ} : {K : Type ℓ} → ℕ → List (K × ℕ) → ℕ → Type 0
InOrder from [] until = from ≤ until
InOrder from (c ∷ calls) until = (from ≤ c.1) × InOrder c.1 calls until

InOrder-le {ℓ} :
    {K : Type ℓ} (from : ℕ) (calls : List (K × ℕ)) (until : ℕ)
    → InOrder from calls until
    → from ≤ until
InOrder-le from [] until h = h
InOrder-le from (c ∷ calls) until h = omega (arith, InOrder-le c.1 calls until h.1)

module _ {K : Type 0} (dec : Discrete K) where
  -- How many of the calls for `key` are granted.
  unfoldable pub granted : TokenBucketLimiter K → K → List (K × ℕ) → ℕ
  granted l key [] = 0
  granted l key (c ∷ calls) =
      ite (dec c.0 key) (if (hit dec l c.0 c.1).1 then 1 else 0) 0
      + granted (hit dec l c.0 c.1).0 key calls

  -- The clients fit: each bucket's key and each caller stands on a list no longer than the cap.
  pub record Fits (clients : List K) (l : TokenBucketLimiter K) (calls : List (K × ℕ))
      : Type 0 where
    pub enough : length clients ≤ l.max_buckets
    pub tracked : All (λ e. IsOn e.0 clients) l.buckets
    pub calling : All (λ c. IsOn c.0 clients) calls

  module _ {clients : List K} {l : TokenBucketLimiter K} {c : K × ℕ} {calls : List (K × ℕ)}
      (v : IsValid dec l) (fits : Fits clients l (c ∷ calls)) where
    room_or_known : (get dec c.0 l.buckets ≢ none) ⊎ (length l.buckets < l.max_buckets)
    room_or_known = elim (Option-cases (get dec c.0 l.buckets)) [
      | inl e ↦ inr (
          omega (
            arith,
            fits.enough,
            length-le_of_keys {V = Bucket} dec
                ((c.0, record { tokens = 0; last_refill = 0 }) ∷ l.buckets) clients (e, v.distinct)
                (fits.calling.0, fits.tracked),
          ))
      | inr (b, e) ↦ inl (λ n. cc)
    ]

    Fits-hit : Fits clients (hit dec l c.0 c.1).0 calls
    Fits-hit = rw (hit_lem dec l c.0 c.1 v) (record {
      enough = fits.enough;
      tracked =
          All-append _ (others dec l c.0) _
            (others-All dec (λ e. IsOn e.0 clients) l c.0 fits.tracked) (fits.calling.0, tt);
      calling = fits.calling.1;
    })

  -- One call takes no more from the key's stock than it grants.
  stock-call :
      (clients : List K) (l : TokenBucketLimiter K) (key j : K) (from t : ℕ) (calls : List (K × ℕ))
      → IsValid dec l
      → Fits clients l ((j, t) ∷ calls)
      → from ≤ t
      → Seen (get dec key l.buckets) from
      → (stock l.capacity l.window (get dec key (hit dec l j t).0.buckets) t
            + ite (dec j key) (if (hit dec l j t).1 then 1 else 0) 0 * l.window
          ≤ stock l.capacity l.window (get dec key l.buckets) from + (t - from) * l.capacity)
        × Seen (get dec key (hit dec l j t).0.buckets) t
  stock-call clients l key j from t calls v f o seen =
      let later = stock_later l.capacity l.window (get dec key l.buckets) from t seen o in
      elim (dec j key) [
        | yes p ↦
            rw (if_pos _ p, p)
              (let h = stock-hit dec l key t v in (ground (arith, h.0, later.0), h.1))
        | no p ↦
            rw (if_neg _ p, get-hit_ne dec l j key t v (λ e. p (sym e)) (room_or_known v f))
              (omega (arith, later), later.1)
      ]

  granted-le-stock :
      (clients : List K) (l : TokenBucketLimiter K) (key : K) (calls : List (K × ℕ))
      (from until : ℕ)
      → IsValid dec l
      → Fits clients l calls
      → InOrder from calls until
      → Seen (get dec key l.buckets) from
      → granted l key calls * l.window
        ≤ stock l.capacity l.window (get dec key l.buckets) from + (until - from) * l.capacity
  unfolding granted
  granted-le-stock clients l key [] from until v f o seen = omega arith
  granted-le-stock clients l key (c ∷ calls) from until v f o seen =
      let settings = hit-settings dec l c.0 c.1 in
      let (taken, seen') = stock-call clients l key c.0 from c.1 calls v f o.0 seen in
      let rest =
        rw (settings.0, settings.1) at
          (granted-le-stock clients (hit dec l c.0 c.1).0 key calls c.1 until
            (hit-IsValid dec l c.0 c.1 v) (Fits-hit v f) o.1 seen') in
      omega (
        arith,
        rest,
        taken,
        mul_split from c.1 until l.capacity o.0 (InOrder-le c.1 calls until o.1),
      )

  -- Over any ordered calls within [from, until] of clients that fit the table, a valid limiter
  -- grants a key at most capacity hits and one more for each window / capacity ticks of the
  -- stretch, whatever the other keys do.
  pub granted_bound :
      (clients : List K) (l : TokenBucketLimiter K) (key : K) (calls : List (K × ℕ))
      (from until : ℕ)
      → IsValid dec l
      → Fits clients l calls
      → InOrder from calls until
      → Seen (get dec key l.buckets) from
      → granted l key calls * l.window ≤ l.capacity * l.window + (until - from) * l.capacity
  granted_bound clients l key calls from until v f o seen = omega (
    arith,
    granted-le-stock clients l key calls from until v f o seen,
    stock-le l.capacity l.window (get dec key l.buckets) from,
  )
