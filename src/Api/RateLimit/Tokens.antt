-- ===== src/Api/RateLimit/Tokens.antt =====
-- One token bucket: its refill, what a grant takes, and how long a denied caller waits.
use cf_knowledge_kiln.Base.{ℕ, ◌+◌, ◌-◌, ◌*◌, ◌≤◌, ◌≡◌, arith, ap, if◌then◌else◌}
use cf_knowledge_kiln.Api.RateLimit.{Bucket, refilled, spend}

pub mul_split : (a b c k : ℕ) → a ≤ b → b ≤ c → (c - a) * k ≡ (c - b) * k + (b - a) * k
mul_split a b c k h g =
    let e : c - a ≡ (c - b) + (b - a) = omega arith in omega (arith, ap (λ (t : ℕ). t * k) e)

module _ (capacity window : ℕ) where
  pub refilled-le : (b : Bucket) (t : ℕ) → refilled capacity window b t ≤ capacity * window
  unfolding refilled
  refilled-le b t = omega arith

  -- Between two times the level rises by the refill of the time between them at most.
  pub refilled_later :
      (b : Bucket) (s t : ℕ)
      → b.last_refill ≤ s
      → s ≤ t
      → refilled capacity window b t ≤ refilled capacity window b s + (t - s) * capacity
  unfolding refilled
  refilled_later b s t h g = omega (arith, mul_split b.last_refill s t capacity h g)

  pub refilled_now :
      (b : Bucket)
      → b.tokens ≤ capacity * window
      → refilled capacity window b b.last_refill ≡ b.tokens
  unfolding refilled
  refilled_now b h =
      let e : (b.last_refill - b.last_refill) * capacity ≡ 0 = grind arith in omega (arith, e)

  -- A grant takes one token, a denial none, and either way the time is noted.
  pub spend_cases :
      (b : Bucket) (t : ℕ)
      → ((spend capacity window b t).0.tokens
            + (if (spend capacity window b t).1 then window else 0)
          ≡ refilled capacity window b t)
        × ((spend capacity window b t).0.last_refill ≡ t)
  unfolding spend
  spend_cases b t = ground arith

  -- What is left after a hit, and what the hit took, are what was there.
  pub spend_total :
      (b : Bucket) (t : ℕ)
      → refilled capacity window (spend capacity window b t).0 t
          + (if (spend capacity window b t).1 then window else 0)
        ≡ refilled capacity window b t
  spend_total b t =
      let s = (spend capacity window b t).0 in
      omega (
        arith,
        spend_cases b t,
        ap (refilled capacity window s) (spend_cases b t).1,
        refilled_now s (omega (arith, spend_cases b t, refilled-le b t)),
      )
