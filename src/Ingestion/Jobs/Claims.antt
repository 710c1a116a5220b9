-- ===== src/Ingestion/Jobs/Claims.antt =====
-- Which job a claim takes.
use cf_knowledge_kiln.Base.{
  ℕ, ◌≡◌, ◌≤◌, ◌⊎◌, refl, sym, ◌∙◌, Bool, true, ◌&&◌, some, List, [], ◌∷◌, keep, leb, ◌==◌,
  if◌then◌else◌, All, All-weaken, IsAmong, arith, Bool-cases, Option-cases, inl, inr, some_inj,
  none-ne-some, subst,
}
use cf_knowledge_kiln.Ingestion.Jobs.{
  IngestionJob, is_queued, is_free, oldest, claimed, claim_one, update,
}

oldest_cons :
    (x : IngestionJob) (jobs : List IngestionJob)
    → ((jobs ≡ []) × (oldest (x ∷ jobs) ≡ some x))
      ⊎ ((k : IngestionJob) × (oldest jobs ≡ some k)
          × (oldest (x ∷ jobs) ≡ (if leb x.enqueued_at k.enqueued_at then some x else some k)))
unfolding oldest
oldest_cons x [] = inl (refl, refl)
oldest_cons x (y ∷ jobs) = elim (oldest_cons y jobs) [
  | inl (n, e) ↦ inr (y, e, rw (e, oldest) refl)
  | inr (k, s, e) ↦ elim (Bool-cases (leb y.enqueued_at k.enqueued_at)) [
    | inl p ↦ inr (y, e ∙ rw p refl, rw (e, p, oldest) refl)
    | inr p ↦ inr (k, e ∙ rw p refl, rw (e, p, oldest) refl)
  ]
]

oldest_lem :
    (jobs : List IngestionJob) (j : IngestionJob)
    → oldest jobs ≡ some j
    → IsAmong j jobs × All (λ k. j.enqueued_at ≤ k.enqueued_at) jobs
unfolding oldest
oldest_lem [] j e = cc
oldest_lem (x ∷ jobs) j e = elim (oldest_cons x jobs) [
  | inl (n, first) ↦
      let same : x ≡ j = some_inj (sym first ∙ e) in rw (n, ← same) (inl refl, (omega arith, tt))
  | inr (k, s, step) ↦
      let (among, least) = oldest_lem jobs k s in
      elim (Bool-cases (leb x.enqueued_at k.enqueued_at)) [
        | inl p ↦
            let same : x ≡ j = some_inj (sym (rw p at step) ∙ e) in
            subst (λ m. IsAmong m (x ∷ jobs) × All (λ n. m.enqueued_at ≤ n.enqueued_at) (x ∷ jobs))
              same (inl refl, (omega arith, All-weaken _ _ jobs (λ m h. ground (arith, h)) least))
        | inr p ↦
            let same : k ≡ j = some_inj (sym (rw p at step) ∙ e) in
            subst (λ m. IsAmong m (x ∷ jobs) × All (λ n. m.enqueued_at ≤ n.enqueued_at) (x ∷ jobs))
              same (inr among, (ground arith, least))
      ]
]

IsAmong-keep :
    (test : IngestionJob → Bool) (j : IngestionJob) (jobs : List IngestionJob)
    → IsAmong j (keep test jobs)
    → IsAmong j jobs × (test j ≡ true)
IsAmong-keep test j [] a = absurd a
IsAmong-keep test j (k ∷ jobs) a = elim (Bool-cases (test k)) [
  | inl e ↦ elim (rw e at a) [
    | inl p ↦ (inl p, rw p e)
    | inr b ↦ let (c, d) = IsAmong-keep test j jobs b in (inr c, d)
  ]
  | inr e ↦ let (c, d) = IsAmong-keep test j jobs (rw e at a) in (inr c, d)
]

least_of_kept :
    (test : IngestionJob → Bool) (t : ℕ) (jobs : List IngestionJob)
    → All (λ k. t ≤ k.enqueued_at) (keep test jobs)
    → All (λ k. test k ≡ true → t ≤ k.enqueued_at) jobs
least_of_kept test t [] h = tt
least_of_kept test t (k ∷ jobs) h = elim (Bool-cases (test k)) [
  | inl e ↦ let g = rw e at h in (λ f. g.0, least_of_kept test t jobs g.1)
  | inr e ↦ let g = rw e at h in (λ f. absurd (cc), least_of_kept test t jobs g)
]

-- A claim that returns a job has marked as running a job that was queued and that no other session
-- holds, of those one that waits the longest, and has changed no other job unless it is queued
-- under the same id.
pub claim_one_lem :
    (locked : ℕ → Bool) (now : ℕ) (jobs : List IngestionJob) (job : IngestionJob)
    → (claim_one locked now jobs).1 ≡ some job
    → (q : IngestionJob) × (job ≡ claimed now q)
      × IsAmong q jobs
      × (is_free locked q ≡ true)
      × All (λ k. is_free locked k ≡ true → q.enqueued_at ≤ k.enqueued_at) jobs
      × ((claim_one locked now jobs).0
          ≡ update (λ j. j.id == q.id && is_queued j.status) (claimed now) jobs)
unfolding claim_one
claim_one_lem locked now jobs job h = elim (Option-cases (oldest (keep (is_free locked) jobs))) [
  | inl n ↦ absurd (none-ne-some (rw (n, claim_one) at h))
  | inr (q, s) ↦
      let (among, least) = oldest_lem (keep (is_free locked) jobs) q s in
      let (inside, free) = IsAmong-keep (is_free locked) q jobs among in
      (
        q,
        sym (some_inj (rw (s, claim_one) at h)),
        inside,
        free,
        least_of_kept (is_free locked) q.enqueued_at jobs least,
        rw (s, claim_one) refl,
      )
]
