-- ===== src/Ingestion/Jobs/Recovery.antt =====
-- What the recovery at the start of a worker leaves.
use cf_knowledge_kiln.Base.{
  ℕ, ◌≡◌, refl, true, false, Option, some, List, [], ◌∷◌, keep, ◌==◌, All, All-self, All-weaken,
  IsAmong, any, arith, Bool-cases, Option-cases, inl, inr,
}
use cf_knowledge_kiln.Ingestion.Jobs.{
  RunStatus, IngestionJob, is_running, update, mark_done, requeue, is_persisted, list_running,
  recover_stale_running, run, step,
}

-- A job that runs is among these.
abbrev IsStale : List IngestionJob → IngestionJob → Type 0
IsStale stale j = is_running j.status ≡ true → any (λ s. s.id == j.id) stale ≡ true

after_update :
    (job : IngestionJob) (stale jobs : List IngestionJob) (change : IngestionJob → IngestionJob)
    → ((j : IngestionJob) → is_running (change j).status ≡ false)
    → All (IsStale (job ∷ stale)) jobs
    → All (IsStale stale) (update (λ j. j.id == job.id) change jobs)
after_update job stale [] change idle h = tt
after_update job stale (j ∷ jobs) change idle h = elim (Bool-cases (j.id == job.id)) [
  | inl e ↦ rw e (λ r. ground (arith, idle j), after_update job stale jobs change idle h.1)
  | inr e ↦ rw e (λ r. ground (arith, h.0 r), after_update job stale jobs change idle h.1)
]

recovered-idle :
    (runs : ℕ → Option RunStatus) (now : ℕ) (stale jobs : List IngestionJob)
    → All (IsStale stale) jobs
    → All (λ j. is_running j.status ≡ false) (run (recover_stale_running runs now stale) jobs)
unfolding recover_stale_running run step mark_done requeue
recovered-idle runs now [] jobs h = All-weaken _ _ jobs (λ j k. ground (arith, k)) h
recovered-idle runs now (job ∷ stale) jobs h =
    let requeued =
      recovered-idle runs now stale (requeue job.id jobs)
        (after_update job stale jobs _ (λ j. refl) h) in
    elim (Option-cases job.result_run_id) [
      | inl e ↦ rw e requeued
      | inr (r, e) ↦ rw e (elim (Bool-cases (is_persisted (runs r))) [
        | inl p ↦ rw p (
            recovered-idle runs now stale (mark_done job.id now (some r) jobs)
              (after_update job stale jobs _ (λ j. refl) h))
        | inr p ↦ rw p requeued
      ])
    ]

among_stale :
    (j : IngestionJob) (jobs : List IngestionJob)
    → IsAmong j jobs
    → is_running j.status ≡ true
    → any (λ s. s.id == j.id) (keep (λ k. is_running k.status) jobs) ≡ true
among_stale j [] a r = absurd a
among_stale j (k ∷ jobs) (inl e) r = rw (← e, r) (ground arith)
among_stale j (k ∷ jobs) (inr a) r = let more = among_stale j jobs a r in ground arith

-- Where no other step comes between the listing of a worker's start and the last statement of its
-- recovery, no job is running after it, whatever the table of runs says.
pub recover_stale_running-idle :
    (runs : ℕ → Option RunStatus) (now : ℕ) (jobs : List IngestionJob)
    → All
        (λ j. is_running j.status ≡ false)
        (run (recover_stale_running runs now (list_running jobs)) jobs)
recover_stale_running-idle runs now jobs =
    recovered-idle runs now (list_running jobs) jobs
      (All-weaken _ _ jobs (λ j a. among_stale j jobs a) (All-self jobs))
