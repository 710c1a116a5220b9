-- ===== src/Ingestion/Jobs/Rows.antt =====
-- What the columns of a job say in each status, whatever the workers of
-- src/cf_knowledge_kiln/ingestion/worker.py do to the queue and in whatever order.
use cf_knowledge_kiln.Base.{
  ℕ, ◌<◌, ◌==◌, ◌≡◌, refl, true, false, Bool, Option, none, some, List, [], ◌∷◌, keep, All,
  All-append, Bool-cases, Option-cases, and_true, arith, inl, inr,
}
use cf_knowledge_kiln.Ingestion.Jobs.{
  JobStatus, queued, running, succeeded, failed, cancelled, IngestionJob, is_queued, is_free,
  update, create, oldest, claimed, claim_one, new_job, mark_done, mark_failed, requeue, Step,
  enqueue, claim, finish, fail, put_back, step, run,
}

abbrev pub is_set : {A : Type 0} → Option A → Bool
is_set none = false
is_set (some a) = true

-- The columns that the status asks for; no step cancels a job.
abbrev pub Fits : JobStatus → IngestionJob → Type 0
Fits queued j = (j.started_at ≡ none) × (j.finished_at ≡ none) × (j.last_error ≡ none)
Fits running j =
    (is_set j.started_at ≡ true) × (j.finished_at ≡ none) × (j.last_error ≡ none) × (0 < j.attempts)
Fits succeeded j = is_set j.finished_at ≡ true
Fits failed j = (is_set j.finished_at ≡ true) × (is_set j.last_error ≡ true)
Fits cancelled j = ⊥

abbrev pub IsConsistent : IngestionJob → Type 0
IsConsistent j = Fits j.status j

update-IsConsistent :
    (test : IngestionJob → Bool) (change : IngestionJob → IngestionJob) (jobs : List IngestionJob)
    → ((j : IngestionJob) → test j ≡ true → IsConsistent j → IsConsistent (change j))
    → All IsConsistent jobs
    → All IsConsistent (update test change jobs)
update-IsConsistent test change [] f h = tt
update-IsConsistent test change (j ∷ jobs) f h = elim (Bool-cases (test j)) [
  | inl e ↦ rw e (f j e h.0, update-IsConsistent test change jobs f h.1)
  | inr e ↦ rw e (h.0, update-IsConsistent test change jobs f h.1)
]

claimed-IsConsistent :
    (now : ℕ) (j : IngestionJob) (status : JobStatus)
    → is_queued status ≡ true
    → Fits status j
    → IsConsistent (claimed now j)
claimed-IsConsistent now j queued q (s, f, e) = (refl, f, e, omega arith)
claimed-IsConsistent now j running q h = absurd (ground (arith, q))
claimed-IsConsistent now j succeeded q h = absurd (ground (arith, q))
claimed-IsConsistent now j failed q h = absurd (ground (arith, q))
claimed-IsConsistent now j cancelled q h = absurd h

claim_one-IsConsistent :
    (locked : ℕ → Bool) (now : ℕ) (jobs : List IngestionJob)
    → All IsConsistent jobs
    → All IsConsistent (claim_one locked now jobs).0
unfolding claim_one
claim_one-IsConsistent locked now jobs h =
    elim (Option-cases (oldest (keep (is_free locked) jobs))) [
      | inl e ↦ rw (claim_one, e) h
      | inr (job, e) ↦
          rw (claim_one, e)
            (update-IsConsistent _ (claimed now) jobs
              (λ j t c. claimed-IsConsistent now j j.status (and_true _ _ t).1 c) h)
    ]

step-IsConsistent :
    (s : Step) (jobs : List IngestionJob) → All IsConsistent jobs → All IsConsistent (step s jobs)
unfolding step create mark_done mark_failed requeue
step-IsConsistent (enqueue id now) jobs h =
    let fits : Fits queued (new_job id now) = (refl, refl, refl) in
    All-append IsConsistent jobs (new_job id now ∷ []) h (fits, tt)
step-IsConsistent (claim locked now) jobs h = claim_one-IsConsistent locked now jobs h
step-IsConsistent (finish id now r) jobs h =
    update-IsConsistent (λ j. j.id == id)
      (λ j. record j { status = succeeded; finished_at = some now; result_run_id = some r }) jobs
      (λ j t c. refl) h
step-IsConsistent (fail id now error) jobs h =
    update-IsConsistent (λ j. j.id == id)
      (λ j. record j { status = failed; finished_at = some now; last_error = some error }) jobs
      (λ j t c. (refl, refl)) h
step-IsConsistent (put_back id) jobs h =
    update-IsConsistent (λ j. j.id == id)
      (λ j. record j { status = queued; started_at = none; finished_at = none; last_error = none })
      jobs (λ j t c. (refl, refl, refl)) h

run_from-IsConsistent :
    (steps : List Step) (jobs : List IngestionJob)
    → All IsConsistent jobs
    → All IsConsistent (run steps jobs)
unfolding run
run_from-IsConsistent [] jobs h = h
run_from-IsConsistent (s ∷ steps) jobs h =
    run_from-IsConsistent steps (step s jobs) (step-IsConsistent s jobs h)

-- After any steps of workers and of the command line on an empty queue, with the statements of a
-- recovery in between in any order, a queued job has no start, no end and no error, a running one
-- has a start, no end, no error and at least one attempt, a succeeded one has an end, a failed one
-- an end and an error, and none is cancelled.
pub run-IsConsistent : (steps : List Step) → All IsConsistent (run steps [])
run-IsConsistent steps = run_from-IsConsistent steps [] tt
