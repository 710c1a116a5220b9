-- ===== src/Tests/Queue.antt =====
-- The job queue at concrete inputs.
use cf_knowledge_kiln.Base.{
  ℕ, ◌≡◌, ◌≤◌, refl, Bool, true, false, ◌&&◌, Option, none, some, List, [], ◌∷◌, ◌++◌, ◌==◌, All,
  IsAmong,
}
use cf_knowledge_kiln.Ingestion.Jobs.{
  Step, JobStatus, queued, running, RunStatus, run_succeeded, IngestionJob, is_queued, is_running,
  is_free, claimed, claim_one, put_back, list_running, oldest, update, recover_stale_running,
  enqueue, claim, finish, step, run, create, mark_done,
}
use cf_knowledge_kiln.Ingestion.Jobs.Claims.{claim_one_lem}
use cf_knowledge_kiln.Ingestion.Jobs.Recovery.{recover_stale_running-idle}
use cf_knowledge_kiln.Ingestion.Jobs.Rows.{IsConsistent, run-IsConsistent}

abbrev job_of : ℕ → JobStatus → ℕ → Option ℕ → IngestionJob
job_of id status enqueued_at result_run_id = record {
  id = id;
  status = status;
  enqueued_at = enqueued_at;
  started_at = none;
  finished_at = none;
  attempts = 1;
  last_error = none;
  result_run_id = result_run_id;
}

abbrev jobs : List IngestionJob
jobs =
    job_of 1 running 10 none
    ∷ job_of 2 queued 30 none
    ∷ job_of 3 queued 20 none
    ∷ job_of 4 running 5 (some 9)
    ∷ []

abbrev nobody : ℕ → Bool
nobody id = false

claim_third : (claim_one nobody 40 jobs).1 ≡ some (claimed 40 (job_of 3 queued 20 none))
unfolding claim_one oldest
claim_third = refl

claim_one_lem_example :
    (q : IngestionJob) × (claimed 40 (job_of 3 queued 20 none) ≡ claimed 40 q)
    × IsAmong q jobs
    × (is_free nobody q ≡ true)
    × All (λ k. is_free nobody k ≡ true → q.enqueued_at ≤ k.enqueued_at) jobs
    × ((claim_one nobody 40 jobs).0
        ≡ update (λ j. j.id == q.id && is_queued j.status) (claimed 40) jobs)
claim_one_lem_example =
    claim_one_lem nobody 40 jobs (claimed 40 (job_of 3 queued 20 none)) claim_third

abbrev all_persisted : ℕ → Option RunStatus
all_persisted id = some run_succeeded

-- A job that was enqueued, claimed and finished by a worker.
one_done :
    All
      (λ j. is_running j.status ≡ false)
      (run (enqueue 1 10 ∷ claim nobody 11 ∷ finish 1 20 7 ∷ []) [])
unfolding run step create claim_one oldest mark_done
one_done = (refl, tt)

-- A worker finishes one job and dies over the next; the recovery of another lists what runs.
abbrev died : List Step
died = enqueue 1 10 ∷ enqueue 2 12 ∷ claim nobody 13 ∷ finish 1 20 7 ∷ claim nobody 21 ∷ []

-- The first worker was only slow: it finishes the job between the listing and the recovery.
abbrev raced : List Step
raced = died ++ finish 2 30 8 ∷ put_back 2 ∷ claim nobody 40 ∷ []

run-IsConsistent_example : All IsConsistent (run raced [])
run-IsConsistent_example = run-IsConsistent raced

recover_stale_running-idle_example :
    All
      (λ j. is_running j.status ≡ false)
      (run (recover_stale_running all_persisted 50 (list_running jobs)) jobs)
recover_stale_running-idle_example = recover_stale_running-idle all_persisted 50 jobs
