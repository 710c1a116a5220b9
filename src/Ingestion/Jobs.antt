-- ===== src/Ingestion/Jobs.antt =====
-- The queue of src/cf_knowledge_kiln/db/repositories/operations.py (IngestionJobsRepository) and the
-- calls that src/cf_knowledge_kiln/ingestion/worker.py makes of it. A claim, which locks its row, is
-- one step, and so is every other statement. The rows that other sessions hold locked are skipped by a claim.
pub mod Claims
pub mod Recovery
pub mod Rows
use cf_knowledge_kiln.Base.{
  ℕ, suc, Bool, true, false, not, ◌&&◌, Option, none, some, List, [], ◌∷◌, ◌++◌, map, keep, leb,
  ◌==◌, if◌then◌else◌,
}
use Prim.Native.String.{String}

pub data JobStatus : Type 0 where
  queued running succeeded failed cancelled : JobStatus

pub data RunStatus : Type 0 where
  run_running run_succeeded run_partial run_failed : RunStatus

pub record IngestionJob : Type 0 where
  pub id : ℕ
  pub status : JobStatus
  pub enqueued_at : ℕ
  pub started_at : Option ℕ
  pub finished_at : Option ℕ
  pub attempts : ℕ
  pub last_error : Option String
  pub result_run_id : Option ℕ

abbrev pub is_queued : JobStatus → Bool
is_queued queued = true
is_queued _ = false

abbrev pub is_running : JobStatus → Bool
is_running running = true
is_running _ = false

-- `update(IngestionJob).where(...).values(...)`
abbrev pub update :
    (IngestionJob → Bool) → (IngestionJob → IngestionJob) → List IngestionJob → List IngestionJob
update test change = map (λ j. if test j then change j else j)

abbrev pub new_job : ℕ → ℕ → IngestionJob
new_job id now = record {
  id = id;
  status = queued;
  enqueued_at = now;
  started_at = none;
  finished_at = none;
  attempts = 0;
  last_error = none;
  result_run_id = none;
}

unfoldable pub create : ℕ → ℕ → List IngestionJob → List IngestionJob
create id now jobs = jobs ++ new_job id now ∷ []

-- The job is queued, and no other session holds it.
abbrev pub is_free : (ℕ → Bool) → IngestionJob → Bool
is_free locked j = is_queued j.status && not (locked j.id)

-- `ORDER BY enqueued_at LIMIT 1`
unfoldable pub oldest : List IngestionJob → Option IngestionJob
oldest [] = none
oldest (j ∷ jobs) = elim (oldest jobs) [
  | none ↦ some j
  | some k ↦ if leb j.enqueued_at k.enqueued_at then some j else some k
]

abbrev pub claimed : ℕ → IngestionJob → IngestionJob
claimed now j = record j { status = running; started_at = some now; attempts = suc j.attempts }

unfoldable pub claim_one :
    (ℕ → Bool) → ℕ → List IngestionJob → List IngestionJob × Option IngestionJob
unfolding oldest
claim_one locked now jobs = elim (oldest (keep (is_free locked) jobs)) [
  | none ↦ (jobs, none)
  | some job ↦ (
    update (λ j. j.id == job.id && is_queued j.status) (claimed now) jobs,
    some (claimed now job),
  )
]

unfoldable pub mark_done : ℕ → ℕ → Option ℕ → List IngestionJob → List IngestionJob
mark_done id now result_run_id =
    update (λ j. j.id == id)
      (λ j. record j { status = succeeded; finished_at = some now; result_run_id = result_run_id })

unfoldable pub mark_failed : ℕ → ℕ → String → List IngestionJob → List IngestionJob
mark_failed id now error =
    update (λ j. j.id == id)
      (λ j. record j { status = failed; finished_at = some now; last_error = some error })

unfoldable pub requeue : ℕ → List IngestionJob → List IngestionJob
requeue id =
    update (λ j. j.id == id)
      (λ j. record j { status = queued; started_at = none; finished_at = none; last_error = none })

-- `run is not None and run.status in ("succeeded", "partial")`
abbrev pub is_persisted : Option RunStatus → Bool
is_persisted (some run_succeeded) = true
is_persisted (some run_partial) = true
is_persisted _ = false

-- What the command line and the workers do to the table: the creation of a job, a claim, the
-- statements at the end of a job, and the statement that puts a job back.
pub data Step : Type 0 where
  enqueue : ℕ → ℕ → Step
  claim : (ℕ → Bool) → ℕ → Step
  finish : ℕ → ℕ → ℕ → Step
  fail : ℕ → ℕ → String → Step
  put_back : ℕ → Step

-- The statement of `_recover_stale_running` for a job of its listing; `runs` reads the table of
-- runs.
abbrev pub recover_one : (ℕ → Option RunStatus) → ℕ → IngestionJob → Step
recover_one runs now job = elim job.result_run_id [
  | none ↦ put_back job.id
  | some run ↦ if is_persisted (runs run) then finish job.id now run else put_back job.id
]

-- `jobs.list(status="running")`
abbrev pub list_running : List IngestionJob → List IngestionJob
list_running = keep (λ j. is_running j.status)

-- `_recover_stale_running`: what it does after its listing. The rows are not locked, so that steps
-- of other workers may come in between.
unfoldable pub recover_stale_running : (ℕ → Option RunStatus) → ℕ → List IngestionJob → List Step
recover_stale_running runs now = map (recover_one runs now)

unfoldable pub step : Step → List IngestionJob → List IngestionJob
unfolding create claim_one mark_done mark_failed requeue
step (enqueue id now) jobs = create id now jobs
step (claim locked now) jobs = (claim_one locked now jobs).0
step (finish id now run) jobs = mark_done id now (some run) jobs
step (fail id now error) jobs = mark_failed id now error jobs
step (put_back id) jobs = requeue id jobs

unfoldable pub run : List Step → List IngestionJob → List IngestionJob
unfolding step
run [] jobs = jobs
run (s ∷ steps) jobs = run steps (step s jobs)
