-- ===== src/Ingestion/Embedding.antt =====
-- The concurrent embedding of texts in batches:
-- src/cf_knowledge_kiln/ingestion/embedding/batched.py. A schedule is the order in which the
-- batches complete.
use cf_knowledge_kiln.Base.{
  ℕ, zero, suc, ◌+◌, ◌==◌, Option, none, some, List, [], ◌∷◌, map, length, take, drop,
  if◌then◌else◌,
}
pub mod Schedules
pub mod Hashes
pub mod Stretches
pub mod Slots
pub mod Pass
pub mod Accounts
pub mod Settled

module _ {A : Type 0} where
  -- `xs[i] = x`, for an index that is there
  abbrev pub set : List A → ℕ → A → List A
  set [] i x = []
  set (y ∷ ys) zero x = x ∷ ys
  set (y ∷ ys) (suc i) x = y ∷ set ys i x

  -- `[x] * n`
  abbrev pub replicate : ℕ → A → List A
  replicate zero x = []
  replicate (suc n) x = x ∷ replicate n x

-- The completion of the batches in another order.
pub data IsReordering {A : Type 0} : List A → List A → Type 0 where
  unchanged : (xs : List A) → IsReordering xs xs
  swapped : (x y : A) (xs : List A) → IsReordering (x ∷ y ∷ xs) (y ∷ x ∷ xs)
  behind : (x : A) {xs ys : List A} → IsReordering xs ys → IsReordering (x ∷ xs) (x ∷ ys)
  composed : {xs ys zs : List A} → IsReordering xs ys → IsReordering ys zs → IsReordering xs zs

-- The exception of a failed batch: the provider's, or the wrong number of vectors.
pub data BatchError : Type 0 where
  provider_raised : BatchError
  wrong_count : ℕ → ℕ → BatchError

pub data BatchOutcome (V : Type 0) : Type 0 where
  vectors_of : List V → BatchOutcome V
  failed : BatchError → BatchOutcome V

pub record BatchResults (V : Type 0) : Type 0 where
  pub vectors : List (Option V)
  pub failures : List (ℕ × ℕ × BatchError)

-- The ValueErrors of the two settings.
pub data Fanout (V : Type 0) : Type 0 where
  results : BatchResults V → Fanout V
  bad_batch_size bad_concurrency : Fanout V

module _ {T : Type 0} where
  -- `[(i, texts[i : i + batch_size]) for i in range(0, len(texts), batch_size)]`, from a start on;
  -- the fuel bounds the number of batches.
  unfoldable pub slices : ℕ → ℕ → ℕ → List T → List (ℕ × List T)
  slices zero batch_size start texts = []
  slices (suc fuel) batch_size start [] = []
  slices (suc fuel) batch_size start (t ∷ texts) =
      (start, take batch_size (t ∷ texts))
      ∷ slices fuel batch_size (start + batch_size) (drop batch_size (t ∷ texts))

  abbrev pub batches : ℕ → List T → List (ℕ × List T)
  batches batch_size texts = slices (length texts) batch_size 0 texts

module _ {V : Type 0} where
  -- `out[start + offset] = vector` for each vector
  unfoldable pub write : ℕ → List (Option V) → List (Option V) → List (Option V)
  write start [] out = out
  write start (v ∷ vs) out = write (suc start) vs (set out start v)

module _ {T V : Type 0} where
  unfoldable pub each_batch :
      (ℕ × List T → List (Option V) → List (Option V))
      → List (ℕ × List T)
      → List (Option V)
      → List (Option V)
  each_batch step [] out = out
  each_batch step (b ∷ bs) out = each_batch step bs (step b out)

  -- What `embed_documents` gives for a batch; `none` is an exception.
  module _ (embed_documents : ℕ → List T → Option (List V)) where
    abbrev pub counted : List T → Option (List V) → BatchOutcome V
    counted texts none = failed provider_raised
    counted texts (some vs) =
        if length vs == length texts
        then vectors_of vs
        else failed (wrong_count (length vs) (length texts))

    unfoldable pub outcome : ℕ × List T → BatchOutcome V
    outcome (start, texts) = counted texts (embed_documents start texts)

    abbrev pub written : ℕ → BatchOutcome V → List (Option V) → List (Option V)
    written start (vectors_of vs) out = write start (map some vs) out
    written start (failed e) out = out

    -- `_run_one`
    unfoldable pub run_one : ℕ × List T → List (Option V) → List (Option V)
    unfolding write outcome
    run_one batch out = written batch.0 (outcome batch) out

    -- `asyncio.gather`: the batches complete in the order of the schedule.
    unfoldable pub gather : List (ℕ × List T) → List (Option V) → List (Option V)
    unfolding run_one each_batch
    gather = each_batch run_one

    abbrev pub with_failure :
        ℕ × List T → BatchOutcome V → List (ℕ × ℕ × BatchError) → List (ℕ × ℕ × BatchError)
    with_failure b (vectors_of vs) rest = rest
    with_failure b (failed e) rest = (b.0, length b.1, e) ∷ rest

    -- `_collect_failures`: the failures, and the slots of the failed batches.
    unfoldable pub failures_of : List (ℕ × List T) → List (ℕ × ℕ × BatchError)
    unfolding outcome
    failures_of [] = []
    failures_of (b ∷ bs) = with_failure b (outcome b) (failures_of bs)

    abbrev pub cleared : ℕ × List T → BatchOutcome V → List (Option V) → List (Option V)
    cleared b (vectors_of vs) out = out
    cleared b (failed e) out = write b.0 (replicate (length b.1) none) out

    abbrev pub clear_batch : ℕ × List T → List (Option V) → List (Option V)
    clear_batch b = cleared b (outcome b)

    unfoldable pub clear_failed : List (ℕ × List T) → List (Option V) → List (Option V)
    unfolding outcome write each_batch
    clear_failed = each_batch clear_batch

    abbrev pub fan_out : List (ℕ × List T) → List T → ℕ → BatchResults V
    fan_out schedule [] batch_size = record { vectors = []; failures = [] }
    fan_out schedule (t ∷ texts) batch_size =
        let bs = batches batch_size (t ∷ texts) in
        record {
          vectors = clear_failed bs (gather schedule (replicate (length (t ∷ texts)) none));
          failures = failures_of bs;
        }

    -- `embed_chunks_concurrently`, with the schedule of its batches
    unfoldable pub embed_chunks_concurrently : List (ℕ × List T) → List T → ℕ → ℕ → Fanout V
    unfolding gather failures_of clear_failed slices
    embed_chunks_concurrently schedule texts batch_size concurrency =
        if batch_size == 0
        then bad_batch_size
        else if concurrency == 0
        then bad_concurrency
        else results (fan_out schedule texts batch_size)
