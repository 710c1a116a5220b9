-- ===== src/Ingestion/Embedding/Slots.antt =====
-- What the concurrent embedding of src/cf_knowledge_kiln/ingestion/embedding/batched.py gives.
use cf_knowledge_kiln.Base.{
  ℕ, ◌<◌, ◌==◌, false, Option, none, some, List, [], ◌∷◌, ◌++◌, map, length, length-append, ◌≡◌,
  refl, sym, ap, ◌∙◌, inl, inr, Bool-cases, arith,
}
use cf_knowledge_kiln.Ingestion.Embedding.{
  replicate, IsReordering, slices, batches, each_batch, run_one, gather, clear_batch, clear_failed,
  outcome, counted, BatchOutcome, vectors_of, failed, written, cleared, failures_of, results,
  embed_chunks_concurrently, fan_out,
}
use cf_knowledge_kiln.Ingestion.Embedding.Schedules.{
  length-map, gather-reordering, batches-AllSlice,
}
use cf_knowledge_kiln.Ingestion.Embedding.Stretches.{
  write_stretch, ==_sound, length-replicate, concat, each_batch-slices, unset, concat-unset,
}

module _ {T V : Type 0} (embed_documents : ℕ → List T → Option (List V)) where
  -- The slots of a batch: its vectors, or nothing where it failed.
  abbrev pub slots_of : ℕ → BatchOutcome V → List (Option V)
  slots_of n (vectors_of vs) = map some vs
  slots_of n (failed e) = replicate n none

  abbrev pub slots : ℕ × List T → List (Option V)
  slots b = slots_of (length b.1) (outcome embed_documents b)

  length-slots : (b : ℕ × List T) → length (slots b) ≡ length b.1
  unfolding outcome
  length-slots (start, texts) = length-slots_of (embed_documents start texts)
    where
      length-slots_of :
          (answer : Option (List V))
          → length (slots_of (length texts) (counted embed_documents texts answer)) ≡ length texts
      length-slots_of none = length-replicate (length texts) none
      length-slots_of (some vs) = elim (Bool-cases (length vs == length texts)) [
        | inl e ↦ rw e (length-map vs ∙ (==_sound _ _ e))
        | inr e ↦ rw e (length-replicate (length texts) none)
      ]

  -- Each batch finds its slots unset and leaves its own.
  run_one_at :
      (b : ℕ × List T) (pre tail : List (Option V))
      → b.0 ≡ length pre
      → run_one embed_documents b (pre ++ (replicate (length b.1) none ++ tail))
        ≡ pre ++ (slots b ++ tail)
  unfolding run_one
  run_one_at b pre tail e = written_at (outcome embed_documents b) (length-slots b)
    where
      written_at :
          (o : BatchOutcome V)
          → length (slots_of (length b.1) o) ≡ length b.1
          → written embed_documents b.0 o (pre ++ (replicate (length b.1) none ++ tail))
            ≡ pre ++ (slots_of (length b.1) o ++ tail)
      written_at (vectors_of vs) n =
          write_stretch pre (replicate (length b.1) none) (map some vs) tail b.0 e
            (length-replicate (length b.1) none ∙ sym n)
      written_at (failed f) n = refl

  clear_batch_at :
      (b : ℕ × List T) (pre tail : List (Option V))
      → b.0 ≡ length pre
      → clear_batch embed_documents b (pre ++ (slots b ++ tail)) ≡ pre ++ (slots b ++ tail)
  clear_batch_at b pre tail e = cleared_at (outcome embed_documents b)
    where
      cleared_at :
          (o : BatchOutcome V)
          → cleared embed_documents b o (pre ++ (slots_of (length b.1) o ++ tail))
            ≡ pre ++ (slots_of (length b.1) o ++ tail)
      cleared_at (vectors_of vs) = refl
      cleared_at (failed f) =
          write_stretch pre (replicate (length b.1) none) (replicate (length b.1) none) tail b.0 e
            refl

  gather_in_order :
      (size : ℕ) (texts : List T)
      → 0 < size
      → gather embed_documents (batches size texts) (replicate (length texts) none)
        ≡ concat slots (batches size texts)
  unfolding gather
  gather_in_order size texts p =
      ap (each_batch (run_one embed_documents) (batches size texts))
        (sym (concat-unset size (length texts) 0 texts p (omega arith)))
      ∙ each_batch-slices (run_one embed_documents) unset slots size run_one_at length-slots
          (length texts) 0 texts [] (inr refl)

  clear_failed_in_order :
      (size : ℕ) (texts : List T)
      → clear_failed embed_documents (batches size texts) (concat slots (batches size texts))
        ≡ concat slots (batches size texts)
  unfolding clear_failed
  clear_failed_in_order size texts =
      each_batch-slices (clear_batch embed_documents) slots slots size clear_batch_at length-slots
        (length texts) 0 texts [] (inr refl)

  fan_out_lem :
      (size : ℕ)
      → 0 < size
      → (schedule : List (ℕ × List T)) (texts : List T) → IsReordering (batches size texts) schedule
      → fan_out embed_documents schedule texts size ≡ record {
        vectors = concat slots (batches size texts);
        failures = failures_of embed_documents (batches size texts);
      }
  unfolding slices failures_of
  fan_out_lem size p schedule [] r = refl
  fan_out_lem size p schedule (t ∷ texts) r =
      let bs = batches size (t ∷ texts) in
      let none_set = replicate (length (t ∷ texts)) none in
      let vectors =
        ap (clear_failed embed_documents bs) (
          sym (
            gather-reordering embed_documents size (t ∷ texts) none_set r
              (batches-AllSlice embed_documents size (t ∷ texts)))
          ∙ gather_in_order size (t ∷ texts) p)
        ∙ clear_failed_in_order size (t ∷ texts) in
      ap
        (λ (vs : List (Option V)). record {
          vectors = vs;
          failures = failures_of embed_documents bs;
        })
        vectors

  -- There is a slot for each text.
  pub length-concat :
      (size : ℕ) (texts : List T)
      → 0 < size
      → length (concat slots (batches size texts)) ≡ length texts
  length-concat size texts p =
      same_length (batches size texts)
      ∙ (ap length (concat-unset {V = V} size (length texts) 0 texts p (omega arith))
          ∙ length-replicate (length texts) none)
    where
      same_length :
          (bs : List (ℕ × List T)) → length (concat slots bs) ≡ length (concat {V = V} unset bs)
      same_length [] = refl
      same_length (b ∷ bs) = omega (
        arith,
        length-append {0} (slots b) (concat slots bs),
        length-append {0} (unset {V = V} b) (concat {V = V} unset bs),
        length-slots b,
        length-replicate {A = Option V} (length b.1) none,
        same_length bs,
      )

-- For positive settings and whatever the order in which the batches complete, the vectors are
-- those of the batches one after another, none for each text of a failed batch, and the failures
-- are those of the failed batches in order.
pub embed_chunks_concurrently_lem :
    {T V : Type 0} (embed_documents : ℕ → List T → Option (List V)) (schedule : List (ℕ × List T))
    (texts : List T) (batch_size concurrency : ℕ)
    → 0 < batch_size
    → 0 < concurrency
    → IsReordering (batches batch_size texts) schedule
    → embed_chunks_concurrently embed_documents schedule texts batch_size concurrency
      ≡ results (record {
        vectors = concat (slots embed_documents) (batches batch_size texts);
        failures = failures_of embed_documents (batches batch_size texts);
      })
unfolding embed_chunks_concurrently failures_of slices
embed_chunks_concurrently_lem embed_documents schedule texts size concurrency p q r =
    let sized : (size == 0) ≡ false = ground arith in
    let parallel : (concurrency == 0) ≡ false = ground arith in
    rw (sized, parallel) (ap results (fan_out_lem embed_documents size p schedule texts r))
