-- ===== src/Ingestion/Embedding/Schedules.antt =====
-- The batches of src/cf_knowledge_kiln/ingestion/embedding/batched.py do not meet, so that the order
-- in which they complete does not matter.
use cf_knowledge_kiln.Base.{
  ℕ, zero, suc, ◌+◌, ◌*◌, ◌≤◌, ◌<◌, ◌==◌, ltb, Option, none, some, List, [], ◌∷◌, map, length, take,
  drop, All, length-take-le, ◌≡◌, ◌≢◌, refl, sym, ap, ◌∙◌, subst, ◌⊎◌, inl, inr, Bool-cases, arith,
  ℕ_discrete,
}
use cf_knowledge_kiln.Ingestion.Embedding.{
  set, write, IsReordering, unchanged, swapped, behind, composed, slices, batches, run_one, gather,
  outcome, each_batch, BatchOutcome, vectors_of, failed, counted, written,
}

set_comm :
    {A : Type 0} (xs : List A) (i j : ℕ) (x y : A)
    → i ≢ j
    → set (set xs i x) j y ≡ set (set xs j y) i x
set_comm [] i j x y h = refl
set_comm (z ∷ zs) zero zero x y h = absurd (h refl)
set_comm (z ∷ zs) zero (suc j) x y h = refl
set_comm (z ∷ zs) (suc i) zero x y h = refl
set_comm (z ∷ zs) (suc i) (suc j) x y h = ap (◌∷◌ z) (set_comm zs i j x y (λ e. h (ap suc e)))

-- An index outside of a stretch.
abbrev pub IsApart : ℕ → ℕ → ℕ → Type 0
IsApart i start size = (i < start) ⊎ (start + size ≤ i)

module _ {V : Type 0} where
  write-set :
      (start : ℕ) (vs out : List (Option V)) (i : ℕ) (x : Option V)
      → IsApart i start (length vs)
      → write start vs (set out i x) ≡ set (write start vs out) i x
  unfolding write
  write-set start [] out i x h = refl
  write-set start (v ∷ vs) out i x h =
      ap (write (suc start) vs) (set_comm out i start x v (λ e. ground arith))
      ∙ write-set (suc start) vs (set out start v) i x (ground arith)

  write-write :
      (a b : ℕ) (us vs out : List (Option V))
      → (a + length us ≤ b) ⊎ (b + length vs ≤ a)
      → write a us (write b vs out) ≡ write b vs (write a us out)
  unfolding write
  write-write a b us [] out h = refl
  write-write a b us (v ∷ vs) out h =
      write-write a (suc b) us vs (set out b v) (ground arith)
      ∙ ap (write (suc b) vs) (write-set a us out b v (ground arith))

pub length-map : {A : Type 0} (xs : List A) → length (map some xs) ≡ length xs
length-map [] = refl
length-map (x ∷ xs) = omega (arith, length-map xs)

drop_nil : {A : Type 0} (n : ℕ) → drop {A = A} n [] ≡ []
drop_nil zero = refl
drop_nil (suc n) = refl

drop-drop : {A : Type 0} (a b : ℕ) (xs : List A) → drop a (drop b xs) ≡ drop (b + a) xs
drop-drop a zero xs = ap (λ n. drop n xs) (omega arith)
drop-drop a (suc b) [] = drop_nil a ∙ sym (drop_nil (suc b + a))
drop-drop a (suc b) (x ∷ xs) =
    let e : suc (b + a) ≡ suc b + a = omega arith in drop-drop a b xs ∙ ap (λ n. drop n (x ∷ xs)) e

zero_times : (n : ℕ) → 0 ≡ 0 * n
zero_times n = grind arith

apart_slices : (size k l : ℕ) → k < l → k * size + size ≤ l * size
apart_slices size k l h = grind arith

apart_starts :
    {T : Type 0} (size : ℕ) (b c : ℕ × List T) (k l : ℕ)
    → b.0 ≡ k * size
    → c.0 ≡ l * size
    → k ≢ l
    → (c.0 + size ≤ b.0) ⊎ (b.0 + size ≤ c.0)
apart_starts size b c k l e q differ = elim (Bool-cases (ltb k l)) [
  | inl p ↦ inr (omega (arith, e, q, apart_slices size k l (ground arith)))
  | inr p ↦ inl (omega (arith, e, q, apart_slices size l k (ground arith)))
]

module _ {T V : Type 0} (embed_documents : ℕ → List T → Option (List V)) (size : ℕ)
    (whole : List T) where
  -- A batch of the whole: so many texts from a multiple of the size on.
  abbrev pub IsSlice : ℕ × List T → Type 0
  IsSlice b = (k : ℕ) × (b ≡ (k * size, take size (drop (k * size) whole)))

  pub length-counted :
      (texts : List T) (answer : Option (List V)) (vs : List V)
      → counted embed_documents texts answer ≡ vectors_of vs
      → length vs ≡ length texts
  length-counted texts none vs h = cc
  length-counted texts (some us) vs h = ground arith

  -- The result of a batch fits its stretch.
  abbrev Fits : ℕ → BatchOutcome V → Type 0
  Fits n (vectors_of vs) = length vs ≤ n
  Fits n (failed e) = Unit

  counted-Fits :
      (texts : List T) (answer : Option (List V))
      → length texts ≤ size
      → Fits size (counted embed_documents texts answer)
  counted-Fits texts none h = tt
  counted-Fits texts (some us) h = elim (Bool-cases (length us == length texts)) [
    | inl e ↦ rw e (ground arith)
    | inr e ↦ rw e tt
  ]

  written_comm :
      (a b : ℕ) (o p : BatchOutcome V) (out : List (Option V))
      → Fits size o
      → Fits size p
      → (a + size ≤ b) ⊎ (b + size ≤ a)
      → written embed_documents a o (written embed_documents b p out)
        ≡ written embed_documents b p (written embed_documents a o out)
  written_comm a b (failed e) p out h k d = refl
  written_comm a b (vectors_of us) (failed e) out h k d = refl
  written_comm a b (vectors_of us) (vectors_of vs) out h k d =
      write-write a b (map some us) (map some vs) out (ground (arith, length-map us, length-map vs))

  outcome-Fits : (b : ℕ × List T) → IsSlice b → Fits size (outcome embed_documents b)
  unfolding outcome
  outcome-Fits b (k, e) =
      subst (λ (c : ℕ × List T). Fits size (outcome embed_documents c)) (sym e)
        (counted-Fits _ (embed_documents (k * size) _)
          (length-take-le size (drop (k * size) whole)))

  run_one_comm :
      (b c : ℕ × List T) (out : List (Option V))
      → IsSlice b
      → IsSlice c
      → run_one embed_documents c (run_one embed_documents b out)
        ≡ run_one embed_documents b (run_one embed_documents c out)
  unfolding run_one
  run_one_comm b c out (k, e) (l, q) = elim (ℕ_discrete k l) [
    | yes same ↦
        let one =
          e ∙ (ap (λ (n : ℕ). (n * size, take size (drop (n * size) whole))) same ∙ sym q) in
        subst
          (λ d.
            run_one embed_documents d (run_one embed_documents b out)
            ≡ run_one embed_documents b (run_one embed_documents d out))
          one refl
    | no differ ↦
        written_comm c.0 b.0 (outcome embed_documents c) (outcome embed_documents b) out
          (outcome-Fits c (l, q)) (outcome-Fits b (k, e))
          (apart_starts size b c k l (ap (λ (p : ℕ × List T). p.0) e)
            (ap (λ (p : ℕ × List T). p.0) q) differ)
  ]

  All-reordering :
      {xs ys : List (ℕ × List T)} → IsReordering xs ys → All IsSlice xs → All IsSlice ys
  All-reordering (unchanged xs) h = h
  All-reordering (swapped x y xs) h = (h.1.0, (h.0, h.1.1))
  All-reordering (behind x r) h = (h.0, All-reordering r h.1)
  All-reordering (composed r s) h = All-reordering s (All-reordering r h)

  pub gather-reordering :
      {xs ys : List (ℕ × List T)} (out : List (Option V))
      → IsReordering xs ys
      → All IsSlice xs
      → gather embed_documents xs out ≡ gather embed_documents ys out
  unfolding gather each_batch
  gather-reordering out (unchanged xs) h = refl
  gather-reordering out (swapped x y xs) h =
      ap (gather embed_documents xs) (run_one_comm x y out h.0 h.1.0)
  gather-reordering out (behind x r) h = gather-reordering (run_one embed_documents x out) r h.1
  gather-reordering out (composed r s) h =
      gather-reordering out r h ∙ gather-reordering out s (All-reordering r h)

  slices-AllSlice :
      (fuel k : ℕ) (texts : List T)
      → texts ≡ drop (k * size) whole
      → All IsSlice (slices fuel size (k * size) texts)
  unfolding slices
  slices-AllSlice zero k texts h = tt
  slices-AllSlice (suc fuel) k [] h = tt
  slices-AllSlice (suc fuel) k (t ∷ texts) h =
      let e : suc k * size ≡ k * size + size = grind arith in
      (
        (k, ap (λ (xs : List T). (k * size, take size xs)) h),
        subst (λ n. All IsSlice (slices fuel size n (drop size (t ∷ texts)))) e
            (slices-AllSlice fuel (suc k) (drop size (t ∷ texts)) (
              ap (drop size) h
              ∙ (drop-drop size (k * size) whole ∙ ap (λ n. drop n whole) (sym e)))),
      )

  pub batches-AllSlice : All IsSlice (batches size whole)
  batches-AllSlice =
      subst (λ n. All IsSlice (slices (length whole) size n whole)) (grind arith)
        (slices-AllSlice (length whole) 0 whole (ap (λ n. drop n whole) (zero_times size)))
