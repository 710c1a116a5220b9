-- ===== src/Ingestion/Embedding/Stretches.antt =====
-- Writes to a stretch of the slots of src/cf_knowledge_kiln/ingestion/embedding/batched.py, and a
-- walk over the slices of the texts that keeps to the stretch of each.
use cf_knowledge_kiln.Base.{
  ℕ, zero, suc, ◌+◌, ◌≤◌, ◌<◌, ◌==◌, true, Option, none, List, [], ◌∷◌, ◌++◌, length, take, drop,
  length-append, ◌≡◌, refl, sym, ap, ◌∙◌, ◌⊎◌, inl, inr, arith,
}
use cf_knowledge_kiln.Ingestion.Embedding.{set, write, replicate, slices, each_batch}
use mathlib.Core.List.{append_assoc}

module _ {V : Type 0} where
  write_later :
      (n : ℕ) (vs : List (Option V)) (x : Option V) (xs : List (Option V))
      → write (suc n) vs (x ∷ xs) ≡ x ∷ write n vs xs
  unfolding write
  write_later n [] x xs = refl
  write_later n (v ∷ vs) x xs = write_later (suc n) vs x (set xs n v)

  -- A stretch is overwritten by as many values.
  pub write_stretch :
      (pre old vs tail : List (Option V)) (start : ℕ)
      → start ≡ length pre
      → length old ≡ length vs
      → write start vs (pre ++ (old ++ tail)) ≡ pre ++ (vs ++ tail)
  unfolding write
  write_stretch [] [] [] tail start e h = refl
  write_stretch [] [] (v ∷ vs) tail start e h = absurd (omega arith)
  write_stretch [] (o ∷ old) [] tail start e h = absurd (omega arith)
  write_stretch [] (o ∷ old) (v ∷ vs) tail start e h = rw e (
      write_later 0 vs v (old ++ tail)
      ∙ ap (◌∷◌ v) (write_stretch [] old vs tail 0 refl (omega (arith, h))))
  write_stretch (p ∷ pre) old vs tail start e h = rw e (
      write_later (length pre) vs p (pre ++ (old ++ tail))
      ∙ ap (◌∷◌ p) (write_stretch pre old vs tail (length pre) refl h))

  replicate_add : (a b : ℕ) (x : Option V) → replicate (a + b) x ≡ replicate a x ++ replicate b x
  replicate_add zero b x = ap (λ n. replicate n x) (omega arith)
  replicate_add (suc a) b x =
      let e : suc a + b ≡ suc (a + b) = omega arith in
      ap (λ n. replicate n x) e ∙ ap (◌∷◌ x) (replicate_add a b x)

pub ==_sound : (a b : ℕ) → (a == b) ≡ true → a ≡ b
==_sound a b h = ground arith

pub length-replicate : {A : Type 0} (n : ℕ) (x : A) → length (replicate n x) ≡ n
length-replicate zero x = refl
length-replicate (suc n) x = omega (arith, length-replicate n x)

length-split :
    {A : Type 0} (n : ℕ) (xs : List A) → length (take n xs) + length (drop n xs) ≡ length xs
length-split zero xs = omega arith
length-split (suc n) [] = omega arith
length-split (suc n) (x ∷ xs) = omega (arith, length-split n xs)

-- Either the whole is taken, or as many as asked for.
take_enough : {A : Type 0} (n : ℕ) (xs : List A) → (drop n xs ≡ []) ⊎ (length (take n xs) ≡ n)
take_enough zero xs = inr refl
take_enough (suc n) [] = inl refl
take_enough (suc n) (x ∷ xs) = elim (take_enough n xs) [
  | inl e ↦ inl e
  | inr e ↦ inr (omega (arith, e))
]

module _ {T V : Type 0} where
  abbrev pub concat : (ℕ × List T → List (Option V)) → List (ℕ × List T) → List (Option V)
  concat f [] = []
  concat f (b ∷ bs) = f b ++ concat f bs

  pub each_batch-slices :
      (step : ℕ × List T → List (Option V) → List (Option V))
      (before after : ℕ × List T → List (Option V)) (size : ℕ)
      → ((b : ℕ × List T) (pre tail : List (Option V))
          → b.0 ≡ length pre
          → step b (pre ++ (before b ++ tail)) ≡ pre ++ (after b ++ tail))
      → ((b : ℕ × List T) → length (after b) ≡ length b.1)
      → (fuel start : ℕ) (texts : List T) (pre : List (Option V))
      → (texts ≡ []) ⊎ (start ≡ length pre)
      → each_batch step
          (slices fuel size start texts)
          (pre ++ concat before (slices fuel size start texts))
        ≡ pre ++ concat after (slices fuel size start texts)
  unfolding each_batch slices
  each_batch-slices step before after size steps lengths zero start texts pre h = refl
  each_batch-slices step before after size steps lengths (suc fuel) start [] pre h = refl
  each_batch-slices step before after size steps lengths (suc fuel) start (t ∷ texts) pre (inl h) =
      cc
  each_batch-slices step before after size steps lengths (suc fuel) start (t ∷ texts) pre (inr e) =
      let b : ℕ × List T = (start, take size (t ∷ texts)) in
      let rest = drop size (t ∷ texts) in
      let bs = slices fuel size (start + size) rest in
      let go : (rest ≡ []) ⊎ (start + size ≡ length (pre ++ after b)) =
        elim (take_enough size (t ∷ texts)) [
          | inl r ↦ inl r
          | inr q ↦ inr (omega (arith, e, q, length-append {0} pre (after b), lengths b))
        ] in
      ap (each_batch step bs)
        (steps b pre (concat before bs) e ∙ sym (append_assoc pre (after b) (concat before bs)))
      ∙ (each_batch-slices step before after size steps lengths fuel (start + size) rest
            (pre ++ after b) go
          ∙ append_assoc pre (after b) (concat after bs))

  abbrev pub unset : ℕ × List T → List (Option V)
  unset b = replicate (length b.1) none

  -- The slots start out unset.
  pub concat-unset :
      (size fuel start : ℕ) (texts : List T)
      → 0 < size
      → length texts ≤ fuel
      → concat unset (slices fuel size start texts) ≡ replicate (length texts) none
  unfolding slices
  concat-unset size zero start [] p h = refl
  concat-unset size zero start (t ∷ texts) p h = absurd (omega arith)
  concat-unset size (suc fuel) start [] p h = refl
  concat-unset zero (suc fuel) start (t ∷ texts) p h = absurd (omega arith)
  concat-unset (suc size) (suc fuel) start (t ∷ texts) p h =
      let split = length-split size texts in
      let whole : length (t ∷ take size texts) + length (drop size texts) ≡ length (t ∷ texts) =
        omega (arith, split) in
      ap (λ xs. replicate (length (t ∷ take size texts)) none ++ xs)
        (concat-unset (suc size) fuel (start + suc size) (drop size texts) p (omega (arith, split)))
      ∙ (sym (replicate_add (length (t ∷ take size texts)) (length (drop size texts)) none)
          ∙ ap (λ n. replicate n none) whole)
