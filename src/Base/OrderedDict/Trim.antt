-- ===== src/Base/OrderedDict/Trim.antt =====
-- Trimming a dictionary to a bound from its oldest end.
use mathlib.Core.List.{List, [], ◌∷◌, ◌++◌}
use mathlib.Core.Logic.{inl, inr}
use mathlib.Core.Option.{none, some}
use mathlib.Core.Path.{◌≡◌, refl, ◌∙◌, ap}
use Prim.Native.Nat.{ℕ, zero, suc, ◌≤◌, ◌<◌, ◌-◌}
use native.Mathlib.Omega.{arith}
use cf_knowledge_kiln.Base.Bools.{ltb, Bool-cases}
use cf_knowledge_kiln.Base.Lists.{length, length-append}
use cf_knowledge_kiln.Base.OrderedDict.{get, IsDistinct, trim}

pub length-trim-le {ℓ} : {K V : Type ℓ} (n : ℕ) (d : List (K × V)) → length (trim n d) ≤ n
unfolding trim
length-trim-le n [] = omega arith
length-trim-le n (e ∷ d) = ground (arith, length-trim-le n d)

-- Trimming keeps the newest entry.
pub trim_snoc {ℓ} :
    {K V : Type ℓ} (n : ℕ) (d : List (K × V)) (x : K × V)
    → trim (suc n) (d ++ x ∷ []) ≡ trim n d ++ x ∷ []
unfolding trim
trim_snoc n [] x = ground arith
trim_snoc n (e ∷ d) x = ground (arith, trim_snoc n d x, length-append d (x ∷ []))

module _ {ℓ} {K V : Type ℓ} (dec : Discrete K) where
  pub get-trim_of_none :
      (n : ℕ) (q : K) (d : List (K × V)) → get dec q d ≡ none → get dec q (trim n d) ≡ none
  unfolding trim get
  get-trim_of_none n q [] h = refl
  get-trim_of_none n q (e ∷ d) h = ground (arith, get-trim_of_none n q d)

  pub IsDistinct-trim : (n : ℕ) (d : List (K × V)) → IsDistinct dec d → IsDistinct dec (trim n d)
  unfolding trim
  IsDistinct-trim n [] h = tt
  IsDistinct-trim n (e ∷ d) h = elim (Bool-cases (ltb n (length (e ∷ d)))) [
    | inl long ↦ rw (long, trim) (IsDistinct-trim n d h.1)
    | inr short ↦ rw (short, trim) h
  ]

  -- What is found after a trim was there before it.
  pub trim_keeps :
      (n : ℕ) (q : K) (v : V) (d : List (K × V))
      → IsDistinct dec d
      → get dec q (trim n d) ≡ some v
      → get dec q d ≡ some v
  unfolding trim get
  trim_keeps n q v [] h e = e
  trim_keeps n q v (f ∷ d) h e = elim (dec f.0 q) [
    | yes p ↦ ground (arith, get-trim_of_none n q d)
    | no p ↦ ground (arith, trim_keeps n q v d h.1)
  ]

pub trim_snoc_pos {ℓ} :
    {K V : Type ℓ} (n : ℕ) (d : List (K × V)) (x : K × V)
    → 0 < n
    → trim n (d ++ x ∷ []) ≡ trim (n - 1) d ++ x ∷ []
trim_snoc_pos zero d x h = absurd (omega arith)
trim_snoc_pos (suc n) d x h = trim_snoc n d x ∙ ap (λ (m : ℕ). trim m d ++ x ∷ []) (omega arith)
