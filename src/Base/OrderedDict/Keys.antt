-- ===== src/Base/OrderedDict/Keys.antt =====
-- A dictionary whose keys come from a list has no more entries than the list.
use mathlib.Core.List.{List, [], ◌∷◌}
use mathlib.Core.Logic.{ite, if_pos, if_neg, ◌≢◌, ◌⊎◌, inl, inr}
use mathlib.Core.Option.{none}
use mathlib.Core.Path.{◌≡◌}
use Prim.Native.Nat.{suc, ◌≤◌}
use native.Mathlib.Omega.{arith}
use cf_knowledge_kiln.Base.Lists.{length, All}
use cf_knowledge_kiln.Base.OrderedDict.{get, IsDistinct}

-- A key stands on a list of keys.
abbrev pub IsOn : {K : Type 0} → K → List K → Type 0
IsOn k [] = ⊥
IsOn k (r ∷ rs) = (k ≡ r) ⊎ IsOn k rs

module _ {K : Type 0} (dec : Discrete K) where
  strike : K → List K → List K
  strike k [] = []
  strike k (r ∷ rs) = ite (dec k r) rs (r ∷ strike k rs)

  length-strike : (k : K) (rs : List K) → IsOn k rs → suc (length (strike k rs)) ≡ length rs
  unfolding strike
  length-strike k [] h = elim h [ ]
  length-strike k (r ∷ rs) h = ground (arith, length-strike k rs)

  IsOn-strike : (k q : K) (rs : List K) → q ≢ k → IsOn q rs → IsOn q (strike k rs)
  unfolding strike
  IsOn-strike k q [] ne h = elim h [ ]
  IsOn-strike k q (r ∷ rs) ne (inl e) = elim (dec k r) [
    | yes p ↦ absurd (ne (cc))
    | no p ↦ rw (if_neg _ p) (inl e)
  ]
  IsOn-strike k q (r ∷ rs) ne (inr h) = elim (dec k r) [
    | yes p ↦ rw (if_pos _ p) h
    | no p ↦ rw (if_neg _ p) (inr (IsOn-strike k q rs ne h))
  ]

module _ {K V : Type 0} (dec : Discrete K) where
  All-strike :
      (k : K) (rs : List K) (d : List (K × V))
      → get dec k d ≡ none
      → All (λ e. IsOn e.0 rs) d
      → All (λ e. IsOn e.0 (strike dec k rs)) d
  unfolding get
  All-strike k rs [] n h = tt
  All-strike k rs (e ∷ d) n h =
      (IsOn-strike dec k e.0 rs (ground arith) h.0, All-strike k rs d (ground arith) h.1)

  -- A dictionary whose keys all stand on a list has no more entries than the list has keys.
  pub length-le_of_keys :
      (d : List (K × V)) (rs : List K)
      → IsDistinct dec d
      → All (λ e. IsOn e.0 rs) d
      → length d ≤ length rs
  length-le_of_keys [] rs h on = omega arith
  length-le_of_keys (e ∷ d) rs h on = omega (
    arith,
    length-strike dec e.0 rs on.0,
    length-le_of_keys d (strike dec e.0 rs) h.1 (All-strike e.0 rs d h.0 on.1),
  )
