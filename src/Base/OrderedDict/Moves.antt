-- ===== src/Base/OrderedDict/Moves.antt =====
-- `move_to_end` changes the order of the entries and nothing that a lookup can see.
use mathlib.Core.List.{List, [], ◌∷◌, ◌++◌}
use mathlib.Core.Logic.{inl, inr}
use mathlib.Core.Option.{some}
use mathlib.Core.Path.{◌≡◌, sym, ◌∙◌}
use native.Mathlib.Omega.{arith}
use cf_knowledge_kiln.Base.Bools.{Option-cases}
use cf_knowledge_kiln.Base.Lists.{length, length-append}
use cf_knowledge_kiln.Base.OrderedDict.{
  get, delete, move_to_end, IsDistinct, get-snoc_self, get-snoc_ne, get-delete_ne, get-delete_self,
  IsDistinct-delete, IsDistinct-snoc, length-delete,
}

module _ {ℓ} {K V : Type ℓ} (dec : Discrete K) (k : K) (d : List (K × V)) where
  move_to_end_present :
      (v : V) → get dec k d ≡ some v → move_to_end dec k d ≡ delete dec k d ++ (k, v) ∷ []
  unfolding move_to_end
  move_to_end_present v e = rw (e, move_to_end)

  pub length-move_to_end : length (move_to_end dec k d) ≡ length d
  unfolding move_to_end
  length-move_to_end = elim (Option-cases (get dec k d)) [
    | inl e ↦ rw (e, move_to_end)
    | inr (v, e) ↦
        rw (move_to_end_present v e)
          (omega (arith, length-append (delete dec k d) ((k, v) ∷ []), length-delete dec k d v e))
  ]

  pub IsDistinct-move_to_end : IsDistinct dec d → IsDistinct dec (move_to_end dec k d)
  unfolding move_to_end
  IsDistinct-move_to_end h = elim (Option-cases (get dec k d)) [
    | inl e ↦ rw (e, move_to_end) h
    | inr (v, e) ↦ rw (move_to_end_present v e) (
        IsDistinct-snoc dec k v (delete dec k d) (get-delete_self dec k d h)
          (IsDistinct-delete dec k d h))
  ]

  pub get-move_to_end : (q : K) → IsDistinct dec d → get dec q (move_to_end dec k d) ≡ get dec q d
  unfolding move_to_end
  get-move_to_end q h = elim (Option-cases (get dec k d)) [
    | inl e ↦ rw (e, move_to_end)
    | inr (v, e) ↦ rw (move_to_end_present v e) (elim (dec q k) [
      | yes p ↦ rw p (get-snoc_self dec k v (delete dec k d) (get-delete_self dec k d h) ∙ sym e)
      | no p ↦ get-snoc_ne dec k q v (delete dec k d) p ∙ get-delete_ne dec k q d p
    ])
  ]
