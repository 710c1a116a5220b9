-- ===== src/Retrieval/Conflicts.antt =====
-- The detection of conflicting sources, `detect_conflicts` of
-- src/cf_knowledge_kiln/retrieval/ranking.py.
use cf_knowledge_kiln.Base.{
  ℕ, ◌==◌, ltb, Bool, true, false, not, ◌&&◌, ◌||◌, Option, List, [], ◌∷◌, any, length,
  if◌then◌else◌,
}
use cf_knowledge_kiln.Base.Host.{Host}
use cf_knowledge_kiln.Retrieval.Ranking.Chunk.{RankedChunk}
use cf_knowledge_kiln.Retrieval.Ranking.Emitters.{gate_for_warnings}
use cf_knowledge_kiln.Retrieval.Types.{is_retired, Conflict}
use text.Mathlib.Text.{◌==◌ as ◌is◌}
use Prim.Native.Nat.{Ordering}
use Prim.Native.String.{String, compare}

-- Equality and the order of tuples of strings.
abbrev pub same_path : List String → List String → Bool
same_path [] [] = true
same_path [] (y ∷ ys) = false
same_path (x ∷ xs) [] = false
same_path (x ∷ xs) (y ∷ ys) = (x is y) && same_path xs ys

abbrev pub path_before : List String → List String → Bool
path_before [] ys = true
path_before (x ∷ xs) [] = false
path_before (x ∷ xs) (y ∷ ys) =
    let rest = path_before xs ys in
    elim (compare x y) [ Ordering.lt ↦ true | Ordering.eq ↦ rest | Ordering.gt ↦ false ]

-- The documents under each heading path: a mapping of paths to sets.
abbrev pub Groups : Type 0
Groups = List (List String × List ℕ)

abbrev pub add_id : ℕ → List ℕ → List ℕ
add_id id ids = if any (λ i. i == id) ids then ids else id ∷ ids

unfoldable pub add_to : List String → ℕ → Groups → Groups
add_to path id [] = (path, id ∷ []) ∷ []
add_to path id ((p, ids) ∷ groups) =
    let rest = add_to path id groups in
    if same_path p path then (p, add_id id ids) ∷ groups else (p, ids) ∷ rest

abbrev pub insert_id : ℕ → List ℕ → List ℕ
insert_id id [] = id ∷ []
insert_id id (i ∷ ids) = if ltb i id then i ∷ insert_id id ids else id ∷ i ∷ ids

abbrev pub sort_ids : List ℕ → List ℕ
sort_ids [] = []
sort_ids (id ∷ ids) = insert_id id (sort_ids ids)

abbrev pub insert_group : List String × List ℕ → Groups → Groups
insert_group g [] = g ∷ []
insert_group g (h ∷ groups) =
    if path_before g.0 h.0 then g ∷ h ∷ groups else h ∷ insert_group g groups

abbrev pub sort_groups : Groups → Groups
sort_groups [] = []
sort_groups (g ∷ groups) = insert_group g (sort_groups groups)

abbrev pub conflicts_of : Groups → List Conflict
conflicts_of [] = []
conflicts_of ((path, ids) ∷ groups) =
    if ltb (length ids) 2
    then conflicts_of groups
    else record { topic = path; source_ids = sort_ids ids } ∷ conflicts_of groups

module _ (H : Host) where
  open H use {Num}

  abbrev pub is_headless : List String → Bool
  is_headless [] = true
  is_headless (x ∷ xs) = false

  -- A chunk that takes part: neither retired nor without a heading.
  abbrev pub competes : RankedChunk H → Bool
  competes c = not (is_retired c.status || is_headless c.heading_path)

  unfoldable pub group_by_path : List (RankedChunk H) → Groups → Groups
  unfolding add_to
  group_by_path [] groups = groups
  group_by_path (c ∷ chunks) groups =
      group_by_path chunks
        (if competes c then add_to c.heading_path c.document_id groups else groups)

  unfoldable pub detect_conflicts : List (RankedChunk H) → Option Num → Option ℕ → List Conflict
  unfolding group_by_path gate_for_warnings
  detect_conflicts chunks floor rank =
      conflicts_of (sort_groups (group_by_path (gate_for_warnings H chunks floor rank) []))
