-- ===== src/Retrieval/Ranking/Fusion.antt =====
-- `rrf_fuse` of src/cf_knowledge_kiln/retrieval/ranking.py: reciprocal rank fusion.
use cf_knowledge_kiln.Base.{
  ℕ, suc, ◌+◌, Option, none, some, List, [], ◌∷◌, ◌≡◌, refl, ◌∙◌, ap, arith, ite, ℕ_discrete,
}
use cf_knowledge_kiln.Base.Host.{Host}
use cf_knowledge_kiln.Base.OrderedDict.{get, set_item, get-set_item}

abbrev pub default_rrf_k : ℕ
default_rrf_k = 60

module _ (H : Host) where
  open H use {Num, add, div, of_ℕ}

  -- `1.0 / (k + rank)`
  abbrev pub share : ℕ → ℕ → Num
  share k rank = div (of_ℕ 1) (of_ℕ (k + rank))

  -- `scores[chunk_id]` of a `defaultdict(float)`
  abbrev pub get_or_zero : Option Num → Num
  get_or_zero none = of_ℕ 0
  get_or_zero (some x) = x

  -- The inner loop, over one arm; `rank` is the counter of `enumerate`.
  unfoldable pub fuse_arm : ℕ → ℕ → List ℕ → List (ℕ × Num) → List (ℕ × Num)
  fuse_arm k rank [] scores = scores
  fuse_arm k rank (chunk_id ∷ arm) scores = fuse_arm k (suc rank) arm (
      set_item ℕ_discrete chunk_id
        (add (get_or_zero (get ℕ_discrete chunk_id scores)) (share k rank)) scores)

  unfoldable pub fuse_arms : ℕ → List (List ℕ) → List (ℕ × Num) → List (ℕ × Num)
  fuse_arms k [] scores = scores
  fuse_arms k (arm ∷ arms) scores = fuse_arms k arms (fuse_arm k 1 arm scores)

  unfoldable pub rrf_fuse : ℕ → List (List ℕ) → List (ℕ × Num)
  unfolding fuse_arms fuse_arm
  rrf_fuse k arms = fuse_arms k arms []

  -- The score of one chunk, by itself: its shares over the arms, added up in the order in which
  -- the arms stand, and nothing for a chunk that no arm holds.
  abbrev pub tally : ℕ → ℕ → ℕ → List ℕ → Option Num → Option Num
  tally k c rank [] total = total
  tally k c rank (d ∷ arm) total =
      tally k c (suc rank) arm
        (ite (ℕ_discrete d c) (some (add (get_or_zero total) (share k rank))) total)

  abbrev pub tally_arms : ℕ → ℕ → List (List ℕ) → Option Num → Option Num
  tally_arms k c [] total = total
  tally_arms k c (arm ∷ arms) total = tally_arms k c arms (tally k c 1 arm total)

  get-fuse_arm :
      (k c rank : ℕ) (arm : List ℕ) (scores : List (ℕ × Num))
      → get ℕ_discrete c (fuse_arm k rank arm scores) ≡ tally k c rank arm (get ℕ_discrete c scores)
  unfolding fuse_arm
  get-fuse_arm k c rank [] scores = refl
  get-fuse_arm k c rank (d ∷ arm) scores =
      get-fuse_arm k c (suc rank) arm _
      ∙ ap (tally k c (suc rank) arm) (
          ground (
            arith,
            get-set_item ℕ_discrete d c (add (get_or_zero (get ℕ_discrete d scores)) (share k rank))
                scores,
          ))

  get-fuse_arms :
      (k c : ℕ) (arms : List (List ℕ)) (scores : List (ℕ × Num))
      → get ℕ_discrete c (fuse_arms k arms scores) ≡ tally_arms k c arms (get ℕ_discrete c scores)
  unfolding fuse_arms
  get-fuse_arms k c [] scores = refl
  get-fuse_arms k c (arm ∷ arms) scores =
      get-fuse_arms k c arms (fuse_arm k 1 arm scores) ∙ rw (get-fuse_arm k c 1 arm scores)

  -- The fused score of a chunk is the sum of its own reciprocal-rank shares over the arms in
  -- order, and a chunk in no arm has no entry.
  pub get-rrf_fuse :
      (k c : ℕ) (arms : List (List ℕ))
      → get ℕ_discrete c (rrf_fuse k arms) ≡ tally_arms k c arms none
  unfolding rrf_fuse get
  get-rrf_fuse k c arms = get-fuse_arms k c arms []
