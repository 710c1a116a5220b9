-- ===== src/Ingestion/Chunking/Packing.antt =====
-- `_pack_blocks` of src/cf_knowledge_kiln/ingestion/chunking.py, over a count of the tokens of a
-- block.
use cf_knowledge_kiln.Base.{
  ℕ, ◌+◌, ◌≤◌, ◌≡◌, refl, sym, ◌∙◌, ap, Bool, true, false, not, ◌&&◌, List, [], ◌∷◌, ◌++◌,
  if◌then◌else◌, length, any, ltb, arith, Bool-cases, inl, inr, ◌⊎◌, All, All-split, subst,
}
use cf_knowledge_kiln.Ingestion.Chunking.Blocks.{Block, is_heading}
use cf_knowledge_kiln.Ingestion.Chunking.Sections.{Section, IsSection}
use mathlib.Core.List.{append_assoc}

module _ (count_tokens : Block → ℕ) (max_tokens : ℕ) where
  abbrev is_filled : List Block → Bool
  is_filled [] = false
  is_filled (b ∷ blocks) = true

  -- The loop: the buffer and its tokens, and the blocks that are left.
  unfoldable pub pack_from : List Block → ℕ → List Block → List (List Block × ℕ)
  pack_from [] tokens [] = []
  pack_from (x ∷ buffer) tokens [] = (x ∷ buffer, tokens) ∷ []
  pack_from buffer tokens (b ∷ blocks) =
      let flushed = pack_from (b ∷ []) (count_tokens b) blocks in
      let grown = pack_from (buffer ++ b ∷ []) (tokens + count_tokens b) blocks in
      if is_filled buffer && (ltb max_tokens (tokens + count_tokens b) && not (is_heading b))
      then (buffer, tokens) ∷ flushed
      else grown

  -- The groups of blocks that are yielded, each with its tokens.
  unfoldable pub pack_blocks : List Block → List (List Block × ℕ)
  unfolding pack_from
  pack_blocks blocks = pack_from [] 0 blocks

  abbrev pub sum_tokens : List Block → ℕ
  sum_tokens [] = 0
  sum_tokens (b ∷ blocks) = count_tokens b + sum_tokens blocks

  abbrev pub all_blocks : List (List Block × ℕ) → List Block
  all_blocks [] = []
  all_blocks (g ∷ groups) = g.0 ++ all_blocks groups

  -- A group is no larger than the cap, or it is a single block.
  pub record IsGroup (g : List Block × ℕ) : Type 0 where
    pub filled : 1 ≤ length g.0
    pub counted : g.1 ≡ sum_tokens g.0
    pub capped : (g.1 ≤ max_tokens) ⊎ (length g.0 ≡ 1)

  sum-snoc :
      (blocks : List Block) (b : Block)
      → sum_tokens (blocks ++ b ∷ []) ≡ sum_tokens blocks + count_tokens b
  sum-snoc [] b = omega arith
  sum-snoc (x ∷ blocks) b = omega (arith, sum-snoc blocks b)

  all_blocks-pack_from :
      (buffer : List Block) (tokens : ℕ) (blocks : List Block)
      → all_blocks (pack_from buffer tokens blocks) ≡ buffer ++ blocks
  unfolding pack_from
  all_blocks-pack_from [] tokens [] = refl
  all_blocks-pack_from (x ∷ buffer) tokens [] = refl
  all_blocks-pack_from [] tokens (b ∷ blocks) =
      all_blocks-pack_from (b ∷ []) (tokens + count_tokens b) blocks
  all_blocks-pack_from (x ∷ buffer) tokens (b ∷ blocks) =
      elim (Bool-cases (ltb max_tokens (tokens + count_tokens b) && not (is_heading b))) [
        | inl e ↦ rw e (
            ap (λ (bs : List Block). (x ∷ buffer) ++ bs)
              (all_blocks-pack_from (b ∷ []) (count_tokens b) blocks))
        | inr e ↦ rw e (
            all_blocks-pack_from (x ∷ buffer ++ b ∷ []) (tokens + count_tokens b) blocks
            ∙ append_assoc (x ∷ buffer) (b ∷ []) blocks)
      ]

  -- The groups that a section is packed into hold each of its blocks exactly once, in order.
  pub all_blocks-pack_blocks : (blocks : List Block) → all_blocks (pack_blocks blocks) ≡ blocks
  unfolding pack_blocks
  all_blocks-pack_blocks blocks = all_blocks-pack_from [] 0 blocks

  pack_from-IsGroup :
      (x : Block) (buffer : List Block) (tokens : ℕ) (blocks : List Block)
      → IsGroup (x ∷ buffer, tokens)
      → any is_heading blocks ≡ false
      → All IsGroup (pack_from (x ∷ buffer) tokens blocks)
  unfolding pack_from
  pack_from-IsGroup x buffer tokens [] g plain = (g, tt)
  pack_from-IsGroup x buffer tokens (b ∷ blocks) g plain =
      let single : IsGroup (b ∷ [], count_tokens b) = record {
        filled = omega arith;
        counted = omega arith;
        capped = inr (omega arith);
      } in
      elim (Bool-cases (ltb max_tokens (tokens + count_tokens b) && not (is_heading b))) [
        | inl e ↦ rw e (g, pack_from-IsGroup b [] (count_tokens b) blocks single (ground arith))
        | inr e ↦ rw e (
            pack_from-IsGroup x (buffer ++ b ∷ []) (tokens + count_tokens b) blocks
              (record {
                filled = omega arith;
                counted = omega (arith, sum-snoc (x ∷ buffer) b, g.counted);
                capped = inl (ground arith);
              })
              (ground arith))
      ]

  first-IsGroup :
      (b : Block) (blocks : List Block)
      → any is_heading blocks ≡ false
      → All IsGroup (pack_blocks (b ∷ blocks))
  unfolding pack_blocks pack_from
  first-IsGroup b blocks plain =
      pack_from-IsGroup b [] (0 + count_tokens b) blocks
        (record { filled = omega arith; counted = omega arith; capped = inr (omega arith) }) plain

  plain-IsGroup :
      (blocks : List Block) → any is_heading blocks ≡ false → All IsGroup (pack_blocks blocks)
  unfolding pack_blocks pack_from
  plain-IsGroup [] plain = tt
  plain-IsGroup (b ∷ blocks) plain = first-IsGroup b blocks (ground arith)

  -- A section is packed into groups that are not empty and no larger than the cap, but for a
  -- block that is too large by itself, and the tokens of a group are those of its blocks.
  pub pack_blocks-IsGroup : (s : Section) → IsSection s → All IsGroup (pack_blocks s.blocks)
  pack_blocks-IsGroup s (body, inl (plain, path)) = plain-IsGroup s.blocks plain
  pack_blocks-IsGroup s (body, inr (h, rest, above, first, plain, path, low)) =
      rw first (first-IsGroup h rest plain)

  All-all_blocks :
      (Q : Block → Type 0) (groups : List (List Block × ℕ))
      → All Q (all_blocks groups)
      → All (λ g. All Q g.0) groups
  All-all_blocks Q [] h = tt
  All-all_blocks Q (g ∷ groups) h =
      let (a, b) = All-split Q g.0 (all_blocks groups) h in (a, All-all_blocks Q groups b)

  pub All-pack_blocks :
      (Q : Block → Type 0) (blocks : List Block)
      → All Q blocks
      → All (λ g. All Q g.0) (pack_blocks blocks)
  All-pack_blocks Q blocks h =
      All-all_blocks Q (pack_blocks blocks) (subst (All Q) (sym (all_blocks-pack_blocks blocks)) h)
