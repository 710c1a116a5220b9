-- ===== src/Ingestion/Chunking/Sections.antt =====
-- `_group_into_sections` of src/cf_knowledge_kiln/ingestion/chunking.py.
use cf_knowledge_kiln.Base.{
  ◌-◌, ◌≤◌, ◌≡◌, refl, ◌∙◌, ap, Bool, true, false, not, List, [], ◌∷◌, ◌++◌, if◌then◌else◌, length,
  take, keep, keep-append, any, any-append, length-take-le, arith, Bool-cases, inl, inr, ◌⊎◌, All,
  All-append,
}
use cf_knowledge_kiln.Api.HeaderSanitize.{Text}
use cf_knowledge_kiln.Ingestion.Chunking.Blocks.{Block, is_heading}
use mathlib.Core.List.{append_assoc}

pub record Section : Type 0 where
  pub heading_path : List Text
  pub blocks : List Block

abbrev pub has_body : Section → Bool
has_body s = any (λ b. not (is_heading b)) s.blocks

-- `path[: level - 1] + [text]`; a heading has a level of at least 1.
abbrev pub enter : List Text → Block → List Text
enter path b = take (b.heading_level - 1) path ++ b.heading_text ∷ []

abbrev emit : Section → List Section → List Section
emit s rest = if has_body s then s ∷ rest else rest

-- The loop: the section that is open, and the blocks that are left.
unfoldable pub group_from : List Text → Section → List Block → List Section
group_from path current [] = emit current []
group_from path current (b ∷ blocks) =
    let opened =
      group_from (enter path b) (record { heading_path = enter path b; blocks = b ∷ [] }) blocks in
    let continued = group_from path (record current { blocks = current.blocks ++ b ∷ [] }) blocks in
    if is_heading b then emit current opened else continued

unfoldable pub group_into_sections : List Block → List Section
unfolding group_from
group_into_sections blocks = group_from [] (record { heading_path = []; blocks = [] }) blocks

abbrev pub bodies : List Block → List Block
bodies = keep (λ b. not (is_heading b))

abbrev pub all_bodies : List Section → List Block
all_bodies [] = []
all_bodies (s ∷ sections) = bodies s.blocks ++ all_bodies sections

bodies_none :
    (blocks : List Block) → any (λ b. not (is_heading b)) blocks ≡ false → bodies blocks ≡ []
bodies_none [] h = refl
bodies_none (b ∷ blocks) h = ground (arith, bodies_none blocks)

all_bodies-emit :
    (s : Section) (rest : List Section)
    → all_bodies (emit s rest) ≡ bodies s.blocks ++ all_bodies rest
all_bodies-emit s rest = elim (Bool-cases (has_body s)) [
  | inl e ↦ rw e refl
  | inr e ↦ rw (e, bodies_none s.blocks e) refl
]

all_bodies-group_from :
    (path : List Text) (current : Section) (blocks : List Block)
    → all_bodies (group_from path current blocks) ≡ bodies current.blocks ++ bodies blocks
unfolding group_from
all_bodies-group_from path current [] = all_bodies-emit current []
all_bodies-group_from path current (b ∷ blocks) = elim (Bool-cases (is_heading b)) [
  | inl e ↦ rw e (
      all_bodies-emit current _
      ∙ ap (◌++◌ (bodies current.blocks)) (
          all_bodies-group_from (enter path b)
            (record { heading_path = enter path b; blocks = b ∷ [] }) blocks
          ∙ ground arith))
  | inr e ↦ rw e (
      all_bodies-group_from path (record current { blocks = current.blocks ++ b ∷ [] }) blocks
      ∙ ground (
        arith,
        keep-append (λ c. not (is_heading c)) current.blocks (b ∷ []),
        append_assoc (bodies current.blocks) (b ∷ []) (bodies blocks),
      ))
]

-- Every block that is no heading stands in exactly one section, in the order of the blocks.
pub all_bodies-group_into_sections :
    (blocks : List Block) → all_bodies (group_into_sections blocks) ≡ bodies blocks
unfolding group_into_sections
all_bodies-group_into_sections blocks =
    all_bodies-group_from [] (record { heading_path = []; blocks = [] }) blocks

-- Only the first block may be a heading, and then the path ends with its text and is no longer
-- than its level.
abbrev pub IsShaped : Section → Type 0
IsShaped s =
    ((any is_heading s.blocks ≡ false) × (s.heading_path ≡ []))
    ⊎ ((h : Block) × (rest : List Block) × (above : List Text) × (s.blocks ≡ h ∷ rest)
        × (any is_heading rest ≡ false)
        × (s.heading_path ≡ above ++ h.heading_text ∷ [])
        × (length above ≤ h.heading_level - 1))

abbrev pub IsSection : Section → Type 0
IsSection s = (has_body s ≡ true) × IsShaped s

emit-IsSection :
    (s : Section) (rest : List Section)
    → IsShaped s
    → All IsSection rest
    → All IsSection (emit s rest)
emit-IsSection s rest shaped all = elim (Bool-cases (has_body s)) [
  | inl e ↦ rw e ((e, shaped), all)
  | inr e ↦ rw e all
]

no_heading-snoc :
    (blocks : List Block) (b : Block)
    → any is_heading blocks ≡ false
    → is_heading b ≡ false
    → any is_heading (blocks ++ b ∷ []) ≡ false
no_heading-snoc blocks b h e = rw (any-append is_heading blocks (b ∷ []), h, e) refl

continued-IsShaped :
    (s : Section) (b : Block)
    → IsShaped s
    → is_heading b ≡ false
    → IsShaped (record s { blocks = s.blocks ++ b ∷ [] })
continued-IsShaped s b (inl (none_yet, path)) e = inl (no_heading-snoc s.blocks b none_yet e, path)
continued-IsShaped s b (inr (h, rest, above, first, plain, path, low)) e = inr (
  h,
  rest ++ b ∷ [],
  above,
  ap (λ (bs : List Block). bs ++ b ∷ []) first,
  no_heading-snoc rest b plain e,
  path,
  low,
)

group_from-IsSection :
    (path : List Text) (current : Section) (blocks : List Block)
    → IsShaped current
    → All IsSection (group_from path current blocks)
unfolding group_from
group_from-IsSection path current [] shaped = emit-IsSection current [] shaped tt
group_from-IsSection path current (b ∷ blocks) shaped = elim (Bool-cases (is_heading b)) [
  | inl e ↦ rw e (
      emit-IsSection current _ shaped (
        group_from-IsSection (enter path b)
          (record { heading_path = enter path b; blocks = b ∷ [] }) blocks
          (inr (b, [], take (b.heading_level - 1) path, refl, refl, refl, length-take-le _ path))))
  | inr e ↦ rw e (
      group_from-IsSection path (record current { blocks = current.blocks ++ b ∷ [] }) blocks
        (continued-IsShaped current b shaped e))
]

-- Every section has a block that is no heading; only its first block may be a heading, and then
-- its path ends with that heading's text below no more than level - 1 others, else its path is
-- empty.
pub group_into_sections-IsSection :
    (blocks : List Block) → All IsSection (group_into_sections blocks)
unfolding group_into_sections
group_into_sections-IsSection blocks =
    group_from-IsSection [] (record { heading_path = []; blocks = [] }) blocks (inl (refl, refl))

module _ (Q : Block → Type 0) where
  All-emit :
      (s : Section) (rest : List Section)
      → All Q s.blocks
      → All (λ t. All Q t.blocks) rest
      → All (λ t. All Q t.blocks) (emit s rest)
  All-emit s rest h k = elim (Bool-cases (has_body s)) [ inl e ↦ rw e (h, k) | inr e ↦ rw e k ]

  -- The blocks of the sections are among those that were grouped.
  All-group_from :
      (path : List Text) (current : Section) (blocks : List Block)
      → All Q current.blocks
      → All Q blocks
      → All (λ t. All Q t.blocks) (group_from path current blocks)
  unfolding group_from
  All-group_from path current [] h k = All-emit current [] h tt
  All-group_from path current (b ∷ blocks) h k = elim (Bool-cases (is_heading b)) [
    | inl e ↦ rw e (
        All-emit current _ h (
          All-group_from (enter path b) (record { heading_path = enter path b; blocks = b ∷ [] })
            blocks (k.0, tt) k.1))
    | inr e ↦ rw e (
        All-group_from path (record current { blocks = current.blocks ++ b ∷ [] }) blocks
          (All-append Q current.blocks (b ∷ []) h (k.0, tt)) k.1)
  ]

  pub All-group_into_sections :
      (blocks : List Block) → All Q blocks → All (λ t. All Q t.blocks) (group_into_sections blocks)
  unfolding group_into_sections
  All-group_into_sections blocks k =
      All-group_from [] (record { heading_path = []; blocks = [] }) blocks tt k
