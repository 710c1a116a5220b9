-- ===== src/Ingestion/Chunking/Document.antt =====
-- `parse_document` of src/cf_knowledge_kiln/ingestion/chunking.py, from the lines of the body and
-- the title of the frontmatter on. The frontmatter parser, the tokenizer and the hash are of the
-- platform.
use cf_knowledge_kiln.Base.{
  ℕ, suc, ◌+◌, ◌≤◌, ◌≡◌, refl, ◌&&◌, Option, none, some, List, [], ◌∷◌, ◌++◌, map, if◌then◌else◌,
  length, leb, ◌==◌, arith, Bool-cases, inl, inr, ◌⊎◌, All, IsAmong, subst,
}
use cf_knowledge_kiln.Api.HeaderSanitize.{Text, strip, is_empty}
use cf_knowledge_kiln.Ingestion.Chunking.Blocks.{Patterns, Block, is_heading}
use cf_knowledge_kiln.Ingestion.Chunking.Scan.{scan_blocks}
use cf_knowledge_kiln.Ingestion.Chunking.Sections.{Section, group_into_sections}
use cf_knowledge_kiln.Ingestion.Chunking.Packing.{pack_blocks, sum_tokens}

pub record Chunk : Type 0 where
  pub content : Text
  pub heading_path : List Text
  pub chunk_index : ℕ
  pub content_tokens : ℕ
  pub content_hash : Text

-- `separator.join(texts)`
abbrev pub join : Text → List Text → Text
join separator [] = []
join separator (t ∷ []) = t
join separator (t ∷ u ∷ texts) = t ++ (separator ++ join separator (u ∷ texts))

abbrev pub block_text : Block → Text
block_text b = join (10 ∷ []) b.lines

-- `"\n\n".join(b.text for b in blocks).strip()`
unfoldable pub blocks_text : List Block → Text
blocks_text blocks = strip (join (10 ∷ 10 ∷ []) (map block_text blocks))

-- The text of the first heading of level 1.
abbrev pub first_h1 : List Block → Option Text
first_h1 [] = none
first_h1 (b ∷ blocks) =
    let rest = first_h1 blocks in
    if is_heading b && b.heading_level == 1 then some b.heading_text else rest

-- The chunks are numbered from `n` on.
abbrev pub IsNumbered : ℕ → List Chunk → Type 0
IsNumbered n [] = Unit
IsNumbered n (c ∷ chunks) = (c.chunk_index ≡ n) × IsNumbered (suc n) chunks

IsNumbered-append :
    (n : ℕ) (xs ys : List Chunk)
    → IsNumbered n xs
    → IsNumbered (n + length xs) ys
    → IsNumbered n (xs ++ ys)
IsNumbered-append n [] ys h k = subst (λ m. IsNumbered m ys) (omega arith) k
IsNumbered-append n (x ∷ xs) ys h k =
    (h.0, IsNumbered-append (suc n) xs ys h.1 (subst (λ m. IsNumbered m ys) (omega arith) k))

module _ (p : Patterns) (count_tokens : Text → ℕ) (hash : Text → Text) (max_tokens : ℕ) where
  abbrev pub make_chunk : Text → List Text → ℕ → ℕ → Chunk
  make_chunk text path idx tokens = record {
    content = text;
    heading_path = path;
    chunk_index = idx;
    content_tokens = tokens;
    content_hash = hash text;
  }

  unfoldable pub group_chunks : List Text → ℕ → List (List Block × ℕ) → List Chunk
  group_chunks path idx [] = []
  group_chunks path idx (g ∷ groups) =
      make_chunk (blocks_text g.0) path idx g.1 ∷ group_chunks path (suc idx) groups

  -- The body of the loop over the sections; `idx` is `len(chunks)`.
  unfoldable pub section_chunks : Section → ℕ → List Chunk
  unfolding group_chunks
  section_chunks s idx =
      let text = blocks_text s.blocks in
      if is_empty text
      then []
      else if leb (count_tokens text) max_tokens
      then make_chunk text s.heading_path idx (count_tokens text) ∷ []
      else group_chunks s.heading_path idx
          (pack_blocks (λ b. count_tokens (block_text b)) max_tokens s.blocks)

  unfoldable pub all_chunks : List Section → ℕ → List Chunk
  unfolding section_chunks
  all_chunks [] idx = []
  all_chunks (s ∷ sections) idx =
      let chunks = section_chunks s idx in chunks ++ all_chunks sections (idx + length chunks)

  unfoldable pub find_title : Option Text → List Section → Option Text
  find_title (some title) sections = some title
  find_title none [] = none
  find_title none (s ∷ sections) =
      let rest = find_title none sections in
      if is_empty (blocks_text s.blocks)
      then rest
      else elim (first_h1 s.blocks) [ none ↦ rest | some t ↦ some t ]

  unfoldable pub parse_body : Option Text → List Text → List Chunk × Option Text
  unfolding all_chunks find_title
  parse_body title lines =
      let sections = group_into_sections (scan_blocks p lines) in
      (all_chunks sections 0, find_title title sections)

  group_chunks-IsNumbered :
      (path : List Text) (idx : ℕ) (groups : List (List Block × ℕ))
      → IsNumbered idx (group_chunks path idx groups)
  unfolding group_chunks
  group_chunks-IsNumbered path idx [] = tt
  group_chunks-IsNumbered path idx (g ∷ groups) =
      (refl, group_chunks-IsNumbered path (suc idx) groups)

  section_chunks-IsNumbered : (s : Section) (idx : ℕ) → IsNumbered idx (section_chunks s idx)
  unfolding section_chunks
  section_chunks-IsNumbered s idx = elim (Bool-cases (is_empty (blocks_text s.blocks))) [
    | inl e ↦ rw e tt
    | inr e ↦ rw e (elim (Bool-cases (leb (count_tokens (blocks_text s.blocks)) max_tokens)) [
      | inl f ↦ rw f (refl, tt)
      | inr f ↦ rw f (group_chunks-IsNumbered s.heading_path idx _)
    ])
  ]

  all_chunks-IsNumbered :
      (sections : List Section) (idx : ℕ) → IsNumbered idx (all_chunks sections idx)
  unfolding all_chunks
  all_chunks-IsNumbered [] idx = tt
  all_chunks-IsNumbered (s ∷ sections) idx =
      IsNumbered-append idx (section_chunks s idx) _ (section_chunks-IsNumbered s idx)
        (all_chunks-IsNumbered sections (idx + length (section_chunks s idx)))

  -- The chunks of every body are numbered from 0 on without a gap.
  pub parse_body-IsNumbered :
      (title : Option Text) (lines : List Text) → IsNumbered 0 (parse_body title lines).0
  unfolding parse_body
  parse_body-IsNumbered title lines =
      all_chunks-IsNumbered (group_into_sections (scan_blocks p lines)) 0

  abbrev tokens_of : Block → ℕ
  tokens_of b = count_tokens (block_text b)

  -- The chunk is a text within the cap, or blocks of these with the sum of their tokens.
  abbrev pub IsCapped : List Block → Chunk → Type 0
  IsCapped among c =
      ((c.content_tokens ≡ count_tokens c.content) × (c.content_tokens ≤ max_tokens))
      ⊎ ((bs : List Block) × All (λ b. IsAmong b among) bs
          × (c.content ≡ blocks_text bs)
          × (c.content_tokens ≡ sum_tokens tokens_of max_tokens bs)
          × ((c.content_tokens ≤ max_tokens) ⊎ (length bs ≡ 1)))
