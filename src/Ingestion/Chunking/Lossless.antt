-- ===== src/Ingestion/Chunking/Lossless.antt =====
-- The scanner loses no line.
use cf_knowledge_kiln.Base.{
  ℕ, zero, suc, ◌≤◌, ◌≡◌, refl, sym, ◌∙◌, ap, false, not, ◌&&◌, ◌||◌, List, [], ◌∷◌, ◌++◌, length,
  length-append, keep, keep-append, arith, Bool-cases, Option-cases, inl, inr,
}
use cf_knowledge_kiln.Api.HeaderSanitize.{Text}
use cf_knowledge_kiln.Ingestion.Chunking.Blocks.{
  Patterns, Block, is_blank, fence_open, has_pipe, is_indented, step_fence,
}
use cf_knowledge_kiln.Ingestion.Chunking.Scan.{
  fence_rest, table_rest, list_rest, paragraph_rest, table_split, next_block, scan_from,
  scan_blocks, starts_table, ends_list, is_block_start,
}

fence_rest-append :
    (stack : List (ℕ × ℕ)) (lines : List Text)
    → (fence_rest stack lines).0 ++ (fence_rest stack lines).1 ≡ lines
unfolding fence_rest
fence_rest-append stack [] = refl
fence_rest-append [] (line ∷ lines) = refl
fence_rest-append (top ∷ stack) (line ∷ lines) =
    ap (◌∷◌ line) (fence_rest-append (step_fence (top ∷ stack) line) lines)

table_rest-append : (lines : List Text) → (table_rest lines).0 ++ (table_rest lines).1 ≡ lines
unfolding table_rest
table_rest-append [] = refl
table_rest-append (line ∷ lines) = elim (Bool-cases (has_pipe line && not (is_blank line))) [
  | inl e ↦ rw e (ap (◌∷◌ line) (table_rest-append lines))
  | inr e ↦ rw e refl
]

table_split-append :
    (p : Patterns) (lines : List Text) → (table_split p lines).0 ++ (table_split p lines).1 ≡ lines
table_split-append p [] = refl
table_split-append p (separator ∷ lines) = ap (◌∷◌ separator) (table_rest-append lines)

module _ (p : Patterns) where
  list_rest-append : (lines : List Text) → (list_rest p lines).0 ++ (list_rest p lines).1 ≡ lines
  unfolding list_rest
  list_rest-append [] = refl
  list_rest-append (line ∷ lines) =
      elim (Bool-cases (p.is_list_item line || (is_indented line || is_blank line))) [
        | inl e ↦ rw e (elim (Bool-cases (ends_list p line lines)) [
          | inl f ↦ rw f refl
          | inr f ↦ rw f (ap (◌∷◌ line) (list_rest-append lines))
        ])
        | inr e ↦ rw e refl
      ]

  paragraph_rest-append :
      (lines : List Text) → (paragraph_rest p lines).0 ++ (paragraph_rest p lines).1 ≡ lines
  unfolding paragraph_rest
  paragraph_rest-append [] = refl
  paragraph_rest-append (line ∷ lines) =
      elim (Bool-cases (not (is_blank line) && not (is_block_start p line lines))) [
        | inl e ↦ rw e (ap (◌∷◌ line) (paragraph_rest-append lines))
        | inr e ↦ rw e refl
      ]

  -- A block is its first line and then some, and those lines and what follows it are the lines.
  next_block-append :
      (line : Text) (lines : List Text)
      → (s : List Text) × ((next_block p line lines).0.lines ≡ line ∷ s)
        × (s ++ (next_block p line lines).1 ≡ lines)
  unfolding next_block
  next_block-append line lines = elim (Option-cases (fence_open line)) [
    | inr (fence, e) ↦ rw (e, next_block) (_, refl, fence_rest-append (fence ∷ []) lines)
    | inl e ↦ elim (Option-cases (p.heading line)) [
      | inr (h, f) ↦ rw (e, f, next_block) ([], refl, refl)
      | inl f ↦
          rw (e, f, next_block)
            (elim (Bool-cases (starts_table p line lines)) [
              | inl g ↦ rw g (_, refl, table_split-append p lines)
              | inr g ↦ rw g (elim (Bool-cases (p.is_list_item line)) [
                | inl h ↦ rw h (_, refl, list_rest-append lines)
                | inr h ↦ rw h (_, refl, paragraph_rest-append lines)
              ])
            ])
    ]
  ]

abbrev pub all_lines : List Block → List Text
all_lines [] = []
all_lines (b ∷ blocks) = b.lines ++ all_lines blocks

abbrev pub with_text : List Text → List Text
with_text = keep (λ line. not (is_blank line))

module _ (p : Patterns) where
  scan_from_block :
      (fuel : ℕ) (line : Text) (lines : List Text)
      → is_blank line ≡ false
      → scan_from p (suc fuel) (line ∷ lines)
        ≡ (next_block p line lines).0 ∷ scan_from p fuel (next_block p line lines).1
  unfolding scan_from
  scan_from_block fuel line lines e = rw e refl

  with_text-scan_from :
      (fuel : ℕ) (lines : List Text)
      → length lines ≤ fuel
      → with_text (all_lines (scan_from p fuel lines)) ≡ with_text lines
  unfolding scan_from
  with_text-scan_from zero [] h = refl
  with_text-scan_from zero (line ∷ lines) h = absurd (omega arith)
  with_text-scan_from (suc fuel) [] h = refl
  with_text-scan_from (suc fuel) (line ∷ lines) h = elim (Bool-cases (is_blank line)) [
    | inl e ↦ rw e (with_text-scan_from fuel lines (omega arith))
    | inr e ↦
        let (s, first, split) = next_block-append p line lines in
        let rest = (next_block p line lines).1 in
        let short : length rest ≤ fuel =
          omega (arith, length-append s rest, ap (length {A = Text}) split) in
        let more = with_text-scan_from fuel rest short in
        ap (λ (blocks : List Block). with_text (all_lines blocks))
          (scan_from_block fuel line lines e)
        ∙ ap (λ (xs : List Text). with_text (xs ++ all_lines (scan_from p fuel rest))) first
        ∙ whole line s (all_lines (scan_from p fuel rest)) rest lines more split
  ]
    where
      whole :
          (line : Text) (s t rest lines : List Text)
          → with_text t ≡ with_text rest
          → s ++ rest ≡ lines
          → with_text ((line ∷ s) ++ t) ≡ with_text (line ∷ lines)
      whole line s t rest lines more split =
          rw (keep-append (λ l. not (is_blank l)) (line ∷ s) t, more, ← split)
            (sym (keep-append (λ l. not (is_blank l)) (line ∷ s) rest))

  -- For every body and every choice of the patterns, each line that is not blank stands in exactly
  -- one block of the scanner, in the order of the body; as much fuel as there are lines is enough.
  pub with_text-scan_blocks :
      (lines : List Text) → with_text (all_lines (scan_blocks p lines)) ≡ with_text lines
  unfolding scan_blocks
  with_text-scan_blocks lines = with_text-scan_from (length lines) lines (omega arith)
