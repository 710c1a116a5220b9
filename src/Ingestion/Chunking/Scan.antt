-- ===== src/Ingestion/Chunking/Scan.antt =====
-- `_scan_blocks` of src/cf_knowledge_kiln/ingestion/chunking.py. The index of the source is the
-- list of the lines from it on. Every turn of the loop takes a line, so that as much fuel as there
-- are lines is enough.
use cf_knowledge_kiln.Base.{
  ℕ, zero, suc, Bool, true, false, not, ◌&&◌, ◌||◌, none, some, List, [], ◌∷◌, if◌then◌else◌,
  length,
}
use cf_knowledge_kiln.Api.HeaderSanitize.{Text}
use cf_knowledge_kiln.Ingestion.Chunking.Blocks.{
  Patterns, Kind, heading_block, code_block, table_block, list_block, paragraph_block, Block,
  plain_block, is_blank, fence_open, has_pipe, is_indented, step_fence,
}

-- The lines of a block after its first, and the lines after the block.
abbrev pub Split : Type 0
Split = List Text × List Text

abbrev pub push : Text → Split → Split
push line split = (line ∷ split.0, split.1)

-- The loop over the fences: it ends when the stack is empty, or with the lines.
unfoldable pub fence_rest : List (ℕ × ℕ) → List Text → Split
unfolding step_fence
fence_rest stack [] = ([], [])
fence_rest [] (line ∷ lines) = ([], line ∷ lines)
fence_rest (top ∷ stack) (line ∷ lines) =
    push line (fence_rest (step_fence (top ∷ stack) line) lines)

unfoldable pub table_rest : List Text → Split
table_rest [] = ([], [])
table_rest (line ∷ lines) =
    let rest = table_rest lines in
    if has_pipe line && not (is_blank line) then push line rest else ([], line ∷ lines)

module _ (p : Patterns) where
  -- The line ends a list: it is blank, and another line follows that is no list item.
  abbrev pub ends_list : Text → List Text → Bool
  ends_list line [] = false
  ends_list line (next ∷ lines) = is_blank line && not (p.is_list_item next)

  unfoldable pub list_rest : List Text → Split
  list_rest [] = ([], [])
  list_rest (line ∷ lines) =
      let rest = list_rest lines in
      if p.is_list_item line || (is_indented line || is_blank line)
      then if ends_list line lines then ([], line ∷ lines) else push line rest
      else ([], line ∷ lines)

  abbrev pub is_heading_line : Text → Bool
  is_heading_line line = elim (p.heading line) [ none ↦ false | some _ ↦ true ]

  abbrev pub is_fence_line : Text → Bool
  is_fence_line line = elim (fence_open line) [ none ↦ false | some _ ↦ true ]

  -- A table starts here: a line with a pipe and a separator below it.
  abbrev pub starts_table : Text → List Text → Bool
  starts_table line [] = false
  starts_table line (next ∷ lines) = has_pipe line && p.is_table_sep next

  -- `_is_block_start`
  abbrev pub is_block_start : Text → List Text → Bool
  is_block_start line lines =
      is_heading_line line
      || (is_fence_line line || (p.is_list_item line || starts_table line lines))

  unfoldable pub paragraph_rest : List Text → Split
  paragraph_rest [] = ([], [])
  paragraph_rest (line ∷ lines) =
      let rest = paragraph_rest lines in
      if not (is_blank line) && not (is_block_start line lines)
      then push line rest
      else ([], line ∷ lines)

  -- The table's separator belongs to it whatever it looks like.
  abbrev pub table_split : List Text → Split
  table_split [] = ([], [])
  table_split (separator ∷ lines) = push separator (table_rest lines)

  -- The block that starts with a line that is not blank, and the lines after it.
  unfoldable pub next_block : Text → List Text → Block × List Text
  unfolding fence_rest table_rest list_rest paragraph_rest
  next_block line lines =
      let block : Kind → Split → Block × List Text =
        λ kind split. (plain_block kind (line ∷ split.0), split.1) in
      elim (fence_open line) [
        | some fence ↦ block code_block (fence_rest (fence ∷ []) lines)
        | none ↦ elim (p.heading line) [
          | some (level, text) ↦ (
            record {
              kind = heading_block;
              lines = line ∷ [];
              heading_level = level;
              heading_text = text;
            },
            lines,
          )
          | none ↦
              if starts_table line lines
              then block table_block (table_split lines)
              else if p.is_list_item line
              then block list_block (list_rest lines)
              else block paragraph_block (paragraph_rest lines)
        ]
      ]

  unfoldable pub scan_from : ℕ → List Text → List Block
  unfolding next_block
  scan_from zero lines = []
  scan_from (suc fuel) [] = []
  scan_from (suc fuel) (line ∷ lines) =
      let skip = scan_from fuel lines in
      let next = next_block line lines in
      let rest = scan_from fuel next.1 in if is_blank line then skip else next.0 ∷ rest

  unfoldable pub scan_blocks : List Text → List Block
  unfolding scan_from
  scan_blocks lines = scan_from (length lines) lines
