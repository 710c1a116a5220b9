-- ===== src/Tests/Chunks.antt =====
-- The chunker at a concrete document.
use cf_knowledge_kiln.Base.{
  ℕ, ◌≡◌, refl, Bool, false, Option, none, some, List, [], ◌∷◌, All, length, ◌==◌, if◌then◌else◌,
}
use cf_knowledge_kiln.Api.HeaderSanitize.{Text, strip}
use cf_knowledge_kiln.Ingestion.Chunking.Blocks.{Patterns, Block, is_blank, fence_open, step_fence}
use cf_knowledge_kiln.Ingestion.Chunking.Scan.{
  scan_blocks, scan_from, next_block, fence_rest, table_rest, list_rest, paragraph_rest,
}
use cf_knowledge_kiln.Ingestion.Chunking.Lossless.{all_lines, with_text, with_text-scan_blocks}
use cf_knowledge_kiln.Ingestion.Chunking.Sections.{
  IsSection, group_into_sections, group_into_sections-IsSection,
}

-- A line that starts with `#` is a heading of level 1, one that starts with `-` is a list item.
abbrev simple_heading : Text → Option (ℕ × Text)
simple_heading [] = none
simple_heading (c ∷ cs) = if c == 35 then some (1, cs) else none

abbrev starts_dash : Text → Bool
starts_dash [] = false
starts_dash (c ∷ cs) = c == 45

abbrev simple : Patterns
simple = record { heading = simple_heading; is_list_item = starts_dash; is_table_sep = starts_dash }

-- A heading, a blank line, a fence around another fence with a heading in it, and a paragraph.
abbrev sample : List Text
sample =
    (35 ∷ 65 ∷ [])
    ∷ []
    ∷ (96 ∷ 96 ∷ 96 ∷ 109 ∷ [])
    ∷ (96 ∷ 96 ∷ 96 ∷ 98 ∷ [])
    ∷ (35 ∷ 66 ∷ [])
    ∷ (96 ∷ 96 ∷ 96 ∷ [])
    ∷ (96 ∷ 96 ∷ 96 ∷ [])
    ∷ (67 ∷ [])
    ∷ []

-- The heading inside of the fences starts no block.
three_blocks : length (scan_blocks simple sample) ≡ 3
unfolding scan_blocks scan_from next_block fence_rest table_rest list_rest paragraph_rest step_fence
    fence_open is_blank strip
three_blocks = refl

with_text-scan_blocks_example : with_text (all_lines (scan_blocks simple sample)) ≡ with_text sample
with_text-scan_blocks_example = with_text-scan_blocks simple sample

group_into_sections-IsSection_example :
    All IsSection (group_into_sections (scan_blocks simple sample))
group_into_sections-IsSection_example = group_into_sections-IsSection (scan_blocks simple sample)

abbrev size : Block → ℕ
size b = length b.lines

abbrev letters : Text → ℕ
letters text = length text

abbrev same_text : Text → Text
same_text text = text
