-- ===== src/Ingestion/Chunking/Blocks.antt =====
-- Lines and blocks of src/cf_knowledge_kiln/ingestion/chunking.py. A line is the list of its code
-- points. What the three patterns match besides fences is a parameter, a result of `re`.
use cf_knowledge_kiln.Base.{
  ℕ, suc, Bool, true, false, not, ◌||◌, Option, none, some, List, [], ◌∷◌, leb, ◌==◌, if◌then◌else◌,
  any, drop,
}
use cf_knowledge_kiln.Api.HeaderSanitize.{Text, strip, lstrip}

-- `_HEADING_RE.match`, with the number of hashes and the stripped text, `_LIST_ITEM_RE.match` and
-- `_TABLE_SEP_RE.match`.
pub record Patterns : Type 0 where
  pub heading : Text → Option (ℕ × Text)
  pub is_list_item : Text → Bool
  pub is_table_sep : Text → Bool

pub data Kind : Type 0 where
  heading_block code_block table_block list_block paragraph_block : Kind

-- The text of a block is `"\n".join(lines)`.
pub record Block : Type 0 where
  pub kind : Kind
  pub lines : List Text
  pub heading_level : ℕ
  pub heading_text : Text

abbrev pub plain_block : Kind → List Text → Block
plain_block kind lines = record { kind = kind; lines = lines; heading_level = 0; heading_text = [] }

abbrev pub is_heading : Block → Bool
is_heading b = elim b.kind [ heading_block ↦ true | _ ↦ false ]

-- `not line.strip()`
unfoldable pub is_blank : Text → Bool
is_blank line = elim (strip line) [ [] ↦ true | _ ∷ _ ↦ false ]

-- How many of the character stand at the start of the line.
abbrev pub run_of : ℕ → Text → ℕ
run_of c [] = 0
run_of c (d ∷ ds) = let rest = run_of c ds in if d == c then suc rest else 0

-- `_FENCE_OPEN_RE.match`: three backticks or tildes at least, as the character and its number.
unfoldable pub fence_open : Text → Option (ℕ × ℕ)
fence_open line =
    if leb 3 (run_of 96 line)
    then some (96, run_of 96 line)
    else if leb 3 (run_of 126 line)
    then some (126, run_of 126 line)
    else none

-- `"|" in line`
abbrev pub has_pipe : Text → Bool
has_pipe = any (λ c. c == 124)

-- `line.startswith((" ", "\t"))`
abbrev pub is_indented : Text → Bool
is_indented [] = false
is_indented (c ∷ cs) = c == 32 || c == 9

-- The stack of open fences after one line inside of a fence, its top first.
unfoldable pub step_fence : List (ℕ × ℕ) → Text → List (ℕ × ℕ)
step_fence [] line = []
step_fence (top ∷ stack) line = elim (fence_open (lstrip line)) [
  | none ↦ top ∷ stack
  | some (inner_char, inner_len) ↦
      if inner_char == top.0
      then if not (is_blank (drop inner_len (lstrip line)))
        then (inner_char, inner_len) ∷ top ∷ stack
        else if leb top.1 inner_len
        then stack
        else top ∷ stack
      else top ∷ stack
]
