-- ===== src/Retrieval/Hyde/Classifier.antt =====
-- Which queries are expanded: src/cf_knowledge_kiln/retrieval/hyde/classifier.py. The case of a
-- letter outside of ASCII and the pattern of the imperative prefixes are the platform's.
use cf_knowledge_kiln.Base.{
  ℕ, ltb, leb, Bool, false, not, ◌&&◌, ◌||◌, List, [], ◌∷◌, any, count, length, if◌then◌else◌,
}
use cf_knowledge_kiln.Base.Host.{Host}
use cf_knowledge_kiln.Base.Texts.{Text, between, is_space, is_empty, strip}

-- `str.lower`, `str.isupper`, and whether `_IMPERATIVE_PREFIX` is found.
pub record Letters : Type 0 where
  pub lower : Text → Text
  pub isupper : Text → Bool
  pub is_imperative : Text → Bool

-- `str.split()`: the pieces between the stretches of white space; the first is that which the text
-- begins with, and may be empty.
abbrev pub words_from : Text → Text × List Text
words_from [] = ([], [])
words_from (c ∷ cs) =
    let (first, rest) = words_from cs in
    if is_space c then ([], if is_empty first then rest else first ∷ rest) else (c ∷ first, rest)

unfoldable pub words : Text → List Text
words text = let (first, rest) = words_from text in if is_empty first then rest else first ∷ rest

abbrev pub is_lower_ascii : ℕ → Bool
is_lower_ascii c = between 97 122 c

abbrev pub is_upper_ascii : ℕ → Bool
is_upper_ascii c = between 65 90 c

abbrev pub is_alnum_ascii : ℕ → Bool
is_alnum_ascii c = is_lower_ascii c || is_upper_ascii c || between 48 57 c

-- `_HAS_INNER_CASE_FLIP`: what its second alternative matches ends with a match of the first.
abbrev pub has_inner_case_flip : Text → Bool
has_inner_case_flip [] = false
has_inner_case_flip (c ∷ []) = false
has_inner_case_flip (c ∷ d ∷ cs) =
    (is_lower_ascii c && is_upper_ascii d) || has_inner_case_flip (d ∷ cs)

-- `_is_jargon_like`
unfoldable pub is_jargon_like : Letters → Text → Bool
is_jargon_like l token =
    not (is_empty token)
    && (any (λ c. not (is_alnum_ascii c)) token
        || (leb 2 (length token) && l.isupper token)
        || has_inner_case_flip token
        || leb 12 (length token))

unfoldable pub token_count : Text → ℕ
unfolding words
token_count query = length (words (strip query))

module _ (H : Host) (l : Letters) where
  open H use {Num, lt, div, of_ℕ}

  abbrev pub density_of : List Text → Num
  density_of [] = of_ℕ 0
  density_of (t ∷ ts) = div (of_ℕ (count (is_jargon_like l) (t ∷ ts))) (of_ℕ (length (t ∷ ts)))

  unfoldable pub jargon_density : Text → Num
  unfolding words is_jargon_like
  jargon_density query = density_of (words (strip query))

  -- `should_hyde`
  unfoldable pub should_hyde : ℕ → Num → Text → Bool
  unfolding token_count jargon_density
  should_hyde token_threshold jargon_density_threshold query =
      let cleaned = strip query in
      not (is_empty cleaned)
      && (ltb (token_count cleaned) token_threshold
          || lt jargon_density_threshold (jargon_density cleaned)
          || l.is_imperative cleaned)
