-- ===== src/Base/Texts.antt =====
-- Texts as lists of code points, and the methods of Python's `str` that the program calls on them.
use cf_knowledge_kiln.Base.Bools.{leb, ◌==◌, if◌then◌else◌}
use cf_knowledge_kiln.Base.Lists.{any}
use mathlib.Core.Bool.{Bool, true, false, ◌&&◌, ◌||◌}
use mathlib.Core.List.{List, [], ◌∷◌, ◌++◌, map}
use mathlib.Core.Option.{Option, none, some}
use mathlib.Core.Path.{◌≡◌, refl}
use native.Mathlib.Omega.{arith}
use Prim.Native.Char.{code}
use Prim.Native.Nat.{ℕ, ◌+◌}
use Prim.Native.String.{String}

abbrev pub Text : Type 0
Text = List ℕ

abbrev pub codes : String → Text
codes String.[] = []
codes (String.◌∷◌ c s) = code c ∷ codes s

-- `a == b`
abbrev pub same : Text → Text → Bool
same [] [] = true
same [] (y ∷ ys) = false
same (x ∷ xs) [] = false
same (x ∷ xs) (y ∷ ys) = (x == y) && same xs ys

-- `text.startswith(prefix)`, the prefix first
abbrev pub starts_with : Text → Text → Bool
starts_with [] ys = true
starts_with (x ∷ xs) [] = false
starts_with (x ∷ xs) (y ∷ ys) = (x == y) && starts_with xs ys

-- `part in text`
abbrev pub contains : Text → Text → Bool
contains part [] = starts_with part []
contains part (y ∷ ys) = starts_with part (y ∷ ys) || contains part ys

-- `text.lower()`, on the letters of ASCII
abbrev pub lower : Text → Text
lower = map (λ c. if leb 65 c && leb c 90 then c + 32 else c)

abbrev pub between : ℕ → ℕ → ℕ → Bool
between low high c = leb low c && leb c high

-- `str.isspace` of one character, which is what `strip` drops.
abbrev pub is_space : ℕ → Bool
is_space c =
    between 9 13 c
    || between 28 32 c
    || c == 133
    || c == 160
    || c == 5760
    || between 8192 8202 c
    || between 8232 8233 c
    || c == 8239
    || c == 8287
    || c == 12288

abbrev pub lstrip : Text → Text
lstrip [] = []
lstrip (c ∷ cs) = if is_space c then lstrip cs else c ∷ cs

abbrev pub rstrip : Text → Text
rstrip [] = []
rstrip (c ∷ cs) = elim (rstrip cs) [ [] ↦ if is_space c then [] else c ∷ [] | d ∷ ds ↦ c ∷ d ∷ ds ]

unfoldable pub strip : Text → Text
strip value = rstrip (lstrip value)

abbrev pub is_empty : Text → Bool
is_empty [] = true
is_empty (c ∷ cs) = false

-- `text.partition(sep)`, less the separator: what precedes its first occurrence, and what follows.
abbrev pub partition : ℕ → Text → Text × Text
partition sep [] = ([], [])
partition sep (c ∷ cs) =
    let (before, after) = partition sep cs in if c == sep then ([], cs) else (c ∷ before, after)

-- `text.split(sep)`: the first piece, and the pieces that follow.
abbrev pub split_from : ℕ → Text → Text × List Text
split_from sep [] = ([], [])
split_from sep (c ∷ cs) =
    let (first, rest) = split_from sep cs in
    if c == sep then ([], first ∷ rest) else (c ∷ first, rest)

abbrev pub split : ℕ → Text → List Text
split sep text = let (first, rest) = split_from sep text in first ∷ rest

-- `sep.join(pieces)`
abbrev pub join : Text → List Text → Text
join sep [] = []
join sep (x ∷ []) = x
join sep (x ∷ y ∷ ys) = x ++ (sep ++ join sep (y ∷ ys))

-- `x in xs`, and `m.get(k)` for a mapping
abbrev pub elem : Text → List Text → Bool
elem x xs = any (same x) xs

module _ {ℓ} {V : Type ℓ} where
  abbrev pub get : Text → List (Text × V) → Option V
  get k [] = none
  get k ((j, v) ∷ m) = if same j k then some v else get k m

pub same_refl : (a : Text) → same a a ≡ true
same_refl [] = refl
same_refl (x ∷ xs) = ground (arith, same_refl xs)

pub same_sound : (a b : Text) → same a b ≡ true → a ≡ b
same_sound [] [] h = refl
same_sound [] (y ∷ ys) h = cc
same_sound (x ∷ xs) [] h = cc
same_sound (x ∷ xs) (y ∷ ys) h = ground (arith, same_sound xs ys)
