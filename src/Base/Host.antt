-- ===== src/Base/Host.antt =====
-- What the program takes from its platform and the model does not implement: floating-point
-- numbers (those that are not NaN), JSON values, the tokenizer and the rendering of texts.
-- No law of the arithmetic is assumed. The order has the laws of `IsOrdered`, which a theorem
-- that needs them takes as a hypothesis.
use cf_knowledge_kiln.Base.Bools.{if◌then◌else◌, Bool-cases}
use mathlib.Core.Bool.{Bool, true, false}
use mathlib.Core.Path.{◌≡◌}
use mathlib.Core.Logic.{inl, inr}
use native.Mathlib.Omega.{arith}
use Prim.Native.Nat.{ℕ}

pub record Host : Type 1 where
  -- a float, and the tests and operations on floats
  pub Num : Type 0
  pub lt : Num → Num → Bool
  pub add : Num → Num → Num
  pub sub : Num → Num → Num
  pub mul : Num → Num → Num
  pub div : Num → Num → Num
  -- `float(n)`, and the literal with these digits and this number of decimals: 0.46 is `lit 46 2`
  pub of_ℕ : ℕ → Num
  pub lit : ℕ → ℕ → Num
  -- a value of a JSON column
  pub Json : Type 0

module _ (H : Host) where
  open H use {Num, lt}

  -- `max(a, b)` and `min(a, b)`: the first argument, unless the second is better.
  abbrev pub max_num : Num → Num → Num
  max_num a b = if lt a b then b else a

  abbrev pub min_num : Num → Num → Num
  min_num a b = if lt b a then b else a

  -- `<` is a strict weak order (0.0 and -0.0 are not told apart by it).
  pub record IsOrdered : Type 0 where
    pub irrefl : (a : Num) → lt a a ≡ false
    pub lt_trans : (a b c : Num) → lt a b ≡ true → lt b c ≡ true → lt a c ≡ true
    pub ge_trans : (a b c : Num) → lt a b ≡ false → lt b c ≡ false → lt a c ≡ false

  pub le-max_num : IsOrdered → (a b : Num) → lt (max_num a b) a ≡ false
  le-max_num o a b = elim (Bool-cases (lt a b)) [
    | inl p ↦ rw p (ground (arith, o.irrefl a, o.lt_trans a b a))
    | inr p ↦ rw p (o.irrefl a)
  ]

  pub max_num-le : (c a b : Num) → lt c a ≡ false → lt c b ≡ false → lt c (max_num a b) ≡ false
  max_num-le c a b h k = ground arith

  pub min_num-ge : (c a b : Num) → lt a c ≡ false → lt b c ≡ false → lt (min_num a b) c ≡ false
  min_num-ge c a b h k = ground arith
