-- ===== src/Base/OrderedDict.antt =====
-- What the program uses of `collections.OrderedDict`: an association list, oldest entry first,
-- over keys with a decidable equality. The bounded caches of the program are built on it.
pub mod Keys
pub mod Moves
pub mod Trim
use mathlib.Core.List.{List, [], ◌∷◌, ◌++◌}
use mathlib.Core.Logic.{ite, if_pos, if_neg, ◌≢◌}
use mathlib.Core.Option.{Option, none, some}
use mathlib.Core.Path.{◌≡◌, refl}
use Prim.Native.Nat.{ℕ, suc, ◌≤◌, ◌-◌}
use native.Mathlib.Omega.{arith}
use cf_knowledge_kiln.Base.Bools.{ltb, if◌then◌else◌}
use cf_knowledge_kiln.Base.Lists.{length, All}

module _ {ℓ} {K V : Type ℓ} where
  abbrev pub keys : List (K × V) → List K
  keys [] = []
  keys (e ∷ d) = e.0 ∷ keys d

  -- `d.popitem(last=False)`, of which the program drops the result.
  abbrev pub pop_oldest : List (K × V) → List (K × V)
  pop_oldest [] = []
  pop_oldest (e ∷ d) = d

  -- `while len(d) > n: d.popitem(last=False)`
  unfoldable pub trim : ℕ → List (K × V) → List (K × V)
  trim n [] = []
  trim n (e ∷ d) = let rest = trim n d in if ltb n (length (e ∷ d)) then rest else e ∷ d

module _ {ℓ} {K V : Type ℓ} (dec : Discrete K) where
  -- `d.get(k)`
  unfoldable pub get : K → List (K × V) → Option V
  get k [] = none
  get k (e ∷ d) = ite (dec e.0 k) (some e.1) (get k d)

  -- `del d[k]` of a key that is there
  unfoldable pub delete : K → List (K × V) → List (K × V)
  delete k [] = []
  delete k (e ∷ d) = ite (dec e.0 k) d (e ∷ delete k d)

  -- `d[k] = v`: in place where the key is there, else as the newest entry
  unfoldable pub set_item : K → V → List (K × V) → List (K × V)
  set_item k v [] = (k, v) ∷ []
  set_item k v (e ∷ d) = ite (dec e.0 k) ((e.0, v) ∷ d) (e ∷ set_item k v d)

  -- `d.move_to_end(k)`
  unfoldable pub move_to_end : K → List (K × V) → List (K × V)
  move_to_end k d = elim (get k d) [ none ↦ d | some v ↦ delete k d ++ (k, v) ∷ [] ]

  -- No key stands twice.
  abbrev pub IsDistinct : List (K × V) → Type ℓ
  IsDistinct [] = Unit
  IsDistinct (e ∷ d) = (get e.0 d ≡ none) × IsDistinct d

  pub get-delete_ne : (k q : K) (d : List (K × V)) → q ≢ k → get q (delete k d) ≡ get q d
  unfolding get delete
  get-delete_ne k q [] h = refl
  get-delete_ne k q (e ∷ d) h = ground (arith, get-delete_ne k q d h)

  pub get-delete_self : (k : K) (d : List (K × V)) → IsDistinct d → get k (delete k d) ≡ none
  unfolding get delete
  get-delete_self k [] h = refl
  get-delete_self k (e ∷ d) h = ground (arith, get-delete_self k d h.1)

  pub delete_absent : (k : K) (d : List (K × V)) → get k d ≡ none → delete k d ≡ d
  unfolding get delete
  delete_absent k [] h = refl
  delete_absent k (e ∷ d) h = ground (arith, delete_absent k d)

  pub length-delete :
      (k : K) (d : List (K × V)) (v : V) → get k d ≡ some v → suc (length (delete k d)) ≡ length d
  unfolding get delete
  length-delete k [] v h = cc
  length-delete k (e ∷ d) v h = ground (arith, length-delete k d v)

  pub get-snoc :
      (k q : K) (v : V) (d : List (K × V))
      → get q (d ++ (k, v) ∷ [])
        ≡ elim (get q d) [ none ↦ ite (dec k q) (some v) none | some w ↦ some w ]
  unfolding get
  get-snoc k q v [] = refl
  get-snoc k q v (e ∷ d) = ground (arith, get-snoc k q v d)

  pub get-snoc_self :
      (k : K) (v : V) (d : List (K × V)) → get k d ≡ none → get k (d ++ (k, v) ∷ []) ≡ some v
  unfolding get
  get-snoc_self k v [] h = ground arith
  get-snoc_self k v (e ∷ d) h = ground (arith, get-snoc_self k v d)

  pub get-snoc_ne :
      (k q : K) (v : V) (d : List (K × V)) → q ≢ k → get q (d ++ (k, v) ∷ []) ≡ get q d
  unfolding get
  get-snoc_ne k q v [] h = ground arith
  get-snoc_ne k q v (e ∷ d) h = ground (arith, get-snoc_ne k q v d h)

  pub IsDistinct-delete : (k : K) (d : List (K × V)) → IsDistinct d → IsDistinct (delete k d)
  unfolding get delete
  IsDistinct-delete k [] h = tt
  IsDistinct-delete k (e ∷ d) h = elim (dec e.0 k) [
    | yes p ↦ rw (if_pos _ p) h.1
    | no p ↦
        rw (if_neg _ p) (ground (arith, get-delete_ne k e.0 d p, h.0), IsDistinct-delete k d h.1)
  ]

  pub IsDistinct-snoc :
      (k : K) (v : V) (d : List (K × V))
      → get k d ≡ none
      → IsDistinct d
      → IsDistinct (d ++ (k, v) ∷ [])
  unfolding get
  IsDistinct-snoc k v [] n h = (refl, tt)
  IsDistinct-snoc k v (e ∷ d) n h = elim (dec e.0 k) [
    | yes p ↦ absurd (ground arith)
    | no p ↦ (ground (arith, get-snoc k e.0 v d), IsDistinct-snoc k v d (ground arith) h.1)
  ]

  pub set_item_absent :
      (k : K) (v : V) (d : List (K × V)) → get k d ≡ none → set_item k v d ≡ d ++ (k, v) ∷ []
  unfolding get set_item
  set_item_absent k v [] h = refl
  set_item_absent k v (e ∷ d) h = ground (arith, set_item_absent k v d)

  pub get-set_item :
      (k q : K) (v : V) (d : List (K × V))
      → get q (set_item k v d) ≡ ite (dec k q) (some v) (get q d)
  unfolding get set_item
  get-set_item k q v [] = refl
  get-set_item k q v (e ∷ d) = ground (arith, get-set_item k q v d)

  pub length-set_item_present :
      (k : K) (v w : V) (d : List (K × V)) → get k d ≡ some w → length (set_item k v d) ≡ length d
  unfolding get set_item
  length-set_item_present k v w [] h = cc
  length-set_item_present k v w (e ∷ d) h = ground (arith, length-set_item_present k v w d)

  pub IsDistinct-set_item :
      (k : K) (v : V) (d : List (K × V)) → IsDistinct d → IsDistinct (set_item k v d)
  unfolding get set_item
  IsDistinct-set_item k v [] h = (refl, tt)
  IsDistinct-set_item k v (e ∷ d) h = elim (dec e.0 k) [
    | yes p ↦ rw (if_pos _ p) h
    | no p ↦
        rw (if_neg _ p) (ground (arith, get-set_item k e.0 v d, h.0), IsDistinct-set_item k v d h.1)
  ]

  pub IsDistinct-pop_oldest : (d : List (K × V)) → IsDistinct d → IsDistinct (pop_oldest d)
  IsDistinct-pop_oldest [] h = tt
  IsDistinct-pop_oldest (e ∷ d) h = h.1

  -- Dropping the oldest entry hides no other key.
  pub get-pop_oldest :
      (q : K) (e : K × V) (d : List (K × V)) → e.0 ≢ q → get q (pop_oldest (e ∷ d)) ≡ get q (e ∷ d)
  unfolding get
  get-pop_oldest q e d h = ground arith

  -- An assignment to a field of the object that the key holds: nothing happens where the
  -- dictionary has dropped the object.
  unfoldable pub write : K → V → List (K × V) → List (K × V)
  write k v [] = []
  write k v (e ∷ d) = ite (dec e.0 k) ((e.0, v) ∷ d) (e ∷ write k v d)

  pub write_snoc :
      (k : K) (v w : V) (d : List (K × V))
      → get k d ≡ none
      → write k v (d ++ (k, w) ∷ []) ≡ d ++ (k, v) ∷ []
  unfolding get write
  write_snoc k v w [] h = ground arith
  write_snoc k v w (e ∷ d) h = ground (arith, write_snoc k v w d)

  pub get-pop_oldest_of_none :
      (q : K) (d : List (K × V)) → get q d ≡ none → get q (pop_oldest d) ≡ none
  unfolding get
  get-pop_oldest_of_none q [] h = refl
  get-pop_oldest_of_none q (e ∷ d) h = ground arith

module _ {ℓ κ} {K V : Type ℓ} (dec : Discrete K) (P : K × V → Type κ) where
  pub All-delete : (k : K) (d : List (K × V)) → All P d → All P (delete dec k d)
  unfolding delete
  All-delete k [] h = tt
  All-delete k (e ∷ d) h = elim (dec e.0 k) [
    | yes p ↦ rw (if_pos _ p) h.1
    | no p ↦ rw (if_neg _ p) (h.0, All-delete k d h.1)
  ]

pub pop_oldest_snoc {ℓ} :
    {K V : Type ℓ} (d : List (K × V)) (e : K × V) (n : ℕ)
    → suc n ≤ length d
    → pop_oldest (d ++ e ∷ []) ≡ pop_oldest d ++ e ∷ []
pop_oldest_snoc [] e n h = absurd (omega arith)
pop_oldest_snoc (f ∷ d) e n h = refl

pub length-pop_oldest {ℓ} : {K V : Type ℓ} (d : List (K × V)) → length (pop_oldest d) ≡ length d - 1
length-pop_oldest [] = omega arith
length-pop_oldest (e ∷ d) = omega arith

pub All-pop_oldest {ℓ κ} :
    {K V : Type ℓ} (P : K × V → Type κ) (d : List (K × V)) → All P d → All P (pop_oldest d)
All-pop_oldest P [] h = tt
All-pop_oldest P (e ∷ d) h = h.1
