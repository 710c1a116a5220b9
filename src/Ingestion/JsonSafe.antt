-- ===== src/Ingestion/JsonSafe.antt =====
-- `jsonify`, which makes a document's metadata fit for the JSON column:
-- src/cf_knowledge_kiln/ingestion/_jsonsafe.py. Containers live in a heap, where one may hold
-- itself; the place of a container is its `id`.
pub mod Native
pub mod Returns
use cf_knowledge_kiln.Base.{
  ℕ, zero, suc, ◌==◌, Bool, true, false, Option, none, some, List, [], ◌∷◌, if◌then◌else◌, arith,
  any, length, ltb, ◌≡◌, ◌≢◌, refl,
}
use cf_knowledge_kiln.Base.OrderedDict.{set_item}
use cf_knowledge_kiln.Base.Texts.{Text, codes, same, same_refl, same_sound}

-- A value that is no container. `native` is what JSON has itself (None, a Boolean, an int, a
-- finite float or a str), by its literal; `foreign` is any other object.
pub data Scalar : Type 0 where
  datetime date : ℕ → Scalar
  decimal uuid pure_path native foreign : Text → Scalar
  raw_bytes : List ℕ → Scalar

pub data Value : Type 0 where
  scalar : Scalar → Value
  at : ℕ → Value

-- A dict, a list or tuple, and a set or frozenset, over the keys of the dicts.
pub data Container (K : Type 0) : Type 0 where
  dict : List (K × Value) → Container K
  sequence set_of : List Value → Container K

abbrev pub Heap : Type 0 → Type 0
Heap K = List (Container K)

mutual
  pub data Json : Type 0 where
    string number literal untouched : Text → Json
    nan_or_inf : Json
    array : Items → Json
    object : Fields → Json

  pub data Items : Type 0 where
    nil : Items
    item : Json → Items → Items

  pub data Fields : Type 0 where
    end : Fields
    field : Text → Json → Fields → Fields

abbrev pub items : List Json → Items
items [] = nil
items (j ∷ js) = item j (items js)

abbrev pub fields : List (Text × Json) → Fields
fields [] = end
fields ((k, j) ∷ d) = field k j (fields d)

-- What `float` of a decimal gives: a number by its literal, or a NaN or an infinity.
pub data Float : Type 0 where
  finite : Text → Float
  not_finite : Float

-- What the code calls of Python: `str` of a key, `repr`, the two `isoformat`s, `float` of a
-- decimal, the decoder of UTF-8 and `bytes.hex`.
pub record Python (K : Type 0) : Type 0 where
  pub str : K → Text
  pub repr : Json → Text
  pub datetime_isoformat : ℕ → Text
  pub date_isoformat : ℕ → Text
  -- `none` is the ValueError of a signalling NaN
  pub float : Text → Option Float
  pub decode : List ℕ → Option Text
  pub hex : List ℕ → Text

-- `a < b` of two texts
abbrev pub less : Text → Text → Bool
less xs [] = false
less [] (y ∷ ys) = true
less (x ∷ xs) (y ∷ ys) = if x == y then less xs ys else ltb x y

pub same-ne : (a b : Text) → same a b ≡ false → a ≢ b
same-ne a b e p = absurd (grind (arith, same_refl a, p, e))

abbrev decided : (a b : Text) (c : Bool) → same a b ≡ c → Dec (a ≡ b)
decided a b true e = yes (same_sound a b e)
decided a b false e = no (same-ne a b e)

unfoldable pub text_discrete : Discrete Text
text_discrete a b = decided a b (same a b) refl

abbrev pub cycle : Json
cycle = string (codes "<cycle>")

abbrev pub get_elem? {ℓ} : {A : Type ℓ} → List A → ℕ → Option A
get_elem? [] i = none
get_elem? (x ∷ xs) zero = some x
get_elem? (x ∷ xs) (suc i) = get_elem? xs i

infixl 5 ◌>>=◌
abbrev pub ◌>>=◌ : {A B : Type 0} → Option A → (A → Option B) → Option B
none >>= f = none
(some a) >>= f = f a

-- The comprehension `[convert(v) for v in values]`.
abbrev pub each : (Value → Option Json) → List Value → Option (List Json)
each convert [] = some []
each convert (v ∷ vs) = do j ← convert v; js ← each convert vs; some (j ∷ js)

module _ {K : Type 0} (py : Python K) where
  -- The branches of a value that is no container.
  abbrev pub float_json : Float → Json
  float_json (finite t) = number t
  float_json not_finite = nan_or_inf

  unfoldable pub leaf : Scalar → Option Json
  leaf (datetime t) = some (string (py.datetime_isoformat t))
  leaf (date d) = some (string (py.date_isoformat d))
  leaf (decimal t) = do x ← py.float t; some (float_json x)
  leaf (uuid t) = some (string t)
  leaf (pure_path t) = some (string t)
  leaf (raw_bytes bs) = elim (py.decode bs) [
    | none ↦ some (string (py.hex bs))
    | some t ↦ some (string t)
  ]
  leaf (native t) = some (literal t)
  leaf (foreign t) = some (untouched t)

  -- `sorted(js, key=_sort_key)`, which keeps the order of equal keys
  abbrev pub insert : Json → List Json → List Json
  insert j [] = j ∷ []
  insert j (i ∷ js) = if less (py.repr i) (py.repr j) then i ∷ insert j js else j ∷ i ∷ js

  abbrev pub sorted : List Json → List Json
  sorted [] = []
  sorted (j ∷ js) = insert j (sorted js)

  -- `{str(k): convert(v) for k, v in value.items()}`, into the dict that is built so far
  abbrev pub entries :
      (Value → Option Json) → List (K × Value) → List (Text × Json) → Option (List (Text × Json))
  entries convert [] built = some built
  entries convert ((k, v) ∷ kvs) built = do
    j ← convert v
    entries convert kvs (set_item text_discrete (py.str k) j built)

  abbrev pub inside : (Value → Option Json) → Option (Container K) → Option Json
  inside convert none = none
  inside convert (some (dict kvs)) = do d ← entries convert kvs []; some (object (fields d))
  inside convert (some (sequence vs)) = do js ← each convert vs; some (array (items js))
  inside convert (some (set_of vs)) = do js ← each convert vs; some (array (items (sorted js)))

  -- `_jsonify`, on as many nested containers as the fuel allows; `none` also where it raises.
  unfoldable pub jsonify_under : ℕ → Heap K → List ℕ → Value → Option Json
  jsonify_under fuel heap seen (scalar s) = leaf s
  jsonify_under zero heap seen (at i) = if any (λ j. i == j) seen then some cycle else none
  jsonify_under (suc fuel) heap seen (at i) =
      if any (λ j. i == j) seen
      then some cycle
      else inside (jsonify_under fuel heap (i ∷ seen)) (get_elem? heap i)

  -- `jsonify`: a chain of calls enters each container of the heap at most once.
  unfoldable pub jsonify : Heap K → Value → Option Json
  jsonify heap v = jsonify_under (length heap) heap [] v
