-- ===== src/Ingestion/JsonSafe/Returns.antt =====
-- Where `jsonify` of src/cf_knowledge_kiln/ingestion/_jsonsafe.py returns, and what it makes.
use cf_knowledge_kiln.Base.{
  ℕ, zero, suc, ◌+◌, ◌≤◌, ◌<◌, ◌==◌, false, Option, none, some, List, [], ◌∷◌, if◌then◌else◌, arith,
  Bool-cases, Option-cases, inl, inr, All, any, length, ◌≡◌, refl, subst,
}
use cf_knowledge_kiln.Base.OrderedDict.{set_item, IsDistinct-set_item}
use cf_knowledge_kiln.Base.Texts.{Text}
use cf_knowledge_kiln.Ingestion.JsonSafe.{
  Scalar, datetime, date, decimal, uuid, pure_path, native, foreign, raw_bytes, Value, scalar, at,
  Container, dict, sequence, set_of, Heap, Json, Python, text_discrete, get_elem?, ◌>>=◌, each,
  leaf, float_json, Float, finite, not_finite, sorted, entries, inside, jsonify_under, jsonify,
}
use cf_knowledge_kiln.Ingestion.JsonSafe.Native.{
  IsNative, AllNative-items, All-sorted, IsBuilt, set_item-IsNative, IsNativeObject-fields,
}

abbrev pub IsFinite : Option Float → Type 0
IsFinite (some (finite t)) = Unit
IsFinite _ = ⊥

-- A scalar that a branch of the code names, a decimal with a finite float, or one of the n
-- containers.
abbrev pub IsConvertible : {K : Type 0} → Python K → ℕ → Value → Type 0
IsConvertible py n (scalar (foreign t)) = ⊥
IsConvertible py n (scalar (decimal t)) = IsFinite (py.float t)
IsConvertible py n (scalar s) = Unit
IsConvertible py n (at i) = i < n

abbrev pub AllConvertible : {K : Type 0} → Python K → ℕ → Container K → Type 0
AllConvertible py n (dict kvs) = All (λ e. IsConvertible py n e.1) kvs
AllConvertible py n (sequence vs) = All (IsConvertible py n) vs
AllConvertible py n (set_of vs) = All (IsConvertible py n) vs

abbrev pub IsClosed : {K : Type 0} → Python K → Heap K → Type 0
IsClosed py heap = All (AllConvertible py (length heap)) heap

-- There is a value, and it has the property.
abbrev Holds : {A : Type 0} → (A → Type 0) → Option A → Type 0
Holds P none = ⊥
Holds P (some a) = P a

held : {A : Type 0} {P : A → Type 0} {o : Option A} → Holds P o → (a : A) × (o ≡ some a) × P a
held {o = none} h = absurd h
held {o = some a} h = (a, refl, h)

>>=-Holds :
    {A B : Type 0} (P : A → Type 0) (Q : B → Type 0) (o : Option A) (f : A → Option B)
    → Holds P o
    → ((a : A) → P a → Holds Q (f a))
    → Holds Q (o >>= f)
>>=-Holds P Q none f h k = absurd h
>>=-Holds P Q (some a) f h k = k a h

-- The places below n that are not on the way.
abbrev unvisited : List ℕ → ℕ → ℕ
unvisited seen zero = 0
unvisited seen (suc n) = (if any (λ j. n == j) seen then 0 else 1) + unvisited seen n

unvisited-le : (i : ℕ) (seen : List ℕ) (n : ℕ) → unvisited (i ∷ seen) n ≤ unvisited seen n
unvisited-le i seen zero = omega arith
unvisited-le i seen (suc n) = ground (arith, unvisited-le i seen n)

unvisited-lt :
    (i : ℕ) (seen : List ℕ) (n : ℕ)
    → i < n
    → any (λ j. i == j) seen ≡ false
    → unvisited (i ∷ seen) n < unvisited seen n
unvisited-lt i seen zero h e = absurd (omega arith)
unvisited-lt i seen (suc n) h e = elim (Bool-cases (n == i)) [
  | inl p ↦
      let same_place : i ≡ n = ground (arith, p) in
      let free : any (λ j. n == j) seen ≡ false =
        subst (λ m. any (λ j. m == j) seen ≡ false) same_place e in
      let low = unvisited-le i seen n in rw (p, free) (omega (arith, low))
  | inr p ↦ let low = unvisited-lt i seen n (ground (arith, p)) e in rw p (ground (arith, low))
]

unvisited-low : (n : ℕ) → unvisited [] n ≤ n
unvisited-low zero = omega arith
unvisited-low (suc n) = omega (arith, unvisited-low n)

get_elem?-Holds :
    {A : Type 0} (P : A → Type 0) (xs : List A) (i : ℕ)
    → All P xs
    → i < length xs
    → Holds P (get_elem? xs i)
get_elem?-Holds P [] i h l = absurd (omega arith)
get_elem?-Holds P (x ∷ xs) zero h l = h.0
get_elem?-Holds P (x ∷ xs) (suc i) h l = get_elem?-Holds P xs i h.1 (omega arith)

-- What the conversion of a container's values yields.
module _ {K : Type 0} (py : Python K) (n : ℕ) (convert : Value → Option Json)
    (go : (v : Value) → IsConvertible py n v → Holds IsNative (convert v)) where
  each-Holds :
      (vs : List Value) → All (IsConvertible py n) vs → Holds (All IsNative) (each convert vs)
  each-Holds [] h = tt
  each-Holds (v ∷ vs) h = >>=-Holds IsNative (All IsNative) (convert v) _ (go v h.0) λ j m.
      >>=-Holds (All IsNative) (All IsNative) (each convert vs) _ (each-Holds vs h.1)
        λ js ms. (m, ms)

  entries-Holds :
      (kvs : List (K × Value)) (built : List (Text × Json))
      → All (λ e. IsConvertible py n e.1) kvs
      → IsBuilt built
      → Holds IsBuilt (entries py convert kvs built)
  entries-Holds [] built h b = b
  entries-Holds ((k, v) ∷ kvs) built h b =
      >>=-Holds IsNative IsBuilt (convert v) _ (go v h.0) λ j m.
        entries-Holds kvs (set_item text_discrete (py.str k) j built) h.1 (
          set_item-IsNative (py.str k) j built m b.0,
          IsDistinct-set_item text_discrete (py.str k) j built b.1,
        )

  inside-Holds :
      (o : Option (Container K))
      → Holds (AllConvertible py n) o
      → Holds IsNative (inside py convert o)
  unfolding IsNative
  inside-Holds none h = absurd h
  inside-Holds (some (dict kvs)) h =
      >>=-Holds IsBuilt IsNative _ _ (entries-Holds kvs [] h (tt, tt)) IsNativeObject-fields
  inside-Holds (some (sequence vs)) h =
      >>=-Holds (All IsNative) IsNative _ _ (each-Holds vs h) AllNative-items
  inside-Holds (some (set_of vs)) h =
      >>=-Holds (All IsNative) IsNative _ _ (each-Holds vs h)
        λ js ns. AllNative-items (sorted py js) (All-sorted py js ns)

module _ {K : Type 0} (py : Python K) where
  float-IsNative :
      (o : Option Float) → IsFinite o → Holds IsNative (o >>= λ x. some (float_json py x))
  unfolding IsNative
  float-IsNative none h = absurd h
  float-IsNative (some not_finite) h = absurd h
  float-IsNative (some (finite t)) h = tt

  leaf-IsNative : (n : ℕ) (s : Scalar) → IsConvertible py n (scalar s) → Holds IsNative (leaf py s)
  unfolding leaf IsNative
  leaf-IsNative n (datetime t) h = tt
  leaf-IsNative n (date d) h = tt
  leaf-IsNative n (decimal t) h = float-IsNative (py.float t) h
  leaf-IsNative n (uuid t) h = tt
  leaf-IsNative n (pure_path t) h = tt
  leaf-IsNative n (raw_bytes bs) h = elim (Option-cases (py.decode bs)) [
    | inl e ↦ rw (leaf, e) tt
    | inr d ↦ rw (leaf, d.1) tt
  ]
  leaf-IsNative n (native t) h = tt
  leaf-IsNative n (foreign t) h = absurd h

  jsonify_under-Holds :
      (fuel : ℕ) (heap : Heap K) (seen : List ℕ) (v : Value)
      → IsClosed py heap
      → unvisited seen (length heap) ≤ fuel
      → IsConvertible py (length heap) v
      → Holds IsNative (jsonify_under py fuel heap seen v)
  unfolding jsonify_under IsNative
  jsonify_under-Holds zero heap seen (scalar s) c le h = leaf-IsNative (length heap) s h
  jsonify_under-Holds (suc fuel) heap seen (scalar s) c le h = leaf-IsNative (length heap) s h
  jsonify_under-Holds zero heap seen (at i) c le h = elim (Bool-cases (any (λ j. i == j) seen)) [
    | inl e ↦ rw e tt
    | inr e ↦ let less_left = unvisited-lt i seen (length heap) h e in absurd (omega arith)
  ]
  jsonify_under-Holds (suc fuel) heap seen (at i) c le h =
      elim (Bool-cases (any (λ j. i == j) seen)) [
        | inl e ↦ rw e tt
        | inr e ↦
            let less_left = unvisited-lt i seen (length heap) h e in
            rw e (
              inside-Holds py (length heap) (jsonify_under py fuel heap (i ∷ seen))
                (λ v k. jsonify_under-Holds fuel heap (i ∷ seen) v c (omega arith) k)
                (get_elem? heap i) (get_elem?-Holds (AllConvertible py (length heap)) heap i c h))
      ]

  -- Over a heap whose containers refer to containers of it, cycles included, and hold no object
  -- that the code does not name, no float that is infinite or not a number and no decimal whose
  -- float is one, the conversion of each value returns, with no more nested calls on containers
  -- than there are containers, a value that is JSON in all its parts, with no key twice in an
  -- object.
  pub jsonify-IsNative :
      (heap : Heap K) (v : Value)
      → IsClosed py heap
      → IsConvertible py (length heap) v
      → (j : Json) × (jsonify py heap v ≡ some j) × IsNative j
  unfolding jsonify
  jsonify-IsNative heap v c h =
      held (jsonify_under-Holds (length heap) heap [] v c (unvisited-low (length heap)) h)
