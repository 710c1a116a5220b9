-- ===== src/Ingestion/JsonSafe/Native.antt =====
-- What JSON has itself, and that lists, sorted lists and dicts of it are so: the results of
-- `jsonify`, src/cf_knowledge_kiln/ingestion/_jsonsafe.py.
use cf_knowledge_kiln.Base.{
  Bool, false, ◌||◌, none, List, [], ◌∷◌, arith, Bool-cases, inl, inr, All, ◌≡◌, refl, if_pos,
  if_neg,
}
use cf_knowledge_kiln.Base.OrderedDict.{get, set_item, IsDistinct}
use cf_knowledge_kiln.Base.Texts.{Text, same, same_sound}
use cf_knowledge_kiln.Ingestion.JsonSafe.{
  Json, string, number, literal, untouched, nan_or_inf, array, object, Items, nil, item, Fields,
  end, field, items, fields, Python, less, text_discrete, insert, sorted,
}

abbrev pub is_key : Text → Fields → Bool
is_key k end = false
is_key k (field l j fs) = same l k || is_key k fs

-- JSON's own: nothing is left as the object it was, and no object has a key twice.
unfoldable mutual
  pub IsNative : Json → Type 0
  IsNative (string t) = Unit
  IsNative (number t) = Unit
  IsNative (literal t) = Unit
  IsNative (untouched t) = ⊥
  IsNative nan_or_inf = ⊥
  IsNative (array js) = AllNative js
  IsNative (object fs) = IsNativeObject fs

  pub AllNative : Items → Type 0
  AllNative nil = Unit
  AllNative (item j js) = IsNative j × AllNative js

  pub IsNativeObject : Fields → Type 0
  IsNativeObject end = Unit
  IsNativeObject (field k j fs) = (is_key k fs ≡ false) × IsNative j × IsNativeObject fs

All-insert :
    {K : Type 0} (py : Python K) (j : Json) (js : List Json)
    → IsNative j
    → All IsNative js
    → All IsNative (insert py j js)
All-insert py j [] n ns = (n, tt)
All-insert py j (i ∷ js) n ns = elim (Bool-cases (less (py.repr i) (py.repr j))) [
  | inl e ↦ rw e (ns.0, All-insert py j js n ns.1)
  | inr e ↦ rw e (n, ns)
]

pub All-sorted :
    {K : Type 0} (py : Python K) (js : List Json) → All IsNative js → All IsNative (sorted py js)
All-sorted py [] h = tt
All-sorted py (j ∷ js) h = All-insert py j (sorted py js) h.0 (All-sorted py js h.1)

pub AllNative-items : (js : List Json) → All IsNative js → AllNative (items js)
unfolding IsNative
AllNative-items [] h = tt
AllNative-items (j ∷ js) h = (h.0, AllNative-items js h.1)

-- A dict as the comprehension builds it.
abbrev pub IsBuilt : List (Text × Json) → Type 0
IsBuilt d = All (λ e. IsNative e.1) d × IsDistinct text_discrete d

pub set_item-IsNative :
    (k : Text) (j : Json) (d : List (Text × Json))
    → IsNative j
    → All (λ e. IsNative e.1) d
    → All (λ e. IsNative e.1) (set_item text_discrete k j d)
unfolding set_item
set_item-IsNative k j [] n h = (n, tt)
set_item-IsNative k j (e ∷ d) n h = elim (text_discrete e.0 k) [
  | yes p ↦ rw (if_pos _ p) (n, h.1)
  | no p ↦ rw (if_neg _ p) (h.0, set_item-IsNative k j d n h.1)
]

is_key_absent :
    (k : Text) (d : List (Text × Json)) → get text_discrete k d ≡ none → is_key k (fields d) ≡ false
unfolding get
is_key_absent k [] h = refl
is_key_absent k ((l, j) ∷ d) h = elim (text_discrete l k) [
  | yes p ↦ absurd (ground arith)
  | no p ↦
      let rest = is_key_absent k d (ground arith) in
      elim (Bool-cases (same l k)) [
        | inl e ↦ absurd (p (same_sound l k e))
        | inr e ↦ rw (e, rest) refl
      ]
]

pub IsNativeObject-fields : (d : List (Text × Json)) → IsBuilt d → IsNativeObject (fields d)
unfolding IsNative
IsNativeObject-fields [] h = tt
IsNativeObject-fields ((k, j) ∷ d) h =
    (is_key_absent k d h.1.0, h.0.0, IsNativeObject-fields d (h.0.1, h.1.1))
