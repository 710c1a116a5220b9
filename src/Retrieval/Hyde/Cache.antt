-- ===== src/Retrieval/Hyde/Cache.antt =====
-- The pseudo-document cache of src/cf_knowledge_kiln/retrieval/hyde/cache.py: a bound on the age
-- and on the number of the entries, over whole ticks of the monotonic clock.
pub mod Laws
pub mod History
use cf_knowledge_kiln.Base.{
  ℕ, ◌-◌, ◌+◌, ◌≤◌, Bool, true, false, Option, none, some, List, [], ◌∷◌, ◌++◌, ltb, ◌==◌,
  if◌then◌else◌,
}
use cf_knowledge_kiln.Base.OrderedDict.{get as get_item, delete, move_to_end, set_item, trim}

-- `store` maps a key to the time at which it was stored and the value.
pub record HydeCache (K V : Type 0) : Type 0 where
  pub ttl : ℕ
  pub max_entries : ℕ
  pub store : List (K × (ℕ × V))

-- `none` is the ValueError of a bound that is not positive.
unfoldable pub init : {K V : Type 0} → ℕ → ℕ → Option (HydeCache K V)
init ttl max_entries =
    if ttl == 0
    then none
    else if max_entries == 0
    then none
    else some (record { ttl = ttl; max_entries = max_entries; store = [] })

module _ {K V : Type 0} where
  unfoldable pub clear : HydeCache K V → HydeCache K V
  clear c = record c { store = [] }

  module _ (dec : Discrete K) where
    unfoldable pub get : HydeCache K V → ℕ → K → HydeCache K V × Option V
    get c now key = elim (get_item dec key c.store) [
      | none ↦ (c, none)
      | some (stored_at, value) ↦
          if ltb c.ttl (now - stored_at)
          then (record c { store = delete dec key c.store }, none)
          else (record c { store = move_to_end dec key c.store }, some value)
    ]

    unfoldable pub put : HydeCache K V → ℕ → K → V → HydeCache K V
    put c now key value =
        let kept : List (K × (ℕ × V)) = elim (get_item dec key c.store) [
          | none ↦ c.store
          | some _ ↦ delete dec key c.store
        ] in
        record c { store = trim c.max_entries (set_item dec key (now, value) kept) }
