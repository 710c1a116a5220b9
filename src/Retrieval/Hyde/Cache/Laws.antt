-- ===== src/Retrieval/Hyde/Cache/Laws.antt =====
-- The cache's bounds, and what a `get` after a `put` returns.
use cf_knowledge_kiln.Base.{
  ℕ, ◌-◌, ◌≤◌, ◌<◌, ◌≡◌, ◌≢◌, true, false, none, some, List, [], ◌∷◌, ◌++◌, ltb, if◌then◌else◌,
  length, Option-cases, inl, inr, arith, Bool-cases, length-append,
}
use cf_knowledge_kiln.Base.OrderedDict.{
  delete, move_to_end, trim, IsDistinct, set_item_absent, IsDistinct-delete, IsDistinct-snoc,
  get-delete_self, get-delete_ne, length-delete,
}
use cf_knowledge_kiln.Base.OrderedDict.{get as get_item}
use cf_knowledge_kiln.Base.OrderedDict.Moves.{length-move_to_end, IsDistinct-move_to_end}
use cf_knowledge_kiln.Base.OrderedDict.Trim.{
  length-trim-le, trim_snoc_pos, IsDistinct-trim, get-trim_of_none,
}
use cf_knowledge_kiln.Retrieval.Hyde.Cache.{HydeCache, get, put}

module _ {K V : Type 0} (dec : Discrete K) where
  pub record IsValid (c : HydeCache K V) : Type 0 where
    pub room : 0 < c.max_entries
    pub distinct : IsDistinct dec c.store
    pub bounded : length c.store ≤ c.max_entries

  -- The three outcomes of a `get`.
  module _ (c : HydeCache K V) (now : ℕ) (key : K) where
    pub get_missing : get_item dec key c.store ≡ none → get dec c now key ≡ (c, none)
    unfolding get
    get_missing e = rw (e, get)

    pub get_old :
        (s : ℕ) (x : V)
        → get_item dec key c.store ≡ some (s, x)
        → ltb c.ttl (now - s) ≡ true
        → get dec c now key ≡ (record c { store = delete dec key c.store }, none)
    unfolding get
    get_old s x e old = rw (e, get) (rw old)

    pub get_young :
        (s : ℕ) (x : V)
        → get_item dec key c.store ≡ some (s, x)
        → ltb c.ttl (now - s) ≡ false
        → get dec c now key ≡ (record c { store = move_to_end dec key c.store }, some x)
    unfolding get
    get_young s x e young = rw (e, get) (rw young)

    pub get_value :
        (s : ℕ) (x : V)
        → get_item dec key c.store ≡ some (s, x)
        → (get dec c now key).1 ≡ (if ltb c.ttl (now - s) then none else some x)
    unfolding get
    get_value s x e = ground arith

  -- The entries that a `put` of the key keeps, before the trim.
  unfoldable pub kept : HydeCache K V → K → List (K × (ℕ × V))
  kept c key = elim (get_item dec key c.store) [ none ↦ c.store | some _ ↦ delete dec key c.store ]

  pub kept_fresh : (c : HydeCache K V) (key : K) → IsValid c → get_item dec key (kept c key) ≡ none
  unfolding kept
  kept_fresh c key v = elim (Option-cases (get_item dec key c.store)) [
    | inl e ↦ rw (e, kept) e
    | inr (x, e) ↦ rw (e, kept) (get-delete_self dec key c.store v.distinct)
  ]

  pub kept-IsDistinct : (c : HydeCache K V) (key : K) → IsValid c → IsDistinct dec (kept c key)
  unfolding kept
  kept-IsDistinct c key v = elim (Option-cases (get_item dec key c.store)) [
    | inl e ↦ rw (e, kept) v.distinct
    | inr (x, e) ↦ rw (e, kept) (IsDistinct-delete dec key c.store v.distinct)
  ]

  pub get-kept_ne :
      (c : HydeCache K V) (key q : K)
      → q ≢ key
      → get_item dec q (kept c key) ≡ get_item dec q c.store
  unfolding kept
  get-kept_ne c key q ne = ground (arith, get-delete_ne dec key q c.store ne)

  -- A `put` makes the key the newest entry, and trims the others to make room for it.
  pub put_lem :
      (c : HydeCache K V) (now : ℕ) (key : K) (value : V)
      → IsValid c
      → put dec c now key value
        ≡ record c { store = trim (c.max_entries - 1) (kept c key) ++ (key, (now, value)) ∷ [] }
  unfolding put kept
  put_lem c now key value v = rw (
    set_item_absent dec key (now, value) (kept c key) (kept_fresh c key v),
    trim_snoc_pos c.max_entries (kept c key) (key, (now, value)) v.room,
  )

  -- No call lets the cache grow past its bound or hold a key twice.
  pub put-IsValid :
      (c : HydeCache K V) (now : ℕ) (key : K) (value : V)
      → IsValid c
      → IsValid (put dec c now key value)
  put-IsValid c now key value v = rw (put_lem c now key value v) (
      let rest = trim (c.max_entries - 1) (kept c key) in
      record {
        room = v.room;
        distinct =
            IsDistinct-snoc dec key (now, value) rest
              (get-trim_of_none dec _ key (kept c key) (kept_fresh c key v))
              (IsDistinct-trim dec _ (kept c key) (kept-IsDistinct c key v));
        bounded = omega (
          arith,
          length-append rest ((key, (now, value)) ∷ []),
          length-trim-le (c.max_entries - 1) (kept c key),
        );
      })

  pub get-IsValid :
      (c : HydeCache K V) (now : ℕ) (key : K) → IsValid c → IsValid (get dec c now key).0
  get-IsValid c now key v = elim (Option-cases (get_item dec key c.store)) [
    | inl e ↦ rw (get_missing c now key e) v
    | inr ((s, x), e) ↦ elim (Bool-cases (ltb c.ttl (now - s))) [
      | inl old ↦ rw (get_old c now key s x e old) (record {
        room = v.room;
        distinct = IsDistinct-delete dec key c.store v.distinct;
        bounded = omega (arith, length-delete dec key c.store (s, x) e, v.bounded);
      })
      | inr young ↦ rw (get_young c now key s x e young) (record {
        room = v.room;
        distinct = IsDistinct-move_to_end dec key c.store v.distinct;
        bounded = omega (arith, length-move_to_end dec key c.store, v.bounded);
      })
    ]
  ]
