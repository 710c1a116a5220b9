-- ===== src/Retrieval/Hyde/Cache/History.antt =====
-- The cache against an ideal store that keeps every value ever put.
use cf_knowledge_kiln.Base.{
  ℕ, ◌-◌, ◌≤◌, ◌<◌, ◌≡◌, refl, none, some, List, [], ◌∷◌, ◌++◌, ltb, if◌then◌else◌, Option-cases,
  none-ne-some, inl, inr, arith, if_pos, if_neg, Bool-cases, sym, ◌∙◌, ap,
}
use cf_knowledge_kiln.Base.OrderedDict.{
  get-snoc_self, get-snoc_ne, get-delete_ne, get-delete_self, trim,
}
use cf_knowledge_kiln.Base.OrderedDict.{get as get_item}
use cf_knowledge_kiln.Base.OrderedDict.Moves.{get-move_to_end}
use cf_knowledge_kiln.Base.OrderedDict.Trim.{trim_keeps, get-trim_of_none}
use cf_knowledge_kiln.Retrieval.Hyde.Cache.{HydeCache, init, get, put, clear}
use cf_knowledge_kiln.Retrieval.Hyde.Cache.Laws.{
  IsValid, kept, kept_fresh, kept-IsDistinct, get-kept_ne, put_lem, put-IsValid, get-IsValid,
  get_missing, get_value, get_old, get_young,
}

pub data Call (K V : Type 0) : Type 0 where
  lookup : ℕ → K → Call K V
  store : ℕ → K → V → Call K V
  purge : Call K V

module _ {K V : Type 0} (dec : Discrete K) where
  unfoldable pub run : List (Call K V) → HydeCache K V → HydeCache K V
  run [] c = c
  run (lookup now key ∷ calls) c = run calls (get dec c now key).0
  run (store now key value ∷ calls) c = run calls (put dec c now key value)
  run (purge ∷ calls) c = run calls (clear c)

  -- Every value ever put since the last purge, newest first.
  unfoldable pub note : List (Call K V) → List (K × (ℕ × V)) → List (K × (ℕ × V))
  note [] log = log
  note (lookup now key ∷ calls) log = note calls log
  note (store now key value ∷ calls) log = note calls ((key, (now, value)) ∷ log)
  note (purge ∷ calls) log = note calls []

  -- What the cache holds for a key is what was put last.
  pub record Tracks (c : HydeCache K V) (log : List (K × (ℕ × V))) : Type 0 where
    pub valid : IsValid dec c
    pub latest : (q : K) (e : ℕ × V) → get_item dec q c.store ≡ some e → get_item dec q log ≡ some e

  -- A `get` hides nothing that it does not drop, and changes no entry.
  get_item-get :
      (c : HydeCache K V) (now : ℕ) (key q : K) (e : ℕ × V)
      → IsValid dec c
      → get_item dec q (get dec c now key).0.store ≡ some e
      → get_item dec q c.store ≡ some e
  get_item-get c now key q e v h = elim (Option-cases (get_item dec key c.store)) [
    | inl miss ↦ rw (get_missing dec c now key miss) at h
    | inr ((s, x), hit) ↦ elim (Bool-cases (ltb c.ttl (now - s))) [
      | inl old ↦
          let h' = rw (get_old dec c now key s x hit old) at h in
          elim (dec q key) [
            | yes p ↦
                absurd
                  (none-ne-some (sym (get-delete_self dec key c.store v.distinct) ∙ rw p at h'))
            | no p ↦ sym (get-delete_ne dec key q c.store p) ∙ h'
          ]
      | inr young ↦
          sym (get-move_to_end dec key c.store q v.distinct)
          ∙ rw (get_young dec c now key s x hit young) at h
    ]
  ]

  get_item-put :
      (c : HydeCache K V) (now : ℕ) (key : K) (value : V) (q : K) (e : ℕ × V)
      → IsValid dec c
      → get_item dec q (put dec c now key value).store ≡ some e
      → get_item dec q ((key, (now, value)) ∷ c.store) ≡ some e
  unfolding get_item
  get_item-put c now key value q e v h =
      let rest = trim (c.max_entries - 1) (kept dec c key) in
      let fresh =
        get-trim_of_none dec (c.max_entries - 1) key (kept dec c key) (kept_fresh dec c key v) in
      let h' : get_item dec q (rest ++ (key, (now, value)) ∷ []) ≡ some e =
        rw (put_lem dec c now key value v) at h in
      elim (dec q key) [
        | yes p ↦
            rw (if_pos (dec key q) (sym p) _ _)
              (sym (get-snoc_self dec key (now, value) rest fresh) ∙ rw p at h')
        | no p ↦ rw (if_neg (dec key q) (λ r. p (sym r)) _ _) (
            sym (get-kept_ne dec c key q p)
            ∙ trim_keeps dec (c.max_entries - 1) q e (kept dec c key) (kept-IsDistinct dec c key v)
                (sym (get-snoc_ne dec key q (now, value) rest p) ∙ h'))
      ]

  Tracks-clear : {c : HydeCache K V} {log : List (K × (ℕ × V))} → Tracks c log → Tracks (clear c) []
  unfolding clear
  Tracks-clear t = record {
    valid = record { room = t.valid.room; distinct = tt; bounded = omega arith };
    latest = λ q e h. h;
  }

  pub Tracks-get :
      {c : HydeCache K V} {log : List (K × (ℕ × V))} (now : ℕ) (key : K)
      → Tracks c log
      → Tracks (get dec c now key).0 log
  Tracks-get {c} now key t = record {
    valid = get-IsValid dec c now key t.valid;
    latest = λ q e h. t.latest q e (get_item-get c now key q e t.valid h);
  }

  pub Tracks-put :
      {c : HydeCache K V} {log : List (K × (ℕ × V))} (now : ℕ) (key : K) (value : V)
      → Tracks c log
      → Tracks (put dec c now key value) ((key, (now, value)) ∷ log)
  unfolding get_item
  Tracks-put {c} {log} now key value t = record {
    valid = put-IsValid dec c now key value t.valid;
    latest = λ q e h.
        let found : get_item dec q ((key, (now, value)) ∷ c.store) ≡ some e =
          get_item-put c now key value q e t.valid h in
        ground (arith, t.latest q e);
  }

  pub run-Tracks :
      (calls : List (Call K V)) {c : HydeCache K V} {log : List (K × (ℕ × V))}
      → Tracks c log
      → Tracks (run calls c) (note calls log)
  unfolding run note
  run-Tracks [] t = t
  run-Tracks (lookup now key ∷ calls) t = run-Tracks calls (Tracks-get now key t)
  run-Tracks (store now key value ∷ calls) t = run-Tracks calls (Tracks-put now key value t)
  run-Tracks (purge ∷ calls) t = run-Tracks calls (Tracks-clear t)

  pub get-eq-some :
      (c : HydeCache K V) (now : ℕ) (key : K) (value : V)
      → (get dec c now key).1 ≡ some value
      → (s : ℕ) × (get_item dec key c.store ≡ some (s, value)) × (now - s ≤ c.ttl)
  unfolding get
  get-eq-some c now key value h = elim (Option-cases (get_item dec key c.store)) [
    | inl miss ↦ absurd (none-ne-some (rw (get_missing dec c now key miss) at h))
    | inr ((s, x), hit) ↦ elim (Bool-cases (ltb c.ttl (now - s))) [
      | inl old ↦ absurd (none-ne-some (rw (get_old dec c now key s x hit old) at h))
      | inr young ↦ (s, ground (arith, get_young dec c now key s x hit young), ground arith)
    ]
  ]

  ttl-run : (calls : List (Call K V)) (c : HydeCache K V) → (run calls c).ttl ≡ c.ttl
  unfolding run get put clear
  ttl-run [] c = refl
  ttl-run (lookup now key ∷ calls) c = ttl-run calls (get dec c now key).0 ∙ ground arith
  ttl-run (store now key value ∷ calls) c = ttl-run calls (put dec c now key value)
  ttl-run (purge ∷ calls) c = ttl-run calls (clear c)

  pub init-Tracks :
      (ttl max_entries : ℕ) (c : HydeCache K V)
      → init ttl max_entries ≡ some c
      → Tracks c [] × (c.ttl ≡ ttl)
  unfolding init
  init-Tracks ttl max_entries c e =
      let room : 0 < c.max_entries = ground arith in
      let start : c.store ≡ [] = ground arith in
      (
        record {
          valid = record { room = room; distinct = rw start tt; bounded = rw start (omega arith) };
          latest = λ q x h. rw start at h;
        },
        ground arith,
      )

  -- After any sequence of calls on a fresh cache, a value that get returns is the one that was put
  -- last under the key since the last clear, and it was put no longer ago than the bound on the
  -- age.
  pub run-get :
      (calls : List (Call K V)) (ttl max_entries : ℕ) (c : HydeCache K V) (now : ℕ) (key : K)
      (value : V)
      → init ttl max_entries ≡ some c
      → (get dec (run calls c) now key).1 ≡ some value
      → (s : ℕ) × (get_item dec key (note calls []) ≡ some (s, value)) × (now - s ≤ ttl)
  run-get calls ttl max_entries c now key value e h =
      let (tracks, same) = init-Tracks ttl max_entries c e in
      let now_tracks = run-Tracks calls tracks in
      let (s, found, young) = get-eq-some (run calls c) now key value h in
      (s, now_tracks.latest key (s, value) found, omega (arith, young, ttl-run calls c, same))

  -- In a valid cache, a value just put under a key is returned while it is no older than the bound
  -- on the age, and not after.
  pub get-put_self :
      (c : HydeCache K V) (s now : ℕ) (key : K) (value : V)
      → IsValid dec c
      → (get dec (put dec c s key value) now key).1
        ≡ (if ltb c.ttl (now - s) then none else some value)
  get-put_self c s now key value v =
      let rest = trim (c.max_entries - 1) (kept dec c key) in
      let fresh =
        get-trim_of_none dec (c.max_entries - 1) key (kept dec c key) (kept_fresh dec c key v) in
      let found : get_item dec key (put dec c s key value).store ≡ some (s, value) =
        rw (put_lem dec c s key value v) (get-snoc_self dec key (s, value) rest fresh) in
      let same : (put dec c s key value).ttl ≡ c.ttl = rw (put_lem dec c s key value v) in
      get_value dec (put dec c s key value) now key s value found
      ∙ ap (λ (t : ℕ). if ltb t (now - s) then none else some value) same
