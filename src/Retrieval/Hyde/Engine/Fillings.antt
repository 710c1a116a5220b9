-- ===== src/Retrieval/Hyde/Engine/Fillings.antt =====
-- What the cache of expansions holds after any calls: the engine of
-- src/cf_knowledge_kiln/retrieval/hyde/engine.py over its cache.
use cf_knowledge_kiln.Base.{
  ℕ, ◌-◌, ◌≤◌, Bool, true, false, Option, none, some, List, [], ◌∷◌, All, IsAmong, ◌≡◌, refl, sym,
  ◌∙◌, subst, ◌⊎◌, inl, inr, Bool-cases, some_inj, arith, if_pos, if_neg,
}
use cf_knowledge_kiln.Base.Host.{Host}
use cf_knowledge_kiln.Base.Texts.{Text, strip, is_empty}
use cf_knowledge_kiln.Base.OrderedDict.{get as get_item}
use cf_knowledge_kiln.Retrieval.Hyde.Cache.{HydeCache, get, put}
use cf_knowledge_kiln.Retrieval.Hyde.Cache.History.{Tracks, Tracks-get, Tracks-put}
use cf_knowledge_kiln.Retrieval.Hyde.Classifier.{should_hyde}
use cf_knowledge_kiln.Retrieval.Hyde.Engine.{
  Moment, Engine, render_prompt, key_of, kept, generated, looked_up, with_generator, expand,
  embedding_text_for_vector_arm, run,
}

module _ (H : Host) {K : Type 0} (dec : Discrete K) (e : Engine H K) where
  -- At this moment the generator answers the query with the text, up to white space around it.
  abbrev pub Answers : Moment × Text → Text → Type 0
  Answers (m, query) doc =
      (t : Text) × (m.generate (render_prompt query) e.max_tokens ≡ some t) × (strip t ≡ doc)

  -- One of the calls got the text for a query with this key, and stored it then.
  abbrev pub IsStored : List (Moment × Text) → K → ℕ → Text → Type 0
  IsStored calls key stored_at doc =
      (names : Text × Text) × (e.generator ≡ some names)
      × (call : Moment × Text) × IsAmong call calls
      × (key ≡ key_of H dec e names call.1)
      × Answers call doc
      × (stored_at ≡ call.0.stored_at)
      × (is_empty doc ≡ false)

  -- The text was generated now, or is young enough and was generated for the same key before.
  pub record IsExpansion (ttl : ℕ) (calls : List (Moment × Text)) (call : Moment × Text)
      (doc : Text) (cache_hit : Bool) : Type 0 where
    pub wanted : should_hyde H e.letters e.token_threshold e.jargon_density_threshold call.1 ≡ true
    pub not_blank : is_empty doc ≡ false
    pub origin :
        ((cache_hit ≡ false) × Answers call doc)
        ⊎ ((cache_hit ≡ true)
            × (names : Text × Text) × (e.generator ≡ some names)
            × (stored_at : ℕ) × IsStored calls (key_of H dec e names call.1) stored_at doc
            × (call.0.now - stored_at ≤ ttl))

  pub IsEntry : List (Moment × Text) → K × (ℕ × Text) → Type 0
  IsEntry calls (key, (stored_at, doc)) = IsStored calls key stored_at doc

  -- What the cache holds was stored by one of the calls.
  pub record IsFilled (ttl : ℕ) (calls : List (Moment × Text)) (cache : HydeCache K Text)
      : Type 0 where
    pub log : List (K × (ℕ × Text))
    pub tracks : Tracks dec cache log
    pub entries : All (IsEntry calls) log
    pub bound : cache.ttl ≡ ttl

  pub All-get :
      (calls : List (Moment × Text)) (key : K) (log : List (K × (ℕ × Text))) (v : ℕ × Text)
      → All (IsEntry calls) log
      → get_item dec key log ≡ some v
      → IsStored calls key v.0 v.1
  unfolding get_item IsEntry
  All-get calls key [] v h found = cc
  All-get calls key ((k, w) ∷ log) v h found = elim (dec k key) [
    | yes p ↦
        let same = some_inj (sym (if_pos (dec k key) p _ _) ∙ found) in
        subst (λ (u : ℕ × Text). IsStored calls key u.0 u.1) same
          (subst (λ (q : K). IsStored calls q w.0 w.1) p h.0)
    | no p ↦ All-get calls key log v h.1 (sym (if_neg (dec k key) p _ _) ∙ found)
  ]

  get-IsFilled :
      (ttl : ℕ) (calls : List (Moment × Text)) (cache : HydeCache K Text) (now : ℕ) (key : K)
      → IsFilled ttl calls cache
      → IsFilled ttl calls (get dec cache now key).0
  unfolding get
  get-IsFilled ttl calls cache now key f = record {
    log = f.log;
    tracks = Tracks-get dec now key f.tracks;
    entries = f.entries;
    bound = ground (arith, f.bound);
  }

  put-IsFilled :
      (ttl : ℕ) (calls : List (Moment × Text)) (cache : HydeCache K Text) (now : ℕ) (key : K)
      (doc : Text)
      → IsStored calls key now doc
      → IsFilled ttl calls cache
      → IsFilled ttl calls (put dec cache now key doc)
  unfolding IsEntry put
  put-IsFilled ttl calls cache now key doc stored f = record {
    log = (key, (now, doc)) ∷ f.log;
    tracks = Tracks-put dec now key doc f.tracks;
    entries = (stored, f.entries);
    bound = f.bound;
  }

  -- A call that stands on the list keeps the cache filled by the list.
  module _ (ttl : ℕ) (calls : List (Moment × Text)) (m : Moment) (query : Text)
      (among : IsAmong (m, query) calls) (names : Text × Text)
      (named : e.generator ≡ some names) where
    abbrev key : K
    key = key_of H dec e names query

    kept-IsFilled :
        (cache : HydeCache K Text) (t : Text)
        → m.generate (render_prompt query) e.max_tokens ≡ some t
        → IsFilled ttl calls cache
        → IsFilled ttl calls (kept H dec e m key cache (strip t)).1
    kept-IsFilled cache t answered f = elim (Bool-cases (is_empty (strip t))) [
      | inl b ↦ rw b f
      | inr b ↦ rw b (
          put-IsFilled ttl calls cache m.stored_at key (strip t)
            (names, named, (m, query), among, refl, (t, answered, refl), refl, b) f)
    ]

    generated-IsFilled :
        (cache : HydeCache K Text) (answer : Option Text)
        → m.generate (render_prompt query) e.max_tokens ≡ answer
        → IsFilled ttl calls cache
        → IsFilled ttl calls (generated H dec e m key cache answer).1
    generated-IsFilled cache none answered f = f
    generated-IsFilled cache (some t) answered f = kept-IsFilled cache t answered f

    looked_up-IsFilled :
        (cache : HydeCache K Text) (found : Option Text)
        → IsFilled ttl calls cache
        → IsFilled ttl calls (looked_up H dec e m query key (cache, found)).1
    looked_up-IsFilled cache (some hit) f = f
    looked_up-IsFilled cache none f = generated-IsFilled cache _ refl f

  with_generator-IsFilled :
      (ttl : ℕ) (calls : List (Moment × Text)) (m : Moment) (query : Text)
      (cache : HydeCache K Text) (generator : Option (Text × Text))
      → e.generator ≡ generator
      → IsAmong (m, query) calls
      → IsFilled ttl calls cache
      → IsFilled ttl calls (with_generator H dec e m query cache generator).1
  with_generator-IsFilled ttl calls m query cache none named among f = f
  with_generator-IsFilled ttl calls m query cache (some names) named among f =
      let (cache', found) = get dec cache m.now (key_of H dec e names query) in
      looked_up-IsFilled ttl calls m query among names named cache' found
        (get-IsFilled ttl calls cache m.now (key_of H dec e names query) f)

  expand-IsFilled :
      (ttl : ℕ) (calls : List (Moment × Text)) (m : Moment) (query : Text)
      (cache : HydeCache K Text)
      → IsAmong (m, query) calls
      → IsFilled ttl calls cache
      → IsFilled ttl calls (expand H dec e m query cache).1
  unfolding expand
  expand-IsFilled ttl calls m query cache among f =
      elim (Bool-cases
        (should_hyde H e.letters e.token_threshold e.jargon_density_threshold query)) [
          | inl w ↦ rw w (with_generator-IsFilled ttl calls m query cache e.generator refl among f)
          | inr w ↦ rw w f
        ]

  pub run-IsFilled :
      (ttl : ℕ) (whole calls : List (Moment × Text)) (cache : HydeCache K Text)
      → All (λ call. IsAmong call whole) calls
      → IsFilled ttl whole cache
      → IsFilled ttl whole (run H dec e calls cache)
  unfolding run embedding_text_for_vector_arm
  run-IsFilled ttl whole [] cache among f = f
  run-IsFilled ttl whole ((m, query) ∷ calls) cache among f =
      run-IsFilled ttl whole calls (expand H dec e m query cache).1 among.1
        (expand-IsFilled ttl whole m query cache among.0 f)
