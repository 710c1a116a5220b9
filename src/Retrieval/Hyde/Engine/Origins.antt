-- ===== src/Retrieval/Hyde/Engine/Origins.antt =====
-- Where the text comes from that the vector arm of src/cf_knowledge_kiln/retrieval/engine.py embeds.
use cf_knowledge_kiln.Base.{
  ℕ, true, false, Option, none, some, List, [], All-self, ◌≡◌, refl, subst, ◌⊎◌, inl, inr,
  Bool-cases, some_inj, none-ne-some, arith,
}
use cf_knowledge_kiln.Base.Host.{Host}
use cf_knowledge_kiln.Base.Texts.{Text, strip, is_empty}
use cf_knowledge_kiln.Retrieval.Hyde.Cache.{HydeCache, init, get}
use cf_knowledge_kiln.Retrieval.Hyde.Cache.History.{get-eq-some, init-Tracks}
use cf_knowledge_kiln.Retrieval.Hyde.Classifier.{should_hyde}
use cf_knowledge_kiln.Retrieval.Hyde.Engine.{
  Moment, HydeResult, Engine, ArmText, render_prompt, key_of, kept, generated, looked_up,
  with_generator, expand, chosen, embedding_text_for_vector_arm, run,
}
use cf_knowledge_kiln.Retrieval.Hyde.Engine.Fillings.{
  IsStored, IsExpansion, IsFilled, All-get, run-IsFilled,
}

module _ (H : Host) {K : Type 0} (dec : Discrete K) (e : Engine H K) where
  -- What a result with a text says of it.
  abbrev Explains : ℕ → List (Moment × Text) → Moment × Text → HydeResult → Type 0
  Explains ttl calls call r =
      (doc : Text) → r.pseudo_doc ≡ some doc → IsExpansion H dec e ttl calls call doc r.cache_hit

  module _ (ttl : ℕ) (calls : List (Moment × Text)) (m : Moment) (query : Text)
      (wanted : should_hyde H e.letters e.token_threshold e.jargon_density_threshold query
        ≡ true) where
    kept-Explains :
        (k : K) (cache : HydeCache K Text) (t : Text)
        → m.generate (render_prompt query) e.max_tokens ≡ some t
        → Explains ttl calls (m, query) (kept H dec e m k cache (strip t)).0
    kept-Explains k cache t answered = elim (Bool-cases (is_empty (strip t))) [
      | inl b ↦ rw b (λ doc h. absurd (none-ne-some h))
      | inr b ↦ rw b (λ doc h. record {
        wanted = wanted;
        not_blank = subst (λ (d : Text). is_empty d ≡ false) (some_inj h) b;
        origin = inl (refl, (t, answered, some_inj h));
      })
    ]

    generated-Explains :
        (k : K) (cache : HydeCache K Text) (answer : Option Text)
        → m.generate (render_prompt query) e.max_tokens ≡ answer
        → Explains ttl calls (m, query) (generated H dec e m k cache answer).0
    generated-Explains k cache none answered = λ doc h. absurd (none-ne-some h)
    generated-Explains k cache (some t) answered = kept-Explains k cache t answered

    looked_up-Explains :
        (names : Text × Text) (cache cache' : HydeCache K Text) (found : Option Text)
        → e.generator ≡ some names
        → IsFilled H dec e ttl calls cache
        → (get dec cache m.now (key_of H dec e names query)).1 ≡ found
        → Explains ttl calls
            (m, query)
            (looked_up H dec e m query (key_of H dec e names query) (cache', found)).0
    looked_up-Explains names cache cache' none named f got = generated-Explains _ cache' _ refl
    looked_up-Explains names cache cache' (some hit) named f got =
        let key = key_of H dec e names query in
        let (s, found, young) = get-eq-some dec cache m.now key hit got in
        let stored =
          All-get H dec e calls key f.log (s, hit) f.entries (f.tracks.latest key (s, hit) found) in
        λ doc h. record {
          wanted = wanted;
          not_blank = subst (λ (d : Text). is_empty d ≡ false) (some_inj h) stored.7;
          origin = inr (
            refl,
            names,
            named,
            s,
            subst (IsStored H dec e calls key s) (some_inj h) stored,
            omega (arith, young, f.bound),
          );
        }

  with_generator-Explains :
      (ttl : ℕ) (calls : List (Moment × Text)) (m : Moment) (query : Text)
      (cache : HydeCache K Text) (generator : Option (Text × Text))
      → e.generator ≡ generator
      → should_hyde H e.letters e.token_threshold e.jargon_density_threshold query ≡ true
      → IsFilled H dec e ttl calls cache
      → Explains ttl calls (m, query) (with_generator H dec e m query cache generator).0
  with_generator-Explains ttl calls m query cache none named w f = λ doc h. absurd (none-ne-some h)
  with_generator-Explains ttl calls m query cache (some names) named w f =
      let (cache', found) = get dec cache m.now (key_of H dec e names query) in
      looked_up-Explains ttl calls m query w names cache cache' found named f refl

  expand-Explains :
      (ttl : ℕ) (calls : List (Moment × Text)) (m : Moment) (query : Text)
      (cache : HydeCache K Text)
      → IsFilled H dec e ttl calls cache
      → Explains ttl calls (m, query) (expand H dec e m query cache).0
  unfolding expand
  expand-Explains ttl calls m query cache f =
      elim (Bool-cases
        (should_hyde H e.letters e.token_threshold e.jargon_density_threshold query)) [
          | inl w ↦ rw w (with_generator-Explains ttl calls m query cache e.generator refl w f)
          | inr w ↦ rw w (λ doc h. absurd (none-ne-some h))
        ]

  -- The query itself, or an expansion of it.
  abbrev pub IsArmText : ℕ → List (Moment × Text) → Moment × Text → ArmText → Type 0
  IsArmText ttl calls call r =
      ((r.text ≡ call.1) × (r.used_hyde ≡ false))
      ⊎ ((r.used_hyde ≡ true) × IsExpansion H dec e ttl calls call r.text r.cache_hit)

  chosen-IsArmText :
      (ttl : ℕ) (calls : List (Moment × Text)) (call : Moment × Text) (r : HydeResult)
      (doc : Option Text)
      → r.pseudo_doc ≡ doc
      → Explains ttl calls call r
      → IsArmText ttl calls call (chosen H dec e call.1 r doc)
  chosen-IsArmText ttl calls call r none h explains = inl (refl, refl)
  chosen-IsArmText ttl calls call r (some doc) h explains = elim (Bool-cases (is_empty doc)) [
    | inl b ↦ rw b (inl (refl, refl))
    | inr b ↦ rw b (inr (refl, explains doc h))
  ]

-- After any calls on a fresh cache, the text for the vector arm is the query, or a text that is
-- not blank, for a query that passes the classifier, and which the generator gave at this call, or
-- gave at one of those calls for a query with the same key and not longer ago than the bound on
-- the age.
pub embedding_text_for_vector_arm-IsArmText :
    (H : Host) {K : Type 0} (dec : Discrete K) (e : Engine H K) (ttl max_entries : ℕ)
    (fresh : HydeCache K Text) (calls : List (Moment × Text)) (m : Moment) (query : Text)
    → init ttl max_entries ≡ some fresh
    → IsArmText H dec e ttl calls
        (m, query)
        (embedding_text_for_vector_arm H dec e m query (run H dec e calls fresh)).0
unfolding embedding_text_for_vector_arm
embedding_text_for_vector_arm-IsArmText H dec e ttl max_entries fresh calls m query started =
    let (tracks, bound) = init-Tracks dec ttl max_entries fresh started in
    let start : IsFilled H dec e ttl calls fresh = record {
      log = [];
      tracks = tracks;
      entries = tt;
      bound = bound;
    } in
    let cache = run H dec e calls fresh in
    let r = (expand H dec e m query cache).0 in
    chosen-IsArmText H dec e ttl calls (m, query) r r.pseudo_doc refl
      (expand-Explains H dec e ttl calls m query cache
        (run-IsFilled H dec e ttl calls calls fresh (All-self calls) start))
