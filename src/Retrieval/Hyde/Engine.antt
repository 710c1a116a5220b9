-- ===== src/Retrieval/Hyde/Engine.antt =====
-- The expansion of a query by a generated text: src/cf_knowledge_kiln/retrieval/hyde/engine.py, and
-- its use in retrieval/_engine_helpers.py. A call takes place at a moment, which gives the clock
-- and what the generator answers.
use cf_knowledge_kiln.Base.{
  ℕ, Bool, true, false, not, Option, none, some, List, [], ◌∷◌, if◌then◌else◌,
}
use cf_knowledge_kiln.Base.Host.{Host}
use cf_knowledge_kiln.Base.Texts.{Text, codes, strip, join, is_empty}
use cf_knowledge_kiln.Retrieval.Hyde.Cache.{HydeCache, get, put}
use cf_knowledge_kiln.Retrieval.Hyde.Classifier.{Letters, words, should_hyde}
pub mod Fillings
pub mod Origins

-- `render_prompt`: the template with the stripped query.
pub data Prompt : Type 0 where
  asking : Text → Prompt

abbrev pub render_prompt : Text → Prompt
render_prompt query = asking (strip query)

-- The clock at the lookup and at the store, the duration of the generator's call, and what it
-- answers for a prompt and a cap on its tokens; `none` is an exception.
pub record Moment : Type 0 where
  pub now : ℕ
  pub stored_at : ℕ
  pub elapsed : ℕ
  pub generate : Prompt → ℕ → Option Text

pub record HydeResult : Type 0 where
  pub pseudo_doc : Option Text
  pub cache_hit : Bool
  pub generation_ms : Option ℕ

-- The names of the generator's provider and model; the hash that makes a key is the platform's.
pub record Engine (H : Host) (K : Type 0) : Type 0 where
  pub letters : Letters
  pub generator : Option (Text × Text)
  pub cache_key : Text → Text → Text → K
  pub token_threshold : ℕ
  pub jargon_density_threshold : H.Num
  pub max_tokens : ℕ

-- The text, whether it replaces the query, whether the cache had it, and the duration.
pub record ArmText : Type 0 where
  pub text : Text
  pub used_hyde : Bool
  pub cache_hit : Bool
  pub generation_ms : Option ℕ

abbrev pub skipped : HydeResult
skipped = record { pseudo_doc = none; cache_hit = false; generation_ms = none }

-- `_normalize_for_cache`
unfoldable pub normalize_for_cache : Letters → Text → Text
unfolding words
normalize_for_cache l query = join (codes " ") (words (l.lower (strip query)))

module _ (H : Host) {K : Type 0} (dec : Discrete K) (e : Engine H K) where
  abbrev pub key_of : Text × Text → Text → K
  key_of (provider, model) query = e.cache_key provider model (normalize_for_cache e.letters query)

  -- What was generated, and the cache with it.
  abbrev pub kept : Moment → K → HydeCache K Text → Text → HydeResult × HydeCache K Text
  kept m key cache text = if is_empty text then (skipped, cache) else (
    record { pseudo_doc = some text; cache_hit = false; generation_ms = some m.elapsed },
    put dec cache m.stored_at key text,
  )

  abbrev pub generated : Moment → K → HydeCache K Text → Option Text → HydeResult × HydeCache K Text
  generated m key cache none = (skipped, cache)
  generated m key cache (some text) = kept m key cache (strip text)

  abbrev pub looked_up :
      Moment → Text → K → HydeCache K Text × Option Text → HydeResult × HydeCache K Text
  looked_up m query key (cache, some hit) =
      (record { pseudo_doc = some hit; cache_hit = true; generation_ms = none }, cache)
  looked_up m query key (cache, none) =
      generated m key cache (m.generate (render_prompt query) e.max_tokens)

  abbrev pub with_generator :
      Moment → Text → HydeCache K Text → Option (Text × Text) → HydeResult × HydeCache K Text
  with_generator m query cache none = (skipped, cache)
  with_generator m query cache (some names) =
      looked_up m query (key_of names query) (get dec cache m.now (key_of names query))

  -- `HydeEngine.expand`
  unfoldable pub expand : Moment → Text → HydeCache K Text → HydeResult × HydeCache K Text
  unfolding should_hyde normalize_for_cache get put
  expand m query cache =
      if not (should_hyde H e.letters e.token_threshold e.jargon_density_threshold query)
      then (skipped, cache)
      else with_generator m query cache e.generator

  abbrev pub chosen : Text → HydeResult → Option Text → ArmText
  chosen query r none = record {
    text = query;
    used_hyde = false;
    cache_hit = r.cache_hit;
    generation_ms = r.generation_ms;
  }
  chosen query r (some doc) =
      if is_empty doc
      then record {
        text = query;
        used_hyde = false;
        cache_hit = r.cache_hit;
        generation_ms = r.generation_ms;
      }
      else record {
        text = doc;
        used_hyde = true;
        cache_hit = r.cache_hit;
        generation_ms = r.generation_ms;
      }

  -- `embedding_text_for_vector_arm` of a retriever that has the engine
  unfoldable pub embedding_text_for_vector_arm :
      Moment → Text → HydeCache K Text → ArmText × HydeCache K Text
  unfolding expand
  embedding_text_for_vector_arm m query cache =
      let (r, cache') = expand m query cache in (chosen query r r.pseudo_doc, cache')

  -- The calls of a process, one after another.
  unfoldable pub run : List (Moment × Text) → HydeCache K Text → HydeCache K Text
  unfolding embedding_text_for_vector_arm
  run [] cache = cache
  run ((m, query) ∷ calls) cache = run calls (embedding_text_for_vector_arm m query cache).1
