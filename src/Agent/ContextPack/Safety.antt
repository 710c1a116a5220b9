-- ===== src/Agent/ContextPack/Safety.antt =====
-- What the packs of src/cf_knowledge_kiln/agent/serializers.py contain and when they are answerable.
use cf_knowledge_kiln.Base.{
  ◌||◌, or_false, ℕ, suc, Bool, true, false, not, any, Bool-cases, inl, inr, Option, none, some,
  List, [], ◌∷◌, map, ◌≡◌, refl, sym, ◌∙◌, ap, if◌then◌else◌, length, All, All-take, All-keep,
  subst, ℕ_discrete, arith,
}
use cf_knowledge_kiln.Base.Host.{Host}
use cf_knowledge_kiln.Base.OrderedDict.{get}
use cf_knowledge_kiln.Retrieval.Ranking.Chunk.{RankedChunk}
use cf_knowledge_kiln.Retrieval.Types.{Warning}
use cf_knowledge_kiln.Agent.ContextPack.Shapes.{
  SerializerInputs, EvidenceChunk, ContextPackResponse, DocumentRef,
}
use cf_knowledge_kiln.Agent.ContextPack.Trim.{trim_evidence_to_budget}
use cf_knowledge_kiln.Agent.ContextPack.Budget.{IsBudgeted, trim_evidence_to_budget_lem}
use cf_knowledge_kiln.Agent.ContextPack.Evidence.{
  Before, text_or_empty, evidence_of, is_refused, to_evidence_chunk, mark_chunk,
  embed_inline_warning_markers,
}
use cf_knowledge_kiln.Agent.ContextPack.Assembly.{
  Surroundings, safe_chunks, cannot_show, build_pack, assemble_context_pack, notice,
}
use Prim.Native.String.{String}

module _ (H : Host) where
  open H use {Num, lt, lit}

  length-map : {A B : Type 0} (f : A → B) (xs : List A) → length (map f xs) ≡ length xs
  length-map f [] = refl
  length-map f (x ∷ xs) = ap suc (length-map f xs)

  -- The texts that the tokens are counted in.
  abbrev pub safe_contents : SerializerInputs H → List String
  safe_contents inputs =
      map (λ (c : RankedChunk H). text_or_empty H (get ℕ_discrete c.chunk_id inputs.chunk_text))
        (safe_chunks H inputs)

  abbrev pub without_markers : EvidenceChunk H → EvidenceChunk H
  without_markers e = record e { markers = [] }

  without-embed :
      (le : Before H) (warnings : List (Warning H)) (evidence : List (EvidenceChunk H))
      → map without_markers (embed_inline_warning_markers H le warnings evidence)
        ≡ map without_markers evidence
  unfolding embed_inline_warning_markers mark_chunk
  without-embed le warnings [] = refl
  without-embed le warnings (e ∷ evidence) =
      ap (◌∷◌ (without_markers e)) (without-embed le warnings evidence)

  without-evidence_of :
      (any_url : String → Option String) (texts : List (ℕ × String)) (refs : List (ℕ × DocumentRef))
      (kept : List (RankedChunk H))
      → map without_markers (map (evidence_of H any_url texts refs) kept)
        ≡ map (evidence_of H any_url texts refs) kept
  unfolding evidence_of
  without-evidence_of any_url texts refs [] = refl
  without-evidence_of any_url texts refs (c ∷ kept) =
      ap (◌∷◌ (evidence_of H any_url texts refs c)) (without-evidence_of any_url texts refs kept)

  hidden_of :
      (b : Bool) (e : EvidenceChunk H)
      → (elim (if b then none else some e) as (λ o. Bool) [ none ↦ true | some _ ↦ false ]) ≡ b
  hidden_of true e = refl
  hidden_of false e = refl

  cannot_show-is_refused :
      (s : Surroundings H) (inputs : SerializerInputs H) (kept : List (RankedChunk H))
      → any (is_refused H s.any_url inputs.document_refs) kept ≡ any (cannot_show H s inputs) kept
  unfolding to_evidence_chunk
  cannot_show-is_refused s inputs [] = refl
  cannot_show-is_refused s inputs (c ∷ kept) =
      let rest = cannot_show-is_refused s inputs kept in
      let here =
        hidden_of (is_refused H s.any_url inputs.document_refs c)
          (evidence_of H s.any_url inputs.chunk_text inputs.document_refs c) in
      ap (λ b. b || any (is_refused H s.any_url inputs.document_refs) kept) (sym here)
      ∙ ap (λ b. cannot_show H s inputs c || b) rest

  shown_evidence :
      (s : Surroundings H) (inputs : SerializerInputs H) (kept : List (RankedChunk H))
      → any (is_refused H s.any_url inputs.document_refs) kept ≡ false
      → map some (map (evidence_of H s.any_url inputs.chunk_text inputs.document_refs) kept)
        ≡ map (to_evidence_chunk H s.any_url inputs.chunk_text inputs.document_refs) kept
  unfolding to_evidence_chunk
  shown_evidence s inputs [] h = refl
  shown_evidence s inputs (c ∷ kept) h =
      let (shown, rest) = or_false (is_refused H s.any_url inputs.document_refs c) _ h in
      rw shown (
        ap (◌∷◌ (some (evidence_of H s.any_url inputs.chunk_text inputs.document_refs c)))
          (shown_evidence s inputs kept rest))

  -- A pack is built from the chunks that were kept, and its estimate is of all of it.
  pub record IsPackOf (s : Surroundings H) (inputs : SerializerInputs H) (max_chunks max_tokens : ℕ)
      (threshold : Option Num) (embed : Bool) (kept : List (RankedChunk H))
      (pack : ContextPackResponse H) : Type 0 where
    pub used : ℕ
    pub within :
        IsBudgeted H s.count_tokens max_chunks max_tokens
          (safe_chunks H inputs)
          (safe_contents inputs)
          kept
          used
    pub clean : All (λ c. c.has_sensitive_content ≡ false) kept
    pub evidence :
        map some (map without_markers pack.evidence)
        ≡ map (to_evidence_chunk H s.any_url inputs.chunk_text inputs.document_refs) kept
    pub estimate :
        pack.token_budget.used_estimate
        ≡ s.count_tokens
            (s.model_dump_json (build_pack H s inputs max_tokens threshold embed kept used))
    pub warned : pack.warnings ≡ inputs.warnings
    pub noticed : pack.untrusted_content_notice ≡ notice

  abbrev IsUnsensitive : RankedChunk H → Type 0
  IsUnsensitive c = c.has_sensitive_content ≡ false

  abbrev recounted : Surroundings H → ℕ → ContextPackResponse H → ContextPackResponse H
  recounted s max_tokens pack = record pack {
    token_budget = record {
      requested = max_tokens;
      used_estimate = s.count_tokens (s.model_dump_json pack);
    };
  }

  module _ (s : Surroundings H) (inputs : SerializerInputs H) (max_chunks max_tokens : ℕ)
      (threshold : Option Num) (embed : Bool) where
    assemble-trim :
        (kept : List (RankedChunk H)) (used : ℕ)
        → trim_evidence_to_budget H s.count_tokens
            (safe_chunks H inputs)
            (safe_contents inputs)
            max_chunks
            max_tokens
          ≡ some (kept, used)
        → any (cannot_show H s inputs) kept ≡ false
        → assemble_context_pack H s inputs max_chunks max_tokens threshold embed
          ≡ some
              (recounted s max_tokens (build_pack H s inputs max_tokens threshold embed kept used))
    unfolding assemble_context_pack
    assemble-trim kept used h shown = rw (h, assemble_context_pack, shown) refl

    assemble-refused :
        (kept : List (RankedChunk H)) (used : ℕ)
        → trim_evidence_to_budget H s.count_tokens
            (safe_chunks H inputs)
            (safe_contents inputs)
            max_chunks
            max_tokens
          ≡ some (kept, used)
        → any (cannot_show H s inputs) kept ≡ true
        → assemble_context_pack H s inputs max_chunks max_tokens threshold embed ≡ none
    unfolding assemble_context_pack
    assemble-refused kept used h refused = rw (h, assemble_context_pack, refused) refl

    evidence-build_pack :
        (kept : List (RankedChunk H)) (used : ℕ)
        → map without_markers (build_pack H s inputs max_tokens threshold embed kept used).evidence
          ≡ map (evidence_of H s.any_url inputs.chunk_text inputs.document_refs) kept
    unfolding build_pack
    evidence-build_pack kept used =
        let evidence = map (evidence_of H s.any_url inputs.chunk_text inputs.document_refs) kept in
        let same = without-evidence_of s.any_url inputs.chunk_text inputs.document_refs kept in
        elim embed
          as (λ (b : Bool).
            map without_markers (
              if b
              then embed_inline_warning_markers H s.before inputs.warnings evidence
              else evidence)
            ≡ evidence) [
              | true ↦ without-embed s.before inputs.warnings evidence ∙ same
              | false ↦ same
            ]

    from_trim :
        (kept : List (RankedChunk H)) (used : ℕ)
        → IsBudgeted H s.count_tokens max_chunks max_tokens
            (safe_chunks H inputs)
            (safe_contents inputs)
            kept
            used
        → any (cannot_show H s inputs) kept ≡ false
        → IsPackOf s inputs max_chunks max_tokens threshold embed kept
            (recounted s max_tokens (build_pack H s inputs max_tokens threshold embed kept used))
    unfolding build_pack
    from_trim kept used within shown = record {
      used = used;
      within = within;
      clean = subst (All IsUnsensitive) (sym within.prefix) (
          All-take IsUnsensitive (length kept) (safe_chunks H inputs) (
            All-keep IsUnsensitive (λ c. not c.has_sensitive_content) inputs.chunks
              (λ c h. ground arith)));
      evidence =
          ap (map some) (evidence-build_pack kept used)
          ∙ shown_evidence s inputs kept (cannot_show-is_refused s inputs kept ∙ shown);
      estimate = refl;
      warned = refl;
      noticed = refl;
    }

  -- What comes of the assembly: nothing, if a chunk within the budgets has no evidence, or a pack.
  pub data IsAssembled (s : Surroundings H) (inputs : SerializerInputs H)
      (max_chunks max_tokens : ℕ) (threshold : Option Num) (embed : Bool)
      : Option (ContextPackResponse H) → Type 0 where
    refused :
        {kept : List (RankedChunk H)} {used : ℕ}
        → IsBudgeted H s.count_tokens max_chunks max_tokens
            (safe_chunks H inputs)
            (safe_contents inputs)
            kept
            used
        → any (is_refused H s.any_url inputs.document_refs) kept ≡ true
        → IsAssembled s inputs max_chunks max_tokens threshold embed none
    packed :
        {kept : List (RankedChunk H)} {pack : ContextPackResponse H}
        → any (is_refused H s.any_url inputs.document_refs) kept ≡ false
        → IsPackOf s inputs max_chunks max_tokens threshold embed kept pack
        → IsAssembled s inputs max_chunks max_tokens threshold embed (some pack)

  -- The evidence is cut to the longest prefix of the chunks without sensitive content that is
  -- within the two budgets, but that a first chunk may exceed the tokens by itself; the assembly
  -- gives nothing where the URL parser refuses the URL of one of these chunks' documents, and
  -- otherwise a pack with these chunks as its evidence, the notice and every warning, whose
  -- estimate counts the tokens of the whole pack.
  pub assemble_context_pack_lem :
      (s : Surroundings H) (inputs : SerializerInputs H) (max_chunks max_tokens : ℕ)
      (threshold : Option Num) (embed : Bool)
      → IsAssembled s inputs max_chunks max_tokens threshold embed
          (assemble_context_pack H s inputs max_chunks max_tokens threshold embed)
  assemble_context_pack_lem s inputs max_chunks max_tokens threshold embed =
      let text_of =
        λ (c : RankedChunk H). text_or_empty H (get ℕ_discrete c.chunk_id inputs.chunk_text) in
      let budgeted = trim_evidence_to_budget_lem H s.count_tokens max_chunks max_tokens in
      let ((kept, used), trimmed, within) =
        (budgeted (safe_chunks H inputs) (safe_contents inputs)).0
          (length-map text_of (safe_chunks H inputs)) in
      let same = cannot_show-is_refused s inputs kept in
      elim (Bool-cases (any (cannot_show H s inputs) kept)) [
        | inl e ↦
            subst (IsAssembled s inputs max_chunks max_tokens threshold embed)
              (sym (
                assemble-refused s inputs max_chunks max_tokens threshold embed kept used trimmed
                  e))
              (refused within (same ∙ e))
        | inr e ↦
            subst (IsAssembled s inputs max_chunks max_tokens threshold embed)
              (sym
                (assemble-trim s inputs max_chunks max_tokens threshold embed kept used trimmed e))
              (packed (same ∙ e)
                (from_trim s inputs max_chunks max_tokens threshold embed kept used within e))
      ]
