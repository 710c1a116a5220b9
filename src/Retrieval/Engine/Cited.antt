-- ===== src/Retrieval/Engine/Cited.antt =====
-- What the engine hands to the serializer, and what an answer over it rests on:
-- src/cf_knowledge_kiln/retrieval/context_pack.py with agent/serializers.py and agent/answer.py.
use cf_knowledge_kiln.Base.{
  ℕ, ℕ_discrete, ◌==◌, Bool, true, false, ◌||◌, none, some, List, [], ◌∷◌, map, any, All, All-take,
  All-weaken, if_pos, if_neg, ◌≡◌, ◌≢◌, refl, sym, ap, ◌∙◌, inl, inr, Bool-cases, Option-cases,
  arith, none-ne-some,
}
use cf_knowledge_kiln.Base.Host.{Host, IsOrdered}
use cf_knowledge_kiln.Base.OrderedDict.{get}
use cf_knowledge_kiln.Base.Texts.{Text, strip, is_empty}
use cf_knowledge_kiln.Retrieval.Ranking.Boosts.{apply_boosts, apply_boost_to_chunk}
use cf_knowledge_kiln.Retrieval.Ranking.Chunk.{RankedChunk}
use cf_knowledge_kiln.Retrieval.Types.{Warning}
use cf_knowledge_kiln.Agent.ContextPack.Shapes.{SerializerInputs, ContextPackResponse}
use cf_knowledge_kiln.Agent.ContextPack.Assembly.{Surroundings, is_uncited}
use cf_knowledge_kiln.Agent.Answer.{Generator, AnswerRequest, AnswerResponse, synthesize_answer}
use cf_knowledge_kiln.Agent.Answer.Grounds.{IsGrounded, answered-IsGrounded}
use cf_knowledge_kiln.Agent.Answer.Refusals.{refused, given, synthesize_answer-IsSound}
use cf_knowledge_kiln.Retrieval.Engine.Answering.{
  default_retrieval_token_budget, task_of, with_pack, answer_request,
}
use cf_knowledge_kiln.Retrieval.Engine.{
  gives, >>=-eq-gives, or_err, or_err-eq-gives, refuse_if, empty_query, empty_task, fetch_failed,
  assembly_failed, generator_failed, SearchRow, Retriever, refs_from, is_one_of, sort_scored, rank,
  row_to_ranked_chunk, effective_query, warnings_for,
}
use cf_knowledge_kiln.Retrieval.Engine.Order.{All-insert_scored}
use cf_knowledge_kiln.Retrieval.Engine.Pack.{
  inputs_for, with_warnings, with_found, build_context_pack,
}
use Prim.Native.String.{String}

eq_of_test : (a b : ℕ) → (a == b) ≡ true → a ≡ b
eq_of_test a b h = ground arith

ne_of_test : (a b : ℕ) → (a == b) ≡ false → a ≢ b
ne_of_test a b h e = ground arith

rest_there : (a b : Bool) → a ≡ false → (a || b) ≡ true → b ≡ true
rest_there a b h k = ground arith

module _ (H : Host) where
  -- Every row's document has its reference, or was seen before.
  get-refs_from :
      (seen : List ℕ) (rows : List (SearchRow H)) (id : ℕ)
      → is_one_of H id seen ≡ false
      → any (λ (r : SearchRow H). r.document_id == id) rows ≡ true
      → get ℕ_discrete id (refs_from H seen rows) ≢ none
  unfolding refs_from get
  get-refs_from seen [] id fresh there e = cc
  get-refs_from seen (row ∷ rows) id fresh there e = elim (Bool-cases (row.document_id == id)) [
    | inl p ↦
        let same_id : row.document_id ≡ id = eq_of_test row.document_id id p in
        let unseen = ap (λ (i : ℕ). is_one_of H i seen) same_id ∙ fresh in
        none-ne-some (sym (rw (unseen, get, if_pos (ℕ_discrete row.document_id id) same_id) at e))
    | inr p ↦ elim (Bool-cases (is_one_of H row.document_id seen)) [
      | inl q ↦ get-refs_from seen rows id fresh (rest_there _ _ p there) (rw (q, refs_from) at e)
      | inr q ↦
          get-refs_from (row.document_id ∷ seen) rows id (rw p fresh) (rest_there _ _ p there)
            (rw (q, refs_from, get, if_neg (ℕ_discrete row.document_id id) (ne_of_test _ _ p)) at e)
    ]
  ]

  All-sort_scored :
      (P : RankedChunk H → Type 0) (cs : List (RankedChunk H)) → All P cs → All P (sort_scored H cs)
  unfolding sort_scored
  All-sort_scored P [] h = tt
  All-sort_scored P (c ∷ cs) h = All-insert_scored H P c _ h.0 (All-sort_scored P cs h.1)

  any_self :
      (rows : List (SearchRow H))
      → All
          (λ (x : SearchRow H).
            any (λ (r : SearchRow H). r.document_id == x.document_id) rows ≡ true)
          rows
  any_self [] = tt
  any_self (row ∷ rows) =
      (ground arith, All-weaken _ _ rows (λ x h. ground (arith, h)) (any_self rows))

  map-All :
      {A B : Type 0} (P : B → Type 0) (f : A → B) (xs : List A)
      → All (λ x. P (f x)) xs
      → All P (map f xs)
  map-All P f [] h = tt
  map-All P f (x ∷ xs) h = (h.0, map-All P f xs h.1)

  module _ (r : Retriever H) (rows : List (SearchRow H)) (warnings : List (Warning H))
      (removed : List String) (limit : ℕ) where
    abbrev given_inputs : SerializerInputs H
    given_inputs = inputs_for H r rows (rank H r rows limit) warnings removed

    row_cited :
        (id : ℕ)
        → get ℕ_discrete id (refs_from H [] rows) ≢ none
        → (c : RankedChunk H) → c.document_id ≡ id
        → is_uncited H given_inputs c ≡ false
    unfolding inputs_for
    row_cited id there c e =
        elim (Option-cases (get ℕ_discrete c.document_id (refs_from H [] rows))) [
          | inl n ↦ absurd (there (ap (λ i. get ℕ_discrete i (refs_from H [] rows)) (sym e) ∙ n))
          | inr (found, f) ↦ rw (f, is_uncited) refl
        ]

    -- Every chunk that goes to the serializer has a document to cite.
    rank_cited : All (λ c. is_uncited H given_inputs c ≡ false) (rank H r rows limit)
    unfolding rank apply_boosts apply_boost_to_chunk
    rank_cited = All-take _ limit _ (
        All-sort_scored _ _ (
          map-All _ _ (map (row_to_ranked_chunk H) rows) (
            map-All _ _ rows (
              All-weaken _ _ rows
                (λ row h.
                  row_cited row.document_id (get-refs_from [] rows row.document_id refl h)
                    (apply_boost_to_chunk H r.config r.today (row_to_ranked_chunk H row)) refl)
                (any_self rows)))))

-- What an answer with text rests on.
pub record IsSupported (H : Host) (r : Retriever H) (s : Surroundings H) (request : AnswerRequest H)
    (response : AnswerResponse H) : Type 0 where
  pub effective : Text
  pub removed : List String
  pub searched : effective_query H r request.query ≡ gives (effective, removed)
  pub rows : List (SearchRow H)
  pub found : r.fetch effective ≡ some rows
  pub warnings : List (Warning H)
  pub warned : warnings_for H r (rank H r rows request.max_chunks) ≡ gives warnings
  pub cited :
      All
        (λ c.
          is_uncited H (inputs_for H r rows (rank H r rows request.max_chunks) warnings removed) c
          ≡ false)
        (rank H r rows request.max_chunks)
  pub pack : ContextPackResponse H
  pub grounded :
      IsGrounded H s
        (inputs_for H r rows (rank H r rows request.max_chunks) warnings removed)
        request.max_chunks
        default_retrieval_token_budget
        (some r.config.weak_evidence_score_threshold)
        false
        pack
  pub shown : response.evidence ≡ pack.evidence

-- An answer with text shows the evidence of its pack.
shows_evidence :
    (H : Host) (generator : Generator H) (request : AnswerRequest H) (pack : ContextPackResponse H)
    (response : AnswerResponse H)
    → synthesize_answer H generator request pack ≡ some response
    → response.answer ≢ none
    → response.evidence ≡ pack.evidence
shows_evidence H generator request pack response a n =
    elim (synthesize_answer-IsSound H generator request pack response a) [
      | refused no_answer ↦ absurd (n no_answer.no_text)
      | given answer ↦ answer.its_evidence
    ]

-- Under an ordered host, a request that gets an answer with text was searched for as its query or
-- that less the injection markers; the warnings of the best of the rows that this fetched were
-- computed, each of these chunks has its document's reference, and the evidence that the answer
-- shows was made of what the trimming kept of them, which is clear of every review condition, and
-- none of them has sensitive content.
pub answer_request-IsSupported :
    (H : Host) (r : Retriever H) (s : Surroundings H) (generator : Generator H)
    (request : AnswerRequest H) (response : AnswerResponse H)
    → IsOrdered H
    → answer_request H r s generator request ≡ gives response
    → response.answer ≢ none
    → IsSupported H r s request response
unfolding answer_request build_context_pack
answer_request-IsSupported H r s generator request response ordered whole n =
    let limit = request.max_chunks in
    let budget = default_retrieval_token_budget in
    let task = task_of request.task in
    let (pack, h, answering) =
      >>=-eq-gives (build_context_pack H r s task request.query limit budget false)
        (with_pack H generator request) whole in
    let a =
      or_err-eq-gives (synthesize_answer H generator request pack) generator_failed answering in
    let (_, _, h₁) = >>=-eq-gives (refuse_if (is_empty (strip request.query)) empty_query) _ h in
    let (_, _, h₂) = >>=-eq-gives (refuse_if (is_empty (strip task)) empty_task) _ h₁ in
    let (prepared, searched, h₃) = >>=-eq-gives (effective_query H r request.query) _ h₂ in
    let (rows, fetched, h₄) =
      >>=-eq-gives (or_err (r.fetch prepared.0) fetch_failed)
        (with_found H r s limit budget false prepared.1) h₃ in
    let (warnings, warned, h₅) =
      >>=-eq-gives (warnings_for H r (rank H r rows limit))
        (with_warnings H r s limit budget false prepared.1 rows) h₄ in
    record {
      effective = prepared.0;
      removed = prepared.1;
      searched = searched;
      rows = rows;
      found = or_err-eq-gives (r.fetch prepared.0) fetch_failed fetched;
      warnings = warnings;
      warned = warned;
      cited = rank_cited H r rows warnings prepared.1 limit;
      pack = pack;
      grounded =
          answered-IsGrounded H s _ limit budget _ false pack generator request response ordered
            (or_err-eq-gives _ assembly_failed h₅) a n;
      shown = shows_evidence H generator request pack response a n;
    }
