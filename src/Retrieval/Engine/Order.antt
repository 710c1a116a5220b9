-- ===== src/Retrieval/Engine/Order.antt =====
-- The order and the number of the results, src/cf_knowledge_kiln/retrieval/engine.py.
use cf_knowledge_kiln.Base.{
  ℕ, ◌≤◌, ◌+◌, drop, take-append-drop, Bool, true, false, some, List, [], ◌∷◌, ◌++◌, map, length,
  All, All-weaken, count, if◌then◌else◌, ◌≡◌, refl, sym, ap, subst, ◌∙◌, inl, inr, Bool-cases,
  arith, length-take-le,
}
use cf_knowledge_kiln.Base.Host.{Host, IsOrdered}
use cf_knowledge_kiln.Base.Texts.{Text}
use cf_knowledge_kiln.Retrieval.Ranking.Boosts.{apply_boosts}
use cf_knowledge_kiln.Retrieval.Ranking.Chunk.{RankedChunk}
use Prim.Native.String.{String}
use cf_knowledge_kiln.Retrieval.Engine.{
  gives, or_err, SearchRow, SearchResult, Retriever, insert_scored, sort_scored, rank,
  row_to_ranked_chunk, search, effective_query, warnings_for, with_rows, result_of, >>=-eq-gives,
  gives_inj, or_err-eq-gives, fetch_failed,
}

module _ (H : Host) where
  open H use {Num, lt}

  -- No chunk scores less than one behind it.
  abbrev pub IsRanked : List (RankedChunk H) → Type 0
  IsRanked [] = Unit
  IsRanked (c ∷ cs) = All (λ d. lt c.score d.score ≡ false) cs × IsRanked cs

  pub All-insert_scored :
      (P : RankedChunk H → Type 0) (c : RankedChunk H) (ds : List (RankedChunk H))
      → P c
      → All P ds
      → All P (insert_scored H c ds)
  unfolding insert_scored
  All-insert_scored P c [] p h = (p, tt)
  All-insert_scored P c (d ∷ ds) p h = elim (Bool-cases (lt c.score d.score)) [
    | inl e ↦ rw e (h.0, All-insert_scored P c ds p h.1)
    | inr e ↦ rw e (p, h)
  ]

  insert_scored-IsRanked :
      (c : RankedChunk H) (ds : List (RankedChunk H))
      → IsOrdered H
      → IsRanked ds
      → IsRanked (insert_scored H c ds)
  unfolding insert_scored
  insert_scored-IsRanked c [] o h = (tt, tt)
  insert_scored-IsRanked c (d ∷ ds) o h = elim (Bool-cases (lt c.score d.score)) [
    | inl e ↦ rw e (
      All-insert_scored (λ x. lt d.score x.score ≡ false) c ds (above o c d e) h.0,
      insert_scored-IsRanked c ds o h.1,
    )
    | inr e ↦
        rw e ((e, All-weaken _ _ ds (λ x below. o.ge_trans c.score d.score x.score e below) h.0), h)
  ]
    where
      above :
          IsOrdered H
          → (c d : RankedChunk H) → lt c.score d.score ≡ true
          → lt d.score c.score ≡ false
      above o c d e = ground (arith, o.irrefl c.score, o.lt_trans c.score d.score c.score)

  sort_scored-IsRanked : (cs : List (RankedChunk H)) → IsOrdered H → IsRanked (sort_scored H cs)
  unfolding sort_scored
  sort_scored-IsRanked [] o = tt
  sort_scored-IsRanked (c ∷ cs) o = insert_scored-IsRanked c _ o (sort_scored-IsRanked cs o)

  -- Chunks that a test picks are there as often as before.
  count-insert_scored :
      (p : RankedChunk H → Bool) (c : RankedChunk H) (ds : List (RankedChunk H))
      → count p (insert_scored H c ds) ≡ count p (c ∷ ds)
  unfolding insert_scored
  count-insert_scored p c [] = refl
  count-insert_scored p c (d ∷ ds) = ground (arith, count-insert_scored p c ds)

  count-sort_scored :
      (p : RankedChunk H → Bool) (cs : List (RankedChunk H))
      → count p (sort_scored H cs) ≡ count p cs
  unfolding sort_scored
  count-sort_scored p [] = refl
  count-sort_scored p (c ∷ cs) =
      count-insert_scored p c (sort_scored H cs)
      ∙ ap (λ (n : ℕ). (if p c then 1 else 0) + n) (count-sort_scored p cs)

  -- The results are the best of the boosted rows: they and the rest are the rows in falling order.
  pub record IsTop (r : Retriever H) (query : Text) (limit : ℕ) (result : SearchResult H)
      : Type 0 where
    pub effective : Text
    pub removed : List String
    pub searched : effective_query H r query ≡ gives (effective, removed)
    pub rows : List (SearchRow H)
    pub found : r.fetch effective ≡ some rows
    pub rest : List (RankedChunk H)
    pub short : length result.chunks ≤ limit
    pub ranked : IsRanked (result.chunks ++ rest)
    pub all_there :
        (p : RankedChunk H → Bool)
        → count p (result.chunks ++ rest)
          ≡ count p (apply_boosts H r.config r.today (map (row_to_ranked_chunk H) rows))

-- Under an ordered host, a search that succeeds gives at most the limit of chunks, and they with
-- the rest are a permutation of the boosted rows that were fetched for the effective query,
-- counted by every test, in falling order of their scores.
pub search-IsTop :
    (H : Host) (r : Retriever H) (query : Text) (max_results : ℕ) (result : SearchResult H)
    → IsOrdered H
    → search H r query max_results ≡ gives result
    → IsTop H r query max_results result
unfolding search rank
search-IsTop H r query max_results result ordered h =
    let (prepared, searched, h₁) = >>=-eq-gives (effective_query H r query) _ h in
    let (rows, fetched, h₂) =
      >>=-eq-gives (or_err (r.fetch prepared.0) fetch_failed) (with_rows H r max_results prepared.1)
        h₁ in
    let trimmed = rank H r rows max_results in
    let (warnings, _, h₃) =
      >>=-eq-gives (warnings_for H r trimmed) (λ w. gives (result_of H r rows trimmed prepared.1 w))
        h₂ in
    let boosted = apply_boosts H r.config r.today (map (row_to_ranked_chunk H) rows) in
    let whole = take-append-drop max_results (sort_scored H boosted) in
    subst (IsTop H r query max_results) (gives_inj h₃) (record {
      effective = prepared.0;
      removed = prepared.1;
      searched = searched;
      rows = rows;
      found = or_err-eq-gives (r.fetch prepared.0) fetch_failed fetched;
      rest = drop max_results (sort_scored H boosted);
      short = length-take-le max_results (sort_scored H boosted);
      ranked = subst (IsRanked H) (sym whole) (sort_scored-IsRanked H boosted ordered);
      all_there = λ p. ap (count p) whole ∙ count-sort_scored H p boosted;
    })
