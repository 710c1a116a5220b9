-- ===== src/Retrieval/Ranking/Emitters/Once.antt =====
-- The document warnings, one for each document that deserves it.
use cf_knowledge_kiln.Base.{
  ℕ, Bool, false, ◌&&◌, none, some, List, [], ◌∷◌, ◌≡◌, sym, ap, some_inj, ◌∙◌, ◌==◌, if◌then◌else◌,
  arith, any, count,
}
use cf_knowledge_kiln.Base.Host.{Host}
use cf_knowledge_kiln.Retrieval.Ranking.Chunk.{RankedChunk}
use cf_knowledge_kiln.Retrieval.Ranking.Emitters.{
  is_seen, date_before, reviewed_before, stale_from, stale_warnings, deprecated_from,
  deprecated_warnings,
}
use cf_knowledge_kiln.Retrieval.Types.{is_retired, Warning, downgrade_to_flat}

module _ (H : Host) where
  -- The warning is about document `d`.
  abbrev pub names : ℕ → Warning H → Bool
  names d w = elim w.source_id [ none ↦ false | some i ↦ i == d ]

  -- Some chunk of document `d` passes the test.
  abbrev pub deserves : (RankedChunk H → Bool) → ℕ → List (RankedChunk H) → Bool
  deserves test d = any (λ c. c.document_id == d && test c)

  abbrev one_unless_seen : Bool → Bool → ℕ
  one_unless_seen seen deserved = if seen then 0 else if deserved then 1 else 0

  count-stale_from :
      (days threshold d : ℕ) (seen : List ℕ) (chunks : List (RankedChunk H))
      → count (names d) (stale_from H days threshold seen chunks)
        ≡ one_unless_seen
            (is_seen d seen)
            (deserves (λ c. reviewed_before threshold c.last_reviewed) d chunks)
  unfolding stale_from downgrade_to_flat
  count-stale_from days threshold d seen [] = ground arith
  count-stale_from days threshold d seen (c ∷ chunks) = ground (
    arith,
    count-stale_from days threshold d seen chunks,
    count-stale_from days threshold d (c.document_id ∷ seen) chunks,
  )

  count-deprecated_from :
      (d : ℕ) (seen : List ℕ) (chunks : List (RankedChunk H))
      → count (names d) (deprecated_from H seen chunks)
        ≡ one_unless_seen (is_seen d seen) (deserves (λ c. is_retired c.status) d chunks)
  unfolding deprecated_from downgrade_to_flat
  count-deprecated_from d seen [] = ground arith
  count-deprecated_from d seen (c ∷ chunks) = ground (
    arith,
    count-deprecated_from d seen chunks,
    count-deprecated_from d (c.document_id ∷ seen) chunks,
  )

  pub stale_warnings_over :
      (chunks : List (RankedChunk H)) (today days : ℕ)
      → date_before today days ≡ none
      → stale_warnings H chunks today (some days) ≡ none
  unfolding stale_warnings
  stale_warnings_over chunks today days over = ground arith

  pub stale_warnings_within :
      (chunks : List (RankedChunk H)) (today days threshold : ℕ)
      → date_before today days ≡ some threshold
      → stale_warnings H chunks today (some days) ≡ some (stale_from H days threshold [] chunks)
  unfolding stale_warnings
  stale_warnings_within chunks today days threshold within = ground arith

  -- Where the date arithmetic is in range, a document gets exactly one stale warning if one of its
  -- chunks was reviewed before the threshold or never, and none otherwise.
  pub count-stale_warnings :
      (chunks : List (RankedChunk H)) (today days threshold d : ℕ) {warnings : List (Warning H)}
      → date_before today days ≡ some threshold
      → stale_warnings H chunks today (some days) ≡ some warnings
      → count (names d) warnings
        ≡ (if deserves (λ c. reviewed_before threshold c.last_reviewed) d chunks then 1 else 0)
  count-stale_warnings chunks today days threshold d within h =
      ap (count (names d))
        (some_inj (sym h ∙ stale_warnings_within chunks today days threshold within))
      ∙ count-stale_from days threshold d [] chunks

  -- A document gets exactly one warning if one of its chunks is deprecated, archived or
  -- superseded, and none otherwise.
  pub count-deprecated_warnings :
      (chunks : List (RankedChunk H)) (d : ℕ)
      → count (names d) (deprecated_warnings H chunks)
        ≡ (if deserves (λ c. is_retired c.status) d chunks then 1 else 0)
  unfolding deprecated_warnings
  count-deprecated_warnings chunks d = count-deprecated_from d [] chunks
