-- ===== src/Agent/ContextPack/Budget.antt =====
-- What `trim_evidence_to_budget` keeps.
use cf_knowledge_kiln.Base.{
  ℕ, suc, ◌+◌, ◌≤◌, ◌<◌, Bool, ◌&&◌, none, some, List, [], ◌∷◌, ◌++◌, ◌≡◌, refl, ◌∙◌, ap, ltb, leb,
  if◌then◌else◌, take, drop, length, length-append, arith, ◌⊎◌, inl, inr, ◌≢◌, Bool-cases,
}
use cf_knowledge_kiln.Base.Host.{Host}
use cf_knowledge_kiln.Retrieval.Ranking.Chunk.{RankedChunk}
use cf_knowledge_kiln.Agent.ContextPack.Trim.{trim_from, zip, trim_evidence_to_budget}
use mathlib.Core.List.{append-nil, append_assoc}
use Prim.Native.String.{String}

module _ (H : Host) (count_tokens : String → ℕ) (max_chunks max_tokens : ℕ) where
  -- The pairs that the loop keeps once it has kept `n` of them, with `used` tokens.
  kept_pairs : ℕ → ℕ → List (RankedChunk H × String) → List (RankedChunk H × String)
  kept_pairs n used [] = []
  kept_pairs n used ((c, text) ∷ rest) =
      let next = (c, text) ∷ kept_pairs (suc n) (used + count_tokens text) rest in
      if leb max_chunks n
      then []
      else if ltb max_tokens (used + count_tokens text) && ltb 0 n
      then []
      else next

  abbrev pub spent : List (RankedChunk H × String) → ℕ
  spent [] = 0
  spent ((c, text) ∷ pairs) = count_tokens text + spent pairs

  abbrev pub firsts : List (RankedChunk H × String) → List (RankedChunk H)
  firsts [] = []
  firsts ((c, text) ∷ pairs) = c ∷ firsts pairs

  -- What the next pair would cost.
  abbrev pub head_cost : List (RankedChunk H × String) → ℕ
  head_cost [] = 0
  head_cost ((c, text) ∷ pairs) = count_tokens text

  abbrev full : ℕ → Bool
  full n = leb max_chunks n

  abbrev over : ℕ → ℕ → String → Bool
  over n used text = ltb max_tokens (used + count_tokens text) && ltb 0 n

  trim_from_lem :
      (n : ℕ) (kept : List (RankedChunk H)) (used : ℕ) (pairs : List (RankedChunk H × String))
      → length kept ≡ n
      → trim_from H count_tokens max_chunks max_tokens kept used pairs
        ≡ (kept ++ firsts (kept_pairs n used pairs), used + spent (kept_pairs n used pairs))
  unfolding trim_from kept_pairs
  trim_from_lem n kept used [] e = ground (arith, append-nil kept)
  trim_from_lem n kept used ((c, text) ∷ rest) e =
      let more =
        trim_from_lem (suc n) (kept ++ c ∷ []) (used + count_tokens text) rest
          (omega (arith, length-append kept (c ∷ []))) in
      elim (Bool-cases (full n)) [
        | inl p ↦ rw (e, p) (ground (arith, append-nil kept))
        | inr p ↦
            rw (e, p)
              (elim (Bool-cases (over n used text)) [
                | inl q ↦ rw q (ground (arith, append-nil kept))
                | inr q ↦
                    rw (q, more)
                      (ground (
                        arith,
                        append_assoc kept (c ∷ [])
                            (firsts (kept_pairs (suc n) (used + count_tokens text) rest)),
                      ))
              ])
      ]

  -- The pairs kept are a prefix, within both bounds but for a first chunk that is too long by
  -- itself, and the next pair would break a bound.
  pub record IsMaximal (n used : ℕ) (pairs kept : List (RankedChunk H × String)) : Type 0 where
    pub rest : List (RankedChunk H × String)
    pub prefix : kept ++ rest ≡ pairs
    pub few : n ≤ max_chunks → n + length kept ≤ max_chunks
    pub cheap :
        (n ≤ 1) ⊎ (used ≤ max_tokens) → (n + length kept ≤ 1) ⊎ (used + spent kept ≤ max_tokens)
    pub stopped :
        (rest ≡ [])
        ⊎ ((max_chunks ≤ n + length kept)
            ⊎ ((0 < n + length kept) × (max_tokens < used + spent kept + head_cost rest)))

  kept_pairs-IsMaximal :
      (n used : ℕ) (pairs : List (RankedChunk H × String))
      → IsMaximal n used pairs (kept_pairs n used pairs)
  unfolding kept_pairs
  kept_pairs-IsMaximal n used [] = record {
    rest = [];
    prefix = refl;
    few = λ h. omega arith;
    cheap = λ h. ground arith;
    stopped = inl refl;
  }
  kept_pairs-IsMaximal n used ((c, text) ∷ rest) = elim (Bool-cases (full n)) [
    | inl p ↦
        rw (p, kept_pairs)
          (record {
            rest = (c, text) ∷ rest;
            prefix = refl;
            few = λ h. omega arith;
            cheap = λ h. ground arith;
            stopped = inr (inl ground arith);
          })
    | inr p ↦
        rw (p, kept_pairs)
          (elim (Bool-cases (over n used text)) [
            | inl q ↦ rw q (record {
              rest = (c, text) ∷ rest;
              prefix = refl;
              few = λ h. omega arith;
              cheap = λ h. ground arith;
              stopped = inr (inr ground arith);
            })
            | inr q ↦
                let more = kept_pairs-IsMaximal (suc n) (used + count_tokens text) rest in
                rw q (record {
                  rest = more.rest;
                  prefix = ap (◌∷◌ (c, text)) more.prefix;
                  few = λ h. omega (arith, more.few (ground arith));
                  cheap = λ h. ground (arith, more.cheap (ground arith));
                  stopped = ground (arith, more.stopped);
                })
          ])
  ]

  abbrev pub tokens : List String → ℕ
  tokens [] = 0
  tokens (t ∷ ts) = count_tokens t + tokens ts

  -- What the trimmed evidence is, in terms of the aligned inputs.
  pub record IsBudgeted (chunks : List (RankedChunk H)) (contents : List String)
      (kept : List (RankedChunk H)) (used : ℕ) : Type 0 where
    pub prefix : kept ≡ take (length kept) chunks
    pub cost : used ≡ tokens (take (length kept) contents)
    pub few : length kept ≤ max_chunks
    pub cheap : (length kept ≤ 1) ⊎ (used ≤ max_tokens)
    pub maximal :
        (kept ≡ chunks)
        ⊎ ((length kept ≡ max_chunks)
            ⊎ ((0 < length kept)
                × (max_tokens < used + tokens (take 1 (drop (length kept) contents)))))

  length-firsts : (pairs : List (RankedChunk H × String)) → length (firsts pairs) ≡ length pairs
  length-firsts [] = refl
  length-firsts ((c, t) ∷ pairs) = ap suc (length-firsts pairs)

  zip_split :
      (kept rest : List (RankedChunk H × String)) (cs : List (RankedChunk H)) (ts : List String)
      → kept ++ rest ≡ zip H cs ts
      → length ts ≡ length cs
      → (firsts kept ≡ take (length kept) cs)
        × (spent kept ≡ tokens (take (length kept) ts))
        × (head_cost rest ≡ tokens (take 1 (drop (length kept) ts)))
        × (rest ≡ [] → firsts kept ≡ cs)
  zip_split [] rest [] [] e l = (refl, refl, ap head_cost e, λ h. refl)
  zip_split [] rest [] (t ∷ ts) e l = ground arith
  zip_split [] rest (c ∷ cs) [] e l = ground arith
  zip_split [] rest (c ∷ cs) (t ∷ ts) e l = (refl, refl, omega (arith, ap head_cost e), λ h. cc)
  zip_split (p ∷ kept) rest [] ts e l = ground arith
  zip_split (p ∷ kept) rest (c ∷ cs) [] e l = ground arith
  zip_split ((d, s) ∷ kept) rest (c ∷ cs) (t ∷ ts) e l =
      let more = zip_split kept rest cs ts (cc) (omega arith) in
      let d-eq : d ≡ c = cc in
      let s-eq : s ≡ t = cc in
      (rw (d-eq, more.0) refl, rw (s-eq, more.1) refl, more.2, λ h. rw (d-eq, more.3 h) refl)

  from_pairs :
      (chunks : List (RankedChunk H)) (contents : List String)
      (pairs : List (RankedChunk H × String))
      → length contents ≡ length chunks
      → IsMaximal 0 0 (zip H chunks contents) pairs
      → IsBudgeted chunks contents (firsts pairs) (spent pairs)
  from_pairs chunks contents pairs l m =
      let split = zip_split pairs m.rest chunks contents m.prefix l in
      let same = length-firsts pairs in
      record {
        prefix = rw same split.0;
        cost = rw same split.1;
        few = omega (arith, same, m.few (omega arith));
        cheap = ground (arith, same, m.cheap (inl (omega arith)));
        maximal = rw same (elim m.stopped [
          | inl e ↦ inl (split.3 e)
          | inr (inl e) ↦ inr (inl (omega (arith, m.few (omega arith))))
          | inr (inr e) ↦ inr (inr (omega (arith, e.0), omega (arith, e.1, split.2)))
        ]);
      }

  trim_from_budget :
      (chunks : List (RankedChunk H)) (contents : List String)
      → length contents ≡ length chunks
      → (r : List (RankedChunk H) × ℕ) × (trim_from H count_tokens max_chunks max_tokens [] 0
            (zip H chunks contents)
          ≡ r)
        × IsBudgeted chunks contents r.0 r.1
  trim_from_budget chunks contents l =
      let pairs = kept_pairs 0 0 (zip H chunks contents) in
      (
        (firsts pairs, spent pairs),
        trim_from_lem 0 [] 0 (zip H chunks contents) refl
            ∙ ap (λ (u : ℕ). (firsts pairs, u)) (omega arith),
        from_pairs chunks contents pairs l (kept_pairs-IsMaximal 0 0 (zip H chunks contents)),
      )

  pub trim_evidence_to_budget_lem :
      (chunks : List (RankedChunk H)) (contents : List String)
      → (length contents ≡ length chunks
          → (r : List (RankedChunk H) × ℕ) × (trim_evidence_to_budget H count_tokens chunks contents
                max_chunks max_tokens
              ≡ some r)
            × IsBudgeted chunks contents r.0 r.1)
        × (length contents ≢ length chunks
            → chunks ≢ []
            → trim_evidence_to_budget H count_tokens chunks contents max_chunks max_tokens ≡ none)
  unfolding trim_evidence_to_budget
  trim_evidence_to_budget_lem [] contents = (
    λ l. (
      ([], 0),
      refl,
      record {
        prefix = refl;
        cost = refl;
        few = omega arith;
        cheap = inl (omega arith);
        maximal = inl refl;
      },
    ),
    λ l n. absurd (n refl),
  )
  trim_evidence_to_budget_lem (c ∷ chunks) contents = (
    λ l. let t = trim_from_budget (c ∷ chunks) contents l in (t.0, ground (arith, t.1), t.2),
    λ l n. ground arith,
  )
