-- ===== src/Retrieval/Ranking/Boosts.antt =====
-- The boosts of src/cf_knowledge_kiln/retrieval/ranking.py: status weight and freshness.
use cf_knowledge_kiln.Base.{
  ℕ, ◌-◌, false, Option, none, some, List, map, ◌≡◌, leb, if◌then◌else◌, Bool-cases, inl, inr,
}
use cf_knowledge_kiln.Base.Host.{
  Host, max_num, min_num, IsOrdered, le-max_num, max_num-le, min_num-ge,
}
use cf_knowledge_kiln.Retrieval.Config.{RetrievalConfig, weight_for_status}
use cf_knowledge_kiln.Retrieval.Ranking.Chunk.{RankedChunk}

module _ (H : Host) where
  open H use {Num, lt, sub, mul, div, of_ℕ, lit}

  -- `(today - last_reviewed).days` is negative for a date in the future, where `today -
  -- last_reviewed` is 0 here: both are within the window.
  unfoldable pub freshness_factor : Option ℕ → ℕ → Option ℕ → Num
  freshness_factor last_reviewed today none = lit 10 1
  freshness_factor none today (some stale_after_days) = lit 3 1
  freshness_factor (some last_reviewed) today (some stale_after_days) =
      let age : ℕ = today - last_reviewed in
      if leb age stale_after_days
      then lit 10 1
      else let decay =
          min_num H (lit 10 1) (div (of_ℕ (age - stale_after_days)) (of_ℕ stale_after_days)) in
        max_num H (lit 3 1) (sub (lit 10 1) (mul (lit 7 1) decay))

  unfoldable pub apply_boost_to_chunk : RetrievalConfig H → ℕ → RankedChunk H → RankedChunk H
  unfolding freshness_factor
  apply_boost_to_chunk config today chunk = record chunk {
    score =
        mul (mul chunk.score (weight_for_status H config chunk.status))
          (freshness_factor chunk.last_reviewed today config.stale_after_days);
  }

  unfoldable pub apply_boosts : RetrievalConfig H → ℕ → List (RankedChunk H) → List (RankedChunk H)
  apply_boosts config today = map (apply_boost_to_chunk config today)

  -- What the factor's range rests on: the order of three literals, and that a non-negative part
  -- of 1 is at most 1.
  pub record Decays : Type 0 where
    pub floor_low : lt (lit 10 1) (lit 3 1) ≡ false
    pub sub_le :
        (x : Num) → lt x (of_ℕ 0) ≡ false → lt (lit 10 1) (sub (lit 10 1) (mul (lit 7 1) x)) ≡ false
    pub div_nonneg : (a b : ℕ) → lt (div (of_ℕ a) (of_ℕ b)) (of_ℕ 0) ≡ false
    pub one_nonneg : lt (lit 10 1) (of_ℕ 0) ≡ false

  -- Under an ordered host whose division and subtraction keep their signs, the freshness factor
  -- lies in [0.3, 1.0] for every date and window.
  pub freshness_factor_range :
      (last_reviewed : Option ℕ) (today : ℕ) (window : Option ℕ)
      → IsOrdered H
      → Decays
      → (lt (freshness_factor last_reviewed today window) (lit 3 1) ≡ false)
        × (lt (lit 10 1) (freshness_factor last_reviewed today window) ≡ false)
  unfolding freshness_factor
  freshness_factor_range last_reviewed today none ordered d = (d.floor_low, ordered.irrefl _)
  freshness_factor_range none today (some w) ordered d = (ordered.irrefl _, d.floor_low)
  freshness_factor_range (some r) today (some w) ordered d = elim (Bool-cases (leb (today - r) w)) [
    | inl young ↦ rw young (d.floor_low, ordered.irrefl _)
    | inr old ↦ rw old (
      le-max_num H ordered _ _,
      max_num-le H _ _ _ d.floor_low
          (d.sub_le _ (min_num-ge H (of_ℕ 0) _ _ d.one_nonneg (d.div_nonneg (today - r - w) w))),
    )
  ]
