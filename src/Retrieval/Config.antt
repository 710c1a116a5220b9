-- ===== src/Retrieval/Config.antt =====
-- The ranking parameters of src/cf_knowledge_kiln/retrieval/config.py.
use cf_knowledge_kiln.Base.{
  ℕ, Bool, true, false, not, ◌&&◌, Option, none, some, List, [], ◌∷◌, ltb, if◌then◌else◌, all,
  arith, ◌≡◌,
}
use cf_knowledge_kiln.Base.Host.{Host}
use cf_knowledge_kiln.Retrieval.Types.{
  Status, active, approved, draft, deprecated, archived, superseded, unlisted,
}
use text.Mathlib.Text.{◌==◌ as str_eq}

abbrev pub status_eq : Status → Status → Bool
status_eq active active = true
status_eq approved approved = true
status_eq draft draft = true
status_eq deprecated deprecated = true
status_eq archived archived = true
status_eq superseded superseded = true
status_eq (unlisted a) (unlisted b) = str_eq a b
status_eq _ _ = false

module _ (H : Host) where
  open H use {Num, lt, of_ℕ, lit}

  pub record RetrievalConfig : Type 0 where
    pub status_weights : List (Status × Num)
    pub stale_after_days : Option ℕ
    pub weak_evidence_score_threshold : Num
    pub relevance_floor : Option Num
    pub max_warning_rank : ℕ
    pub isolated_match_drop_threshold : Option Num

  abbrev pub default_status_weights : List (Status × Num)
  default_status_weights =
      (active, lit 10 1)
      ∷ (approved, lit 95 2)
      ∷ (draft, lit 5 1)
      ∷ (deprecated, lit 2 1)
      ∷ (archived, lit 1 1)
      ∷ (superseded, lit 5 2)
      ∷ []

  abbrev pub default_weak_evidence_score_threshold : Num
  default_weak_evidence_score_threshold = lit 46 2

  abbrev pub default_config : RetrievalConfig
  default_config = record {
    status_weights = default_status_weights;
    stale_after_days = some 365;
    weak_evidence_score_threshold = default_weak_evidence_score_threshold;
    relevance_floor = none;
    max_warning_rank = 3;
    isolated_match_drop_threshold = some (lit 30 2);
  }

  -- `self.status_weights.get(status, 1.0)`
  unfoldable pub weight_in : List (Status × Num) → Status → Num
  weight_in [] status = lit 10 1
  weight_in (e ∷ weights) status = if status_eq e.0 status then e.1 else weight_in weights status

  unfoldable pub weight_for_status : RetrievalConfig → Status → Num
  unfolding weight_in
  weight_for_status config status = weight_in config.status_weights status

  unfoldable pub effective_relevance_floor : RetrievalConfig → Num
  effective_relevance_floor config = elim config.relevance_floor [
    | none ↦ config.weak_evidence_score_threshold
    | some floor ↦ floor
  ]

  -- The bounds of the fields, `gt=0.0`, `gt=0` and `ge=1`, and the validator of the weights.
  abbrev pub is_positive : Num → Bool
  is_positive x = lt (of_ℕ 0) x

  abbrev pub is_positive_or_none : Option Num → Bool
  is_positive_or_none none = true
  is_positive_or_none (some x) = is_positive x

  abbrev pub in_unit_interval : Num → Bool
  in_unit_interval w = is_positive w && not (lt (lit 10 1) w)

  abbrev pub days_accepted : Option ℕ → Bool
  days_accepted none = true
  days_accepted (some days) = ltb 0 days

  -- `RetrievalConfig.model_validate`, of which `none` is the ValidationError.
  unfoldable pub model_validate : RetrievalConfig → Option RetrievalConfig
  model_validate c =
      if all (λ e. in_unit_interval e.1) c.status_weights
        && days_accepted c.stale_after_days
        && is_positive c.weak_evidence_score_threshold
        && is_positive_or_none c.relevance_floor
        && ltb 0 c.max_warning_rank
        && is_positive_or_none c.isolated_match_drop_threshold
      then some c
      else none

  -- With an accepted configuration, every status has a weight in (0, 1], the statuses that the
  -- configuration does not list included.
  weight_in_range :
      (weights : List (Status × Num)) (status : Status)
      → in_unit_interval (lit 10 1) ≡ true
      → all (λ e. in_unit_interval e.1) weights ≡ true
      → in_unit_interval (weight_in weights status) ≡ true
  unfolding weight_in
  weight_in_range [] status one h = one
  weight_in_range (e ∷ weights) status one h = ground (arith, weight_in_range weights status one)

  -- An accepted configuration gives every status a weight in (0, 1], the statuses that it does not
  -- list included, if 1.0 itself is in (0, 1].
  pub weight_for_status_in_range :
      (c config : RetrievalConfig) (status : Status)
      → in_unit_interval (lit 10 1) ≡ true
      → model_validate c ≡ some config
      → in_unit_interval (weight_for_status config status) ≡ true
  unfolding model_validate weight_for_status
  weight_for_status_in_range c config status one h =
      ground (arith, weight_in_range c.status_weights status one)
