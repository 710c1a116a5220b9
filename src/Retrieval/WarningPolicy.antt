-- ===== src/Retrieval/WarningPolicy.antt =====
-- The policy table of src/cf_knowledge_kiln/retrieval/warning_policy.py.
use cf_knowledge_kiln.Base.{ℕ, Option, ◌≡◌, ◌↔◌, arith}
use cf_knowledge_kiln.Base.Host.{Host}
use cf_knowledge_kiln.Retrieval.Types.{
  WarningType, stale_source, deprecated_source, conflicting_sources, weak_evidence,
  prompt_injection_pattern, sensitive_content, query_normalized, isolated_match, answer_truncated,
  Severity, advisory, warning, blocking, Action, inform, prefer_other_sources, request_human_review,
  rewrite_query, refuse_to_synthesize, Message, Warning,
}

-- The type is a closed enumeration here, so that the table's fallback is never taken.
abbrev pub warning_policy : WarningType → Severity × Action
warning_policy stale_source = (advisory, inform)
warning_policy deprecated_source = (warning, prefer_other_sources)
warning_policy conflicting_sources = (warning, request_human_review)
warning_policy weak_evidence = (warning, request_human_review)
warning_policy isolated_match = (warning, request_human_review)
warning_policy prompt_injection_pattern = (blocking, refuse_to_synthesize)
warning_policy sensitive_content = (blocking, refuse_to_synthesize)
warning_policy query_normalized = (advisory, rewrite_query)
warning_policy answer_truncated = (advisory, inform)

unfoldable pub severity_for : WarningType → Severity
severity_for t = (warning_policy t).0

unfoldable pub action_for : WarningType → Action
action_for t = (warning_policy t).1

unfoldable pub flat_warning : (H : Host) → WarningType → Message H → Option ℕ → Warning H
flat_warning H t m i =
    let (severity, action) = warning_policy t in
    record { type = t; message = m; source_id = i; severity = severity; action = action }

-- The policy blocks a warning type exactly where it refuses to synthesize.
pub blocking_iff_refuse :
    (t : WarningType) → (severity_for t ≡ blocking) ↔ (action_for t ≡ refuse_to_synthesize)
unfolding severity_for action_for
blocking_iff_refuse t = ground arith
