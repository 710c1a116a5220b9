-- ===== src/Tests/Retries.antt =====
-- Retries with an idempotency key at concrete inputs.
use cf_knowledge_kiln.Base.{
  ℕ, ◌<◌, ◌≡◌, refl, Option, none, some, List, [], ◌∷◌, arith, ite, if_pos, ap, ◌∙◌, ℕ_discrete,
}
use cf_knowledge_kiln.Base.OrderedDict.{get}
use cf_knowledge_kiln.Api.HeaderSanitize.{Text, strip, sanitize_opaque_header}
use cf_knowledge_kiln.Api.Idempotency.{
  Protocol, Row, Keys, extract_key, Reply, replayed, idempotency_conflict, serve,
}
use cf_knowledge_kiln.Api.Idempotency.Replay.{ran, serve_expired}
use cf_knowledge_kiln.Api.Idempotency.Trace.{Event, request, sweep, run, retry_replays}
use cf_knowledge_kiln.Api.Idempotency.Origin.{Came, replayed_from}
use mathlib.Core.List.{List-discrete}
use mathlib.Core.HLevel.{×_discrete}

-- Bodies are numbers, a hash is its body, and a row lives for a hundred ticks.
abbrev numbers : Protocol
numbers = record {
  Route = ℕ;
  Request = ℕ;
  Hash = ℕ;
  Body = ℕ;
  key_discrete = ×_discrete (List-discrete ℕ_discrete) ℕ_discrete;
  hash_discrete = ℕ_discrete;
  canonical_body_hash = λ n. n;
  ttl = 100;
}

-- " a/7 " becomes "a_7".
abbrev header : Option Text
header = some (32 ∷ 97 ∷ 47 ∷ 55 ∷ 32 ∷ [])

abbrev cleaned : Text
cleaned = 97 ∷ 95 ∷ 55 ∷ []

sanitized : sanitize_opaque_header header ≡ some cleaned
unfolding sanitize_opaque_header strip
sanitized = refl

keyed : extract_key header ≡ some cleaned
unfolding extract_key sanitize_opaque_header strip
keyed = refl

-- Another request under the key, and a sweep at the last moment.
abbrev between_requests : List (Event numbers)
between_requests = request none 20 21 header 1 8 (some (99, none)) ∷ sweep 111 ∷ []

abbrev first : Event numbers
first = request none 10 11 header 1 7 (some (42, none))

nothing_stored : get {V = Row ℕ ℕ} numbers.key_discrete (cleaned, 1) [] ≡ none
unfolding get
nothing_stored = refl

retry_replays_example :
    serve numbers none (run numbers (first ∷ between_requests) []) 110 110 header 1 7 none ≡ (
      run numbers (first ∷ between_requests) [],
      ite (ℕ_discrete 7 7) (replayed 42 200) idempotency_conflict,
    )
retry_replays_example =
    retry_replays numbers [] 10 11 header header cleaned 1 7 7 (42, none) between_requests none 110
      110 none keyed keyed nothing_stored (tt, (omega arith, tt)) (omega arith)

replay_seen :
    (serve numbers none (run numbers (first ∷ between_requests) []) 110 110 header 1 7 none).1
    ≡ replayed 42 200
replay_seen =
    ap (λ (r : Keys numbers × Reply ℕ). r.1)
      (retry_replays numbers [] 10 11 header header cleaned 1 7 7 (42, none) between_requests none
        110 110 none keyed keyed nothing_stored (tt, (omega arith, tt)) (omega arith))
    ∙ if_pos (ℕ_discrete 7 7) refl _ _

replayed_from_example :
    (key : Text) × (row : Row ℕ ℕ) × (extract_key header ≡ some key)
    × Came numbers (first ∷ between_requests) ((key, 1), row)
    × (110 < row.expires_at)
    × (row.request_hash ≡ 7)
    × (row.response_body ≡ 42)
    × ◌≡◌ {A = ℕ} 200 200
replayed_from_example =
    replayed_from numbers (first ∷ between_requests) none 110 110 header 1 7 none 42 200 replay_seen

abbrev ended : Row ℕ ℕ
ended = record {
  request_hash = 7;
  resource_id = none;
  response_body = 42;
  response_status = 200;
  expires_at = 50;
}

ended_found : get numbers.key_discrete (cleaned, 1) (((cleaned, 1), ended) ∷ []) ≡ some ended
unfolding get
ended_found = if_pos (numbers.key_discrete (cleaned, 1) (cleaned, 1)) refl _ _

-- Two ticks past the end of the row the handler runs again, and its response 43 is not stored.
serve_expired_example :
    serve numbers none (((cleaned, 1), ended) ∷ []) 52 53 header 1 7 (some (43, none))
    ≡ (((cleaned, 1), ended) ∷ [], ran numbers (some (43, none)))
serve_expired_example =
    serve_expired numbers none (((cleaned, 1), ended) ∷ []) 52 53 header 1 7 (some (43, none))
      cleaned keyed ended ended_found (omega arith)
