-- ===== src/Api/Idempotency/Trace.antt =====
-- Requests and sweeps in any order: what a retry receives, and where a replay comes from.
use cf_knowledge_kiln.Base.{
  ℕ, ◌+◌, ◌≤◌, ◌<◌, ◌≡◌, Option, none, some, List, [], ◌∷◌, leb, All, arith, Bool-cases, inl, inr,
  Option-cases, ite,
}
use cf_knowledge_kiln.Base.OrderedDict.{get, get-snoc_self}
use cf_knowledge_kiln.Api.HeaderSanitize.{Text}
use cf_knowledge_kiln.Api.Idempotency.{
  Fault, Row, Protocol, Keys, store, extract_key, Reply, replayed, idempotency_conflict, fresh,
  raised, serve, delete_expired,
}
use cf_knowledge_kiln.Api.Idempotency.Table.{
  get-delete_expired, get-store_kept, new_row, store_absent,
}
use cf_knowledge_kiln.Api.Idempotency.Replay.{serve_plain, serve_live, serve_expired, serve_absent}

module _ (P : Protocol) where
  open P use {Route, Request, Hash, Body, key_discrete, hash_discrete, canonical_body_hash, ttl}

  -- A request, with what its handler meets and how long it takes, or a sweep.
  pub data Event : Type 0 where
    request :
        Option Fault → ℕ → ℕ → Option Text → Route → Request → Option (Body × Option ℕ) → Event
    sweep : ℕ → Event

  unfoldable pub step : Event → Keys P → Keys P
  step (request fault now later header route body work) table =
      (serve P fault table now later header route body work).0
  step (sweep cutoff) table = (delete_expired P cutoff table).0

  unfoldable pub run : List Event → Keys P → Keys P
  unfolding step
  run [] table = table
  run (e ∷ events) table = run events (step e table)

  -- No sweep has a cutoff after `t`.
  abbrev pub SweptBy : ℕ → Event → Type 0
  SweptBy t (request _ _ _ _ _ _ _) = Unit
  SweptBy t (sweep cutoff) = cutoff ≤ t

  get-serve :
      (fault : Option Fault) (table : Keys P) (now later : ℕ) (header : Option Text) (route : Route)
      (body : Request) (work : Option (Body × Option ℕ)) (k : Text × Route) (row : Row Hash Body)
      → get key_discrete k table ≡ some row
      → get key_discrete k (serve P fault table now later header route body work).0 ≡ some row
  get-serve fault table now later header route body work k row e =
      elim (Option-cases (extract_key header)) [
        | inl n ↦ rw (serve_plain P fault table now later header route body work n) e
        | inr (key, s) ↦ elim (Option-cases (get key_discrete (key, route) table)) [
          | inl n ↦
              rw (serve_absent P fault table now later header route body work key s n)
                (after key work)
          | inr (other, h) ↦ elim (Bool-cases (leb other.expires_at now)) [
            | inl old ↦
                rw
                  (serve_expired P fault table now later header route body work key s other h
                    (ground arith))
                  e
            | inr young ↦
                rw
                  (serve_live P fault table now later header route body work key s other h
                    (ground arith))
                  e
          ]
        ]
      ]
    where
      after :
          (key : Text) (work : Option (Body × Option ℕ))
          → get key_discrete k
              (elim work as (λ w. Keys P × Reply Body) [
                | none ↦ (table, raised)
                | some w ↦ (
                  store P fault table later (key, route) (canonical_body_hash body) w.1 w.0 200,
                  fresh w.0,
                )
              ]).0
            ≡ some row
      after key none = e
      after key (some w) =
          get-store_kept P fault table later (key, route) k (canonical_body_hash body) w.1 w.0 200
            row e

  -- A row outlives every request, and every sweep whose cutoff is not past its end.
  get-run :
      (events : List Event) (table : Keys P) (k : Text × Route) (row : Row Hash Body)
      → get key_discrete k table ≡ some row
      → All (SweptBy row.expires_at) events
      → get key_discrete k (run events table) ≡ some row
  unfolding run
  get-run [] table k row e h = e
  get-run (request fault now later header route body work ∷ events) table k row e h =
      get-run events _ k row (get-serve fault table now later header route body work k row e) h.1
  get-run (sweep cutoff ∷ events) table k row e h =
      get-run events _ k row (get-delete_expired P cutoff k row table e h.0) h.1

  -- After a response was produced and stored under a key that the table did not hold, and whatever
  -- requests and sweeps with cutoffs up to the row's end come in between, a retry with the same
  -- key and route before that end leaves the table as it is and receives that response for a body
  -- of the same hash, and the conflict for another.
  pub retry_replays :
      (table : Keys P) (now later : ℕ) (header again_header : Option Text) (key : Text)
      (route : Route) (body other : Request) (response : Body × Option ℕ) (events : List Event)
      (fault : Option Fault) (retried done : ℕ) (work : Option (Body × Option ℕ))
      → extract_key header ≡ some key
      → extract_key again_header ≡ some key
      → get key_discrete (key, route) table ≡ none
      → All (SweptBy (later + ttl)) events
      → retried < later + ttl
      → let after = run (request none now later header route body (some response) ∷ events) table in
        serve P fault after retried done again_header route other work ≡ (
          after,
          ite
              (hash_discrete (canonical_body_hash body) (canonical_body_hash other))
              (replayed response.0 200)
              idempotency_conflict,
        )
  unfolding run
  retry_replays table now later header again_header key route body other response events fault
        retried done work keyed rekeyed absent swept soon =
      let row = new_row P later (canonical_body_hash body) response.1 response.0 200 in
      let stored : get key_discrete (key, route)
            (step (request none now later header route body (some response)) table)
          ≡ some row =
        rw
          (
            serve_absent P none table now later header route body (some response) key keyed absent,
            store_absent P table later (key, route) (canonical_body_hash body) response.1 response.0
                200 absent,
            step,
          )
          (get-snoc_self key_discrete (key, route) row table absent) in
      serve_live P fault _ retried done again_header route other work key rekeyed row
        (get-run events _ (key, route) row stored swept) soon
