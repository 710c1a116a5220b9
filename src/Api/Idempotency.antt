-- ===== src/Api/Idempotency.antt =====
-- The replay cache of src/cf_knowledge_kiln/api/idempotency.py, its table of
-- src/cf_knowledge_kiln/db/repositories/idempotency.py, and the way in which the handlers of
-- src/cf_knowledge_kiln/api/retrieval.py and src/cf_knowledge_kiln/api/answer.py use them.
-- The table is keyed by the pair of the sanitized header and the route. A time is a whole number
-- of ticks. The hash of a body is a function of the platform.
pub mod Table
pub mod Replay
pub mod Trace
pub mod Origin
use cf_knowledge_kiln.Base.{
  ℕ, ◌+◌, ◌-◌, Bool, true, false, not, ◌&&◌, Option, none, some, List, [], ◌∷◌, ◌++◌, ltb, leb,
  ◌==◌, if◌then◌else◌, length, take, keep, ite,
}
use cf_knowledge_kiln.Base.OrderedDict.{get}
use cf_knowledge_kiln.Api.HeaderSanitize.{Text, sanitize_opaque_header}

pub data Outcome : Type 0 where
  miss hit conflict : Outcome

-- The failures of a statement, of which none changes the table.
pub data Fault : Type 0 where
  operational_error integrity_error other_error : Fault

abbrev pub max_key_len : ℕ
max_key_len = 200

unfoldable pub extract_key : Option Text → Option Text
extract_key header = elim (sanitize_opaque_header header) [
  | none ↦ none
  | some sanitized ↦
      if ltb max_key_len (length sanitized)
      then some (take max_key_len sanitized)
      else some sanitized
]

unfoldable pub should_cache : ℕ → Bool
should_cache status = leb 200 status && leb status 499

-- `idem.cached_status or 200`
abbrev pub status_or_200 : ℕ → ℕ
status_or_200 status = if status == 0 then 200 else status

pub record Row (Hash Body : Type 0) : Type 0 where
  pub request_hash : Hash
  pub resource_id : Option ℕ
  pub response_body : Body
  pub response_status : ℕ
  pub expires_at : ℕ

pub record CheckResult (Hash Body : Type 0) : Type 0 where
  pub outcome : Outcome
  pub key : Option Text
  pub request_hash : Option Hash
  pub cached_body : Option Body
  pub cached_status : Option ℕ

-- What a client receives: a replay, the 422 of a conflict, a fresh response, or the error that
-- the handler raised.
pub data Reply (Body : Type 0) : Type 0 where
  replayed : Body → ℕ → Reply Body
  idempotency_conflict : Reply Body
  fresh : Body → Reply Body
  raised : Reply Body

-- The routes, the bodies and their hash, with the life of a row in ticks. A cached body that is
-- an empty dictionary and one that is missing are the same to the program.
pub record Protocol : Type 1 where
  pub Route : Type 0
  pub Request : Type 0
  pub Hash : Type 0
  pub Body : Type 0
  pub key_discrete : Discrete (Text × Route)
  pub hash_discrete : Discrete Hash
  pub canonical_body_hash : Request → Hash
  pub ttl : ℕ

module _ (P : Protocol) where
  open P use {Route, Request, Hash, Body, key_discrete, hash_discrete, canonical_body_hash, ttl}

  abbrev pub Keys : Type 0
  Keys = List ((Text × Route) × Row Hash Body)

  -- `INSERT ... ON CONFLICT (key, route) DO NOTHING`
  unfoldable pub create_if_absent :
      Keys → ℕ → Text × Route → Hash → Option ℕ → Body → ℕ → Keys × Bool
  create_if_absent table now key hash resource_id body status = elim (get key_discrete key table) [
    | none ↦ (
      table
          ++ (
            key,
            record {
              request_hash = hash;
              resource_id = resource_id;
              response_body = body;
              response_status = status;
              expires_at = now + ttl;
            },
          )
            ∷ [],
      true,
    )
    | some _ ↦ (table, false)
  ]

  unfoldable pub delete_expired : ℕ → Keys → Keys × ℕ
  delete_expired cutoff table =
      let left = keep (λ e. not (ltb e.1.expires_at cutoff)) table in
      (left, length table - length left)

  -- A failed statement is rolled back with its savepoint, and logged.
  unfoldable pub store : Option Fault → Keys → ℕ → Text × Route → Hash → Option ℕ → Body → ℕ → Keys
  unfolding create_if_absent
  store (some fault) table now key hash resource_id body status = table
  store none table now key hash resource_id body status =
      (create_if_absent table now key hash resource_id body status).0

  abbrev pub checked : Outcome → Text → Hash → Option Body → Option ℕ → CheckResult Hash Body
  checked outcome key request_hash cached status = record {
    outcome = outcome;
    key = some key;
    request_hash = some request_hash;
    cached_body = cached;
    cached_status = status;
  }

  unfoldable pub check_or_replay : Keys → ℕ → Option Text → Route → Request → CheckResult Hash Body
  check_or_replay table now header route body = elim (extract_key header) [
    | none ↦ record {
      outcome = miss;
      key = none;
      request_hash = none;
      cached_body = none;
      cached_status = none;
    }
    | some key ↦
        let request_hash = canonical_body_hash body in
        elim (get key_discrete (key, route) table) [
          | none ↦ checked miss key request_hash none none
          | some cached ↦
              if leb cached.expires_at now
              then checked miss key request_hash none none
              else ite (hash_discrete cached.request_hash request_hash)
                  (checked hit key request_hash (some cached.response_body)
                    (some cached.response_status))
                  (checked conflict key request_hash none none)
        ]
  ]

  -- The end of a handler: a response that it produced is stored if the request had a key.
  unfoldable pub finish :
      Option Fault
      → Keys
      → ℕ
      → CheckResult Hash Body
      → Route
      → Option (Body × Option ℕ)
      → Keys × Reply Body
  unfolding store should_cache
  finish fault table now idem route none = (table, raised)
  finish fault table now idem route (some (body, resource_id)) = elim idem.key [
    | none ↦ (table, fresh body)
    | some key ↦ elim idem.request_hash [
      | none ↦ (table, fresh body)
      | some hash ↦ (
        if should_cache 200
            then store fault table now (key, route) hash resource_id body 200
            else table,
        fresh body,
      )
    ]
  ]

  -- What a handler makes of the result of the dispatch: `work` is what the retriever gives, or
  -- `none` for an error.
  unfoldable pub respond :
      Option Fault
      → Keys
      → ℕ
      → CheckResult Hash Body
      → Route
      → Option (Body × Option ℕ)
      → Keys × Reply Body
  unfolding finish
  respond fault table later idem route work = elim idem.outcome [
    | miss ↦ finish fault table later idem route work
    | hit ↦ elim idem.cached_body [
      | none ↦ (table, raised)
      | some cached ↦ elim idem.cached_status [
        | none ↦ (table, replayed cached 200)
        | some status ↦ (table, replayed cached (status_or_200 status))
      ]
    ]
    | conflict ↦ (table, idempotency_conflict)
  ]

  -- A handler from its dispatch on. The clock stands at `now` at the dispatch and at `later` at
  -- the storing.
  unfoldable pub serve :
      Option Fault
      → Keys
      → ℕ
      → ℕ
      → Option Text
      → Route
      → Request
      → Option (Body × Option ℕ)
      → Keys × Reply Body
  unfolding check_or_replay respond
  serve fault table now later header route body work =
      respond fault table later (check_or_replay table now header route body) route work
