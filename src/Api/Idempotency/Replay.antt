-- ===== src/Api/Idempotency/Replay.antt =====
-- What a request does, by what the table holds for its key.
use cf_knowledge_kiln.Base.{
  ℕ, ◌≤◌, ◌<◌, ◌≡◌, refl, true, false, Option, none, some, leb, if◌then◌else◌, arith, ite, ◌∙◌, ap,
}
use cf_knowledge_kiln.Base.OrderedDict.{get}
use cf_knowledge_kiln.Api.HeaderSanitize.{Text}
use cf_knowledge_kiln.Api.Idempotency.{
  Fault, Row, Protocol, Keys, store, extract_key, should_cache, status_or_200, miss, hit, conflict,
  Reply, replayed, idempotency_conflict, fresh, raised, check_or_replay, finish, serve, respond,
  checked,
}
use cf_knowledge_kiln.Api.Idempotency.Table.{store_present}

module _ (P : Protocol) where
  open P use {Route, Request, Hash, Body, key_discrete, hash_discrete, canonical_body_hash, ttl}

  -- The reply to a request whose key is known: a replay for the same body, else a conflict.
  abbrev pub again : Row Hash Body → Request → Reply Body
  again row body =
      ite (hash_discrete row.request_hash (canonical_body_hash body))
        (replayed row.response_body (status_or_200 row.response_status)) idempotency_conflict

  -- The reply of a handler that ran.
  abbrev pub ran : Option (Body × Option ℕ) → Reply Body
  ran none = raised
  ran (some w) = fresh w.0

  module _ (table : Keys P) (now : ℕ) (header : Option Text) (route : Route) (body : Request) where
    check_plain :
        extract_key header ≡ none
        → check_or_replay P table now header route body ≡ record {
          outcome = miss;
          key = none;
          request_hash = none;
          cached_body = none;
          cached_status = none;
        }
    unfolding check_or_replay
    check_plain e = rw (e, check_or_replay) refl

    module _ (key : Text) (keyed : extract_key header ≡ some key) where
      check_absent :
          get key_discrete (key, route) table ≡ none
          → check_or_replay P table now header route body
            ≡ checked P miss key (canonical_body_hash body) none none
      unfolding check_or_replay
      check_absent e = rw (keyed, e, check_or_replay) refl

      check_present :
          (row : Row Hash Body)
          → get key_discrete (key, route) table ≡ some row
          → check_or_replay P table now header route body ≡ (
              if leb row.expires_at now
              then checked P miss key (canonical_body_hash body) none none
              else ite
                  (hash_discrete row.request_hash (canonical_body_hash body))
                  (checked P hit key
                    (canonical_body_hash body)
                    (some row.response_body)
                    (some row.response_status))
                  (checked P conflict key (canonical_body_hash body) none none))
      unfolding check_or_replay
      check_present row e = rw (keyed, e, check_or_replay) refl

  module _ (fault : Option Fault) (table : Keys P) (later : ℕ) (route : Route) where
    respond_plain :
        (work : Option (Body × Option ℕ))
        → respond P fault table later
            (record {
              outcome = miss;
              key = none;
              request_hash = none;
              cached_body = none;
              cached_status = none;
            })
            route
            work
          ≡ (table, ran work)
    unfolding respond finish
    respond_plain none = refl
    respond_plain (some w) = refl

    respond_miss :
        (key : Text) (hash : Hash) (work : Option (Body × Option ℕ))
        → respond P fault table later (checked P miss key hash none none) route work ≡ elim work [
          | none ↦ (table, raised)
          | some w ↦ (store P fault table later (key, route) hash w.1 w.0 200, fresh w.0)
        ]
    unfolding respond finish should_cache
    respond_miss key hash none = refl
    respond_miss key hash (some w) = refl

    -- A store of a key that the table holds does nothing.
    respond_held :
        (key : Text) (hash : Hash) (work : Option (Body × Option ℕ)) (row : Row Hash Body)
        → get key_discrete (key, route) table ≡ some row
        → respond P fault table later (checked P miss key hash none none) route work
          ≡ (table, ran work)
    respond_held key hash none row e = respond_miss key hash none
    respond_held key hash (some w) row e =
        respond_miss key hash (some w)
        ∙ ap (λ (t : Keys P). (t, fresh w.0))
            (store_present P fault table later (key, route) hash w.1 w.0 200 row e)

  module _ (fault : Option Fault) (table : Keys P) (now later : ℕ) (header : Option Text)
      (route : Route) (body : Request) (work : Option (Body × Option ℕ)) where
    -- Without a usable key the handler runs, and nothing is stored.
    pub serve_plain :
        extract_key header ≡ none
        → serve P fault table now later header route body work ≡ (table, ran work)
    unfolding serve
    serve_plain e =
        rw (check_plain table now header route body e, serve)
          (respond_plain fault table later route work)

    module _ (key : Text) (keyed : extract_key header ≡ some key) where
      pub serve_absent :
          get key_discrete (key, route) table ≡ none
          → serve P fault table now later header route body work ≡ elim work [
            | none ↦ (table, raised)
            | some w ↦ (
              store P fault table later (key, route) (canonical_body_hash body) w.1 w.0 200,
              fresh w.0,
            )
          ]
      unfolding serve
      serve_absent e =
          rw (check_absent table now header route body key keyed e, serve)
            (respond_miss fault table later route key (canonical_body_hash body) work)

      -- A row that is still alive answers, and the handler does not run.
      pub serve_live :
          (row : Row Hash Body)
          → get key_discrete (key, route) table ≡ some row
          → now < row.expires_at
          → serve P fault table now later header route body work ≡ (table, again row body)
      unfolding serve respond
      serve_live row e h =
          let alive : leb row.expires_at now ≡ false = ground arith in
          rw (check_present table now header route body key keyed row e, alive, serve)
            (elim (hash_discrete row.request_hash (canonical_body_hash body))
              as (λ d.
                respond P fault table later
                  (ite d
                    (checked P hit key (canonical_body_hash body) (some row.response_body)
                      (some row.response_status))
                    (checked P conflict key (canonical_body_hash body) none none))
                  route work
                ≡ (
                  table,
                  ite d (replayed row.response_body (status_or_200 row.response_status))
                      idempotency_conflict,
                )) [ yes p ↦ refl | no p ↦ refl ])

      -- Where the table holds a row for the key that has ended and was not swept, the handler runs
      -- and its response is not stored.
      pub serve_expired :
          (row : Row Hash Body)
          → get key_discrete (key, route) table ≡ some row
          → row.expires_at ≤ now
          → serve P fault table now later header route body work ≡ (table, ran work)
      unfolding serve
      serve_expired row e h =
          let dead : leb row.expires_at now ≡ true = ground arith in
          rw (check_present table now header route body key keyed row e, dead, serve)
            (respond_held fault table later route key (canonical_body_hash body) work row e)
