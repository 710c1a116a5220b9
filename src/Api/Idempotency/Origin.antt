-- ===== src/Api/Idempotency/Origin.antt =====
-- Where a replay comes from.
use cf_knowledge_kiln.Base.{
  ℕ, ◌<◌, ◌≡◌, refl, Option, none, some, List, [], ◌∷◌, leb, All, All-append, arith, Bool-cases,
  inl, inr, ◌⊎◌, Option-cases, if_pos, if_neg, sym, ◌∙◌, ap,
}
use cf_knowledge_kiln.Base.OrderedDict.{get}
use cf_knowledge_kiln.Api.HeaderSanitize.{Text}
use cf_knowledge_kiln.Api.Idempotency.{
  Fault, Row, Protocol, Keys, store, extract_key, status_or_200, Reply, replayed,
  idempotency_conflict, fresh, raised, serve, delete_expired, create_if_absent,
}
use cf_knowledge_kiln.Api.Idempotency.Table.{
  All-get, All-only, new_row, store_absent, store_present,
}
use cf_knowledge_kiln.Api.Idempotency.Replay.{
  again, ran, serve_plain, serve_live, serve_expired, serve_absent,
}
use cf_knowledge_kiln.Api.Idempotency.Trace.{Event, request, sweep, step, run}

module _ (P : Protocol) where
  open P use {Route, Request, Hash, Body, key_discrete, hash_discrete, canonical_body_hash, ttl}

  -- The event stored this row.
  abbrev pub Made : Event P → (Text × Route) × Row Hash Body → Type 0
  Made (sweep cutoff) x = ⊥
  Made (request fault now later header route body none) x = ⊥
  Made (request fault now later header route body (some w)) x =
      (extract_key header ≡ some x.0.0)
      × (route ≡ x.0.1)
      × (x.1 ≡ new_row P later (canonical_body_hash body) w.1 w.0 200)

  abbrev pub Came : List (Event P) → (Text × Route) × Row Hash Body → Type 0
  Came [] x = ⊥
  Came (e ∷ events) x = Made e x ⊎ Came events x

  module _ (Q : (Text × Route) × Row Hash Body → Type 0) where
    All-weaken :
        (R : (Text × Route) × Row Hash Body → Type 0) (xs : Keys P)
        → ((x : (Text × Route) × Row Hash Body) → Q x → R x)
        → All Q xs
        → All R xs
    All-weaken R [] f h = tt
    All-weaken R (x ∷ xs) f h = (f x h.0, All-weaken R xs f h.1)

    All-store :
        (fault : Option Fault) (table : Keys P) (now later : ℕ) (header : Option Text)
        (route : Route) (body : Request) (w : Body × Option ℕ) (key : Text)
        → extract_key header ≡ some key
        → All Q table
        → All
            (λ x. Q x ⊎ Made (request fault now later header route body (some w)) x)
            (store P fault table later (key, route) (canonical_body_hash body) w.1 w.0 200)
    unfolding store create_if_absent
    All-store (some fault) table now later header route body w key keyed all =
        All-weaken _ table (λ x q. inl q) all
    All-store none table now later header route body w key keyed all =
        elim (Option-cases (get key_discrete (key, route) table)) [
          | inl n ↦
              rw (store_absent P table later (key, route) (canonical_body_hash body) w.1 w.0 200 n)
                (All-append _ table _ (All-weaken _ table (λ x q. inl q) all)
                  (inr (keyed, refl, refl), tt))
          | inr (row, s) ↦
              rw
                (store_present P none table later (key, route) (canonical_body_hash body) w.1 w.0
                  200 row s)
                (All-weaken _ table (λ x q. inl q) all)
        ]

    All-serve :
        (fault : Option Fault) (table : Keys P) (now later : ℕ) (header : Option Text)
        (route : Route) (body : Request) (work : Option (Body × Option ℕ))
        → All Q table
        → All
            (λ x. Q x ⊎ Made (request fault now later header route body work) x)
            (serve P fault table now later header route body work).0
    All-serve fault table now later header route body work all =
        elim (Option-cases (extract_key header)) [
          | inl n ↦ rw (serve_plain P fault table now later header route body work n) same
          | inr (key, s) ↦ elim (Option-cases (get key_discrete (key, route) table)) [
            | inl n ↦
                rw (serve_absent P fault table now later header route body work key s n)
                  (after key s work)
            | inr (other, h) ↦ elim (Bool-cases (leb other.expires_at now)) [
              | inl old ↦
                  rw
                    (serve_expired P fault table now later header route body work key s other h
                      (ground arith))
                    same
              | inr young ↦
                  rw
                    (serve_live P fault table now later header route body work key s other h
                      (ground arith))
                    same
            ]
          ]
        ]
      where
        same : All (λ x. Q x ⊎ Made (request fault now later header route body work) x) table
        same = All-weaken _ table (λ x q. inl q) all

        after :
            (key : Text)
            → extract_key header ≡ some key
            → (work : Option (Body × Option ℕ))
            → All
                (λ x. Q x ⊎ Made (request fault now later header route body work) x)
                (elim work as (λ w. Keys P × Reply Body) [
                  | none ↦ (table, raised)
                  | some w ↦ (
                    store P fault table later (key, route) (canonical_body_hash body) w.1 w.0 200,
                    fresh w.0,
                  )
                ]).0
        after key s none = All-weaken _ table (λ x q. inl q) all
        after key s (some w) = All-store fault table now later header route body w key s all

  -- Every row has been there from the start or was stored by one of the events.
  All-run :
      (events : List (Event P)) (Q : (Text × Route) × Row Hash Body → Type 0) (table : Keys P)
      → All Q table
      → All (λ x. Q x ⊎ Came events x) (run P events table)
  unfolding run step delete_expired
  All-run [] Q table all = All-weaken Q _ table (λ x q. inl q) all
  All-run (e ∷ events) Q table all =
      All-weaken _ _ (run P events (step P e table))
        (λ x q. elim q [
          | inl (inl old) ↦ inl old
          | inl (inr made) ↦ inr (inl made)
          | inr came ↦ inr (inr came)
        ])
        (All-run events (λ x. Q x ⊎ Made e x) (step P e table) (one e))
    where
      one : (e : Event P) → All (λ x. Q x ⊎ Made e x) (step P e table)
      one (request fault now later header route body work) =
          All-serve Q fault table now later header route body work all
      one (sweep cutoff) = All-only _ _ table (All-weaken Q _ table (λ x q. inl q) all)

  no_replay :
      (b : Body) (status : ℕ) (work : Option (Body × Option ℕ)) → ran P work ≡ replayed b status → ⊥
  no_replay b status none h = cc
  no_replay b status (some w) h = cc

  from_again :
      (row : Row Hash Body) (body : Request) (b : Body) (status : ℕ)
      → again P row body ≡ replayed b status
      → (row.request_hash ≡ canonical_body_hash body)
        × (b ≡ row.response_body)
        × (status ≡ status_or_200 row.response_status)
  from_again row body b status h =
      elim (hash_discrete row.request_hash (canonical_body_hash body)) [
        | yes p ↦ let k = rw (if_pos _ p _ _) at h in (p, cc, cc)
        | no p ↦ absurd (differ (rw (if_neg _ p _ _) at h))
      ]
    where
      differ : idempotency_conflict ≡ replayed b status → ⊥
      differ e = cc

  -- What a replay says of the row that it came from.
  replay_row :
      (fault : Option Fault) (table : Keys P) (now later : ℕ) (header : Option Text) (route : Route)
      (body : Request) (work : Option (Body × Option ℕ)) (b : Body) (status : ℕ)
      → (serve P fault table now later header route body work).1 ≡ replayed b status
      → (key : Text) × (row : Row Hash Body) × (extract_key header ≡ some key)
        × (get key_discrete (key, route) table ≡ some row)
        × (now < row.expires_at)
        × (row.request_hash ≡ canonical_body_hash body)
        × (b ≡ row.response_body)
        × (status ≡ status_or_200 row.response_status)
  replay_row fault table now later header route body work b status h =
      elim (Option-cases (extract_key header)) [
        | inl n ↦ absurd (
            no_replay b status work
              (rw (serve_plain P fault table now later header route body work n) at h))
        | inr (key, s) ↦ elim (Option-cases (get key_discrete (key, route) table)) [
          | inl n ↦ absurd (
              never key work
                (rw (serve_absent P fault table now later header route body work key s n) at h))
          | inr (other, g) ↦ elim (Bool-cases (leb other.expires_at now)) [
            | inl old ↦ absurd (
                no_replay b status work (
                  rw
                    (serve_expired P fault table now later header route body work key s other g
                      (ground arith))
                    at h))
            | inr young ↦
                let k =
                  rw
                    (serve_live P fault table now later header route body work key s other g
                      (ground arith))
                    at h in
                let (p, q, r) = from_again other body b status k in
                (key, other, s, g, ground arith, p, q, r)
          ]
        ]
      ]
    where
      never :
          (key : Text) (work : Option (Body × Option ℕ))
          → (elim work as (λ w. Keys P × Reply Body) [
            | none ↦ (table, raised)
            | some w ↦ (
              store P fault table later (key, route) (canonical_body_hash body) w.1 w.0 200,
              fresh w.0,
            )
          ]).1
            ≡ replayed b status
          → ⊥
      never key none e = cc
      never key (some w) e = cc

  status-Came :
      (events : List (Event P)) (x : (Text × Route) × Row Hash Body)
      → Came events x
      → x.1.response_status ≡ 200
  status-Came [] x c = absurd c
  status-Came (sweep cutoff ∷ events) x (inl made) = absurd made
  status-Came (request fault now later header route body none ∷ events) x (inl made) = absurd made
  status-Came (request fault now later header route body (some w) ∷ events) x (inl made) =
      ap (λ (row : Row Hash Body). row.response_status) made.2
  status-Came (e ∷ events) x (inr came) = status-Came events x came

  -- From an empty table on, after any requests and sweeps, a replayed response was produced with
  -- status 200 by the handler of an earlier request with the same key, the same route and a body
  -- of the same hash, and its row has not ended.
  pub replayed_from :
      (events : List (Event P)) (fault : Option Fault) (now later : ℕ) (header : Option Text)
      (route : Route) (body : Request) (work : Option (Body × Option ℕ)) (b : Body) (status : ℕ)
      → (serve P fault (run P events []) now later header route body work).1 ≡ replayed b status
      → (key : Text) × (row : Row Hash Body) × (extract_key header ≡ some key)
        × Came events ((key, route), row)
        × (now < row.expires_at)
        × (row.request_hash ≡ canonical_body_hash body)
        × (row.response_body ≡ b)
        × (status ≡ 200)
  replayed_from events fault now later header route body work b status h =
      let (key, row, keyed, found, alive, same, body_eq, status_eq) =
        replay_row fault (run P events []) now later header route body work b status h in
      let came =
        All-get key_discrete _ (key, route) row (run P events []) (All-run events (λ x. ⊥) [] tt)
          found in
      let origin : Came events ((key, route), row) = elim came [
        | inl never ↦ absurd never
        | inr c ↦ c
      ] in
      (
        key,
        row,
        keyed,
        origin,
        alive,
        same,
        sym body_eq,
        status_eq ∙ rw (status-Came events ((key, route), row) origin) refl,
      )
