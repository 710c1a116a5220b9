-- ===== src/Api/Idempotency/Table.antt =====
-- The table of keys: what a write or a sweep leaves of a row.
use cf_knowledge_kiln.Base.{
  ℕ, ◌+◌, ◌≤◌, ◌≡◌, refl, Bool, Option, none, some, List, [], ◌∷◌, ◌++◌, keep, All, arith,
  Bool-cases, inl, inr, Option-cases, some_inj, none-ne-some, if_pos, if_neg, subst,
}
use cf_knowledge_kiln.Base.OrderedDict.{get, get-snoc}
use cf_knowledge_kiln.Api.HeaderSanitize.{Text}
use cf_knowledge_kiln.Api.Idempotency.{
  Fault, Row, Protocol, Keys, create_if_absent, delete_expired, store,
}

-- What is found under a key is in the table.
pub All-get {ℓ} :
    {K V : Type 0} (dec : Discrete K) (Q : K × V → Type ℓ) (k : K) (v : V) (table : List (K × V))
    → All Q table
    → get dec k table ≡ some v
    → Q (k, v)
unfolding get
All-get dec Q k v [] all e = absurd (none-ne-some e)
All-get dec Q k v (x ∷ table) all e = elim (dec x.0 k) [
  | yes p ↦ subst Q (pair p (some_inj (rw (if_pos (dec x.0 k) p _ _) at e))) all.0
  | no p ↦ All-get dec Q k v table all.1 (rw (if_neg (dec x.0 k) p _ _) at e)
]
  where
    pair : x.0 ≡ k → x.1 ≡ v → x ≡ (k, v)
    pair p q = cc

pub All-only {ℓ} :
    {A : Type 0} (Q : A → Type ℓ) (p : A → Bool) (xs : List A) → All Q xs → All Q (keep p xs)
All-only Q p [] h = tt
All-only Q p (x ∷ xs) h = elim (Bool-cases (p x)) [
  | inl e ↦ rw e (h.0, All-only Q p xs h.1)
  | inr e ↦ rw e (All-only Q p xs h.1)
]

module _ (P : Protocol) where
  open P use {Route, Hash, Body, key_discrete, ttl}

  -- A row that is not expired at the cutoff survives a sweep.
  pub get-delete_expired :
      (cutoff : ℕ) (k : Text × Route) (row : Row Hash Body) (table : Keys P)
      → get key_discrete k table ≡ some row
      → cutoff ≤ row.expires_at
      → get key_discrete k (delete_expired P cutoff table).0 ≡ some row
  unfolding get delete_expired
  get-delete_expired cutoff k row [] e h = e
  get-delete_expired cutoff k row (x ∷ table) e h =
      ground (arith, get-delete_expired cutoff k row table)

  -- A row is never overwritten.
  pub get-store_kept :
      (fault : Option Fault) (table : Keys P) (now : ℕ) (key k : Text × Route) (hash : Hash)
      (resource_id : Option ℕ) (body : Body) (status : ℕ) (row : Row Hash Body)
      → get key_discrete k table ≡ some row
      → get key_discrete k (store P fault table now key hash resource_id body status) ≡ some row
  unfolding store create_if_absent
  get-store_kept (some fault) table now key k hash resource_id body status row e = e
  get-store_kept none table now key k hash resource_id body status row e =
      elim (Option-cases (get key_discrete key table)) [
        | inl n ↦ rw (n, store, create_if_absent) (rw (get-snoc key_discrete key k _ table, e) refl)
        | inr (w, s) ↦ rw (s, store, create_if_absent) e
      ]

  abbrev pub new_row : ℕ → Hash → Option ℕ → Body → ℕ → Row Hash Body
  new_row now hash resource_id body status = record {
    request_hash = hash;
    resource_id = resource_id;
    response_body = body;
    response_status = status;
    expires_at = now + ttl;
  }

  pub store_absent :
      (table : Keys P) (now : ℕ) (key : Text × Route) (hash : Hash) (resource_id : Option ℕ)
      (body : Body) (status : ℕ)
      → get key_discrete key table ≡ none
      → store P none table now key hash resource_id body status
        ≡ table ++ (key, new_row now hash resource_id body status) ∷ []
  unfolding store create_if_absent
  store_absent table now key hash resource_id body status e = rw (e, store, create_if_absent) refl

  pub store_present :
      (fault : Option Fault) (table : Keys P) (now : ℕ) (key : Text × Route) (hash : Hash)
      (resource_id : Option ℕ) (body : Body) (status : ℕ) (row : Row Hash Body)
      → get key_discrete key table ≡ some row
      → store P fault table now key hash resource_id body status ≡ table
  unfolding store create_if_absent
  store_present (some fault) table now key hash resource_id body status row e = refl
  store_present none table now key hash resource_id body status row e =
      rw (e, store, create_if_absent) refl
