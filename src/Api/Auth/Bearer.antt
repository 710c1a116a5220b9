-- ===== src/Api/Auth/Bearer.antt =====
-- Which requests the static-token middleware lets through, src/cf_knowledge_kiln/api/auth.py.
use cf_knowledge_kiln.Base.{
  ℕ, ◌==◌, true, false, not, ◌||◌, Option, none, some, [], ◌∷◌, ◌++◌, any, ◌≡◌, ◌≢◌, refl, sym, ap,
  subst, ◌∙◌, ◌⊎◌, inl, inr, ◌↔◌, Bool-cases, arith, or_false,
}
use cf_knowledge_kiln.Base.Texts.{
  Text, codes, same, same_sound, same_refl, lower, is_empty, partition,
}
use cf_knowledge_kiln.Api.Auth.{Request, to_app, unauthorized}
use cf_knowledge_kiln.Api.Auth.Paths.{is_public}
use cf_knowledge_kiln.Api.Auth.Tokens.{bearer_value, matches, authorized, space}
use cf_knowledge_kiln.Api.Auth.Handshake.{header}
use cf_knowledge_kiln.Api.Auth.Gate.{bearer_gate}

eq_of_test : (a b : ℕ) → (a == b) ≡ true → a ≡ b
eq_of_test a b h = ground arith

test_refl : (a : ℕ) → (a == a) ≡ true
test_refl a = ground arith

partition_join :
    (sep : ℕ) (t : Text)
    → is_empty (partition sep t).1 ≡ false
    → t ≡ (partition sep t).0 ++ sep ∷ (partition sep t).1
partition_join sep [] h = cc
partition_join sep (c ∷ cs) h = elim (Bool-cases (c == sep)) [
  | inl e ↦ rw e (ap (λ x. x ∷ cs) (eq_of_test c sep e))
  | inr e ↦ rw e (ap (◌∷◌ c) (partition_join sep cs (rw e at h)))
]

partition_split :
    (sep : ℕ) (before after : Text)
    → any (λ c. c == sep) before ≡ false
    → partition sep (before ++ sep ∷ after) ≡ (before, after)
partition_split sep [] after h = rw (test_refl sep) refl
partition_split sep (c ∷ cs) after h =
    let differs = or_false (c == sep) (any (λ c. c == sep) cs) h in
    rw (differs.0, partition_split sep cs after differs.1) refl

any-space-lower : (t : Text) → any (λ c. c == space) (lower t) ≡ any (λ c. c == space) t
any-space-lower [] = refl
any-space-lower (c ∷ cs) = ground (arith, any-space-lower cs)

-- A scheme that reads as `bearer` holds no space.
scheme_plain :
    (scheme : Text) → lower scheme ≡ codes "bearer" → any (λ c. c == space) scheme ≡ false
scheme_plain scheme h = sym (any-space-lower scheme) ∙ ap (λ t. any (λ c. c == space) t) h

-- The header is a scheme that reads as `bearer`, one space and the token.
abbrev pub IsBearerHeader : Text → Option Text → Type 0
IsBearerHeader token h =
    (scheme : Text) × (h ≡ some (scheme ++ space ∷ token)) × (lower scheme ≡ codes "bearer")

authorized_sound :
    (h : Option Text) (expected : Text) → authorized h expected ≡ true → IsBearerHeader expected h
unfolding authorized
authorized_sound none expected a = cc
authorized_sound (some []) expected a = cc
authorized_sound (some (c ∷ cs)) expected a =
    let parts = partition space (c ∷ cs) in
    elim (Bool-cases (not (same (lower parts.0) (codes "bearer")) || is_empty parts.1)) [
      | inl p ↦ (let wrong = rw p at a in cc)
      | inr p ↦
          let (is_bearer, is_set) = or_false (not (same (lower parts.0) (codes "bearer"))) _ p in
          let token_is = same_sound parts.1 expected (rw p at a) in
          (
            parts.0,
            ap some
                (partition_join space (c ∷ cs) is_set ∙ ap (λ t. parts.0 ++ space ∷ t) token_is),
            same_sound _ _ (ground arith),
          )
    ]

bearer_value_of :
    (t scheme value : Text)
    → partition space t ≡ (scheme, value)
    → lower scheme ≡ codes "bearer"
    → is_empty value ≡ false
    → bearer_value t ≡ some value
bearer_value_of t scheme value e h n = rw (e, h, n) refl

set_of : (t : Text) → t ≢ [] → is_empty t ≡ false
set_of [] n = absurd (n refl)
set_of (c ∷ cs) n = refl

authorized_complete :
    (scheme expected : Text)
    → expected ≢ []
    → lower scheme ≡ codes "bearer"
    → authorized (some (scheme ++ space ∷ expected)) expected ≡ true
unfolding authorized
authorized_complete [] expected n h = cc
authorized_complete (c ∷ cs) expected n h =
    let value =
      bearer_value_of (c ∷ cs ++ space ∷ expected) (c ∷ cs) expected
        (partition_split space (c ∷ cs) expected (scheme_plain (c ∷ cs) h)) h (set_of expected n) in
    ap (λ v. matches v expected) value ∙ same_refl expected

unauthorized-ne-to_app : ¬ (unauthorized ≡ to_app)
unauthorized-ne-to_app h = cc

-- For a token that is not empty, the static-token middleware lets a request through exactly if it
-- is no HTTP request, its path is public, or its Authorization header is a scheme that reads as
-- bearer in lower case, one space and the token.
pub bearer_gate_iff :
    (expected : Text) (r : Request)
    → expected ≢ []
    → (bearer_gate expected r ≡ to_app) ↔ (
        ((r.is_http ≡ false) ⊎ (is_public r.path ≡ true))
        ⊎ IsBearerHeader expected (header (codes "authorization") r))
unfolding bearer_gate
bearer_gate_iff expected r n = (sound, complete)
  where
    sound :
        bearer_gate expected r ≡ to_app
        → ((r.is_http ≡ false) ⊎ (is_public r.path ≡ true))
          ⊎ IsBearerHeader expected (header (codes "authorization") r)
    sound h = elim (Bool-cases r.is_http) [
      | inr p ↦ inl (inl p)
      | inl p ↦ elim (Bool-cases (is_public r.path)) [
        | inl q ↦ inl (inr q)
        | inr q ↦ elim (Bool-cases (authorized (header (codes "authorization") r) expected)) [
          | inl a ↦ inr (authorized_sound _ expected a)
          | inr a ↦ absurd (unauthorized-ne-to_app (rw (p, q, a) at h))
        ]
      ]
    ]

    complete :
        ((r.is_http ≡ false) ⊎ (is_public r.path ≡ true))
          ⊎ IsBearerHeader expected (header (codes "authorization") r)
        → bearer_gate expected r ≡ to_app
    complete (inl (inl p)) = rw p refl
    complete (inl (inr q)) = elim (Bool-cases r.is_http) [
      | inr p ↦ rw p refl
      | inl p ↦ rw (p, q) refl
    ]
    complete (inr (scheme, is_header, is_bearer)) =
        let a =
          subst (λ h. authorized h expected ≡ true) (sym is_header)
            (authorized_complete scheme expected n is_bearer) in
        elim (Bool-cases r.is_http) [
          | inr p ↦ rw p refl
          | inl p ↦ elim (Bool-cases (is_public r.path)) [
            | inl q ↦ rw (p, q) refl
            | inr q ↦ rw (p, q, a) refl
          ]
        ]
