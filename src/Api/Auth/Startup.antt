-- ===== src/Api/Auth/Startup.antt =====
-- The validation of the authentication settings at startup, `configure_auth` and `_configure_oidc`
-- of src/cf_knowledge_kiln/api/auth.py.
use cf_knowledge_kiln.Base.{
  ℕ, ◌≤◌, Bool, true, false, not, ◌&&◌, Option, none, some, if◌then◌else◌, ltb, length, ◌≡◌, arith,
  Bool-cases, Option-cases, inl, inr,
}
use cf_knowledge_kiln.Base.Texts.{Text}
use cf_knowledge_kiln.Api.Auth.{
  Settings, Mode, open_mode, bearer_mode, mtls_mode, oidc_mode, other_mode, Deployment, development,
  staging, production, nonempty, nonempty_same,
}

-- Why the start is refused.
pub data Refusal : Type 0 where
  open_in_deployment mtls_missing no_token short_token no_issuer no_client_id : Refusal
  no_client_secret no_fallback_token unknown_mode : Refusal

-- The middleware that is added: none, the static token's, or OIDC's with its signing key.
pub data Setup : Type 0 where
  unprotected : Setup
  with_bearer : Text → Setup
  with_oidc : Text → Setup
  refused : Refusal → Setup

abbrev pub min_bearer_length : ℕ
min_bearer_length = 32

abbrev pub is_deployed : Deployment → Bool
is_deployed development = false
is_deployed staging = true
is_deployed production = true

abbrev pub is_set : Option Text → Bool
is_set value = elim (nonempty value) [ none ↦ false | some v ↦ true ]

abbrev pub bearer_setup : Option Text → Setup
bearer_setup none = refused no_token
bearer_setup (some token) =
    if ltb (length token) min_bearer_length then refused short_token else with_bearer token

abbrev pub signing_key : Option Text → Text → Text
signing_key none generated = generated
signing_key (some key) generated = key

-- `_configure_oidc`, with the key that would be generated
unfoldable pub configure_oidc : Settings → Text → Setup
configure_oidc s generated =
    if not (is_set s.oidc_issuer)
    then refused no_issuer
    else if not (is_set s.oidc_client_id)
    then refused no_client_id
    else if not (is_set s.oidc_client_secret)
    then refused no_client_secret
    else if s.oidc_allow_bearer_fallback && not (is_set s.bearer_token)
    then refused no_fallback_token
    else with_oidc (signing_key (nonempty s.oidc_session_secret) generated)

abbrev pub setup_for : Mode → Settings → Text → Setup
setup_for open_mode s generated =
    if is_deployed s.env then refused open_in_deployment else unprotected
setup_for mtls_mode s generated = refused mtls_missing
setup_for bearer_mode s generated = bearer_setup (nonempty s.bearer_token)
setup_for oidc_mode s generated = configure_oidc s generated
setup_for other_mode s generated = refused unknown_mode

unfoldable pub configure_auth : Settings → Text → Setup
configure_auth s generated = setup_for s.auth_mode s generated

-- What a setup promises of the settings it comes from.
pub data IsSafe (s : Settings) : Setup → Type 0 where
  safe_open : is_deployed s.env ≡ false → IsSafe s unprotected
  safe_bearer :
      {token : Text}
      → s.bearer_token ≡ some token
      → min_bearer_length ≤ length token
      → IsSafe s (with_bearer token)
  safe_oidc :
      {key : Text}
      → is_set s.oidc_issuer ≡ true
      → is_set s.oidc_client_id ≡ true
      → is_set s.oidc_client_secret ≡ true
      → (s.oidc_allow_bearer_fallback ≡ true → is_set s.bearer_token ≡ true)
      → IsSafe s (with_oidc key)
  safe_refusal : {why : Refusal} → IsSafe s (refused why)

bearer_setup-IsSafe : (s : Settings) → IsSafe s (bearer_setup (nonempty s.bearer_token))
bearer_setup-IsSafe s = elim (Option-cases (nonempty s.bearer_token)) [
  | inl e ↦ rw e safe_refusal
  | inr (t, e) ↦ rw e (elim (Bool-cases (ltb (length t) min_bearer_length)) [
    | inl p ↦ rw p safe_refusal
    | inr p ↦ rw p (safe_bearer (nonempty_same s.bearer_token t e) (ground arith))
  ])
]

configure_oidc-IsSafe : (s : Settings) (generated : Text) → IsSafe s (configure_oidc s generated)
unfolding configure_oidc
configure_oidc-IsSafe s generated = elim (Bool-cases (is_set s.oidc_issuer)) [
  | inr p ↦ rw p safe_refusal
  | inl p ↦ rw p (elim (Bool-cases (is_set s.oidc_client_id)) [
    | inr q ↦ rw q safe_refusal
    | inl q ↦ rw q (elim (Bool-cases (is_set s.oidc_client_secret)) [
      | inr t ↦ rw t safe_refusal
      | inl t ↦
          rw t (elim (Bool-cases (s.oidc_allow_bearer_fallback && not (is_set s.bearer_token))) [
            | inl f ↦ rw f safe_refusal
            | inr f ↦ rw f (safe_oidc p q t (λ h. ground arith))
          ])
    ])
  ])
]

-- A start that is not refused is without authentication only in development, with a bearer token
-- that is set and has at least 32 characters, or with OIDC where issuer, client and secret are
-- set, and the token too if the fallback is on.
pub configure_auth-IsSafe :
    (s : Settings) (generated : Text) → IsSafe s (configure_auth s generated)
unfolding configure_auth
configure_auth-IsSafe s generated = by_mode s.auth_mode
  where
    by_mode : (mode : Mode) → IsSafe s (setup_for mode s generated)
    by_mode open_mode = elim (Bool-cases (is_deployed s.env)) [
      | inl p ↦ rw p safe_refusal
      | inr p ↦ rw p (safe_open p)
    ]
    by_mode bearer_mode = bearer_setup-IsSafe s
    by_mode mtls_mode = safe_refusal
    by_mode oidc_mode = configure_oidc-IsSafe s generated
    by_mode other_mode = safe_refusal
