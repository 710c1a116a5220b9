-- ===== src/Api/Auth/Tokens.antt =====
-- The validation of credentials, src/cf_knowledge_kiln/api/auth.py: static bearer tokens, the
-- provider's tokens, the groups, and the lazily loaded discovery document and keys.
use cf_knowledge_kiln.Base.{
  ℕ, Bool, true, false, not, ◌&&◌, ◌||◌, Option, none, some, List, [], ◌∷◌, any, if◌then◌else◌,
}
use cf_knowledge_kiln.Base.Texts.{Text, codes, same, lower, is_empty, partition, get}
use cf_knowledge_kiln.Api.Auth.{
  Settings, Claim, text_claim, list_claim, Claims, Discovery, Platform, Moment, Run, return, raise,
  ◌>>=◌, nonempty, or_else,
}

abbrev pub space : ℕ
space = 32

-- The value of a header `Bearer <value>`.
abbrev pub bearer_value : Text → Option Text
bearer_value header =
    let (scheme, value) = partition space header in
    if not (same (lower scheme) (codes "bearer")) || is_empty value then none else some value

abbrev pub matches : Option Text → Text → Bool
matches none expected = false
matches (some value) expected = same value expected

-- `_authorized`, on the request's Authorization header
unfoldable pub authorized : Option Text → Text → Bool
authorized none expected = false
authorized (some []) expected = false
authorized (some (c ∷ cs)) expected = matches (bearer_value (c ∷ cs)) expected

abbrev pub is_member : Text → List (Option Text) → Bool
is_member g [] = false
is_member g (none ∷ gs) = is_member g gs
is_member g (some h ∷ gs) = same h g || is_member g gs

abbrev pub in_groups : Option Claim → List Text → Bool
in_groups (some (list_claim groups)) required = any (λ g. is_member g groups) required
in_groups _ required = false

unfoldable pub has_required_group : Claims → List Text → Bool
has_required_group claims [] = true
has_required_group claims (r ∷ rs) = in_groups (get (codes "groups") claims) (r ∷ rs)

-- The configured claim, where it is a text that is not empty; else the empty text.
abbrev pub claimed_name : Option Claim → Text
claimed_name (some (text_claim name)) = name
claimed_name _ = []

unfoldable pub username_of : Settings → Claims → Text
username_of s claims = claimed_name (get (s.oidc_username_claim) claims)

module _ (P : Platform) (s : Settings) (m : Moment P) where
  abbrev pub remember : Discovery → Run P Discovery
  remember d k = (some d, record k { discovery = some d })

  abbrev pub load_discovery : Option Discovery → Option Discovery → Run P Discovery
  load_discovery (some d) _ = return d
  load_discovery none (some d) = remember d
  load_discovery none none = raise

  -- `_ensure_discovery`
  unfoldable pub ensure_discovery : Run P Discovery
  ensure_discovery k = load_discovery k.discovery m.fetch_discovery k

  abbrev pub remember_keys : Option (P.Jwks) → Run P (P.Jwks)
  remember_keys none k = (none, k)
  remember_keys (some keys) k = (some keys, record k { jwks = some keys })

  abbrev pub fetch_keys : Option Text → Run P (P.Jwks)
  fetch_keys none = raise
  fetch_keys (some uri) = remember_keys (m.fetch_jwks uri)

  abbrev pub load_keys : Option (P.Jwks) → Run P (P.Jwks)
  load_keys (some keys) = return keys
  load_keys none = do d ← ensure_discovery; fetch_keys (nonempty d.jwks_uri)

  -- `_ensure_jwks`
  unfoldable pub ensure_jwks : Run P (P.Jwks)
  unfolding ensure_discovery
  ensure_jwks k = load_keys k.jwks k

  abbrev pub audience : Option Text
  audience = elim (nonempty s.oidc_audience) [ none ↦ s.oidc_client_id | some a ↦ some a ]

  -- `iss` is compared to the discovery document's issuer, or else the configured one.
  abbrev pub expected_issuer : Discovery → Text
  expected_issuer d = or_else d.issuer (or_else s.oidc_issuer [])

  abbrev pub accept : Claims → Discovery → Option Claims
  accept claims d =
      if P.validate (expected_issuer d) audience m.now claims then some claims else none

  abbrev pub checked_claims : Option Claims → Run P (Option Claims)
  checked_claims none = return none
  checked_claims (some claims) = do d ← ensure_discovery; return (accept claims d)

  -- `_validate_jwt`: the claims of a valid token, `none` for `_JWTValidationError`.
  unfoldable pub validate_jwt : Text → Run P (Option Claims)
  unfolding ensure_discovery ensure_jwks
  validate_jwt token = do keys ← ensure_jwks; checked_claims (P.decode token keys)

-- The verdict on an Authorization header.
pub data Verdict : Type 0 where
  invalid : Verdict
  lacks_group : Verdict
  service_account : Verdict
  user : Text → Verdict

module _ (P : Platform) (s : Settings) (m : Moment P) where
  abbrev pub judge_claims : Option Claims → Verdict
  judge_claims none = invalid
  judge_claims (some claims) =
      if has_required_group claims s.oidc_required_groups
      then user (username_of s claims)
      else lacks_group

  abbrev pub is_service_token : Option Text → Text → Bool
  is_service_token none value = false
  is_service_token (some expected) value = s.oidc_allow_bearer_fallback && same value expected

  abbrev pub judge_value : Option Text → Run P Verdict
  judge_value none = return invalid
  judge_value (some value) =
      if is_service_token (nonempty s.bearer_token) value
      then return service_account
      else do claims ← validate_jwt P s m value; return (judge_claims claims)

  -- `_validate_bearer`
  unfoldable pub validate_bearer : Text → Run P Verdict
  unfolding validate_jwt
  validate_bearer header = judge_value (bearer_value header)
