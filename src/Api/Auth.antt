-- ===== src/Api/Auth.antt =====
-- The authentication of requests, src/cf_knowledge_kiln/api/auth.py: what the middleware keeps,
-- what it takes from the identity provider and from the signing and token libraries, and the
-- values that pass between its parts.
use cf_knowledge_kiln.Base.{
  ℕ, Bool, Option, none, some, List, [], ◌∷◌, ◌≡◌, refl, ap, none-ne-some, some_inj,
}
use cf_knowledge_kiln.Base.Texts.{Text}
pub mod Paths
pub mod Tokens
pub mod Handshake
pub mod Gate
pub mod Startup
pub mod Admission
pub mod Contracts
pub mod Callback
pub mod Passage
pub mod Bearer
pub mod Places

-- The settings that the middleware reads.
pub data Mode : Type 0 where
  open_mode bearer_mode mtls_mode oidc_mode other_mode : Mode

pub data Deployment : Type 0 where
  development staging production : Deployment

pub record Settings : Type 0 where
  pub auth_mode : Mode
  pub env : Deployment
  pub bearer_token : Option Text
  pub oidc_issuer : Option Text
  pub oidc_client_id : Option Text
  pub oidc_client_secret : Option Text
  pub oidc_session_secret : Option Text
  pub oidc_allow_bearer_fallback : Bool
  pub oidc_audience : Option Text
  pub oidc_redirect_path : Text
  pub oidc_username_claim : Text
  pub oidc_required_groups : List Text

-- A request as the middleware sees it. The names of headers are in lower case.
pub record Request : Type 0 where
  pub is_http : Bool
  pub method : Text
  pub path : Text
  pub query : Text
  pub query_params : List (Text × Text)
  pub headers : List (Text × Text)
  pub cookies : List (Text × Text)
  pub scheme : Text

-- The value of a claim: a string, a list (an element that is no string is `none`), anything else.
pub data Claim : Type 0 where
  text_claim : Text → Claim
  list_claim : List (Option Text) → Claim
  other_claim : Claim

abbrev pub Claims : Type 0
Claims = List (Text × Claim)

-- What a signed cookie carries: the stash of a sign-in that has begun, or a session.
pub data Payload : Type 0 where
  handshake : Text → Text → Text → Payload
  session : Text → ℕ → Payload

pub data Loaded : Type 0 where
  fresh : Payload → Loaded
  expired : Loaded
  bad_signature : Loaded

-- The discovery document of the issuer, by the entries that are read.
pub record Discovery : Type 0 where
  pub issuer : Option Text
  pub jwks_uri : Option Text
  pub authorization_endpoint : Option Text
  pub token_endpoint : Option Text
  pub end_session_endpoint : Option Text

-- The answer of the token endpoint: its status and the `id_token` of its body.
pub record Exchange : Type 0 where
  pub status_code : ℕ
  pub id_token : Option Text

-- The libraries that sign and verify, and the parts of the handshake's texts that they make.
pub record Platform : Type 1 where
  pub Jwks : Type 0
  -- the signature of a token under a key set, then its claims against issuer, audience and time
  pub decode : Text → Jwks → Option Claims
  pub validate : Text → Option Text → ℕ → Claims → Bool
  -- the serializer: a key, and the time of signing or (with a maximal age) of loading
  pub dumps : Text → ℕ → Payload → Text
  pub loads : Text → ℕ → ℕ → Text → Loaded
  -- `urlencode` of pairs, and the S256 challenge of a verifier
  pub urlencode : List (Text × Text) → Text
  pub challenge : Text → Text

-- What one request meets outside: the clock, the random texts, and the answers of the identity
-- provider (`none` where the call raises).
pub record Moment (P : Platform) : Type 0 where
  pub now : ℕ
  pub new_state : Text
  pub new_verifier : Text
  pub fetch_discovery : Option Discovery
  pub fetch_jwks : Text → Option (P.Jwks)
  -- the token endpoint, with the code, the redirect URI and the verifier
  pub exchange : Text → Text → Text → Text → Option Exchange

-- The middleware's cache of the discovery document and the keys.
pub record Known (P : Platform) : Type 0 where
  pub discovery : Option Discovery
  pub jwks : Option (P.Jwks)

pub record Cookie : Type 0 where
  pub name : Text
  pub value : Text
  pub max_age : ℕ
  pub secure : Bool

-- What becomes of a request: it reaches the application (with the user stamped on it, where one
-- is), or it is answered. A redirect carries the cookies it sets and those it deletes.
pub data Reply : Type 0 where
  to_app : Reply
  to_app_as : Option Text → Reply
  unauthorized : Reply
  forbidden : Reply
  redirect : Text → List Cookie → List Text → Reply

-- A step of the middleware: it may raise (`none`), and it may fill the cache.
abbrev pub Run : Platform → Type 0 → Type 0
Run P A = Known P → Option A × Known P

module _ {P : Platform} {A : Type 0} where
  abbrev pub return : A → Run P A
  return a k = (some a, k)

  abbrev pub raise : Run P A
  raise k = (none, k)

module _ {P : Platform} {A B : Type 0} where
  -- What follows a step that has ended.
  abbrev pub resume : Option A × Known P → (A → Run P B) → Option B × Known P
  resume (none, k) f = (none, k)
  resume (some a, k) f = f a k

  infixl 5 ◌>>=◌
  abbrev pub ◌>>=◌ : Run P A → (A → Run P B) → Run P B
  (m >>= f) k = resume (m k) f

module _ {P : Platform} {A B : Type 0} where
  ended :
      (o : Option A × Known P) (f : A → Run P B) {b : B} {k' : Known P}
      → resume o f ≡ (some b, k')
      → (a : A) × (k : Known P) × (o ≡ (some a, k)) × (f a k ≡ (some b, k'))
  ended (none, k) f h = absurd (none-ne-some (ap (λ o. o.0) h))
  ended (some a, k) f h = (a, k, refl, h)

  -- Both steps of a run that has ended have ended.
  pub >>=-eq-some :
      (m : Run P A) (f : A → Run P B) (k : Known P) {b : B} {k' : Known P}
      → (m >>= f) k ≡ (some b, k')
      → (a : A) × (k₁ : Known P) × (m k ≡ (some a, k₁)) × (f a k₁ ≡ (some b, k'))
  >>=-eq-some m f k h = ended (m k) f h

module _ {P : Platform} {A : Type 0} where
  pub return_inj : {a b : A} {k k' : Known P} → return a k ≡ (some b, k') → a ≡ b
  return_inj {a} {b} {k} {k'} h = some_inj (ap {A = Option A × Known P} {B = Option A} (λ o. o.0) h)

-- A text that is set and not empty, as Python's truth value of an optional text tells.
abbrev pub nonempty : Option Text → Option Text
nonempty none = none
nonempty (some []) = none
nonempty (some (c ∷ cs)) = some (c ∷ cs)

pub nonempty_same : (o : Option Text) (t : Text) → nonempty o ≡ some t → o ≡ some t
nonempty_same none t h = cc
nonempty_same (some []) t h = cc
nonempty_same (some (c ∷ cs)) t h = h

abbrev pub or_else : Option Text → Text → Text
or_else none d = d
or_else (some []) d = d
or_else (some (c ∷ cs)) d = c ∷ cs
