-- ===== src/Tests/Access.antt =====
-- Authentication at concrete inputs.
use cf_knowledge_kiln.Base.{
  ℕ, zero, suc, ◌-◌, ◌≡◌, ◌↔◌, refl, true, false, none, some, List, [], ◌∷◌, ◌++◌, ◌⊎◌, ltb, length,
  take, drop, if◌then◌else◌,
}
use cf_knowledge_kiln.Base.Texts.{Text, codes, same}
use cf_knowledge_kiln.Api.Auth.{
  Settings, oidc_mode, production, Request, text_claim, list_claim, Payload, handshake, session,
  Loaded, fresh, expired, bad_signature, Discovery, Platform, Moment, Known, Reply, to_app,
  to_app_as, redirect,
}
use cf_knowledge_kiln.Api.Auth.Paths.{is_public, resolve, normpath, push_component}
use cf_knowledge_kiln.Api.Auth.Places.{IsPublicPlace, is_public-IsPublicPlace}
use cf_knowledge_kiln.Api.Auth.Startup.{
  configure_auth, configure_oidc, with_oidc, IsSafe, configure_auth-IsSafe,
}
use cf_knowledge_kiln.Api.Auth.Tokens.{
  has_required_group, username_of, ensure_discovery, ensure_jwks, validate_jwt,
}
use cf_knowledge_kiln.Api.Auth.Handshake.{
  state_cookie, session_cookie, local_target, cookie_for, absolute_redirect_uri, handle_callback,
  sign_in, login_stash, login_url, header, state_ttl, session_ttl, read_session,
}
use cf_knowledge_kiln.Api.Auth.Gate.{bearer_gate, oidc_gate}
use cf_knowledge_kiln.Api.Auth.Callback.{IsCallback, handle_callback-IsCallback}
use cf_knowledge_kiln.Api.Auth.Passage.{IsPassage, oidc_gate-IsPassage}
use cf_knowledge_kiln.Api.Auth.Bearer.{IsBearerHeader, bearer_gate_iff}

-- A serializer that writes the time of signing and the lengths before the texts.
abbrev written : ℕ → Payload → Text
written at (handshake state verifier next) =
    0 ∷ at ∷ length state ∷ length verifier ∷ (state ++ (verifier ++ next))
written at (session name issued) = 1 ∷ at ∷ issued ∷ name

abbrev aged : ℕ → ℕ → ℕ → Payload → Loaded
aged age now at stash = if ltb age (now - at) then expired else fresh stash

abbrev read_back : ℕ → ℕ → Text → Loaded
read_back age now (zero ∷ at ∷ n ∷ k ∷ rest) =
    aged age now at (handshake (take n rest) (take k (drop n rest)) (drop k (drop n rest)))
read_back age now (suc zero ∷ at ∷ issued ∷ name) = aged age now at (session name issued)
read_back age now _ = bad_signature

abbrev lab : Platform
lab = record {
  Jwks = ℕ;
  decode = λ token keys.
      if same token (codes "token")
      then some (
          (codes "preferred_username", text_claim (codes "ada"))
          ∷ (codes "groups", list_claim (none ∷ some (codes "staff") ∷ []))
          ∷ [])
      else none;
  validate = λ issuer audience now claims. same issuer (codes "https://idp");
  dumps = λ key at stash. written at stash;
  loads = λ key age now text. read_back age now text;
  urlencode = λ pairs. codes "params";
  challenge = λ verifier. verifier;
}

abbrev token_text : Text
token_text = codes "0123456789abcdef0123456789abcdef"

abbrev settings : Settings
settings = record {
  auth_mode = oidc_mode;
  env = production;
  bearer_token = some token_text;
  oidc_issuer = some (codes "https://idp");
  oidc_client_id = some (codes "kiln");
  oidc_client_secret = some (codes "secret");
  oidc_session_secret = none;
  oidc_allow_bearer_fallback = true;
  oidc_audience = none;
  oidc_redirect_path = codes "/auth/callback";
  oidc_username_claim = codes "preferred_username";
  oidc_required_groups = codes "staff" ∷ [];
}

abbrev discovery : Discovery
discovery = record {
  issuer = some (codes "https://idp");
  jwks_uri = some (codes "https://idp/keys");
  authorization_endpoint = some (codes "https://idp/authorize");
  token_endpoint = some (codes "https://idp/token");
  end_session_endpoint = none;
}

abbrev known : Known lab
known = record { discovery = some discovery; jwks = some 7 }

abbrev moment : ℕ → Moment lab
moment now = record {
  now = now;
  new_state = codes "state";
  new_verifier = codes "verifier";
  fetch_discovery = none;
  fetch_jwks = λ uri. none;
  exchange = λ endpoint code uri verifier.
      some (record { status_code = 200; id_token = some (codes "token") });
}

abbrev request_of : Text → List (Text × Text) → List (Text × Text) → List (Text × Text) → Request
request_of path params headers cookies = record {
  is_http = true;
  method = codes "GET";
  path = path;
  query = [];
  query_params = params;
  headers = headers;
  cookies = cookies;
  scheme = codes "https";
}

abbrev login_request : Request
login_request = request_of (codes "/auth/login") ((codes "next", codes "/search") ∷ []) [] []

abbrev callback_request : Request
callback_request =
    request_of (codes "/auth/callback")
      ((codes "code", codes "xyz") ∷ (codes "state", codes "state") ∷ []) []
      ((state_cookie, login_stash lab settings [] (moment 100) login_request) ∷ [])

abbrev search_request : Request
search_request =
    request_of (codes "/search") [] []
      ((session_cookie, written 150 (session (codes "ada") 150)) ∷ [])

key_chosen : configure_auth settings (codes "drawn") ≡ with_oidc (codes "drawn")
unfolding configure_auth configure_oidc
key_chosen = refl

configure_auth-IsSafe_example : IsSafe settings (configure_auth settings (codes "drawn"))
configure_auth-IsSafe_example = configure_auth-IsSafe settings (codes "drawn")

asset_public : is_public (codes "/static/../static//app.css") ≡ true
unfolding is_public normpath resolve push_component
asset_public = refl

no_escape : is_public (codes "/static/../v1/search") ≡ false
unfolding is_public normpath resolve push_component
no_escape = refl

is_public-IsPublicPlace_example : IsPublicPlace (resolve (codes "/static/../static//app.css"))
is_public-IsPublicPlace_example =
    is_public-IsPublicPlace (codes "/static/../static//app.css") refl asset_public

search_private : is_public (codes "/search") ≡ false
unfolding is_public normpath resolve push_component
search_private = refl

-- Ada signs in at 100, is back at 150, and searches at 200.
abbrev login_reply : Reply
login_reply =
    redirect (login_url lab settings [] (moment 100) login_request (codes "https://idp/authorize"))
      (cookie_for login_request state_cookie
          (login_stash lab settings [] (moment 100) login_request) state_ttl
        ∷ [])
      []

abbrev callback_reply : Reply
callback_reply =
    redirect (local_target (codes "/search"))
      (cookie_for callback_request session_cookie (written 150 (session (codes "ada") 150))
          session_ttl
        ∷ [])
      (state_cookie ∷ [])

admitted_run :
    oidc_gate lab settings [] (moment 200) search_request known
    ≡ (some (to_app_as (some (codes "ada"))), known)
unfolding oidc_gate is_public normpath resolve push_component read_session
admitted_run = refl

oidc_gate-IsPassage_example :
    IsPassage lab settings [] (moment 200) known search_request (to_app_as (some (codes "ada")))
oidc_gate-IsPassage_example =
    oidc_gate-IsPassage lab settings [] (moment 200) search_request known known
      (to_app_as (some (codes "ada"))) admitted_run

callback_run :
    handle_callback lab settings [] (moment 150) callback_request known
    ≡ (some callback_reply, known)
unfolding handle_callback sign_in ensure_discovery validate_jwt ensure_jwks has_required_group
    username_of absolute_redirect_uri
callback_run = refl

handle_callback-IsCallback_example :
    IsCallback lab settings [] (moment 150) known callback_request callback_reply
handle_callback-IsCallback_example =
    handle_callback-IsCallback lab settings [] (moment 150) callback_request known known
      callback_reply callback_run

-- A local path whose second character is a backslash is kept.
backslash_kept : local_target (47 ∷ 92 ∷ codes "evil.example") ≡ 47 ∷ 92 ∷ codes "evil.example"
unfolding local_target
backslash_kept = refl

abbrev agent_request : Request
agent_request =
    request_of (codes "/v1/search") []
      ((codes "authorization", codes "Bearer 0123456789abcdef0123456789abcdef") ∷ []) []

bearer_gate_iff_example : (bearer_gate token_text agent_request ≡ to_app) ↔ (
    ((true ≡ false) ⊎ (is_public (codes "/v1/search") ≡ true))
    ⊎ IsBearerHeader token_text (header (codes "authorization") agent_request))
bearer_gate_iff_example = bearer_gate_iff token_text agent_request (λ e. cc)
