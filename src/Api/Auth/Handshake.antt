-- ===== src/Api/Auth/Handshake.antt =====
-- The browser's sign-in, src/cf_knowledge_kiln/api/auth.py: the redirect to the identity provider,
-- the callback, the logout and the session cookie.
use cf_knowledge_kiln.Base.{
  ℕ, Bool, not, ◌&&◌, ◌||◌, ◌==◌, ◌*◌, Option, none, some, [], ◌∷◌, ◌++◌, if◌then◌else◌,
}
use cf_knowledge_kiln.Base.Texts.{Text, codes, same, lower, is_empty, starts_with, contains, get}
use cf_knowledge_kiln.Api.Auth.{
  Settings, Request, Claims, Payload, handshake, session, Loaded, fresh, expired, bad_signature,
  Exchange, Platform, Moment, Run, return, raise, ◌>>=◌, nonempty, or_else, Cookie, Reply,
  unauthorized, forbidden, redirect,
}
use cf_knowledge_kiln.Api.Auth.Tokens.{
  ensure_discovery, validate_jwt, has_required_group, username_of,
}

abbrev pub session_cookie : Text
session_cookie = codes "kiln_session"

abbrev pub session_ttl : ℕ
session_ttl = 8 * 3600

abbrev pub state_cookie : Text
state_cookie = codes "kiln_oidc_state"

abbrev pub state_ttl : ℕ
state_ttl = 600

abbrev pub header : Text → Request → Option Text
header name r = get name r.headers

-- `_cookie_secure`
unfoldable pub cookie_secure : Request → Bool
cookie_secure r =
    same (lower (or_else (header (codes "x-forwarded-proto") r) [])) (codes "https")
    || same r.scheme (codes "https")

-- `_absolute_redirect_uri`
unfoldable pub absolute_redirect_uri : Request → Text → Text
absolute_redirect_uri r path =
    let proto = or_else (header (codes "x-forwarded-proto") r) r.scheme in
    let host =
      or_else (header (codes "x-forwarded-host") r)
        (or_else (header (codes "host") r) (codes "localhost")) in
    proto ++ codes "://" ++ host ++ path

-- `_is_browser`
unfoldable pub is_browser : Request → Bool
is_browser r =
    same r.method (codes "GET")
    && contains (codes "text/html") (or_else (header (codes "accept") r) [])

-- `next_url` of the callback: a text that does not begin with one slash becomes the root.
unfoldable pub local_target : Text → Text
local_target next =
    if not (starts_with (codes "/") next) || starts_with (codes "//") next then codes "/" else next

abbrev pub cookie_for : Request → Text → Text → ℕ → Cookie
cookie_for r name value max_age = record {
  name = name;
  value = value;
  max_age = max_age;
  secure = cookie_secure r;
}

module _ (P : Platform) (s : Settings) (secret : Text) (m : Moment P) where
  abbrev pub login_url : Request → Text → Text
  login_url r endpoint =
      let params =
        (codes "response_type", codes "code")
        ∷ (codes "client_id", or_else s.oidc_client_id [])
        ∷ (codes "redirect_uri", absolute_redirect_uri r s.oidc_redirect_path)
        ∷ (codes "scope", codes "openid profile email")
        ∷ (codes "state", m.new_state)
        ∷ (codes "code_challenge", P.challenge m.new_verifier)
        ∷ (codes "code_challenge_method", codes "S256")
        ∷ [] in
      endpoint ++ codes "?" ++ P.urlencode params

  -- Where the user wants to go, and what the login signs with it: the state and the verifier.
  abbrev pub next_of : Request → Text
  next_of r = or_else (get (codes "next") r.query_params) (codes "/")

  abbrev pub login_stash : Request → Text
  login_stash r = P.dumps secret m.now (handshake m.new_state m.new_verifier (next_of r))

  abbrev pub begin_login : Request → Option Text → Reply
  begin_login r none = unauthorized
  begin_login r (some endpoint) =
      redirect (login_url r endpoint) (cookie_for r state_cookie (login_stash r) state_ttl ∷ []) []

  -- `_handle_login`
  unfoldable pub handle_login : Request → Run P Reply
  unfolding ensure_discovery
  handle_login r = do
    d ← ensure_discovery P s m
    return (begin_login r (nonempty d.authorization_endpoint))

  -- The end of a callback: the claims of the identity token, where it is valid.
  unfoldable pub sign_in : Request → Text → Option Claims → Reply
  unfolding local_target cookie_secure has_required_group username_of
  sign_in r next none = unauthorized
  sign_in r next (some claims) =
      if not (has_required_group claims s.oidc_required_groups)
      then forbidden
      else let value = P.dumps secret m.now (session (username_of s claims) m.now) in
        redirect (local_target (or_else (some next) (codes "/")))
          (cookie_for r session_cookie value session_ttl ∷ []) (state_cookie ∷ [])

  abbrev pub with_token : Request → Text → Option Text → Run P Reply
  with_token r next none = return unauthorized
  with_token r next (some token) = do
    claims ← validate_jwt P s m token
    return (sign_in r next claims)

  abbrev pub with_answer : Request → Text → Option Exchange → Run P Reply
  with_answer r next none = raise
  with_answer r next (some answer) =
      if not (answer.status_code == 200)
      then return unauthorized
      else with_token r next (nonempty answer.id_token)

  abbrev pub with_endpoint : Request → Text → Text → Text → Option Text → Run P Reply
  with_endpoint r code verifier next none = return unauthorized
  with_endpoint r code verifier next (some endpoint) =
      with_answer r next
        (m.exchange endpoint code (absolute_redirect_uri r s.oidc_redirect_path) verifier)

  abbrev pub with_code : Request → Text → Text → Option Text → Run P Reply
  with_code r verifier next none = return unauthorized
  with_code r verifier next (some code) = do
    d ← ensure_discovery P s m
    with_endpoint r code verifier next (nonempty d.token_endpoint)

  -- The stash of a session has no entry `state`: reading it raises.
  abbrev pub with_state : Request → Payload → Option Text → Run P Reply
  with_state r stash none = return unauthorized
  with_state r (session name issued) (some inbound) = raise
  with_state r (handshake state verifier next) (some inbound) =
      if not (same inbound state)
      then return unauthorized
      else with_code r verifier next (nonempty (get (codes "code") r.query_params))

  abbrev pub with_stash : Request → Loaded → Run P Reply
  with_stash r expired = return unauthorized
  with_stash r bad_signature = return unauthorized
  with_stash r (fresh stash) = with_state r stash (nonempty (get (codes "state") r.query_params))

  abbrev pub with_cookie : Request → Option Text → Run P Reply
  with_cookie r none = return unauthorized
  with_cookie r (some signed) = with_stash r (P.loads secret state_ttl m.now signed)

  -- `_handle_callback`
  unfoldable pub handle_callback : Request → Run P Reply
  handle_callback r = with_cookie r (nonempty (get state_cookie r.cookies))

  -- `_handle_logout`
  unfoldable pub handle_logout : Run P Reply
  unfolding ensure_discovery
  handle_logout = do
    d ← ensure_discovery P s m
    return (redirect (or_else d.end_session_endpoint (codes "/")) [] (session_cookie ∷ []))

  abbrev pub session_user : Loaded → Option Text
  session_user (fresh (session name issued)) = some name
  session_user (fresh (handshake state verifier next)) = none
  session_user expired = none
  session_user bad_signature = none

  abbrev pub loaded_user : Option Text → Option Text
  loaded_user none = none
  loaded_user (some signed) = session_user (P.loads secret session_ttl m.now signed)

  -- `_read_session`
  unfoldable pub read_session : Request → Option Text
  read_session r = loaded_user (nonempty (get session_cookie r.cookies))

  -- `_redirect_to_login`
  unfoldable pub redirect_to_login : Request → Reply
  redirect_to_login r =
      let next = if is_empty r.query then r.path else r.path ++ codes "?" ++ r.query in
      redirect (codes "/auth/login?" ++ P.urlencode ((codes "next", next) ∷ [])) [] []
