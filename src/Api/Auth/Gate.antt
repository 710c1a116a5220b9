-- ===== src/Api/Auth/Gate.antt =====
-- The two middlewares of src/cf_knowledge_kiln/api/auth.py: what becomes of a request.
use cf_knowledge_kiln.Base.{not, Option, none, some, if◌then◌else◌}
use cf_knowledge_kiln.Base.Texts.{Text, codes, same}
use cf_knowledge_kiln.Api.Auth.{
  Settings, Request, Platform, Moment, Run, return, ◌>>=◌, nonempty, Reply, to_app, to_app_as,
  unauthorized, forbidden,
}
use cf_knowledge_kiln.Api.Auth.Paths.{is_public}
use cf_knowledge_kiln.Api.Auth.Tokens.{
  authorized, Verdict, invalid, lacks_group, service_account, user, validate_bearer,
}
use cf_knowledge_kiln.Api.Auth.Handshake.{
  header, is_browser, handle_login, handle_callback, handle_logout, read_session, redirect_to_login,
}

-- `_BearerAuthMiddleware.__call__`
unfoldable pub bearer_gate : Text → Request → Reply
unfolding is_public authorized
bearer_gate expected r =
    if not r.is_http
    then to_app
    else if is_public r.path
    then to_app
    else if not (authorized (header (codes "authorization") r) expected)
    then unauthorized
    else to_app

abbrev pub reply_to : Verdict → Reply
reply_to invalid = unauthorized
reply_to lacks_group = forbidden
reply_to service_account = to_app_as none
reply_to (user name) = to_app_as (some name)

module _ (P : Platform) (s : Settings) (secret : Text) (m : Moment P) where
  abbrev pub by_session : Request → Option Text → Reply
  by_session r (some name) = to_app_as (some name)
  by_session r none = if is_browser r then redirect_to_login P s secret m r else unauthorized

  abbrev pub by_header : Request → Option Text → Run P Reply
  by_header r (some authorization) = do
    verdict ← validate_bearer P s m authorization
    return (reply_to verdict)
  by_header r none = return (by_session r (read_session P s secret m r))

  -- `OIDCAuthMiddleware.__call__`
  unfoldable pub oidc_gate : Request → Run P Reply
  unfolding is_public handle_login handle_callback handle_logout
  oidc_gate r =
      if not r.is_http
      then return to_app
      else if is_public r.path
      then return to_app
      else if same r.path (codes "/auth/login")
      then handle_login P s secret m r
      else if same r.path s.oidc_redirect_path
      then handle_callback P s secret m r
      else if same r.path (codes "/auth/logout")
      then handle_logout P s secret m
      else by_header r (nonempty (header (codes "authorization") r))
