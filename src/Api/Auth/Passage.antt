-- ===== src/Api/Auth/Passage.antt =====
-- What reaches the application through the two middlewares of src/cf_knowledge_kiln/api/auth.py.
use cf_knowledge_kiln.Base.{
  true, false, not, Option, none, some, List, ◌≡◌, refl, subst, sym, ◌⊎◌, inl, inr, Bool-cases,
  Option-cases, arith,
}
use cf_knowledge_kiln.Base.Texts.{Text, codes, same, same_sound, get}
use cf_knowledge_kiln.Api.Auth.{
  Settings, Request, Claims, handshake, session, Loaded, fresh, expired, bad_signature, Platform,
  Moment, Known, nonempty, nonempty_same, Reply, to_app, to_app_as, unauthorized, forbidden,
  redirect,
}
use cf_knowledge_kiln.Api.Auth.Paths.{is_public}
use cf_knowledge_kiln.Api.Auth.Tokens.{
  bearer_value, Verdict, invalid, lacks_group, service_account, user, validate_bearer,
  has_required_group, username_of, judge_value, judge_claims, is_service_token, ensure_discovery,
}
use cf_knowledge_kiln.Api.Auth.Handshake.{
  header, handle_callback, handle_login, handle_logout, read_session, session_cookie, session_ttl,
  begin_login, is_browser, redirect_to_login, loaded_user, session_user,
}
use cf_knowledge_kiln.Api.Auth.Gate.{oidc_gate, by_header, by_session, reply_to}
use cf_knowledge_kiln.Api.Auth.Admission.{
  IsSourced, start-IsSourced, IsDocument, ensure_discovery-Ensures, Judges, IsValidToken,
  validate_jwt-Ensures, IsCredential, by_service_token, by_jwt, by_cookie,
}
use cf_knowledge_kiln.Api.Auth.Callback.{
  IsCallback, rejected, not_a_member, signed_in, handle_callback-Ensures,
}
use cf_knowledge_kiln.Api.Auth.Contracts.{Ensures, return-Ensures, if-Ensures, >>=-Ensures}

module _ (P : Platform) (s : Settings) (secret : Text) (m : Moment P) (start : Known P)
    (r : Request) where
  abbrev Sourced : Known P → Type 0
  Sourced = IsSourced P s secret m start

  -- What becomes of a request, with the reason where it reaches the application.
  pub data IsPassage : Reply → Type 0 where
    exempt : (r.is_http ≡ false) ⊎ (is_public r.path ≡ true) → IsPassage to_app
    admitted :
        {name : Option Text}
        → is_public r.path ≡ false
        → IsCredential P s secret m start r name
        → IsPassage (to_app_as name)
    stopped : IsPassage unauthorized
    barred : IsPassage forbidden
    sent :
        {target : Text} {cookies : _} {deleted : List Text}
        → IsPassage (redirect target cookies deleted)

  -- What a verdict says of the header it was passed on.
  Warrants : Text → Verdict → Type 0
  Warrants token service_account =
      (s.oidc_allow_bearer_fallback ≡ true) × (s.bearer_token ≡ some token)
  Warrants token (user name) =
      (claims : Claims) × IsValidToken P s secret m start token claims
      × (has_required_group claims s.oidc_required_groups ≡ true)
      × (username_of s claims ≡ name)
  Warrants token _ = Unit

  judge_claims-Warrants :
      (token : Text) (o : Option Claims)
      → Judges P s secret m start token o
      → Warrants token (judge_claims P s m o)
  unfolding Warrants
  judge_claims-Warrants token none valid = tt
  judge_claims-Warrants token (some claims) valid =
      elim (Bool-cases (has_required_group claims s.oidc_required_groups)) [
        | inl g ↦ rw g (claims, valid claims refl, g, refl)
        | inr g ↦ rw g tt
      ]

  service_token-Warrants :
      (o : Option Text) (value : Text)
      → nonempty s.bearer_token ≡ o
      → is_service_token P s m o value ≡ true
      → Warrants value service_account
  unfolding Warrants
  service_token-Warrants none value e h = cc
  service_token-Warrants (some expected) value e h =
      let value_is = same_sound value expected (ground arith) in
      (ground arith, subst (λ t. s.bearer_token ≡ some t) (sym value_is) (nonempty_same _ _ e))

  judge_value-Ensures :
      (value : Text) → Ensures Sourced (Warrants value) (judge_value P s m (some value))
  unfolding Warrants
  judge_value-Ensures value =
      if-Ensures Sourced (Warrants value) (is_service_token P s m (nonempty s.bearer_token) value) _
        _
        (λ p.
          return-Ensures Sourced (Warrants value) service_account
            (service_token-Warrants _ value refl p))
        (λ p.
          >>=-Ensures Sourced (Judges P s secret m start value) (Warrants value) _ _
            (validate_jwt-Ensures P s secret m start value)
            (λ o valid.
              return-Ensures Sourced (Warrants value) _ (judge_claims-Warrants value o valid)))

  abbrev Cited : Text → Verdict → Type 0
  Cited authorization v =
      (v ≡ invalid)
      ⊎ ((token : Text) × (bearer_value authorization ≡ some token) × Warrants token v)

  validate_bearer-Ensures :
      (authorization : Text)
      → Ensures Sourced (Cited authorization) (validate_bearer P s m authorization)
  unfolding validate_bearer
  validate_bearer-Ensures authorization k k' v i h =
      elim (Option-cases (bearer_value authorization)) [
        | inl e ↦
            return-Ensures Sourced (λ v. Cited authorization v) invalid (inl refl) k k' v i
              (rw e at h)
        | inr (token, e) ↦
            let (warrant, kept) = judge_value-Ensures token k k' v i (rw e at h) in
            (inr (token, e, warrant), kept)
      ]

  reply_to-IsPassage :
      (authorization token : Text) (v : Verdict)
      → is_public r.path ≡ false
      → nonempty (header (codes "authorization") r) ≡ some authorization
      → bearer_value authorization ≡ some token
      → Warrants token v
      → IsPassage (reply_to v)
  unfolding Warrants
  reply_to-IsPassage authorization token invalid p e b w = stopped
  reply_to-IsPassage authorization token lacks_group p e b w = barred
  reply_to-IsPassage authorization token service_account p e b w =
      admitted p (by_service_token e b w.0 w.1)
  reply_to-IsPassage authorization token (user name) p e b (claims, valid, group, named) =
      subst (λ n. IsPassage (to_app_as (some n))) named (admitted p (by_jwt e b valid group))

  stranger-IsPassage : IsPassage (by_session P s secret m r none)
  unfolding redirect_to_login
  stranger-IsPassage = elim (Bool-cases (is_browser r)) [ inl b ↦ rw b sent | inr b ↦ rw b stopped ]

  session_user-IsPassage :
      (signed : Text) (l : Loaded)
      → is_public r.path ≡ false
      → nonempty (header (codes "authorization") r) ≡ none
      → get session_cookie r.cookies ≡ some signed
      → P.loads secret session_ttl m.now signed ≡ l
      → IsPassage (by_session P s secret m r (session_user P s secret m l))
  session_user-IsPassage signed (fresh (session name issued)) p e c l = admitted p (by_cookie e c l)
  session_user-IsPassage signed (fresh (handshake state verifier next)) p e c l = stranger-IsPassage
  session_user-IsPassage signed expired p e c l = stranger-IsPassage
  session_user-IsPassage signed bad_signature p e c l = stranger-IsPassage

  by_session-IsPassage :
      (o : Option Text)
      → is_public r.path ≡ false
      → nonempty (header (codes "authorization") r) ≡ none
      → nonempty (get session_cookie r.cookies) ≡ o
      → IsPassage (by_session P s secret m r (loaded_user P s secret m o))
  by_session-IsPassage none p e c = stranger-IsPassage
  by_session-IsPassage (some signed) p e c =
      session_user-IsPassage signed _ p e (nonempty_same _ _ c) refl

  by_header-Ensures :
      (o : Option Text)
      → is_public r.path ≡ false
      → nonempty (header (codes "authorization") r) ≡ o
      → Ensures Sourced IsPassage (by_header P s secret m r o)
  unfolding read_session
  by_header-Ensures none p e = return-Ensures Sourced IsPassage _ (by_session-IsPassage _ p e refl)
  by_header-Ensures (some authorization) p e =
      >>=-Ensures Sourced (Cited authorization) IsPassage _ _
        (validate_bearer-Ensures authorization)
        (λ v w. return-Ensures Sourced IsPassage (reply_to v) (elim w [
          | inl is_invalid ↦ subst (λ v. IsPassage (reply_to v)) (sym is_invalid) stopped
          | inr (token, b, warrant) ↦ reply_to-IsPassage authorization token v p e b warrant
        ]))

  begin_login-IsPassage : (o : Option Text) → IsPassage (begin_login P s secret m r o)
  begin_login-IsPassage none = stopped
  begin_login-IsPassage (some endpoint) = sent

  IsCallback-IsPassage : (reply : Reply) → IsCallback P s secret m start r reply → IsPassage reply
  IsCallback-IsPassage _ rejected = stopped
  IsCallback-IsPassage _ not_a_member = barred
  IsCallback-IsPassage _ (signed_in c l e x v g t) = sent

  callback_step : Ensures Sourced IsPassage (handle_callback P s secret m r)
  callback_step k k' reply i h =
      let (answer, kept) = handle_callback-Ensures P s secret m start r k k' reply i h in
      (IsCallback-IsPassage reply answer, kept)

  oidc_gate-Ensures : Ensures Sourced IsPassage (oidc_gate P s secret m r)
  unfolding oidc_gate handle_login handle_logout
  oidc_gate-Ensures =
      if-Ensures Sourced IsPassage (not r.is_http) _ _
        (λ h. return-Ensures Sourced IsPassage to_app (exempt (inl (ground arith))))
        (λ h.
          if-Ensures Sourced IsPassage (is_public r.path) _ _
            (λ p. return-Ensures Sourced IsPassage to_app (exempt (inr p)))
            (λ p.
              if-Ensures Sourced IsPassage (same r.path (codes "/auth/login")) _ _
                (λ l.
                  >>=-Ensures Sourced (IsDocument P s secret m start) IsPassage
                    (ensure_discovery P s m) _ (ensure_discovery-Ensures P s secret m start)
                    (λ d doc.
                      return-Ensures Sourced IsPassage _
                        (begin_login-IsPassage (nonempty d.authorization_endpoint))))
                (λ l.
                  if-Ensures Sourced IsPassage (same r.path s.oidc_redirect_path) _ _
                    (λ c. callback_step)
                    (λ c.
                      if-Ensures Sourced IsPassage (same r.path (codes "/auth/logout")) _ _
                        (λ o.
                          >>=-Ensures Sourced (IsDocument P s secret m start) IsPassage
                            (ensure_discovery P s m) _ (ensure_discovery-Ensures P s secret m start)
                            (λ d doc. return-Ensures Sourced IsPassage _ sent))
                        (λ o. by_header-Ensures _ p refl)))))

-- Whatever the caches hold, a request that the OIDC middleware lets through unstamped is no HTTP
-- request or has a public path, and one that it stamps with a user has a path that is not public
-- and carries the static token while the fallback is on, or a token with a required group that
-- decodes under the keys that the cache held or that stand where the provider's discovery document
-- says, with claims valid for that document's issuer, or, without an Authorization header, an
-- unexpired session cookie that names that user.
pub oidc_gate-IsPassage :
    (P : Platform) (s : Settings) (secret : Text) (m : Moment P) (r : Request) (k k' : Known P)
    (reply : Reply)
    → oidc_gate P s secret m r k ≡ (some reply, k')
    → IsPassage P s secret m k r reply
oidc_gate-IsPassage P s secret m r k k' reply h =
    (oidc_gate-Ensures P s secret m k r k k' reply (start-IsSourced P s secret m k) h).0
