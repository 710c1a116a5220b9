-- ===== src/Api/Auth/Callback.antt =====
-- When the callback of src/cf_knowledge_kiln/api/auth.py signs a user in, and where it sends them.
use cf_knowledge_kiln.Base.{
  ◌==◌, true, false, not, ◌||◌, Option, none, some, [], ◌∷◌, ◌≡◌, refl, subst, inl, inr, Bool-cases,
  arith,
}
use cf_knowledge_kiln.Base.Texts.{Text, codes, same, same_sound, starts_with, get}
use cf_knowledge_kiln.Api.Auth.{
  Settings, Request, Claims, Discovery, Payload, handshake, session, Loaded, fresh, expired,
  bad_signature, Exchange, Platform, Moment, Known, nonempty, or_else, Reply, unauthorized,
  forbidden, redirect,
}
use cf_knowledge_kiln.Api.Auth.Tokens.{has_required_group, username_of, ensure_discovery}
use cf_knowledge_kiln.Api.Auth.Handshake.{
  state_cookie, state_ttl, session_cookie, session_ttl, cookie_for, local_target, sign_in,
  with_token, with_answer, with_endpoint, with_code, with_state, with_stash, with_cookie,
  handle_callback, absolute_redirect_uri,
}
use cf_knowledge_kiln.Api.Auth.Admission.{
  IsDocument, IsSourced, start-IsSourced, IsValidToken, Judges, validate_jwt-Ensures,
  ensure_discovery-Ensures,
}
use cf_knowledge_kiln.Api.Auth.Contracts.{
  Ensures, return-Ensures, raise-Ensures, if-Ensures, >>=-Ensures,
}

-- A target on this host: one slash, and then no slash.
pub record IsLocal (target : Text) : Type 0 where
  pub rooted : starts_with (codes "/") target ≡ true
  pub hostless : starts_with (codes "//") target ≡ false

pub local_target-IsLocal : (next : Text) → IsLocal (local_target next)
unfolding local_target
local_target-IsLocal next =
    elim (Bool-cases (not (starts_with (codes "/") next) || starts_with (codes "//") next)) [
      | inl p ↦ rw p (record { rooted = refl; hostless = refl })
      | inr p ↦ rw p (record { rooted = ground arith; hostless = ground arith })
    ]

module _ (P : Platform) (s : Settings) (secret : Text) (m : Moment P) (start : Known P)
    (r : Request) where
  -- The provider's answer to the exchange of the code in the URL, at the document's endpoint and
  -- with the verifier of the stash: it has the token.
  pub record IsExchanged (verifier token : Text) : Type 0 where
    pub document : Discovery
    pub published : IsDocument P s secret m start document
    pub endpoint : Text
    pub at_endpoint : nonempty document.token_endpoint ≡ some endpoint
    pub code : Text
    pub in_url : nonempty (get (codes "code") r.query_params) ≡ some code
    pub answer : Exchange
    pub answered :
        m.exchange endpoint code (absolute_redirect_uri r s.oidc_redirect_path) verifier
        ≡ some answer
    pub accepted : (answer.status_code == 200) ≡ true
    pub carries : nonempty answer.id_token ≡ some token

  -- The answers of the callback.
  pub data IsCallback : Reply → Type 0 where
    rejected : IsCallback unauthorized
    not_a_member : IsCallback forbidden
    signed_in :
        {signed state verifier next token target : Text} {claims : Claims}
        → nonempty (get state_cookie r.cookies) ≡ some signed
        → P.loads secret state_ttl m.now signed ≡ fresh (handshake state verifier next)
        → nonempty (get (codes "state") r.query_params) ≡ some state
        → IsExchanged verifier token
        → IsValidToken P s secret m start token claims
        → has_required_group claims s.oidc_required_groups ≡ true
        → IsLocal target
        → IsCallback (
            redirect target
              (cookie_for r session_cookie
                  (P.dumps secret m.now (session (username_of s claims) m.now))
                  session_ttl
                ∷ [])
              (state_cookie ∷ []))

  module _ (signed state verifier next : Text)
      (cookie_set : nonempty (get state_cookie r.cookies) ≡ some signed)
      (loaded : P.loads secret state_ttl m.now signed ≡ fresh (handshake state verifier next))
      (returned : nonempty (get (codes "state") r.query_params) ≡ some state) where
    sign_in-IsCallback :
        (token : Text) (o : Option Claims)
        → IsExchanged verifier token
        → Judges P s secret m start token o
        → IsCallback (sign_in P s secret m r next o)
    unfolding sign_in
    sign_in-IsCallback token none from valid = rejected
    sign_in-IsCallback token (some claims) from valid =
        elim (Bool-cases (has_required_group claims s.oidc_required_groups)) [
          | inr g ↦ rw g not_a_member
          | inl g ↦ rw g (
              signed_in cookie_set loaded returned from (valid claims refl) g
                (local_target-IsLocal (or_else (some next) (codes "/"))))
        ]

    with_token-Ensures :
        (o : Option Text)
        → ((token : Text) → o ≡ some token → IsExchanged verifier token)
        → Ensures (IsSourced P s secret m start) IsCallback (with_token P s secret m r next o)
    with_token-Ensures none from = return-Ensures _ IsCallback unauthorized rejected
    with_token-Ensures (some token) from =
        >>=-Ensures _ (Judges P s secret m start token) IsCallback _ _
          (validate_jwt-Ensures P s secret m start token)
          (λ o valid.
            return-Ensures _ IsCallback _ (sign_in-IsCallback token o (from token refl) valid))

    with_answer-Ensures :
        (d : Discovery) (endpoint code : Text) (o : Option Exchange)
        → IsDocument P s secret m start d
        → nonempty d.token_endpoint ≡ some endpoint
        → nonempty (get (codes "code") r.query_params) ≡ some code
        → m.exchange endpoint code (absolute_redirect_uri r s.oidc_redirect_path) verifier ≡ o
        → Ensures (IsSourced P s secret m start) IsCallback (with_answer P s secret m r next o)
    with_answer-Ensures d endpoint code none doc at_endpoint in_url e = raise-Ensures _ IsCallback
    with_answer-Ensures d endpoint code (some answer) doc at_endpoint in_url e =
        if-Ensures _ IsCallback (not (answer.status_code == 200)) _ _
          (λ p. return-Ensures _ IsCallback unauthorized rejected)
          (λ p. with_token-Ensures (nonempty answer.id_token) (λ token carries. record {
            document = d;
            published = doc;
            endpoint = endpoint;
            at_endpoint = at_endpoint;
            code = code;
            in_url = in_url;
            answer = answer;
            answered = e;
            accepted = ground (arith, p);
            carries = carries;
          }))

    with_endpoint-Ensures :
        (d : Discovery) (code : Text) (o : Option Text)
        → IsDocument P s secret m start d
        → nonempty d.token_endpoint ≡ o
        → nonempty (get (codes "code") r.query_params) ≡ some code
        → Ensures
            (IsSourced P s secret m start)
            IsCallback
            (with_endpoint P s secret m r code verifier next o)
    with_endpoint-Ensures d code none doc e c = return-Ensures _ IsCallback unauthorized rejected
    with_endpoint-Ensures d code (some endpoint) doc e c =
        with_answer-Ensures d endpoint code _ doc e c refl

    with_code-Ensures :
        (o : Option Text)
        → nonempty (get (codes "code") r.query_params) ≡ o
        → Ensures
            (IsSourced P s secret m start)
            IsCallback
            (with_code P s secret m r verifier next o)
    with_code-Ensures none c = return-Ensures _ IsCallback unauthorized rejected
    with_code-Ensures (some code) c =
        >>=-Ensures _ (IsDocument P s secret m start) IsCallback (ensure_discovery P s m) _
          (ensure_discovery-Ensures P s secret m start)
          (λ d doc. with_endpoint-Ensures d code _ doc refl c)

  with_state-Ensures :
      (signed : Text) (stash : Payload) (o : Option Text)
      → nonempty (get state_cookie r.cookies) ≡ some signed
      → P.loads secret state_ttl m.now signed ≡ fresh stash
      → nonempty (get (codes "state") r.query_params) ≡ o
      → Ensures (IsSourced P s secret m start) IsCallback (with_state P s secret m r stash o)
  with_state-Ensures signed stash none c l e = return-Ensures _ IsCallback unauthorized rejected
  with_state-Ensures signed (session name issued) (some inbound) c l e = raise-Ensures _ IsCallback
  with_state-Ensures signed (handshake state verifier next) (some inbound) c l e =
      if-Ensures _ IsCallback (not (same inbound state)) _ _
        (λ p. return-Ensures _ IsCallback unauthorized rejected)
        (λ p.
          with_code-Ensures signed state verifier next c l
            (subst (λ t. nonempty (get (codes "state") r.query_params) ≡ some t)
              (same_sound inbound state (ground arith)) e)
            (nonempty (get (codes "code") r.query_params)) refl)

  with_stash-Ensures :
      (signed : Text) (o : Loaded)
      → nonempty (get state_cookie r.cookies) ≡ some signed
      → P.loads secret state_ttl m.now signed ≡ o
      → Ensures (IsSourced P s secret m start) IsCallback (with_stash P s secret m r o)
  with_stash-Ensures signed expired c l = return-Ensures _ IsCallback unauthorized rejected
  with_stash-Ensures signed bad_signature c l = return-Ensures _ IsCallback unauthorized rejected
  with_stash-Ensures signed (fresh stash) c l = with_state-Ensures signed stash _ c l refl

  with_cookie-Ensures :
      (o : Option Text)
      → nonempty (get state_cookie r.cookies) ≡ o
      → Ensures (IsSourced P s secret m start) IsCallback (with_cookie P s secret m r o)
  with_cookie-Ensures none c = return-Ensures _ IsCallback unauthorized rejected
  with_cookie-Ensures (some signed) c = with_stash-Ensures signed _ c refl

pub handle_callback-Ensures :
    (P : Platform) (s : Settings) (secret : Text) (m : Moment P) (start : Known P) (r : Request)
    → Ensures
        (IsSourced P s secret m start)
        (IsCallback P s secret m start r)
        (handle_callback P s secret m r)
unfolding handle_callback
handle_callback-Ensures P s secret m start r = with_cookie-Ensures P s secret m start r _ refl

-- Whatever the provider answers, the callback that does not raise answers 401 or 403, or sets the
-- session cookie of the user that an identity token with a required group names, which is valid
-- under the provider's keys and document and which the provider gave for the code in the URL and
-- the verifier of an unexpired signed stash, whose state is the one in the URL, deletes the stash
-- and redirects to a text that begins with one slash and not with two.
pub handle_callback-IsCallback :
    (P : Platform) (s : Settings) (secret : Text) (m : Moment P) (r : Request) (k k' : Known P)
    (reply : Reply)
    → handle_callback P s secret m r k ≡ (some reply, k')
    → IsCallback P s secret m k r reply
handle_callback-IsCallback P s secret m r k k' reply h =
    (handle_callback-Ensures P s secret m k r k k' reply (start-IsSourced P s secret m k) h).0
