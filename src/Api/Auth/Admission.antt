-- ===== src/Api/Auth/Admission.antt =====
-- Which requests the OIDC middleware lets through, src/cf_knowledge_kiln/api/auth.py.
use cf_knowledge_kiln.Base.{
  true, Option, none, some, ◌≡◌, refl, subst, ◌∙◌, ◌⊎◌, inl, inr, Bool-cases, some_inj,
  none-ne-some,
}
use cf_knowledge_kiln.Base.Texts.{Text, codes, get}
use cf_knowledge_kiln.Api.Auth.{
  Settings, Request, Claims, session, fresh, Discovery, Platform, Moment, Known, nonempty,
}
use cf_knowledge_kiln.Api.Auth.Tokens.{
  bearer_value, validate_jwt, has_required_group, username_of, audience, expected_issuer,
  checked_claims, accept, ensure_discovery, ensure_jwks, load_discovery, load_keys, fetch_keys,
  remember_keys,
}
use cf_knowledge_kiln.Api.Auth.Handshake.{header, session_cookie, session_ttl}
use cf_knowledge_kiln.Api.Auth.Contracts.{
  Ensures, ended-Ensures, return-Ensures, raise-Ensures, >>=-Ensures,
}

module _ (P : Platform) (s : Settings) (secret : Text) (m : Moment P) (start : Known P) where
  -- The discovery document that is in the cache at the start, or that the provider gives.
  abbrev pub IsDocument : Discovery → Type 0
  IsDocument d = (start.discovery ≡ some d) ⊎ (m.fetch_discovery ≡ some d)

  -- The keys that are in the cache at the start, or that stand where the document says.
  abbrev pub IsKeySet : P.Jwks → Type 0
  IsKeySet keys =
      (start.jwks ≡ some keys)
      ⊎ ((d : Discovery) × (uri : Text) × IsDocument d
          × (nonempty d.jwks_uri ≡ some uri)
          × (m.fetch_jwks uri ≡ some keys))

  -- The caches hold nothing else.
  pub record IsSourced (k : Known P) : Type 0 where
    pub document : (d : Discovery) → k.discovery ≡ some d → IsDocument d
    pub key_set : (keys : P.Jwks) → k.jwks ≡ some keys → IsKeySet keys

  pub start-IsSourced : IsSourced start
  start-IsSourced = record { document = λ d h. inl h; key_set = λ keys h. inl h }

  -- A token that the platform decodes under the provider's keys, for the issuer of its document.
  pub record IsValidToken (token : Text) (claims : Claims) : Type 0 where
    pub keys : P.Jwks
    pub provided : IsKeySet keys
    pub document : Discovery
    pub published : IsDocument document
    pub signed : P.decode token keys ≡ some claims
    pub valid : P.validate (expected_issuer P s m document) (audience P s m) m.now claims ≡ true

  -- The credentials that let a request through, with the user they name.
  pub data IsCredential (r : Request) : Option Text → Type 0 where
    by_service_token :
        {authorization token : Text}
        → nonempty (header (codes "authorization") r) ≡ some authorization
        → bearer_value authorization ≡ some token
        → s.oidc_allow_bearer_fallback ≡ true
        → s.bearer_token ≡ some token
        → IsCredential r none
    by_jwt :
        {authorization token : Text} {claims : Claims}
        → nonempty (header (codes "authorization") r) ≡ some authorization
        → bearer_value authorization ≡ some token
        → IsValidToken token claims
        → has_required_group claims s.oidc_required_groups ≡ true
        → IsCredential r (some (username_of s claims))
    by_cookie :
        {signed name : Text} {issued : _}
        → nonempty (header (codes "authorization") r) ≡ none
        → get session_cookie r.cookies ≡ some signed
        → P.loads secret session_ttl m.now signed ≡ fresh (session name issued)
        → IsCredential r (some name)

  load_discovery-Ensures :
      (o f : Option Discovery) (k k' : Known P) (d : Discovery)
      → k.discovery ≡ o
      → m.fetch_discovery ≡ f
      → IsSourced k
      → load_discovery P s m o f k ≡ (some d, k')
      → IsDocument d × IsSourced k'
  load_discovery-Ensures (some d) f k k' b e g i h =
      ended-Ensures IsSourced IsDocument d b k k' (i.document d e) i h
  load_discovery-Ensures none (some d) k k' b e g i h =
      ended-Ensures IsSourced IsDocument d b (record k { discovery = some d }) k' (inr g)
        (record { document = λ x p. inr (g ∙ p); key_set = i.key_set }) h
  load_discovery-Ensures none none k k' b e g i h = raise-Ensures IsSourced IsDocument k k' b i h

  pub ensure_discovery-Ensures : Ensures IsSourced IsDocument (ensure_discovery P s m)
  unfolding ensure_discovery
  ensure_discovery-Ensures k k' d i h = load_discovery-Ensures _ _ k k' d refl refl i h

  fetch_keys-Ensures :
      (d : Discovery) (uri : Text)
      → IsDocument d
      → nonempty d.jwks_uri ≡ some uri
      → (o : Option P.Jwks) → m.fetch_jwks uri ≡ o
      → Ensures IsSourced IsKeySet (remember_keys P s m o)
  fetch_keys-Ensures d uri doc u none e k k' b i h = raise-Ensures IsSourced IsKeySet k k' b i h
  fetch_keys-Ensures d uri doc u (some keys) e k k' b i h =
      let found : IsKeySet keys = inr (d, uri, doc, u, e) in
      ended-Ensures IsSourced IsKeySet keys b (record k { jwks = some keys }) k' found
        (record { document = i.document; key_set = λ x p. subst IsKeySet (some_inj p) found }) h

  found_at :
      (d : Discovery) (o : Option Text)
      → IsDocument d
      → nonempty d.jwks_uri ≡ o
      → Ensures IsSourced IsKeySet (fetch_keys P s m o)
  found_at d none doc u = raise-Ensures IsSourced IsKeySet
  found_at d (some uri) doc u = fetch_keys-Ensures d uri doc u _ refl

  load_keys-Ensures :
      (o : Option P.Jwks) (k k' : Known P) (keys : P.Jwks)
      → k.jwks ≡ o
      → IsSourced k
      → load_keys P s m o k ≡ (some keys, k')
      → IsKeySet keys × IsSourced k'
  unfolding ensure_discovery
  load_keys-Ensures (some x) k k' keys e i h =
      ended-Ensures IsSourced IsKeySet x keys k k' (i.key_set x e) i h
  load_keys-Ensures none k k' keys e i h =
      >>=-Ensures IsSourced IsDocument IsKeySet (ensure_discovery P s m) _ ensure_discovery-Ensures
        (λ d doc. found_at d _ doc refl) k k' keys i h

  ensure_jwks-Ensures : Ensures IsSourced IsKeySet (ensure_jwks P s m)
  unfolding ensure_jwks
  ensure_jwks-Ensures k k' keys i h = load_keys-Ensures _ k k' keys refl i h

  -- The claims are those of the token, where it is valid.
  abbrev pub Judges : Text → Option Claims → Type 0
  Judges token o = (claims : Claims) → o ≡ some claims → IsValidToken token claims

  accept-Judges :
      (token : Text) (keys : P.Jwks) (c : Claims) (d : Discovery)
      → IsKeySet keys
      → IsDocument d
      → P.decode token keys ≡ some c
      → Judges token (accept P s m c d)
  accept-Judges token keys c d found doc e =
      elim (Bool-cases (P.validate (expected_issuer P s m d) (audience P s m) m.now c)) [
        | inl v ↦ rw v (λ claims h. subst (IsValidToken token) (some_inj h) (record {
          keys = keys;
          provided = found;
          document = d;
          published = doc;
          signed = e;
          valid = v;
        }))
        | inr v ↦ rw v (λ claims h. absurd (none-ne-some h))
      ]

  checked_claims-Ensures :
      (token : Text) (keys : P.Jwks) (o : Option Claims)
      → IsKeySet keys
      → P.decode token keys ≡ o
      → Ensures IsSourced (Judges token) (checked_claims P s m o)
  unfolding ensure_discovery
  checked_claims-Ensures token keys none found e =
      return-Ensures IsSourced (Judges token) none (λ claims h. absurd (none-ne-some h))
  checked_claims-Ensures token keys (some c) found e =
      >>=-Ensures IsSourced IsDocument (Judges token) (ensure_discovery P s m) _
        ensure_discovery-Ensures
        (λ d doc.
          return-Ensures IsSourced (Judges token) _ (accept-Judges token keys c d found doc e))

  pub validate_jwt-Ensures :
      (token : Text) → Ensures IsSourced (Judges token) (validate_jwt P s m token)
  unfolding validate_jwt
  validate_jwt-Ensures token =
      >>=-Ensures IsSourced IsKeySet (Judges token) (ensure_jwks P s m) _ ensure_jwks-Ensures
        (λ keys found. checked_claims-Ensures token keys _ found refl)
