-- ===== src/Ingestion/Frontmatter.antt =====
-- The columns of a document that its frontmatter and its source give, from
-- src/cf_knowledge_kiln/ingestion/_file_processing.py and ingestion/sources.py.
use cf_knowledge_kiln.Base.{
  ℕ, Bool, true, false, not, ◌||◌, Option, none, some, List, [], ◌∷◌, if◌then◌else◌,
}
use cf_knowledge_kiln.Base.Texts.{Text, codes, strip, lower, is_empty, get, elem}

-- A value of the frontmatter: a text, a date (by its ordinal), a number, list or mapping (whether
-- Python counts it as true, and its text), or null.
pub data Value : Type 0 where
  null : Value
  text : Text → Value
  date : ℕ → Value
  other : Bool → Text → Value

abbrev pub Metadata : Type 0
Metadata = List (Text × Value)

pub data SourceKind : Type 0 where
  git : Text → Text → SourceKind
  local : Text → SourceKind
  http : List Text → List Text → List Text → SourceKind

pub record Source : Type 0 where
  pub name : Text
  pub kind : SourceKind
  pub status : Text
  pub authority : Text
  pub default_owner : Option Text
  pub default_sensitivity : Text

abbrev pub truthy : Value → Bool
truthy null = false
truthy (text t) = not (is_empty t)
truthy (date d) = true
truthy (other b t) = b

abbrev pub value_of : Option Value → Value
value_of none = null
value_of (some v) = v

abbrev pub optional_text : Option Text → Value
optional_text none = null
optional_text (some t) = text t

-- `metadata.get(key) or default`
abbrev pub get_or : Text → Metadata → Value → Value
get_or key metadata default = let v = value_of (get key metadata) in if truthy v then v else default

abbrev pub is_present : Value → Bool
is_present null = false
is_present (text t) = not (is_empty t)
is_present _ = true

-- `_first_present`
unfoldable pub first_present : Metadata → List Text → Value
first_present metadata [] = null
first_present metadata (key ∷ keys) =
    let rest = first_present metadata keys in
    let v = value_of (get key metadata) in if is_present v then v else rest

abbrev pub last_reviewed_aliases : List Text
last_reviewed_aliases =
    codes "last_reviewed"
    ∷ codes "last-reviewed"
    ∷ codes "last_verified"
    ∷ codes "last-verified"
    ∷ codes "reviewed"
    ∷ codes "verified"
    ∷ []

abbrev pub doc_type_aliases : List Text
doc_type_aliases = codes "doc_type" ∷ codes "doc-type" ∷ codes "type" ∷ []

-- What a row of `documents` takes from the frontmatter and the source.
pub record Defaults : Type 0 where
  pub status : Value
  pub owner : Value
  pub authority : Value
  pub sensitivity : Value
  pub doc_type : Value
  pub source_url : Option Text
  pub last_reviewed : Option ℕ

-- `date.fromisoformat`, and the scheme and the host that `urlparse` finds, are the caller's.
module _ (fromisoformat : Text → Option ℕ) (urlparse : Text → Text × Text) where
  -- `_coerce_iso_date`
  unfoldable pub coerce_iso_date : Value → Option ℕ
  coerce_iso_date null = none
  coerce_iso_date (date d) = some d
  coerce_iso_date (text t) = fromisoformat t
  coerce_iso_date (other b t) = none

  abbrev pub http_schemes : List Text
  http_schemes = codes "http" ∷ codes "https" ∷ []

  -- `_safe_source_url`
  unfoldable pub safe_source_url : Value → Option Text
  safe_source_url (text raw) =
      let cleaned = strip raw in
      let (scheme, netloc) = urlparse cleaned in
      if is_empty cleaned || not (elem (lower scheme) http_schemes) || is_empty netloc
      then none
      else some cleaned
  safe_source_url _ = none

  -- `_resolve_doc_defaults`
  unfoldable pub resolve_doc_defaults : Metadata → Source → Defaults
  unfolding first_present coerce_iso_date safe_source_url
  resolve_doc_defaults metadata source = record {
    status = get_or (codes "status") metadata (text source.status);
    owner = get_or (codes "owner") metadata (optional_text source.default_owner);
    authority = get_or (codes "authority") metadata (text source.authority);
    sensitivity = get_or (codes "sensitivity") metadata (text source.default_sensitivity);
    doc_type = first_present metadata doc_type_aliases;
    source_url = safe_source_url (value_of (get (codes "source_url") metadata));
    last_reviewed = coerce_iso_date (first_present metadata last_reviewed_aliases);
  }
