-- ===== src/Ingestion/Remote/Http.antt =====
-- HttpConnector of src/cf_knowledge_kiln/ingestion/_http_connector.py: a fetch follows redirects by
-- hand and guards each hop. The world counts the calls to the outside, which may answer each of
-- them differently, and keeps the connections that were opened.
use cf_knowledge_kiln.Base.{
  ℕ, suc, ◌+◌, leb, ltb, Bool, Option, none, some, List, [], ◌∷◌, ◌++◌, length, if◌then◌else◌, zero,
  ◌||◌,
}
use cf_knowledge_kiln.Base.Texts.{Text, codes, starts_with, contains, is_empty}
use cf_knowledge_kiln.Ingestion.Tables.{FetchedFile, excluded_by_pattern, too_large}
use cf_knowledge_kiln.Ingestion.Walk.{IngestionCaps, FetchResult, SkippedFile}
use cf_knowledge_kiln.Ingestion.Remote.{
  IpModule, SsrfRefused, HttpSource, Resolved, refused, addresses, assert_host_allowlisted,
  assert_addresses_public, pinned,
}

-- `httpx.URL`: what `str` of it gives, its scheme, host and path.
pub record Url : Type 0 where
  pub text : Text
  pub scheme : Text
  pub host : Text
  pub path : Text

-- The content is the text that the body's bytes decode to.
pub record Response : Type 0 where
  pub is_redirect : Bool
  pub location : Option Text
  pub status_code : ℕ
  pub content : Option Text
  pub size : ℕ

-- A connection: the URL that was asked for, and the addresses that the client's lookup gave.
pub record Connection : Type 0 where
  pub url : Url
  pub ips : List Text

-- The resolver and the client. A call is known by its number. `none` is a gaierror of the
-- resolver, an InvalidURL of the two constructors of URLs, and an HTTPError of `get`. The client
-- looks up `lookup_name`.
pub record Network : Type 0 where
  pub getaddrinfo : ℕ → Text → Option (List Text)
  pub parse_url : Text → Option Url
  pub copy_with_path : Url → Text → Option Url
  pub lookup_name : Url → Text
  pub get : ℕ → Url → List Text → Option Response

pub record World : Type 0 where
  pub clock : ℕ
  pub connections : List Connection

-- What one hop gives: the next URL, a result, or what it raises.
pub data Hop : Type 0 where
  redirect : Url → Hop
  skipped : SkippedFile → Hop
  file : FetchedFile → ℕ → Hop
  ssrf_refused : SsrfRefused → Hop
  http_error invalid_url : Hop

abbrev pub excluded : Text → SkippedFile
excluded path = record { path = path; reason = excluded_by_pattern }

abbrev pub to_hop : Option Url → Hop
to_hop none = invalid_url
to_hop (some u) = redirect u

-- `path or "/"`
abbrev pub path_or_root : Text → Text
path_or_root path = if is_empty path then codes "/" else path

abbrev pub empty_result : FetchResult
empty_result = record { files = []; skipped = []; commit_sha = none }

abbrev pub max_redirects : ℕ
max_redirects = 5

abbrev pub with_skipped : SkippedFile → FetchResult → FetchResult
with_skipped f r = record r { skipped = r.skipped ++ f ∷ [] }

abbrev pub with_file : FetchedFile → FetchResult → FetchResult
with_file f r = record r { files = r.files ++ f ∷ [] }

-- What a fetch gives: its result, or what it raises.
pub data Fetched : Type 0 where
  fetched : FetchResult → Fetched
  cap_exceeded raised_invalid_url : Fetched

module _ (m : IpModule) (n : Network) (caps : IngestionCaps) (source : HttpSource) where
  -- `_next_redirect`
  abbrev pub next_redirect : Option Text → Url → Hop
  next_redirect none current = skipped (excluded current.text)
  next_redirect (some loc) current =
      if is_empty loc
      then skipped (excluded current.text)
      else if starts_with (codes "//") loc
      then skipped (excluded current.text)
      else to_hop
          (if contains (codes "://") loc then n.parse_url loc else n.copy_with_path current loc)

  abbrev pub to_file : Url → Response → Hop
  to_file current response =
      file
        (record {
          path = current.host ++ path_or_root current.path;
          content = response.content;
          size_bytes = response.size;
          commit_sha = none;
        })
        response.size

  abbrev pub read_response : Url → Option Response → Hop
  read_response current none = http_error
  read_response current (some response) =
      if response.is_redirect
      then next_redirect response.location current
      else if leb 400 response.status_code
      then skipped (excluded current.text)
      else if ltb caps.max_file_bytes response.size
      then skipped (record { path = current.text; reason = too_large })
      else to_file current response

  -- `client.get` inside `pin_dns`: the client's lookup, then the connection. `none` of the lookup
  -- is an HTTPError.
  abbrev pub connect : World → Url → Option (List Text) → Hop × World
  connect w current none = (http_error, record w { clock = suc w.clock })
  connect w current (some ips) = (
    read_response current (n.get (suc w.clock) current ips),
    record {
      clock = suc (suc w.clock);
      connections = w.connections ++ record { url = current; ips = ips } ∷ [];
    },
  )

  abbrev pub get_pinned : World → Url → Resolved → Hop × World
  get_pinned w current (refused why) = (ssrf_refused why, w)
  get_pinned w current (addresses ips) =
      connect w current (pinned current.host ips (n.getaddrinfo w.clock) (n.lookup_name current))

  -- `_guard_url`
  abbrev pub guard_url : World → Url → Option SsrfRefused → Resolved
  guard_url w current (some why) = refused why
  guard_url w current none = assert_addresses_public m (n.getaddrinfo w.clock current.host)

  -- `_fetch_hop`
  unfoldable pub fetch_hop : World → Url → Hop × World
  unfolding assert_host_allowlisted assert_addresses_public pinned
  fetch_hop w current =
      get_pinned (record w { clock = suc w.clock }) current
        (guard_url w current (assert_host_allowlisted current.host source current.scheme))

  abbrev pub or_follow : (World → Url → Hop × World) → Hop × World → Hop × World
  or_follow go (redirect next, w) = go w next
  or_follow go (skipped f, w) = (skipped f, w)
  or_follow go (file f size, w) = (file f size, w)
  or_follow go (ssrf_refused why, w) = (ssrf_refused why, w)
  or_follow go (http_error, w) = (http_error, w)
  or_follow go (invalid_url, w) = (invalid_url, w)

  -- The loop of `_fetch_one`, with the hops that are left.
  unfoldable pub follow : ℕ → Text → World → Url → Hop × World
  unfolding fetch_hop
  follow zero url w current = (skipped (excluded url), w)
  follow (suc hops) url w current = or_follow (follow hops url) (fetch_hop w current)

  -- The exceptions that `_fetch_one` handles.
  abbrev pub handled : Text → Hop → Hop
  handled url (ssrf_refused why) = skipped (excluded url)
  handled url http_error = skipped (excluded url)
  handled url other = other

  abbrev pub fetch_parsed : World → Text → Option Url → Hop × World
  fetch_parsed w url none = (invalid_url, w)
  fetch_parsed w url (some u) =
      let (outcome, w') = follow max_redirects url w u in (handled url outcome, w')

  -- `_fetch_one`
  unfoldable pub fetch_one : World → Text → Hop × World
  unfolding follow
  fetch_one w url = fetch_parsed w url (n.parse_url url)

  -- One turn of the loop of `fetch`: how it goes on, with the bytes and the result so far.
  abbrev pub take_outcome :
      (ℕ → FetchResult → World → Fetched × World) → ℕ → FetchResult → Hop × World → Fetched × World
  take_outcome go total r (skipped f, w) = go total (with_skipped f r) w
  take_outcome go total r (file f size, w) =
      if ltb caps.max_repo_bytes (total + size) || leb caps.max_files (length r.files)
      then (cap_exceeded, w)
      else go (total + size) (with_file f r) w
  take_outcome go total r (other, w) = (raised_invalid_url, w)

  unfoldable pub fetch_from : List Text → ℕ → FetchResult → World → Fetched × World
  unfolding fetch_one
  fetch_from [] total r w = (fetched r, w)
  fetch_from (url ∷ urls) total r w = take_outcome (fetch_from urls) total r (fetch_one w url)

  -- `fetch`
  unfoldable pub fetch : World → Fetched × World
  unfolding fetch_from
  fetch w = fetch_from source.urls 0 empty_result w
