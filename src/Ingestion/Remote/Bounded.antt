-- ===== src/Ingestion/Remote/Bounded.antt =====
-- How much the connector of src/cf_knowledge_kiln/ingestion/_http_connector.py fetches.
use cf_knowledge_kiln.Base.{
  ℕ, zero, suc, ◌+◌, ◌*◌, ◌≤◌, leb, ltb, ◌||◌, Option, none, some, List, [], ◌∷◌, ◌++◌, All, length,
  length-append, ◌≡◌, refl, subst, inl, inr, Bool-cases, or_false, All-append, arith,
}
use cf_knowledge_kiln.Base.Texts.{Text, is_empty, starts_with, codes}
use cf_knowledge_kiln.Ingestion.Tables.{FetchedFile}
use cf_knowledge_kiln.Ingestion.Walk.{IngestionCaps, FetchResult, SkippedFile}
use cf_knowledge_kiln.Ingestion.Remote.{
  IpModule, HttpSource, Resolved, refused, addresses, assert_host_allowlisted, pinned,
}
use cf_knowledge_kiln.Ingestion.Remote.Http.{
  Url, Response, Network, World, Hop, redirect, skipped, file, ssrf_refused, http_error,
  invalid_url, Fetched, fetched, connect, get_pinned, guard_url, fetch_hop, or_follow, follow,
  fetch_parsed, handled, fetch_one, take_outcome, fetch_from, fetch, max_redirects, with_file,
  with_skipped, read_response, next_redirect, to_hop, empty_result,
}
use cf_knowledge_kiln.Ingestion.Remote.Connections.{opened-fetch_from}

-- `sum(f.size_bytes for f in files)`
abbrev pub bytes_in : List FetchedFile → ℕ
bytes_in [] = 0
bytes_in (f ∷ fs) = f.size_bytes + bytes_in fs

bytes_in-append : (fs gs : List FetchedFile) → bytes_in (fs ++ gs) ≡ bytes_in fs + bytes_in gs
bytes_in-append [] gs = omega arith
bytes_in-append (f ∷ fs) gs = omega (arith, bytes_in-append fs gs)

-- Within the caps, with a file or a note for each of so many URLs.
pub record IsCapped (caps : IngestionCaps) (seen : ℕ) (r : FetchResult) : Type 0 where
  pub bytes : bytes_in r.files ≤ caps.max_repo_bytes
  pub count : length r.files ≤ caps.max_files
  pub sizes : All (λ f. f.size_bytes ≤ caps.max_file_bytes) r.files
  pub complete : length r.files + length r.skipped ≡ seen

module _ (m : IpModule) (n : Network) (caps : IngestionCaps) (source : HttpSource) where
  -- A file that a hop gives is within the cap on a file.
  abbrev IsFit : Hop → Type 0
  IsFit (file f size) = (f.size_bytes ≡ size) × (size ≤ caps.max_file_bytes)
  IsFit _ = Unit

  to_hop-IsFit : (u : Option Url) → IsFit (to_hop u)
  to_hop-IsFit none = tt
  to_hop-IsFit (some u) = tt

  next_redirect-IsFit : (loc : Option Text) (u : Url) → IsFit (next_redirect m n caps source loc u)
  next_redirect-IsFit none u = tt
  next_redirect-IsFit (some loc) u = elim (Bool-cases (is_empty loc)) [
    | inl e ↦ rw e tt
    | inr e ↦ elim (Bool-cases (starts_with (codes "//") loc)) [
      | inl p ↦ rw (e, p) tt
      | inr p ↦ rw (e, p) (to_hop-IsFit _)
    ]
  ]

  read_response-IsFit : (u : Url) (r : Option Response) → IsFit (read_response m n caps source u r)
  read_response-IsFit u none = tt
  read_response-IsFit u (some r) = elim (Bool-cases r.is_redirect) [
    | inl e ↦ rw e (next_redirect-IsFit r.location u)
    | inr e ↦ elim (Bool-cases (leb 400 r.status_code)) [
      | inl p ↦ rw (e, p) tt
      | inr p ↦ elim (Bool-cases (ltb caps.max_file_bytes r.size)) [
        | inl q ↦ rw (e, p, q) tt
        | inr q ↦ rw (e, p, q) (refl, ground arith)
      ]
    ]
  ]

  connect-IsFit :
      (w : World) (u : Url) (ips : Option (List Text)) → IsFit (connect m n caps source w u ips).0
  connect-IsFit w u none = tt
  connect-IsFit w u (some ips) = read_response-IsFit u (n.get (suc w.clock) u ips)

  get_pinned-IsFit :
      (w : World) (u : Url) (r : Resolved) → IsFit (get_pinned m n caps source w u r).0
  get_pinned-IsFit w u (refused why) = tt
  get_pinned-IsFit w u (addresses ips) =
      connect-IsFit w u (pinned u.host ips (n.getaddrinfo w.clock) (n.lookup_name u))

  or_follow-IsFit :
      (go : World → Url → Hop × World)
      → ((w : World) (u : Url) → IsFit (go w u).0)
      → (hop : Hop) (w : World) → IsFit hop
      → IsFit (or_follow m n caps source go (hop, w)).0
  or_follow-IsFit go fits (redirect u) w h = fits w u
  or_follow-IsFit go fits (skipped f) w h = h
  or_follow-IsFit go fits (file f size) w h = h
  or_follow-IsFit go fits (ssrf_refused why) w h = h
  or_follow-IsFit go fits http_error w h = h
  or_follow-IsFit go fits invalid_url w h = h

  follow-IsFit :
      (hops : ℕ) (url : Text) (w : World) (u : Url) → IsFit (follow m n caps source hops url w u).0
  unfolding follow fetch_hop
  follow-IsFit zero url w u = tt
  follow-IsFit (suc hops) url w u =
      let (hop, w') = fetch_hop m n caps source w u in
      or_follow-IsFit (follow m n caps source hops url) (follow-IsFit hops url) hop w' (
        get_pinned-IsFit (record w { clock = suc w.clock }) u
          (guard_url m n caps source w u (assert_host_allowlisted u.host source u.scheme)))

  handled-IsFit : (url : Text) (hop : Hop) → IsFit hop → IsFit (handled m n caps source url hop)
  handled-IsFit url (redirect u) h = h
  handled-IsFit url (skipped f) h = h
  handled-IsFit url (file f size) h = h
  handled-IsFit url (ssrf_refused why) h = tt
  handled-IsFit url http_error h = tt
  handled-IsFit url invalid_url h = h

  fetch_parsed-IsFit :
      (w : World) (url : Text) (u : Option Url) → IsFit (fetch_parsed m n caps source w url u).0
  fetch_parsed-IsFit w url none = tt
  fetch_parsed-IsFit w url (some u) =
      handled-IsFit url (follow m n caps source max_redirects url w u).0
        (follow-IsFit max_redirects url w u)

  fetch_one-IsFit : (w : World) (url : Text) → IsFit (fetch_one m n caps source w url).0
  unfolding fetch_one
  fetch_one-IsFit w url = fetch_parsed-IsFit w url (n.parse_url url)

  -- A fetch that goes on from so many URLs ends within the caps, if it does not raise.
  abbrev pub EndsCapped : ℕ → Fetched → Type 0
  EndsCapped seen (fetched r) = IsCapped caps seen r
  EndsCapped seen _ = Unit

  with_file-IsCapped :
      (seen : ℕ) (r : FetchResult) (f : FetchedFile)
      → IsCapped caps seen r
      → bytes_in r.files + f.size_bytes ≤ caps.max_repo_bytes
      → suc (length r.files) ≤ caps.max_files
      → f.size_bytes ≤ caps.max_file_bytes
      → IsCapped caps (suc seen) (with_file f r)
  with_file-IsCapped seen r f c bytes count size = record {
    bytes = omega (arith, bytes_in-append r.files (f ∷ []));
    count = omega (arith, length-append {0} r.files (f ∷ []));
    sizes =
        All-append (λ g. g.size_bytes ≤ caps.max_file_bytes) r.files (f ∷ []) c.sizes (size, tt);
    complete = omega (arith, c.complete, length-append {0} r.files (f ∷ []));
  }

  with_skipped-IsCapped :
      (seen : ℕ) (r : FetchResult) (f : SkippedFile)
      → IsCapped caps seen r
      → IsCapped caps (suc seen) (with_skipped f r)
  with_skipped-IsCapped seen r f c = record {
    bytes = c.bytes;
    count = c.count;
    sizes = c.sizes;
    complete = omega (arith, c.complete, length-append {0} r.skipped (f ∷ []));
  }

  take_outcome-EndsCapped :
      (go : ℕ → FetchResult → World → Fetched × World) (seen last : ℕ)
      → ((r : FetchResult) (w : World)
          → IsCapped caps (suc seen) r
          → EndsCapped last (go (bytes_in r.files) r w).0)
      → (r : FetchResult) (hop : Hop) (w : World) → IsCapped caps seen r
      → IsFit hop
      → EndsCapped last (take_outcome m n caps source go (bytes_in r.files) r (hop, w)).0
  take_outcome-EndsCapped go seen last ends r (redirect u) w c h = tt
  take_outcome-EndsCapped go seen last ends r (skipped f) w c h =
      ends (with_skipped f r) w (with_skipped-IsCapped seen r f c)
  take_outcome-EndsCapped go seen last ends r (file f size) w c h =
      elim (Bool-cases (
        ltb caps.max_repo_bytes (bytes_in r.files + size) || leb caps.max_files (length r.files))) [
          | inl e ↦ rw e tt
          | inr e ↦
              let (few, room) = or_false (ltb caps.max_repo_bytes (bytes_in r.files + size)) _ e in
              rw e (
                subst (λ (t : ℕ). EndsCapped last (go t (with_file f r) w).0)
                  (omega (arith, bytes_in-append r.files (f ∷ []), h.0))
                  (ends (with_file f r) w
                    (with_file-IsCapped seen r f c (ground arith) (ground arith) (ground arith))))
        ]
  take_outcome-EndsCapped go seen last ends r (ssrf_refused why) w c h = tt
  take_outcome-EndsCapped go seen last ends r http_error w c h = tt
  take_outcome-EndsCapped go seen last ends r invalid_url w c h = tt

  fetch_from-EndsCapped :
      (urls : List Text) (seen : ℕ) (r : FetchResult) (w : World)
      → IsCapped caps seen r
      → EndsCapped (seen + length urls) (fetch_from m n caps source urls (bytes_in r.files) r w).0
  unfolding fetch_from
  fetch_from-EndsCapped [] seen r w c = subst (λ k. IsCapped caps k r) (omega arith) c
  fetch_from-EndsCapped (url ∷ urls) seen r w c =
      let (hop, w') = fetch_one m n caps source w url in
      subst (λ k. EndsCapped k (fetch_from m n caps source (url ∷ urls) (bytes_in r.files) r w).0)
        (omega arith)
        (take_outcome-EndsCapped (fetch_from m n caps source urls) seen (suc seen + length urls)
          (λ r' w''. fetch_from-EndsCapped urls (suc seen) r' w'') r hop w' c
          (fetch_one-IsFit w url))

-- A fetch opens at most five connections for each URL, and one that does not raise has a file or a
-- note for each URL, no more files and bytes in total than the caps, and no file above the cap on
-- a file.
pub fetch-EndsCapped :
    (m : IpModule) (n : Network) (caps : IngestionCaps) (source : HttpSource) (w : World)
    → EndsCapped m n caps source (length source.urls) (fetch m n caps source w).0
      × (length (fetch m n caps source w).1.connections
          ≤ 5 * length source.urls + length w.connections)
unfolding fetch
fetch-EndsCapped m n caps source w = (
  subst (λ k. EndsCapped m n caps source k (fetch m n caps source w).0) (omega arith)
      (fetch_from-EndsCapped m n caps source source.urls 0 empty_result w
        (record { bytes = omega arith; count = omega arith; sizes = tt; complete = omega arith })),
  opened-fetch_from m n caps source source.urls 0 empty_result w,
)
