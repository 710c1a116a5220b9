-- ===== src/Ingestion/Remote/Guarded.antt =====
-- Where the connector of src/cf_knowledge_kiln/ingestion/_http_connector.py connects to.
use cf_knowledge_kiln.Base.{
  ℕ, zero, suc, ◌+◌, leb, ltb, true, ◌||◌, Option, none, some, List, [], ◌∷◌, map, All, length, ◌≡◌,
  refl, inl, inr, Bool-cases, All-append,
}
use cf_knowledge_kiln.Base.Texts.{Text, same_refl, lower, elem}
use cf_knowledge_kiln.Ingestion.Walk.{IngestionCaps, FetchResult}
use cf_knowledge_kiln.Ingestion.Remote.{
  IpModule, SsrfRefused, HttpSource, Resolved, refused, addresses, assert_host_allowlisted,
  assert_addresses_public, pinned,
}
use cf_knowledge_kiln.Ingestion.Remote.Public.{
  IsListed, IsPassed, assert_host_allowlisted-IsListed, assert_addresses_public-IsPassed,
}
use cf_knowledge_kiln.Ingestion.Remote.Http.{
  Url, Connection, Network, World, Hop, redirect, skipped, file, ssrf_refused, http_error,
  invalid_url, Fetched, connect, get_pinned, guard_url, fetch_hop, or_follow, follow, fetch_parsed,
  fetch_one, take_outcome, fetch_from, fetch, max_redirects, with_file, with_skipped,
}

-- The client's lookup of a host on the list asks for the name that the guard has resolved.
abbrev pub LooksUpHost : Network → HttpSource → Type 0
LooksUpHost n source =
    (u : Url)
    → elem (lower u.host) (map lower source.host_allowlist) ≡ true
    → n.lookup_name u ≡ u.host

-- The connection is to a host on the list, and every address that it may use is public.
pub record IsGuarded (m : IpModule) (source : HttpSource) (c : Connection) : Type 0 where
  pub listed : IsListed source c.url.host c.url.scheme
  pub passed : IsPassed m c.ips

module _ (m : IpModule) (n : Network) (caps : IngestionCaps) (source : HttpSource)
    (looks_up : LooksUpHost n source) where
  abbrev AllGuarded : World → Type 0
  AllGuarded w = All (IsGuarded m source) w.connections

  connect-AllGuarded :
      (w : World) (u : Url) (ips : List Text)
      → AllGuarded w
      → IsGuarded m source (record { url = u; ips = ips })
      → AllGuarded (connect m n caps source w u (some ips)).1
  connect-AllGuarded w u ips h g = All-append (IsGuarded m source) w.connections _ h (g, tt)

  -- The pinned name is the one that the client looks up.
  pinned_own :
      (u : Url) (ips : List Text) (rest : Text → Option (List Text))
      → elem (lower u.host) (map lower source.host_allowlist) ≡ true
      → pinned u.host ips rest (n.lookup_name u) ≡ some ips
  unfolding pinned
  pinned_own u ips rest h = rw (looks_up u h, same_refl u.host)

  get_pinned-AllGuarded :
      (w : World) (u : Url) (ips : List Text)
      → AllGuarded w
      → IsListed source u.host u.scheme
      → IsPassed m ips
      → AllGuarded (get_pinned m n caps source w u (addresses ips)).1
  get_pinned-AllGuarded w u ips h listed passed =
      rw (pinned_own u ips (n.getaddrinfo w.clock) listed.0)
        (connect-AllGuarded w u ips h (record { listed = listed; passed = passed }))

  guarded_addresses :
      (w : World) (u : Url) (r : Resolved)
      → assert_addresses_public m (n.getaddrinfo w.clock u.host) ≡ r
      → IsListed source u.host u.scheme
      → AllGuarded w
      → AllGuarded (get_pinned m n caps source (record w { clock = suc w.clock }) u r).1
  guarded_addresses w u (refused why) q listed h = h
  guarded_addresses w u (addresses ips) q listed h =
      get_pinned-AllGuarded (record w { clock = suc w.clock }) u ips h listed
        (assert_addresses_public-IsPassed m _ ips q)

  guarded_hop :
      (w : World) (u : Url) (refusal : Option SsrfRefused)
      → assert_host_allowlisted u.host source u.scheme ≡ refusal
      → AllGuarded w
      → AllGuarded
          (get_pinned m n caps source
            (record w { clock = suc w.clock })
            u
            (guard_url m n caps source w u refusal)).1
  guarded_hop w u (some why) e h = h
  guarded_hop w u none e h =
      guarded_addresses w u _ refl (assert_host_allowlisted-IsListed u.host source u.scheme e) h

  fetch_hop-AllGuarded :
      (w : World) (u : Url) → AllGuarded w → AllGuarded (fetch_hop m n caps source w u).1
  unfolding fetch_hop
  fetch_hop-AllGuarded w u h =
      guarded_hop w u (assert_host_allowlisted u.host source u.scheme) refl h

  or_follow-AllGuarded :
      (go : World → Url → Hop × World)
      → ((w : World) (u : Url) → AllGuarded w → AllGuarded (go w u).1)
      → (hop : Hop) (w : World) → AllGuarded w
      → AllGuarded (or_follow m n caps source go (hop, w)).1
  or_follow-AllGuarded go keeps (redirect u) w h = keeps w u h
  or_follow-AllGuarded go keeps (skipped f) w h = h
  or_follow-AllGuarded go keeps (file f size) w h = h
  or_follow-AllGuarded go keeps (ssrf_refused why) w h = h
  or_follow-AllGuarded go keeps http_error w h = h
  or_follow-AllGuarded go keeps invalid_url w h = h

  follow-AllGuarded :
      (hops : ℕ) (url : Text) (w : World) (u : Url)
      → AllGuarded w
      → AllGuarded (follow m n caps source hops url w u).1
  unfolding follow
  follow-AllGuarded zero url w u h = h
  follow-AllGuarded (suc hops) url w u h =
      let (hop, w') = fetch_hop m n caps source w u in
      or_follow-AllGuarded (follow m n caps source hops url) (follow-AllGuarded hops url) hop w'
        (fetch_hop-AllGuarded w u h)

  fetch_parsed-AllGuarded :
      (w : World) (url : Text) (u : Option Url)
      → AllGuarded w
      → AllGuarded (fetch_parsed m n caps source w url u).1
  fetch_parsed-AllGuarded w url none h = h
  fetch_parsed-AllGuarded w url (some u) h = follow-AllGuarded max_redirects url w u h

  fetch_one-AllGuarded :
      (w : World) (url : Text) → AllGuarded w → AllGuarded (fetch_one m n caps source w url).1
  unfolding fetch_one
  fetch_one-AllGuarded w url h = fetch_parsed-AllGuarded w url (n.parse_url url) h

  take_outcome-AllGuarded :
      (go : ℕ → FetchResult → World → Fetched × World)
      → ((total : ℕ) (r : FetchResult) (w : World) → AllGuarded w → AllGuarded (go total r w).1)
      → (total : ℕ) (r : FetchResult) (hop : Hop) (w : World) → AllGuarded w
      → AllGuarded (take_outcome m n caps source go total r (hop, w)).1
  take_outcome-AllGuarded go keeps total r (redirect u) w h = h
  take_outcome-AllGuarded go keeps total r (skipped f) w h = keeps total (with_skipped f r) w h
  take_outcome-AllGuarded go keeps total r (file f size) w h =
      elim (Bool-cases
        (ltb caps.max_repo_bytes (total + size) || leb caps.max_files (length r.files))) [
          | inl e ↦ rw e h
          | inr e ↦ rw e (keeps (total + size) (with_file f r) w h)
        ]
  take_outcome-AllGuarded go keeps total r (ssrf_refused why) w h = h
  take_outcome-AllGuarded go keeps total r http_error w h = h
  take_outcome-AllGuarded go keeps total r invalid_url w h = h

  fetch_from-AllGuarded :
      (urls : List Text) (total : ℕ) (r : FetchResult) (w : World)
      → AllGuarded w
      → AllGuarded (fetch_from m n caps source urls total r w).1
  unfolding fetch_from
  fetch_from-AllGuarded [] total r w h = h
  fetch_from-AllGuarded (url ∷ urls) total r w h =
      let (hop, w') = fetch_one m n caps source w url in
      take_outcome-AllGuarded (fetch_from m n caps source urls) (fetch_from-AllGuarded urls) total r
        hop w' (fetch_one-AllGuarded w url h)

-- Whatever the resolver answers from call to call, whatever redirects and bodies the servers send,
-- and where the client looks up the very host of a URL whose host is listed, every connection that
-- a fetch opens is to a listed host, by https or by http where the source opts in, and may use
-- public addresses only: not the metadata address, not in the 6to4 or NAT64 blocks, and with no
-- flag of a special address.
pub fetch-IsGuarded :
    (m : IpModule) (n : Network) (caps : IngestionCaps) (source : HttpSource) (clock : ℕ)
    → LooksUpHost n source
    → All
        (IsGuarded m source)
        (fetch m n caps source (record { clock = clock; connections = [] })).1.connections
unfolding fetch
fetch-IsGuarded m n caps source clock looks_up =
    fetch_from-AllGuarded m n caps source looks_up source.urls 0 _
      (record { clock = clock; connections = [] }) tt
