-- ===== src/Ingestion/Remote/Connections.antt =====
-- How many connections the connector of src/cf_knowledge_kiln/ingestion/_http_connector.py opens.
use cf_knowledge_kiln.Base.{
  ℕ, zero, suc, ◌+◌, ◌*◌, ◌≤◌, Option, none, some, List, [], ◌∷◌, length, length-append, arith,
}
use cf_knowledge_kiln.Base.Texts.{Text}
use cf_knowledge_kiln.Ingestion.Walk.{IngestionCaps, FetchResult}
use cf_knowledge_kiln.Ingestion.Remote.{IpModule, HttpSource, Resolved, refused, addresses}
use cf_knowledge_kiln.Ingestion.Remote.Http.{
  Url, Network, World, Hop, redirect, skipped, file, ssrf_refused, http_error, invalid_url, Fetched,
  connect, get_pinned, fetch_hop, or_follow, follow, fetch_parsed, fetch_one, take_outcome,
  fetch_from, with_file, with_skipped,
}

module _ (m : IpModule) (n : Network) (caps : IngestionCaps) (source : HttpSource) where
  -- How many connections were opened.
  abbrev pub opened : World → ℕ
  opened w = length w.connections

  opened-connect :
      (w : World) (u : Url) (ips : Option (List Text))
      → opened (connect m n caps source w u ips).1 ≤ suc (opened w)
  opened-connect w u none = omega arith
  opened-connect w u (some ips) =
      omega (arith, length-append {0} w.connections (record { url = u; ips = ips } ∷ []))

  opened-get_pinned :
      (w : World) (u : Url) (r : Resolved)
      → opened (get_pinned m n caps source w u r).1 ≤ suc (opened w)
  opened-get_pinned w u (refused why) = omega arith
  opened-get_pinned w u (addresses ips) = opened-connect w u _

  opened-fetch_hop :
      (w : World) (u : Url) → opened (fetch_hop m n caps source w u).1 ≤ suc (opened w)
  unfolding fetch_hop
  opened-fetch_hop w u = opened-get_pinned (record w { clock = suc w.clock }) u _

  opened-or_follow :
      (go : World → Url → Hop × World) (k : ℕ)
      → ((w : World) (u : Url) → opened (go w u).1 ≤ k + opened w)
      → (hop : Hop) (w : World) → opened (or_follow m n caps source go (hop, w)).1 ≤ k + opened w
  opened-or_follow go k few (redirect u) w = few w u
  opened-or_follow go k few (skipped f) w = omega arith
  opened-or_follow go k few (file f size) w = omega arith
  opened-or_follow go k few (ssrf_refused why) w = omega arith
  opened-or_follow go k few http_error w = omega arith
  opened-or_follow go k few invalid_url w = omega arith

  opened-follow :
      (hops : ℕ) (url : Text) (w : World) (u : Url)
      → opened (follow m n caps source hops url w u).1 ≤ hops + opened w
  unfolding follow
  opened-follow zero url w u = omega arith
  opened-follow (suc hops) url w u =
      let (hop, w') = fetch_hop m n caps source w u in
      omega (
        arith,
        opened-fetch_hop w u,
        opened-or_follow (follow m n caps source hops url) hops (opened-follow hops url) hop w',
      )

  opened-fetch_parsed :
      (w : World) (url : Text) (u : Option Url)
      → opened (fetch_parsed m n caps source w url u).1 ≤ 5 + opened w
  opened-fetch_parsed w url none = omega arith
  opened-fetch_parsed w url (some u) = opened-follow 5 url w u

  opened-fetch_one :
      (w : World) (url : Text) → opened (fetch_one m n caps source w url).1 ≤ 5 + opened w
  unfolding fetch_one
  opened-fetch_one w url = opened-fetch_parsed w url (n.parse_url url)

  opened-take_outcome :
      (go : ℕ → FetchResult → World → Fetched × World) (k : ℕ)
      → ((total : ℕ) (r : FetchResult) (w : World) → opened (go total r w).1 ≤ k + opened w)
      → (total : ℕ) (r : FetchResult) (hop : Hop) (w : World)
      → opened (take_outcome m n caps source go total r (hop, w)).1 ≤ k + opened w
  opened-take_outcome go k few total r (redirect u) w = omega arith
  opened-take_outcome go k few total r (skipped f) w = few total (with_skipped f r) w
  opened-take_outcome go k few total r (file f size) w =
      ground (arith, few (total + size) (with_file f r) w)
  opened-take_outcome go k few total r (ssrf_refused why) w = omega arith
  opened-take_outcome go k few total r http_error w = omega arith
  opened-take_outcome go k few total r invalid_url w = omega arith

  pub opened-fetch_from :
      (urls : List Text) (total : ℕ) (r : FetchResult) (w : World)
      → opened (fetch_from m n caps source urls total r w).1 ≤ 5 * length urls + opened w
  unfolding fetch_from
  opened-fetch_from [] total r w = omega arith
  opened-fetch_from (url ∷ urls) total r w =
      let (hop, w') = fetch_one m n caps source w url in
      omega (
        arith,
        opened-fetch_one w url,
        opened-take_outcome (fetch_from m n caps source urls) (5 * length urls)
            (opened-fetch_from urls) total r hop w',
      )
