-- ===== src/Tests/Remote.antt =====
-- The HTTP connector at concrete inputs.
use cf_knowledge_kiln.Base.{
  ◌^◌, ℕ, ltb, Bool, true, false, none, some, List, [], ◌∷◌, All, length, ◌≡◌, refl, ◌≤◌, ◌+◌, ◌*◌,
  ◌&&◌, leb, if◌then◌else◌,
}
use cf_knowledge_kiln.Base.Texts.{Text, codes, same}
use cf_knowledge_kiln.Ingestion.Walk.{IngestionCaps}
use cf_knowledge_kiln.Ingestion.Remote.{
  IpAddress, v4, v6, IpModule, HttpSource, metadata_address, assert_ip_public, cloud_metadata,
  transition_range,
}
use cf_knowledge_kiln.Ingestion.Remote.Http.{
  Url, Network, Response, World, fetch, fetch_one, skipped, excluded,
}
use cf_knowledge_kiln.Ingestion.Remote.Guarded.{IsGuarded, fetch-IsGuarded}
use cf_knowledge_kiln.Ingestion.Remote.Bounded.{EndsCapped, fetch-EndsCapped}

-- 10.0.0.0/8 is private, and the only addresses are these two.
abbrev is_ten : IpAddress → Bool
is_ten (v4 n) = leb 167772160 n && ltb n 184549376
is_ten (v6 n) = false

abbrev no_flag : IpAddress → Bool
no_flag ip = false

abbrev ips : IpModule
ips = record {
  ip_address = λ (a : Text).
      if same a (codes "9.9.9.9")
      then some (v4 151587081)
      else if same a (codes "10.0.0.1")
      then some (v4 167772161)
      else none;
  is_private = is_ten;
  is_loopback = no_flag;
  is_link_local = no_flag;
  is_multicast = no_flag;
  is_reserved = no_flag;
  is_unspecified = no_flag;
}

abbrev page : Url
page = record {
  text = codes "https://docs/a";
  scheme = codes "https";
  host = codes "docs";
  path = codes "/a";
}

abbrev inner : Url
inner = record {
  text = codes "http://docs/b";
  scheme = codes "http";
  host = codes "docs";
  path = codes "/b";
}

abbrev body : Response
body = record {
  is_redirect = false;
  location = none;
  status_code = 200;
  content = some (codes "text");
  size = 4;
}

-- The name is public at the first lookup, and private ever after.
abbrev rebinding : Network
rebinding = record {
  getaddrinfo = λ (clock : ℕ) (host : Text).
      if ltb 0 clock then some (codes "10.0.0.1" ∷ []) else some (codes "9.9.9.9" ∷ []);
  parse_url = λ (url : Text). some page;
  copy_with_path = λ (url : Url) (path : Text). some inner;
  lookup_name = λ (url : Url). url.host;
  get = λ (clock : ℕ) (url : Url) (ips : List Text).
      if same url.path (codes "/a")
      then some (record body { is_redirect = true; location = some (codes "/b") })
      else some body;
}

abbrev caps : IngestionCaps
caps = record { max_file_bytes = 10; max_files = 2; max_repo_bytes = 15 }

abbrev source : HttpSource
source = record {
  urls = codes "https://docs/a" ∷ [];
  host_allowlist = codes "Docs" ∷ [];
  allow_http_hosts = codes "docs" ∷ [];
}

abbrev start : World
start = record { clock = 0; connections = [] }

metadata_refused : assert_ip_public ips (v4 metadata_address) ≡ some cloud_metadata
unfolding assert_ip_public
metadata_refused = refl

tunnel_refused : assert_ip_public ips (v6 (0x2002 * 2 ^ 112 + 7)) ≡ some transition_range
unfolding assert_ip_public
tunnel_refused = refl

-- The redirect resolves to a private address, and is passed over.
rebound :
    (fetch_one ips rebinding caps source start (codes "https://docs/a")).0
    ≡ skipped (excluded (codes "https://docs/a"))
unfolding fetch_one
rebound = refl

-- One connection was opened, to the address that was checked.
connected : length (fetch ips rebinding caps source start).1.connections ≡ 1
unfolding fetch
connected = refl

fetch-IsGuarded_example :
    All (IsGuarded ips source) (fetch ips rebinding caps source start).1.connections
fetch-IsGuarded_example = fetch-IsGuarded ips rebinding caps source 0 (λ u h. refl)

fetch-EndsCapped_example :
    EndsCapped ips rebinding caps source 1 (fetch ips rebinding caps source start).0
    × (length (fetch ips rebinding caps source start).1.connections ≤ 5 * 1 + 0)
fetch-EndsCapped_example = fetch-EndsCapped ips rebinding caps source start
