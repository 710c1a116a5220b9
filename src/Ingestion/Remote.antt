-- ===== src/Ingestion/Remote.antt =====
-- The guard against request forgery of src/cf_knowledge_kiln/ingestion/ssrf.py: the hosts, the
-- addresses that they resolve to, and the pinning of what was resolved.
use cf_knowledge_kiln.Base.{
  ℕ, ◌*◌, ◌+◌, ◌/◌, ◌^◌, ◌==◌, Bool, true, false, not, ◌&&◌, ◌||◌, Option, none, some, List, [],
  ◌∷◌, map, if◌then◌else◌,
}
use cf_knowledge_kiln.Base.Texts.{Text, codes, same, lower, is_empty, elem}
pub mod Http
pub mod Public
pub mod Guarded
pub mod Connections
pub mod Bounded

pub data IpAddress : Type 0 where
  v4 v6 : ℕ → IpAddress

-- The module `ipaddress`: its parser (`none` is a ValueError) and the flags of an address.
pub record IpModule : Type 0 where
  pub ip_address : Text → Option IpAddress
  pub is_private : IpAddress → Bool
  pub is_loopback : IpAddress → Bool
  pub is_link_local : IpAddress → Bool
  pub is_multicast : IpAddress → Bool
  pub is_reserved : IpAddress → Bool
  pub is_unspecified : IpAddress → Bool

-- SsrfRefused, with its reason.
pub data SsrfRefused : Type 0 where
  empty_host not_allowlisted http_refused unsupported_scheme : SsrfRefused
  resolution_failed unresolved unparsable : SsrfRefused
  cloud_metadata transition_range not_public no_pins : SsrfRefused

pub record HttpSource : Type 0 where
  pub urls : List Text
  pub host_allowlist : List Text
  pub allow_http_hosts : List Text

-- `assert_host_allowlisted`: why the host is refused, if it is.
unfoldable pub assert_host_allowlisted : Text → HttpSource → Text → Option SsrfRefused
assert_host_allowlisted host source scheme =
    let h = lower host in
    if is_empty host
    then some empty_host
    else if not (elem h (map lower source.host_allowlist))
    then some not_allowlisted
    else if same (lower scheme) (codes "http") && not (elem h (map lower source.allow_http_hosts))
    then some http_refused
    else if not (same (lower scheme) (codes "http") || same (lower scheme) (codes "https"))
    then some unsupported_scheme
    else none

-- 169.254.169.254
abbrev pub metadata_address : ℕ
metadata_address = ((169 * 256 + 254) * 256 + 169) * 256 + 254

-- 2002::/16 and 64:ff9b::/96, by the bits before the slash
abbrev pub in_6to4 : ℕ → Bool
in_6to4 n = n / 2 ^ 112 == 0x2002

abbrev pub in_nat64 : ℕ → Bool
in_nat64 n = n / 2 ^ 32 == (0x64 * 2 ^ 16 + 0xff9b) * 2 ^ 64

abbrev pub is_metadata : IpAddress → Bool
is_metadata (v4 n) = n == metadata_address
is_metadata (v6 n) = false

-- `_REFUSED_IPV6_RANGES`
abbrev pub in_refused_range : IpAddress → Bool
in_refused_range (v4 n) = false
in_refused_range (v6 n) = in_6to4 n || in_nat64 n

module _ (m : IpModule) where
  -- `_assert_ip_public`
  unfoldable pub assert_ip_public : IpAddress → Option SsrfRefused
  assert_ip_public ip =
      if is_metadata ip
      then some cloud_metadata
      else if in_refused_range ip
      then some transition_range
      else if m.is_private ip
          || m.is_loopback ip
          || m.is_link_local ip
          || m.is_multicast ip
          || m.is_reserved ip
          || m.is_unspecified ip
      then some not_public
      else none

  abbrev pub assert_parsed : Option IpAddress → Option SsrfRefused
  assert_parsed none = some unparsable
  assert_parsed (some ip) = assert_ip_public ip

  unfoldable pub assert_each : List Text → Option SsrfRefused
  unfolding assert_ip_public
  assert_each [] = none
  assert_each (a ∷ as') =
      let rest = assert_each as' in
      elim (assert_parsed (m.ip_address a)) [ some why ↦ some why | none ↦ rest ]

-- The addresses in the order of `getaddrinfo`, each once.
unfoldable pub unseen : List Text → List Text → List Text
unseen seen [] = []
unseen seen (a ∷ as') = elim (elem a seen) [
  | true ↦ unseen seen as'
  | false ↦ a ∷ unseen (a ∷ seen) as'
]

pub data Resolved : Type 0 where
  refused : SsrfRefused → Resolved
  addresses : List Text → Resolved

abbrev pub checked_addresses : IpModule → List Text → Resolved
checked_addresses m [] = refused unresolved
checked_addresses m (a ∷ as') = elim (assert_each m (a ∷ as')) [
  | some why ↦ refused why
  | none ↦ addresses (a ∷ as')
]

-- `assert_addresses_public` over what `getaddrinfo` gives; `none` is its gaierror.
unfoldable pub assert_addresses_public : IpModule → Option (List Text) → Resolved
unfolding assert_each unseen
assert_addresses_public m none = refused resolution_failed
assert_addresses_public m (some infos) = checked_addresses m (unseen [] infos)

-- What `getaddrinfo` gives inside `pin_dns`: the pinned addresses for the pinned name, and the
-- resolver's answer for every other.
unfoldable pub pinned : Text → List Text → (Text → Option (List Text)) → Text → Option (List Text)
pinned hostname ips getaddrinfo host = if same host hostname then some ips else getaddrinfo host
