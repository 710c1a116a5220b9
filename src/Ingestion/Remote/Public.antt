-- ===== src/Ingestion/Remote/Public.antt =====
-- What the guard of src/cf_knowledge_kiln/ingestion/ssrf.py lets through.
use cf_knowledge_kiln.Base.{
  ℕ, ◌*◌, ◌+◌, ◌^◌, ◌≤◌, ◌<◌, true, false, Option, none, some, List, [], ◌∷◌, map, All, ◌≡◌, ◌≢◌,
  sym, subst, ◌⊎◌, inl, inr, Option-cases, none-ne-some, or_false, arith,
}
use cf_knowledge_kiln.Base.Texts.{Text, codes, same, lower, elem}
use cf_knowledge_kiln.Ingestion.Remote.{
  IpAddress, v4, v6, IpModule, SsrfRefused, HttpSource, refused, addresses, assert_host_allowlisted,
  is_metadata, in_refused_range, in_6to4, in_nat64, assert_ip_public, assert_parsed, assert_each,
  unseen, checked_addresses, assert_addresses_public,
}

-- The number lies outside the block of addresses from `low` on.
abbrev pub IsOutside : ℕ → ℕ → ℕ → Type 0
IsOutside low size n = (n < low) ⊎ (low + size ≤ n)

-- Neither 169.254.169.254, nor in 2002::/16, nor in 64:ff9b::/96.
abbrev pub IsElsewhere : IpAddress → Type 0
IsElsewhere (v4 n) = n ≢ 2852039166
IsElsewhere (v6 n) =
    IsOutside (0x2002 * 2 ^ 112) (2 ^ 112) n × IsOutside (0x64ff9b * 2 ^ 96) (2 ^ 32) n

pub record IsPublicIp (m : IpModule) (ip : IpAddress) : Type 0 where
  pub elsewhere : IsElsewhere ip
  pub not_private : m.is_private ip ≡ false
  pub not_loopback : m.is_loopback ip ≡ false
  pub not_link_local : m.is_link_local ip ≡ false
  pub not_multicast : m.is_multicast ip ≡ false
  pub not_reserved : m.is_reserved ip ≡ false
  pub not_unspecified : m.is_unspecified ip ≡ false

-- The text is an address, and a public one.
abbrev pub IsPublic : IpModule → Text → Type 0
IsPublic m a = (ip : IpAddress) × (m.ip_address a ≡ some ip) × IsPublicIp m ip

-- The host is on the list, and the scheme is https, or http where the source opts in.
abbrev pub IsListed : HttpSource → Text → Text → Type 0
IsListed source host scheme =
    (elem (lower host) (map lower source.host_allowlist) ≡ true)
    × ((same (lower scheme) (codes "https") ≡ true)
        ⊎ ((same (lower scheme) (codes "http") ≡ true)
            × (elem (lower host) (map lower source.allow_http_hosts) ≡ true)))

IsOutside-6to4 : (n : ℕ) → in_6to4 n ≡ false → IsOutside (0x2002 * 2 ^ 112) (2 ^ 112) n
IsOutside-6to4 n h = ground arith

IsOutside-nat64 : (n : ℕ) → in_nat64 n ≡ false → IsOutside (0x64ff9b * 2 ^ 96) (2 ^ 32) n
IsOutside-nat64 n h = ground arith

pub assert_host_allowlisted-IsListed :
    (host : Text) (source : HttpSource) (scheme : Text)
    → assert_host_allowlisted host source scheme ≡ none
    → IsListed source host scheme
unfolding assert_host_allowlisted
assert_host_allowlisted-IsListed host source scheme h = ground arith

is_elsewhere :
    (ip : IpAddress) → is_metadata ip ≡ false → in_refused_range ip ≡ false → IsElsewhere ip
is_elsewhere (v4 n) h k = ground arith
is_elsewhere (v6 n) h k =
    let (a, b) = or_false (in_6to4 n) (in_nat64 n) k in (IsOutside-6to4 n a, IsOutside-nat64 n b)

refused-ne-addresses : {why : SsrfRefused} {ips : List Text} → refused why ≢ addresses ips
refused-ne-addresses h = cc

addresses_inj : {a b : List Text} → addresses a ≡ addresses b → a ≡ b
addresses_inj h = cc

module _ (m : IpModule) where
  assert_ip_public-IsPublicIp : (ip : IpAddress) → assert_ip_public m ip ≡ none → IsPublicIp m ip
  unfolding assert_ip_public
  assert_ip_public-IsPublicIp ip h = record {
    elsewhere = is_elsewhere ip (ground arith) (ground arith);
    not_private = ground arith;
    not_loopback = ground arith;
    not_link_local = ground arith;
    not_multicast = ground arith;
    not_reserved = ground arith;
    not_unspecified = ground arith;
  }

  assert_parsed-IsPublic : (a : Text) → assert_parsed m (m.ip_address a) ≡ none → IsPublic m a
  assert_parsed-IsPublic a h = elim (Option-cases (m.ip_address a)) [
    | inl e ↦ absurd (none-ne-some (sym (rw e at h)))
    | inr (ip, e) ↦ (ip, e, assert_ip_public-IsPublicIp ip (rw e at h))
  ]

  assert_each-IsPublic : (ips : List Text) → assert_each m ips ≡ none → All (IsPublic m) ips
  unfolding assert_each
  assert_each-IsPublic [] h = tt
  assert_each-IsPublic (a ∷ ips) h = elim (Option-cases (assert_parsed m (m.ip_address a))) [
    | inl e ↦ (assert_parsed-IsPublic a e, assert_each-IsPublic ips (rw (e, assert_each) at h))
    | inr (why, e) ↦ absurd (none-ne-some (sym (rw (e, assert_each) at h)))
  ]

  -- The addresses that the guard lets through.
  abbrev pub IsPassed : List Text → Type 0
  IsPassed ips = (ips ≢ []) × All (IsPublic m) ips

  checked_addresses-IsPassed :
      (infos ips : List Text) → checked_addresses m infos ≡ addresses ips → IsPassed ips
  checked_addresses-IsPassed [] ips h = cc
  checked_addresses-IsPassed (a ∷ infos) ips h = elim (Option-cases (assert_each m (a ∷ infos))) [
    | inr (why, e) ↦ absurd (refused-ne-addresses (rw (e, checked_addresses) at h))
    | inl e ↦
        subst IsPassed (addresses_inj (rw (e, checked_addresses) at h))
          (λ q. cc, assert_each-IsPublic (a ∷ infos) e)
  ]

  pub assert_addresses_public-IsPassed :
      (infos : Option (List Text)) (ips : List Text)
      → assert_addresses_public m infos ≡ addresses ips
      → IsPassed ips
  unfolding assert_addresses_public
  assert_addresses_public-IsPassed none ips h = cc
  assert_addresses_public-IsPassed (some infos) ips h =
      checked_addresses-IsPassed (unseen [] infos) ips h
