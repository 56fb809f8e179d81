-- ===== src/Configuration/Normalize.antt =====
-- The conversion of a tunnel's native configuration, `normalize` of
-- crates/gptunnel/src/configuration.rs, from `Configuration` of crates/openconnect/src/tunnel.rs.
-- The parsers of the standard library are arguments: an IPv4 address is a 32-bit number, an IPv6
-- address a 128-bit one, and the number after a slash has 8 bits. A failed assertion is the result
-- `none`, as is a lack of fuel.
use global_protect_openconne.Prelude.{
  ℕ, zero, suc, ◌-◌, ◌*◌, ◌/◌, ◌%◌, ◌^◌, ◌≤◌, ◌≡◌, Bool, true, false, Option, none, some, List, [],
  ◌∷◌, ◌==◌, leb, if◌then◌else◌, arith, Bool-cases, inl, inr, ap, ◌∙◌, subst, ==_iff,
}
use global_protect_openconne.Registry.{Bytes}
use global_protect_openconne.Configuration.{
  TunnelList, TunnelAddress, TunnelConfiguration, max_configuration_bytes, limit_encoded_size,
}

pub record NativeList : Type 0 where
  pub items : List Bytes
  pub total_count : ℕ
  pub truncated : Bool

pub record Configuration : Type 0 where
  pub interface : Option Bytes
  pub ipv4 : Option Bytes
  pub netmask : Option Bytes
  pub ipv6 : Option Bytes
  pub netmask6 : Option Bytes
  pub server_ip : Option Bytes
  pub dns : NativeList
  pub search_domains : NativeList
  pub split_dns : NativeList
  pub included_routes : NativeList
  pub excluded_routes : NativeList
  pub mtu : Option ℕ
  pub truncated : Bool

abbrev pub list : NativeList → TunnelList
list l = record { items = l.items; total_count = l.total_count; truncated = l.truncated }

-- `leading_ones` of a number with the given count of bits.
unfoldable pub leading_ones : ℕ → ℕ → ℕ
leading_ones zero n = 0
leading_ones (suc k) n = let rest = leading_ones k n in if (n / 2 ^ k) % 2 == 1 then suc rest else 0

-- The mask with so many leading ones, `u32::MAX << (32 - prefix)`.
abbrev pub mask_of : ℕ → ℕ
mask_of prefix = if prefix == 0 then 0 else ((2 ^ 32 - 1) * 2 ^ (32 - prefix)) % 2 ^ 32

unfoldable pub contiguous : Option ℕ → Option ℕ
unfolding leading_ones
contiguous none = none
contiguous (some mask) =
    let prefix = leading_ones 32 mask in if mask == mask_of prefix then some prefix else none

abbrev cons_first : ℕ → Option (Bytes × Bytes) → Option (Bytes × Bytes)
cons_first b none = none
cons_first b (some (before, after)) = some (b ∷ before, after)

-- `split_once('/')`.
unfoldable pub split_once : Bytes → Option (Bytes × Bytes)
split_once [] = none
split_once (b ∷ bs) =
    let rest = split_once bs in if b == 47 then some ([], bs) else cons_first b rest

abbrev same_address : Option ℕ → Option ℕ → Bool
same_address (some a) (some b) = a == b
same_address _ _ = false

abbrev within : ℕ → Option ℕ → Option ℕ
within limit none = none
within limit (some n) = if leb n limit then some n else none

module _ (parse_ipv4 parse_ipv6 parse_u8 : Bytes → Option ℕ) where
  unfoldable pub ipv4_prefix : Bytes → Option ℕ
  unfolding contiguous
  ipv4_prefix mask = contiguous (parse_ipv4 mask)

  abbrev ipv6_prefix_of : Bytes → Option (Bytes × Bytes) → Option ℕ
  ipv6_prefix_of address none = none
  ipv6_prefix_of address (some (network, prefix)) =
      if same_address (parse_ipv6 network) (parse_ipv6 address)
      then within 128 (parse_u8 prefix)
      else none

  unfoldable pub ipv6_prefix : Bytes → Bytes → Option ℕ
  unfolding split_once
  ipv6_prefix address mask = ipv6_prefix_of address (split_once mask)

  abbrev prefix4 : Option ℕ → Option Bytes → Option ℕ
  prefix4 none mask = none
  prefix4 (some a) none = none
  prefix4 (some a) (some mask) = ipv4_prefix mask

  abbrev prefix6 : Bytes → Option Bytes → Option ℕ
  prefix6 address none = none
  prefix6 address (some mask) = ipv6_prefix address mask

  abbrev address4 : Option Bytes → Option Bytes → Option TunnelAddress
  address4 none mask = none
  address4 (some a) mask =
      some (record { address = a; netmask = mask; prefix_length = prefix4 (parse_ipv4 a) mask })

  abbrev address6 : Option Bytes → Option Bytes → Option TunnelAddress
  address6 none mask = none
  address6 (some a) mask =
      some (record { address = a; netmask = mask; prefix_length = prefix6 a mask })

  unfoldable pub converted : Configuration → TunnelConfiguration
  unfolding ipv4_prefix ipv6_prefix
  converted c = record {
    interface = c.interface;
    ipv4 = address4 c.ipv4 c.netmask;
    ipv6 = address6 c.ipv6 c.netmask6;
    server_ip = c.server_ip;
    dns = list c.dns;
    search_domains = list c.search_domains;
    split_dns = list c.split_dns;
    included_routes = list c.included_routes;
    excluded_routes = list c.excluded_routes;
    mtu = c.mtu;
    truncated = c.truncated;
  }

  abbrev asserted : Option (TunnelConfiguration × Bool) → Option TunnelConfiguration
  asserted none = none
  asserted (some (c, true)) = some c
  asserted (some (c, false)) = none

  unfoldable pub normalize :
      (TunnelConfiguration → ℕ) → ℕ → Configuration → Option TunnelConfiguration
  unfolding converted
  normalize encoded_size fuel c =
      asserted (limit_encoded_size encoded_size fuel max_configuration_bytes (converted c))

abbrev or_zero : Option ℕ → ℕ
or_zero none = 0
or_zero (some n) = n

leading_ones-le : (k n : ℕ) → leading_ones k n ≤ k
unfolding leading_ones
leading_ones-le zero n = omega arith
leading_ones-le (suc k) n = let h = leading_ones-le k n in ground arith

-- A prefix that is shown is no longer than an IPv4 address, and the mask is the one of this prefix.
contiguous-some :
    (mask prefix : ℕ)
    → contiguous (some mask) ≡ some prefix
    → (prefix ≤ 32) × (mask ≡ mask_of prefix)
unfolding contiguous
contiguous-some mask prefix h =
    let p = leading_ones 32 mask in
    elim (Bool-cases (mask == mask_of p)) [
      | inr q ↦ let f : none ≡ some prefix = rw q at h in ground arith
      | inl q ↦
          let g : some p ≡ some prefix = rw q at h in
          let e : p ≡ prefix = ap (or_zero) g in
          let m : mask ≡ mask_of p = (==_iff mask (mask_of p)).0 q in
          (subst (λ n. n ≤ 32) e (leading_ones-le 32 mask), m ∙ ap mask_of e)
    ]
