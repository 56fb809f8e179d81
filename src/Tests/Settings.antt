-- ===== src/Tests/Settings.antt =====
-- Configurations of a tunnel that are shortened (crates/gpapi/src/session/desktop/tunnel.rs).
use global_protect_openconne.Prelude.{
  ℕ, ◌+◌, ◌*◌, ◌≡◌, refl, true, false, none, some, [], ◌∷◌, arith, leb, length,
}
use global_protect_openconne.Configuration.{
  TunnelList, TunnelConfiguration, size_of, pop, limit_encoded_size,
}
use global_protect_openconne.Configuration.Limits.{weight, limit_encoded_size-total}
use global_protect_openconne.Configuration.Cuts.{IsShortened, limit_encoded_size-IsShortened}
use global_protect_openconne.Configuration.Normalize.{leading_ones, contiguous}

abbrev no_list : TunnelList
no_list = record { items = []; total_count = 0; truncated = false }

-- An interface, two routes and a server of the DNS.
abbrev routed : TunnelConfiguration
routed = record {
  interface = some (116 ∷ 117 ∷ 110 ∷ 48 ∷ []);
  ipv4 = none;
  ipv6 = none;
  server_ip = none;
  dns = record { items = (49 ∷ []) ∷ []; total_count = 1; truncated = false };
  search_domains = no_list;
  split_dns = no_list;
  included_routes = no_list;
  excluded_routes = record {
    items = (50 ∷ []) ∷ (51 ∷ []) ∷ [];
    total_count = 2;
    truncated = false;
  };
  mtu = some 1400;
  truncated = false;
}

abbrev size : TunnelConfiguration → ℕ
size c = size_of c.interface + 10 * (length c.excluded_routes.items + length c.dns.items)

abbrev shortened : TunnelConfiguration
shortened = record routed {
  excluded_routes = record { items = (50 ∷ []) ∷ []; total_count = 2; truncated = true };
  truncated = true;
}

limit_encoded_size-total_example :
    (d : TunnelConfiguration) × (limit_encoded_size size 8 25 routed ≡ some (d, leb (size d) 25))
unfolding weight
limit_encoded_size-total_example = limit_encoded_size-total size 8 25 routed (omega arith)

limit_encoded_size-IsShortened_example : IsShortened routed shortened
unfolding limit_encoded_size pop
limit_encoded_size-IsShortened_example =
    limit_encoded_size-IsShortened size 8 25 routed shortened true refl

-- The mask 255.255.255.0, and one with a gap.
prefix_of_mask : contiguous (some 0xffff_ff00) ≡ some 24
unfolding contiguous leading_ones
prefix_of_mask = refl

no_prefix : contiguous (some 0xff00_ff00) ≡ none
unfolding contiguous leading_ones
no_prefix = refl
