-- ===== src/Configuration.antt =====
-- The configuration of a tunnel as clients are shown it, `TunnelConfiguration` of
-- crates/gpapi/src/session/desktop/tunnel.rs, and its shortening to a size,
-- `limit_encoded_size`. A text is its UTF-8 bytes, and `encoded_size` the size that serde_json
-- gives a configuration.
pub mod Limits
pub mod Cuts
pub mod Normalize
use global_protect_openconne.Prelude.{
  ℕ, zero, suc, ◌+◌, ◌*◌, ◌/◌, Bool, true, false, Option, none, some, List, [], ◌∷◌, ltb, leb,
  if◌then◌else◌, length, take,
}
use global_protect_openconne.Registry.{Bytes}
use global_protect_openconne.Registry.Hip.{boundary_below}

abbrev pub max_configuration_bytes : ℕ
max_configuration_bytes = 16 * 1024

pub record TunnelList : Type 0 where
  pub items : List Bytes
  pub total_count : ℕ
  pub truncated : Bool

pub record TunnelAddress : Type 0 where
  pub address : Bytes
  pub netmask : Option Bytes
  pub prefix_length : Option ℕ

pub record TunnelConfiguration : Type 0 where
  pub interface : Option Bytes
  pub ipv4 : Option TunnelAddress
  pub ipv6 : Option TunnelAddress
  pub server_ip : Option Bytes
  pub dns : TunnelList
  pub search_domains : TunnelList
  pub split_dns : TunnelList
  pub included_routes : TunnelList
  pub excluded_routes : TunnelList
  pub mtu : Option ℕ
  pub truncated : Bool

-- `Vec::pop`, without the element.
unfoldable pub pop : List Bytes → List Bytes
pop [] = []
pop (x ∷ []) = []
pop (x ∷ y ∷ xs) = x ∷ pop (y ∷ xs)

abbrev pub is_filled : TunnelList → Bool
is_filled l = ltb 0 (length l.items)

abbrev pub shorten_list : TunnelList → TunnelList
shorten_list l = record l { items = pop l.items; truncated = true }

-- The first list with an entry loses its last one; whether there is such a list.
unfoldable pub shorten_lists : TunnelConfiguration → TunnelConfiguration × Bool
shorten_lists c =
    if is_filled c.excluded_routes
    then (record c { excluded_routes = shorten_list c.excluded_routes }, true)
    else if is_filled c.included_routes
    then (record c { included_routes = shorten_list c.included_routes }, true)
    else if is_filled c.split_dns
    then (record c { split_dns = shorten_list c.split_dns }, true)
    else if is_filled c.search_domains
    then (record c { search_domains = shorten_list c.search_domains }, true)
    else if is_filled c.dns
    then (record c { dns = shorten_list c.dns }, true)
    else (c, false)

unfoldable pub truncate_at : ℕ → Bytes → Bytes
truncate_at n text = take (boundary_below text n) text

abbrev pub shorten_address : TunnelAddress → TunnelAddress
shorten_address a =
    if ltb 128 (length a.address)
    then record a { address = truncate_at 128 a.address; prefix_length = none }
    else a

abbrev pub shorten_in : Option TunnelAddress → Option TunnelAddress
shorten_in none = none
shorten_in (some a) = some (shorten_address a)

abbrev pub shorten_addresses : TunnelConfiguration → TunnelConfiguration
shorten_addresses c = record c { ipv4 = shorten_in c.ipv4; ipv6 = shorten_in c.ipv6 }

abbrev pub size_of : Option Bytes → ℕ
size_of none = 0
size_of (some text) = length text

pub data Scalar : Type 0 where
  interface server_ip netmask4 netmask6 : Scalar

abbrev pub netmask_of : Option TunnelAddress → Option Bytes
netmask_of none = none
netmask_of (some a) = a.netmask

abbrev pub text_of : Scalar → TunnelConfiguration → Option Bytes
text_of interface c = c.interface
text_of server_ip c = c.server_ip
text_of netmask4 c = netmask_of c.ipv4
text_of netmask6 c = netmask_of c.ipv6

-- `max_by_key` takes the later one of two that are as long.
abbrev pub longer : Scalar → Scalar → TunnelConfiguration → Scalar
longer a b c = if leb (size_of (text_of a c)) (size_of (text_of b c)) then b else a

abbrev pub or_netmask : Option TunnelAddress → Scalar → Scalar → TunnelConfiguration → Scalar
or_netmask none best mask c = best
or_netmask (some a) best mask c = longer best mask c

unfoldable pub longest : TunnelConfiguration → Scalar
longest c =
    or_netmask c.ipv6 (or_netmask c.ipv4 (longer interface server_ip c) netmask4 c) netmask6 c

abbrev pub set_netmask : Option Bytes → Option TunnelAddress → Option TunnelAddress
set_netmask m none = none
set_netmask m (some a) = some (record a { netmask = m })

abbrev pub set_text : Scalar → Option Bytes → TunnelConfiguration → TunnelConfiguration
set_text interface t c = record c { interface = t }
set_text server_ip t c = record c { server_ip = t }
set_text netmask4 t c = record c { ipv4 = set_netmask t c.ipv4 }
set_text netmask6 t c = record c { ipv6 = set_netmask t c.ipv6 }

-- Whether the longest text was not empty, and so was halved.
unfoldable pub halve_text : Scalar → Option Bytes → TunnelConfiguration → TunnelConfiguration × Bool
halve_text s none c = (c, false)
halve_text s (some []) c = (c, false)
halve_text s (some (b ∷ bs)) c =
    (set_text s (some (truncate_at (length (b ∷ bs) / 2) (b ∷ bs))) c, true)

unfoldable pub shorten_scalars : TunnelConfiguration → TunnelConfiguration × Bool
unfolding halve_text longest
shorten_scalars c = let d = shorten_addresses c in let s = longest d in halve_text s (text_of s d) d

abbrev pub or_scalars : TunnelConfiguration × Bool → TunnelConfiguration × Bool
or_scalars (c, true) = (c, true)
or_scalars (c, false) = shorten_scalars c

-- One round of the loop; whether it goes on.
unfoldable pub shorten : TunnelConfiguration → TunnelConfiguration × Bool
unfolding shorten_lists shorten_scalars
shorten c = or_scalars (shorten_lists (record c { truncated = true }))

module _ (encoded_size : TunnelConfiguration → ℕ) where
  abbrev fits : ℕ → TunnelConfiguration → Bool
  fits limit c = leb (encoded_size c) limit

  -- The configuration that is left, and whether it fits; without fuel there is no result.
  unfoldable pub limit_encoded_size :
      ℕ → ℕ → TunnelConfiguration → Option (TunnelConfiguration × Bool)
  unfolding shorten
  limit_encoded_size zero limit c = none
  limit_encoded_size (suc fuel) limit c =
      let (d, again) = shorten c in
      let rest = limit_encoded_size fuel limit d in
      if fits limit c then some (c, true) else if again then rest else some (d, fits limit d)
