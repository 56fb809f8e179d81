-- ===== src/Portal.antt =====
-- The gateways of a portal's policy and the choice among them: `PortalPolicy` and `PortalConfig` of
-- crates/gpapi/src/portal/config.rs, and `Gateway::new` of crates/gpapi/src/gateway/mod.rs. The
-- fields of a configuration that the choice does not touch are one value of any type. A priority is
-- a 32-bit number. A panic, of an `unwrap` or an index, is the result `none`.
pub mod Preferred
pub mod Sorting
use Prim.Native.String.{String}
use text.Mathlib.Text.{◌==◌ as str_eq}
use global_protect_openconne.Prelude.{
  ◌>>=◌, ℕ, zero, suc, ◌+◌, ◌-◌, ◌^◌, Bool, true, false, ◌&&◌, ◌||◌, Option, none, some, List, [],
  ◌∷◌, ltb, get_elem?, if◌then◌else◌,
}
use global_protect_openconne.VpnState.{Gateway, GatewayKind, PriorityRule}

abbrev pub max_priority : ℕ
max_priority = 2 ^ 32 - 1

-- `Gateway::new`.
abbrev pub new_gateway : String → String → Gateway
new_gateway name address = record {
  name = name;
  address = address;
  kind = GatewayKind.external;
  priority = 0;
  priority_rules = [];
}

module _ (Rest : Type 0) where
  pub record PortalConfig : Type 0 where
    pub portal : String
    pub gateways : List Gateway
    pub internal_host_detection : Option Bool
    pub rest : Rest

  pub record PortalPolicy : Type 0 where
    pub config : PortalConfig
    pub internal_gateways : List Gateway
    pub external_gateways : List Gateway

  unfoldable pub or_portal : String → List Gateway → List Gateway
  or_portal portal [] = new_gateway portal portal ∷ []
  or_portal portal gs = gs

  unfoldable pub select_gateways : Bool → Option Bool → PortalPolicy → PortalConfig
  unfolding or_portal
  select_gateways prefer_internal detected p =
      let gs = if prefer_internal then p.internal_gateways else p.external_gateways in
      record p.config {
        gateways = or_portal p.config.portal gs;
        internal_host_detection = detected;
      }

  unfoldable pub external_config : PortalPolicy → PortalConfig
  unfolding select_gateways
  external_config = select_gateways false none

abbrev pub applies : String → PriorityRule → Bool
applies region rule = str_eq rule.name region || str_eq rule.name "Any"

-- The inner loop, over the rules of one gateway: the preferred gateway and the lowest priority.
unfoldable pub scan_rules :
    String → Gateway → List PriorityRule → Option Gateway × ℕ → Option Gateway × ℕ
scan_rules region g [] best = best
scan_rules region g (rule ∷ rules) (preferred, lowest) = scan_rules region g rules (
    if applies region rule && ltb rule.priority lowest
    then (some g, rule.priority)
    else (preferred, lowest))

unfoldable pub scan : String → List Gateway → Option Gateway × ℕ → Option Gateway × ℕ
unfolding scan_rules
scan region [] best = best
scan region (g ∷ gs) best = scan region gs (scan_rules region g g.priority_rules best)

-- `Iterator::min_by_key` gives the first of the least elements.
unfoldable pub min_from : Gateway → List Gateway → Gateway
min_from best [] = best
min_from best (g ∷ gs) = min_from (if ltb g.priority best.priority then g else best) gs

unfoldable pub min_by_priority : List Gateway → Option Gateway
unfolding min_from
min_by_priority [] = none
min_by_priority (g ∷ gs) = some (min_from g gs)

unfoldable pub or_else : Option Gateway → Option Gateway → Option Gateway
or_else none o = o
or_else (some g) o = some g

unfoldable pub find_preferred_gateway : String → List Gateway → Option Gateway
unfolding scan min_by_priority or_else
find_preferred_gateway region gs =
    or_else (scan region gs (none, max_priority)).0 (min_by_priority gs)

unfoldable pub find_gateway : String → List Gateway → Option Gateway
find_gateway x [] = none
find_gateway x (g ∷ gs) =
    let rest = find_gateway x gs in if str_eq g.name x || str_eq g.address x then some g else rest

-- `Iterator::position` on the gateways' names.
unfoldable pub position : String → List Gateway → Option ℕ
position x [] = none
position x (g ∷ gs) =
    let rest = position x gs in if str_eq g.name x then some 0 else (do i ← rest; some (suc i))

unfoldable pub set : ℕ → Gateway → List Gateway → List Gateway
set i g [] = []
set zero g (_ ∷ hs) = g ∷ hs
set (suc i) g (h ∷ hs) = h ∷ set i g hs

-- `swap(0, i)` of a slice.
unfoldable pub swap_first : ℕ → List Gateway → Option (List Gateway)
unfolding set
swap_first i [] = none
swap_first zero gs = some gs
swap_first (suc i) (g ∷ gs) = do h ← get_elem? gs i; some (h ∷ set i g gs)

unfoldable pub sort_gateways : String → List Gateway → Option (List Gateway)
unfolding find_preferred_gateway position swap_first
sort_gateways region gs = do
  preferred ← find_preferred_gateway region gs
  i ← position preferred.name gs
  swap_first i gs
