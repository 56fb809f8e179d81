-- ===== src/Tests/Browsing.antt =====
-- Runs of the sign-in window (crates/auth/src/webview) and of the choice of a gateway
-- (crates/gpapi/src/portal/config.rs).
use Prim.Native.String.{String}
use global_protect_openconne.Prelude.{
  ◌⊎◌, ℕ, ◌≤◌, ◌≡◌, refl, Bool, true, false, ◌&&◌, not, none, some, List, [], ◌∷◌, is_some,
  get_elem?,
}
use global_protect_openconne.VpnState.{Gateway, GatewayKind}
use global_protect_openconne.SignIn.{
  expired, is_restarting, is_loading, certificate_accepted, page_loaded,
}
use global_protect_openconne.SignIn.Window.{
  Input, event, restarted, tls_error, tls_accepted, page_was_loaded, temporarily_unavailable,
  Window, waiting, opened, settle, handle, turn, turns, Turn,
}
use global_protect_openconne.SignIn.Restarts.{
  turns-opened, automatic_restarts, automatic_restarts-opened,
}
use global_protect_openconne.SignIn.Certificates.{
  Flags, Step, failing, asking, answering, steps, is_allowed, is_taken,
}
use global_protect_openconne.SignIn.Certificates.Consent.{was_accepted, is_taken-steps}
use global_protect_openconne.Portal.{
  PortalPolicy, max_priority, scan, scan_rules, min_from, min_by_priority, find_preferred_gateway,
  position, set, swap_first, sort_gateways, select_gateways, or_else,
}
use global_protect_openconne.Portal.Preferred.{
  first_below, first_at, lowest, region_priority, find_preferred_gateway-first_below,
}
use global_protect_openconne.Portal.Sorting.{
  is_named, count, is_named-sort_gateways, sort_gateways-select_gateways,
}

-- An expired certificate is accepted, and the page is loaded again.
abbrev bypassing : List (Input ℕ)
bypassing =
    event (tls_error 0 expired true)
    ∷ event (tls_accepted 0)
    ∷ restarted
    ∷ event (page_was_loaded 2)
    ∷ []

abbrev window_of : Turn ℕ → Window ℕ
window_of (waiting w) = w
window_of _ = opened ℕ 0

abbrev bypassed_window : Window ℕ
bypassed_window = window_of (turns ℕ bypassing (waiting (opened ℕ 0)))

turns-opened_example :
    (is_some bypassed_window.restart ≡ is_restarting bypassed_window.recovery.status)
    × ((bypassed_window.loading_deadline && not (is_loading bypassed_window.recovery.status))
        ≡ false)
unfolding turns turn handle settle certificate_accepted page_loaded
turns-opened_example = turns-opened ℕ 0 bypassing bypassed_window refl

-- A certificate is untrusted, and the user accepts it.
abbrev untrusted_flags : Flags
untrusted_flags = record {
  is_expired = false;
  is_not_activated = false;
  is_bad_identity = false;
  is_unknown_ca = true;
}

abbrev accepting : List Step
accepting = answering true ∷ asking ∷ failing (some "vpn.example.com") 3 untrusted_flags 0 ∷ []

is_taken-steps_example : (false ≡ true) ⊎ (was_accepted 3 "vpn.example.com" accepting ≡ true)
unfolding is_taken steps is_allowed
is_taken-steps_example = is_taken-steps 3 "vpn.example.com" false 0 accepting refl

-- The portal is unavailable twice.
abbrev unavailable_twice : List (Input ℕ)
unavailable_twice =
    event (temporarily_unavailable 0) ∷ restarted ∷ event (temporarily_unavailable 2) ∷ []

automatic_restarts-opened_example :
    automatic_restarts ℕ unavailable_twice (waiting (opened ℕ 0)) ≤ 1
automatic_restarts-opened_example = automatic_restarts-opened ℕ 0 unavailable_twice

abbrev gateway : String → ℕ → String → ℕ → Gateway
gateway name priority region in_region = record {
  name = name;
  address = name;
  kind = GatewayKind.external;
  priority = priority;
  priority_rules = record { name = region; priority = in_region } ∷ [];
}

abbrev gateways : List Gateway
gateways = gateway "east" 1 "US" 3 ∷ gateway "west" 2 "US" 2 ∷ gateway "far" 1 "JP" 1 ∷ []

abbrev by_priority : Gateway → ℕ
by_priority g = g.priority

find_preferred_gateway-first_below_example :
    find_preferred_gateway "US" gateways
    ≡ first_below
        (region_priority "US")
        max_priority
        gateways
        (first_at by_priority (lowest by_priority max_priority gateways) gateways)
find_preferred_gateway-first_below_example = find_preferred_gateway-first_below "US" gateways refl

abbrev every_gateway : Gateway → Bool
every_gateway g = true

abbrev sorted_gateways : List Gateway
sorted_gateways = gateway "west" 2 "US" 2 ∷ gateway "east" 1 "US" 3 ∷ gateway "far" 1 "JP" 1 ∷ []

is_named-sort_gateways_example :
    (is_named "west" (get_elem? sorted_gateways 0) ≡ true)
    × (count every_gateway sorted_gateways ≡ count every_gateway gateways)
unfolding find_preferred_gateway scan scan_rules min_by_priority min_from or_else sort_gateways
    position swap_first set
is_named-sort_gateways_example =
    is_named-sort_gateways every_gateway "US" (gateway "west" 2 "US" 2) gateways sorted_gateways
      refl refl

abbrev empty_policy : PortalPolicy ℕ
empty_policy = record {
  config = record {
    portal = "vpn.example.com";
    gateways = [];
    internal_host_detection = none;
    rest = 0;
  };
  internal_gateways = [];
  external_gateways = [];
}

sort_gateways-select_gateways_example :
    (is_some
        (find_preferred_gateway "US" (select_gateways ℕ true (some true) empty_policy).gateways)
      ≡ true)
    × (is_some (sort_gateways "US" (select_gateways ℕ true (some true) empty_policy).gateways)
        ≡ true)
sort_gateways-select_gateways_example =
    sort_gateways-select_gateways ℕ "US" true (some true) empty_policy
