-- ===== src/Tests/Ledgers.antt =====
-- A run of the ledger of gateway sessions
-- (crates/gpapi/src/session/desktop/gateway_sessions.rs).
use Prim.Native.String.{String}
use global_protect_openconne.Prelude.{ℕ, ◌+◌, ◌≡◌, Bool, some, List, [], ◌∷◌, ◌==◌}
use global_protect_openconne.VpnState.{Gateway, GatewayKind}
use global_protect_openconne.Sessions.{no_addresses, empty_ledger, Ledger, logout}
use global_protect_openconne.Sessions.Owned.{
  Move, registering, binding, relinquishing_at, logging_out_at, moves, count, issued, count-moves,
}

abbrev at : String → Gateway
at server = record {
  name = server;
  address = server;
  kind = GatewayKind.internal;
  priority = 0;
  priority_rules = [];
}

-- Three logins, of which one is bound again, one goes to a tunnel and one is logged out.
abbrev logins : List (Move ℕ ℕ)
logins =
    registering (at "a") 1 0
    ∷ registering (at "b") 2 0
    ∷ registering (at "c") 1 0
    ∷ binding (at "a") (some (5, no_addresses ℕ ℕ))
    ∷ relinquishing_at "b"
    ∷ logging_out_at "c"
    ∷ []

abbrev is_first : ℕ → Bool
is_first n = n == 1

abbrev after : Ledger ℕ ℕ
after = moves ℕ ℕ logins (empty_ledger ℕ ℕ)

count-moves_example :
    (count ℕ ℕ is_first after.members
        + count ℕ ℕ is_first after.relinquished
        + count ℕ ℕ is_first after.logged_out
      ≡ issued ℕ ℕ is_first logins)
    × (count ℕ ℕ is_first (logout ℕ ℕ after).relinquished
          + count ℕ ℕ is_first (logout ℕ ℕ after).logged_out
        ≡ issued ℕ ℕ is_first logins)
count-moves_example = count-moves ℕ ℕ is_first logins
