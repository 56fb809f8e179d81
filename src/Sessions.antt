-- ===== src/Sessions.antt =====
-- The ledger of issued gateway sessions, `GatewaySessions` of
-- crates/gpapi/src/session/desktop/gateway_sessions.rs. The authentication that a gateway issued and
-- the client that speaks for it are of any types; the members whose logout was asked of their
-- gateway and those that were given to another owner are kept in lists, the newest first. The
-- answer to a logout is not used. What binding to a network gives is an argument.
pub mod Owned
use Prim.Native.String.{String}
use text.Mathlib.Text.{◌==◌ as str_eq}
use global_protect_openconne.Prelude.{
  ℕ, Bool, true, false, Option, none, some, List, [], ◌∷◌, ◌++◌, if◌then◌else◌,
}
use global_protect_openconne.VpnState.{Gateway}

pub record ClientAddresses : Type 0 where
  pub ipv4 : Option ℕ
  pub ipv6 : Option ℕ

module _ (A C : Type 0) where
  pub record GatewaySession : Type 0 where
    pub gateway : Gateway
    pub authentication : A
    pub client : C
    pub addresses : ClientAddresses

  -- The ledger and where its sessions went.
  pub record Ledger : Type 0 where
    pub members : List GatewaySession
    pub relinquished : List GatewaySession
    pub logged_out : List GatewaySession

  abbrev pub empty_ledger : Ledger
  empty_ledger = record { members = []; relinquished = []; logged_out = [] }

  abbrev pub no_addresses : ClientAddresses
  no_addresses = record { ipv4 = none; ipv6 = none }

  unfoldable pub register : GatewaySession → Ledger → Ledger
  register s l = record l { members = l.members ++ s ∷ [] }

  -- `register_login`: the addresses are not known yet.
  unfoldable pub register_login : Gateway → A → C → Ledger → Ledger
  unfolding register
  register_login g a c l =
      register (record { gateway = g; authentication = a; client = c; addresses = no_addresses }) l

  abbrev pub is_at : String → GatewaySession → Bool
  is_at server s = str_eq s.gateway.address server

  -- The first member at a server.
  unfoldable pub find : String → List GatewaySession → Option GatewaySession
  find server [] = none
  find server (s ∷ ss) = if is_at server s then some s else find server ss

  -- The first member at the server of a session is replaced by it.
  unfoldable pub update : GatewaySession → List GatewaySession → List GatewaySession
  update s [] = []
  update s (t ∷ ts) = if is_at s.gateway.address t then s ∷ ts else t ∷ update s ts

  unfoldable pub without : String → List GatewaySession → List GatewaySession
  without server [] = []
  without server (s ∷ ss) = if is_at server s then ss else s ∷ without server ss

  -- The bound client and its addresses, or a failure of the binding.
  abbrev pub Binding : Type 0
  Binding = Option (C × ClientAddresses)

  unfoldable pub rebound : Gateway → Option GatewaySession → Binding → Ledger → Option Ledger
  unfolding update
  rebound g none b l = none
  rebound g (some s) none l = none
  rebound g (some s) (some (c, addresses)) l = some (record l {
    members =
        update
          (record {
            gateway = g;
            authentication = s.authentication;
            client = c;
            addresses = addresses;
          })
          l.members;
  })

  -- Without a result, the binding failed and the ledger is as before.
  unfoldable pub bind_non_tunnel : Gateway → Binding → Ledger → Option Ledger
  unfolding rebound find
  bind_non_tunnel g b l = rebound g (find g.address l.members) b l

  unfoldable pub relinquish : Ledger → Ledger
  relinquish l = record l { members = []; relinquished = l.members ++ l.relinquished }

  abbrev pub gone : Option GatewaySession → List GatewaySession → List GatewaySession
  gone none ss = ss
  gone (some s) ss = s ∷ ss

  unfoldable pub relinquish_gateway : String → Ledger → Ledger
  unfolding find without
  relinquish_gateway server l = record l {
    members = without server l.members;
    relinquished = gone (find server l.members) l.relinquished;
  }

  unfoldable pub logout_gateway : String → Ledger → Ledger
  unfolding find without
  logout_gateway server l = record l {
    members = without server l.members;
    logged_out = gone (find server l.members) l.logged_out;
  }

  unfoldable pub logout : Ledger → Ledger
  logout l = record l { members = []; logged_out = l.members ++ l.logged_out }
