-- ===== src/Widget/Branches.antt =====
-- The branches of `start_connect_flow` of apps/gpwidget/src/daemon/mod.rs.
use Prim.Native.String.{String}
use text.Mathlib.Text.{◌==◌ as str_eq}
use global_protect_openconne.Prelude.{
  ◌≡◌, refl, sym, ap, ◌∙◌, ◌⊎◌, inl, inr, Bool, true, false, ◌&&◌, ◌||◌, not, Option, none, some,
  arith, Result, ok, err, is_some, Bool-cases, Option-cases,
}
use global_protect_openconne.VpnState.{ConnectInfo}
use global_protect_openconne.Broadcast.{VpnEnv}
use global_protect_openconne.Widget.{ConnectView}
use global_protect_openconne.Widget.Messages.{Config}
use global_protect_openconne.Widget.State.{Surroundings, is_disconnected, Daemon}
use global_protect_openconne.Widget.Connect.{
  or_current, save_if, saved, with_portal, start_flow, start_with, start_in, start_connect_flow,
}

module _ (C H : Type 0) (connect_view : ConnectInfo → Option ConnectView) (trim : String → String)
    (config_path : String) where
  abbrev pub is_ok : Result String Unit → Bool
  is_ok (ok _) = true
  is_ok (err _) = false

  -- A portal is asked for that is not blank, or one is configured.
  abbrev has_portal : Option String → Config → Bool
  has_portal none config = is_some config.portal
  has_portal (some p) config = not (str_eq (trim p) "") || is_some config.portal

  -- No flow is running, the tunnel is down, the service has been heard of, and a portal is known.
  abbrev pub can_start : Option String → Surroundings → Daemon C H connect_view → Bool
  can_start portal w d =
      not (is_some d.connect_cancel)
      && is_disconnected d.model.vpn_state
      && is_some d.model.vpn_env
      && has_portal portal (or_current w.loaded d.model.config)

  abbrev pub begun :
      String
      → Option String
      → Config
      → VpnEnv C H
      → Bool
      → Daemon C H connect_view
      → Daemon C H connect_view
  begun p gateway config env b d =
      start_flow C H connect_view trim config_path p gateway config env
        (save_if C H connect_view trim config_path b config d)

  abbrev pub chosen : Option String → Surroundings → Daemon C H connect_view → Config
  chosen portal w d =
      with_portal C H connect_view trim config_path portal (or_current w.loaded d.model.config)

  abbrev pub is_saved : Option String → Surroundings → Daemon C H connect_view → Bool
  is_saved portal w d =
      saved C H connect_view trim config_path portal (or_current w.loaded d.model.config)

  -- Which branch was taken, with the daemon that it leaves.
  abbrev Branches :
      Bool
      → Option (VpnEnv C H)
      → Option String
      → Option String
      → Surroundings
      → Daemon C H connect_view
      → Daemon C H connect_view × Result String Unit
      → Type 0
  Branches can o portal gateway w d r =
      ((can ≡ true)
        × (is_ok r.1 ≡ true)
        × ((p : String) × (env : VpnEnv C H) × (o ≡ some env)
            × ((chosen portal w d).portal ≡ some p)
            × (r.0 ≡ begun p gateway (chosen portal w d) env (is_saved portal w d) d)))
      ⊎ ((can ≡ false) × (is_ok r.1 ≡ false) × (r.0 ≡ d))

  has_portal-with_portal :
      (portal : Option String) (config : Config)
      → is_some (with_portal C H connect_view trim config_path portal config).portal
        ≡ has_portal portal config
  unfolding with_portal
  has_portal-with_portal none config = refl
  has_portal-with_portal (some p) config = ground arith

  saved-none :
      (portal : Option String) (config : Config)
      → (with_portal C H connect_view trim config_path portal config).portal ≡ none
      → saved C H connect_view trim config_path portal config ≡ false
  unfolding with_portal
  saved-none none config n = refl
  saved-none (some p) config n = ground arith

  -- The last tests, for the environment and the portal.
  start_in-Branches :
      (o : Option (VpnEnv C H)) (portal gateway : Option String) (w : Surroundings)
      (d : Daemon C H connect_view)
      → Branches
          (is_some o && has_portal portal (or_current w.loaded d.model.config))
          o
          portal
          gateway
          w
          d
          (start_in C H connect_view trim config_path o portal gateway w d)
  unfolding start_in start_with
  start_in-Branches none portal gateway w d = inr (refl, refl, refl)
  start_in-Branches (some env) portal gateway w d =
      let same = has_portal-with_portal portal (or_current w.loaded d.model.config) in
      elim (Option-cases (chosen portal w d).portal) [
        | inl n ↦ inr (
          sym same ∙ ap is_some n,
          rw n refl,
          rw (n, saved-none portal (or_current w.loaded d.model.config) n) refl,
        )
        | inr (p, n) ↦ inl (sym same ∙ ap is_some n, rw n refl, (p, env, refl, n, rw n refl))
      ]

  pub start_connect_flow-Branches :
      (portal gateway : Option String) (w : Surroundings) (d : Daemon C H connect_view)
      → Branches
          (can_start portal w d)
          d.model.vpn_env
          portal
          gateway
          w
          d
          (start_connect_flow C H connect_view trim config_path portal gateway w d)
  unfolding start_connect_flow
  start_connect_flow-Branches portal gateway w d = elim (Bool-cases (is_some d.connect_cancel)) [
    | inl q ↦ rw q (inr (refl, refl, refl))
    | inr q ↦ elim (Bool-cases (is_disconnected d.model.vpn_state)) [
      | inr r ↦ rw (q, r) (inr (refl, refl, refl))
      | inl r ↦ rw (q, r) (start_in-Branches d.model.vpn_env portal gateway w d)
    ]
  ]
