-- ===== src/Widget/Starting.antt =====
-- When the widget's daemon starts a connect flow (`start_connect_flow` of
-- apps/gpwidget/src/daemon/mod.rs).
use Prim.Native.String.{String}
use text.Mathlib.Text.{◌==◌ as str_eq}
use global_protect_openconne.Prelude.{
  suc, ◌∷◌, subst, if◌then◌else◌, ◌≡◌, refl, sym, ap, ◌∙◌, ◌⊎◌, inl, inr, Bool, true, false, ◌&&◌,
  not, Option, none, some, Result, Bool-cases,
}
use global_protect_openconne.VpnState.{ConnectInfo}
use global_protect_openconne.Broadcast.{VpnEnv}
use global_protect_openconne.Widget.{ConnectView, snapshot}
use global_protect_openconne.Widget.Messages.{Config, status}
use global_protect_openconne.Widget.State.{
  Surroundings, Daemon, spawn_flow, publish, save_config, publish_snapshot,
}
use global_protect_openconne.Widget.Connect.{
  or_current, with_portal, start_flow, start_connect_flow,
}
use global_protect_openconne.Widget.Branches.{
  is_ok, can_start, begun, chosen, is_saved, start_connect_flow-Branches,
}

abbrev is_named : Option String → String → Bool
is_named none p = false
is_named (some q) p = str_eq q p

module _ (C H : Type 0) (connect_view : ConnectInfo → Option ConnectView) (trim : String → String)
    (config_path : String) where
  -- Whether the portal that is asked for, without white space around it, is a new one.
  abbrev is_new : Option String → Config → Bool
  is_new none config = false
  is_new (some p) config = not (str_eq (trim p) "") && not (is_named config.portal (trim p))

  abbrev wanted_portal : Option String → Config → Option String
  wanted_portal none config = config.portal
  wanted_portal (some p) config = if is_new (some p) config then some (trim p) else config.portal

  -- The configuration that is read again, or else the current one, with the wanted portal.
  abbrev wanted : Option String → Surroundings → Daemon C H connect_view → Config
  wanted portal w d =
      let base = or_current w.loaded d.model.config in
      record base { portal = wanted_portal portal base }

  -- What a start does: a flow with a new token runs for the wanted portal and the gateway that was
  -- asked for, its token is held, clients are shown that the user signs in, and a new portal is saved.
  abbrev pub IsStarted :
      Option String
      → Option String
      → Surroundings
      → Daemon C H connect_view
      → Daemon C H connect_view
      → Type 0
  IsStarted portal gateway w d e =
      (p : String) × (env : VpnEnv C H) × ((wanted portal w d).portal ≡ some p)
      × (d.model.vpn_env ≡ some env)
      × (e.connect_cancel ≡ some d.flows)
      × (e.flows ≡ suc d.flows)
      × (e.model ≡ record d.model {
        config = wanted portal w d;
        portal = some p;
        authenticating = true;
        last_error = none;
      })
      × (e.latest ≡ snapshot C H connect_view e.model)
      × (e.effects
          ≡ spawn_flow d.flows (record {
            portal = p;
            gateway_override = gateway;
            config = wanted portal w d;
            vpn_env = env;
          })
            ∷ publish (status e.latest)
            ∷ (if is_new portal (or_current w.loaded d.model.config)
                then save_config (wanted portal w d) ∷ d.effects
                else d.effects))
      × (e.submitted_connect ≡ d.submitted_connect)
      × (e.disconnect_requested ≡ d.disconnect_requested)
      × (e.quitting ≡ d.quitting)

  abbrev pub Starts :
      Option String
      → Option String
      → Surroundings
      → Daemon C H connect_view
      → Daemon C H connect_view × Result String Unit
      → Type 0
  Starts portal gateway w d r =
      ((can_start C H connect_view trim config_path portal w d ≡ true)
        × (is_ok C H connect_view trim config_path r.1 ≡ true)
        × IsStarted portal gateway w d r.0)
      ⊎ ((can_start C H connect_view trim config_path portal w d ≡ false)
          × (is_ok C H connect_view trim config_path r.1 ≡ false)
          × (r.0 ≡ d))

  chosen-wanted :
      (portal : Option String) (w : Surroundings) (d : Daemon C H connect_view)
      → chosen C H connect_view trim config_path portal w d ≡ wanted portal w d
  unfolding with_portal
  chosen-wanted none w d = refl
  chosen-wanted (some p) w d =
      elim (Bool-cases (is_new (some p) (or_current w.loaded d.model.config))) [
        | inl n ↦ rw n refl
        | inr n ↦ rw n refl
      ]

  is_saved-is_new :
      (portal : Option String) (w : Surroundings) (d : Daemon C H connect_view)
      → is_saved C H connect_view trim config_path portal w d
        ≡ is_new portal (or_current w.loaded d.model.config)
  is_saved-is_new none w d = refl
  is_saved-is_new (some p) w d = refl

  begun-IsStarted :
      (portal gateway : Option String) (w : Surroundings) (d : Daemon C H connect_view) (p : String)
      (env : VpnEnv C H)
      → d.model.vpn_env ≡ some env
      → (wanted portal w d).portal ≡ some p
      → IsStarted portal gateway w d (
          begun C H connect_view trim config_path p gateway
            (wanted portal w d)
            env
            (is_new portal (or_current w.loaded d.model.config))
            d)
  unfolding start_flow publish_snapshot
  begun-IsStarted portal gateway w d p env v n =
      elim (Bool-cases (is_new portal (or_current w.loaded d.model.config))) [
        | inl s ↦ rw s (p, env, n, v, refl, refl, refl, refl, refl, refl, refl, refl)
        | inr s ↦ rw s (p, env, n, v, refl, refl, refl, refl, refl, refl, refl, refl)
      ]

  -- A connect flow starts exactly if none is known to run, the tunnel is down, the service has been
  -- heard of and a portal is known. Then a flow with a fresh token is spawned for the wanted portal,
  -- its token is held, a status that says so is published before, and a new portal is saved first.
  -- Otherwise the answer is an error and the daemon is as before.
  pub start_connect_flow-Starts :
      (portal gateway : Option String) (w : Surroundings) (d : Daemon C H connect_view)
      → Starts portal gateway w d
          (start_connect_flow C H connect_view trim config_path portal gateway w d)
  start_connect_flow-Starts portal gateway w d =
      elim (start_connect_flow-Branches C H connect_view trim config_path portal gateway w d) [
        | inr refused ↦ inr refused
        | inl (c, o, (p, env, v, n, e)) ↦
            let h = chosen-wanted portal w d in
            let s = is_saved-is_new portal w d in
            let f =
              begun-IsStarted portal gateway w d p env v
                (sym (ap (λ (k : Config). k.portal) h) ∙ n) in
            let g =
              e
              ∙ ap
                  (λ k.
                    begun C H connect_view trim config_path p gateway k env
                      (is_saved C H connect_view trim config_path portal w d) d)
                  h
              ∙ ap
                  (λ b.
                    begun C H connect_view trim config_path p gateway (wanted portal w d) env b d)
                  s in
            inl (c, o, subst (IsStarted portal gateway w d) (sym g) f)
      ]
