-- ===== src/Widget/Watching.antt =====
-- When the watchdog of the widget's daemon reports (apps/gpwidget/src/daemon/mod.rs).
use Prim.Native.String.{String}
use global_protect_openconne.Prelude.{
  sym, ap, subst, inl, inr, Bool-cases, ◌&&◌, not, is_some, some, ◌∙◌, ◌+◌, ◌%◌, ◌^◌, ◌<◌, ◌==◌, ℕ,
  ◌≡◌, refl, Bool, true, false, Option, List, [], ◌∷◌, arith, if◌then◌else◌,
}
use global_protect_openconne.VpnState.{ConnectInfo}
use global_protect_openconne.Widget.{ConnectView, snapshot}
use global_protect_openconne.Widget.State.{
  Surroundings, ConnectRequest, next_generation, Daemon, is_disconnected, publish_snapshot,
}
use global_protect_openconne.Widget.Events.{submitted, handle_flow_msg, handle_watchdog}
use global_protect_openconne.Widget.Daemon.{Input, flow, Turn, running, exited, turn, next, turns}
use native.Mathlib.Nat.{zero-add}
use global_protect_openconne.Widget.Leaving.{turns-exited, has_exited}
use global_protect_openconne.Widget.Keeping.{keeps}
use global_protect_openconne.Widget.Keeping.Turns.{expected-Framed, bumps, daemon_of, turn-keeps}

module _ (C H : Type 0) (connect_view : ConnectInfo → Option ConnectView) (trim : String → String)
    (config_path : String) where
  abbrev D : Type 0
  D = Daemon C H connect_view

  abbrev I : Type 0
  I = Input C H connect_view trim config_path × Surroundings

  -- How many inputs set the watchdog aside: the events connecting, connected and reconnect required,
  -- a rejection, and a further submission. The events disconnected and failed do not, nor does an
  -- environment.
  unfoldable pub superseding : List I → ℕ
  superseding [] = 0
  superseding ((i, w) ∷ is) =
      (if bumps C H connect_view trim config_path i then 1 else 0) + superseding is

  abbrev generation : Turn C H connect_view trim config_path → ℕ
  generation t = (daemon_of C H connect_view trim config_path t).watchdog_generation

  turn-generation :
      (i : Input C H connect_view trim config_path) (w : Surroundings) (d : D)
      → generation (turn C H connect_view trim config_path i w d) ≡ (
          if bumps C H connect_view trim config_path i
          then next_generation d.watchdog_generation
          else d.watchdog_generation)
  unfolding keeps
  turn-generation i w d =
      let k = turn-keeps C H connect_view trim config_path i w d in
      let f = (expected-Framed C H connect_view trim config_path i d).1 in ground arith

  next_sum : (g c : ℕ) → ((g + 1) % 2 ^ 64 + c) % 2 ^ 64 ≡ (g + (1 + c)) % 2 ^ 64
  next_sum g c = omega arith

  step_sum :
      (b : Bool) (g c : ℕ)
      → g < 2 ^ 64
      → ((if b then next_generation g else g) + c) % 2 ^ 64
        ≡ (g + ((if b then 1 else 0) + c)) % 2 ^ 64
  step_sum true g c h = next_sum g c
  step_sum false g c h = ap (λ x. (g + x) % 2 ^ 64) (sym (zero-add c))

  step_bound : (b : Bool) (g : ℕ) → g < 2 ^ 64 → (if b then next_generation g else g) < 2 ^ 64
  step_bound true g h = omega arith
  step_bound false g h = h

  turns-generation :
      (is : List I) (t : Turn C H connect_view trim config_path) (e : D)
      → generation t < 2 ^ 64
      → turns C H connect_view trim config_path is t ≡ running e
      → e.watchdog_generation ≡ (generation t + superseding is) % 2 ^ 64
  unfolding turns next superseding
  turns-generation [] t e b h =
      let p : generation t ≡ e.watchdog_generation = ap generation h in omega (arith, p)
  turns-generation (i ∷ is) (exited code d) e b h =
      let x = turns-exited C H connect_view trim config_path (i ∷ is) code d in
      let y = ap (has_exited C H connect_view trim config_path) h in
      let f : true ≡ false = sym x ∙ y in ground arith
  turns-generation ((i, w) ∷ is) (running d) e b h =
      let t = turn C H connect_view trim config_path i w d in
      let n = bumps C H connect_view trim config_path i in
      let g = turn-generation i w d in
      let s = step_bound n d.watchdog_generation b in
      let r = turns-generation is t e (rw g s) h in
      r
      ∙ ap (λ x. (x + superseding is) % 2 ^ 64) g
      ∙ step_sum n d.watchdog_generation (superseding is) b

  -- The tunnel is down and no flow is known to run.
  abbrev pub is_idle : D → Bool
  is_idle d = is_disconnected d.model.vpn_state && not (is_some d.connect_cancel)

  abbrev pub no_reaction : String
  no_reaction = "The VPN service did not react to the connect request"

  -- What the watchdog does: nothing, or it replaces the last error and shows that.
  abbrev pub Reports : Bool → D → D → Type 0
  Reports true d e =
      (e.model.last_error ≡ some no_reaction)
      × (e.model.authenticating ≡ false)
      × (e.latest.error ≡ some no_reaction)
      × (e.watchdog_generation ≡ d.watchdog_generation)
  Reports false d e = e ≡ d

  handle_watchdog-Reports :
      (g : ℕ) (d : D)
      → Reports
          (g == d.watchdog_generation && is_idle d)
          d
          (handle_watchdog C H connect_view trim config_path g d)
  unfolding handle_watchdog publish_snapshot snapshot
  handle_watchdog-Reports g d = elim (Bool-cases (g == d.watchdog_generation)) [
    | inr n ↦ rw n refl
    | inl y ↦ elim (Bool-cases (is_idle d)) [
      | inr n ↦ rw (y, n) refl
      | inl i ↦ rw (y, i) (refl, refl, refl, refl)
    ]
  ]

  -- The generation after so many counts is the same only after none.
  same_generation :
      (g e c : ℕ) → g < 2 ^ 64 → c < 2 ^ 64 → e ≡ (g + c) % 2 ^ 64 → (g == e) ≡ (c == 0)
  same_generation g e c b hi h = ground arith

  -- The watchdog of a submitted request reports exactly if, since the submission, no state that is
  -- connecting, connected or to be restarted, no rejection and no further submission has come, the
  -- tunnel is down and no flow is known to run; otherwise it does nothing. A failure of the tunnel
  -- does not set it aside, so the reason of the failure is then replaced. This holds for fewer than
  -- 2 ^ 64 of those inputs, although the generation wraps.
  pub handle_watchdog-submitted :
      (r : ConnectRequest) (w : Surroundings) (d e : D) (is : List I)
      → superseding is < 2 ^ 64
      → turns C H connect_view trim config_path ((flow (submitted r), w) ∷ is) (running d)
        ≡ running e
      → Reports (superseding is == 0 && is_idle e) e (
          handle_watchdog C H connect_view trim config_path
            (next_generation d.watchdog_generation)
            e)
  unfolding turns next turn handle_flow_msg
  handle_watchdog-submitted r w d e is hi h =
      let g =
        turns-generation is (turn C H connect_view trim config_path (flow (submitted r)) w d) e
          (omega arith) h in
      let n =
        same_generation (next_generation d.watchdog_generation) e.watchdog_generation
          (superseding is) (omega arith) hi g in
      subst
        (λ b. Reports (b && is_idle e) e (
          handle_watchdog C H connect_view trim config_path (next_generation d.watchdog_generation)
            e))
        n (handle_watchdog-Reports (next_generation d.watchdog_generation) e)
