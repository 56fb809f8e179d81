-- ===== src/Widget/Resting.antt =====
-- That the widget's daemon lets a tunnel rest that the user has disconnected
-- (apps/gpwidget/src/daemon/mod.rs).
use Prim.Native.String.{String}
use global_protect_openconne.Prelude.{
  ap, ◌∙◌, ℕ, ◌≡◌, refl, Bool, true, false, ◌&&◌, not, Option, List, [], ◌∷◌, arith, is_some,
}
use global_protect_openconne.VpnState.{ConnectInfo}
use global_protect_openconne.Widget.{ConnectView}
use global_protect_openconne.Widget.State.{Surroundings, is_under_way, Daemon}
use global_protect_openconne.Widget.Connect.{disconnect}
use global_protect_openconne.Widget.Daemon.{Input, Turn, running, exited, turn, next, turns}
use global_protect_openconne.Widget.Keeping.{connects, keeps}
use global_protect_openconne.Widget.Keeping.Turns.{expected-Framed, submits, daemon_of, turn-keeps}

module _ (C H : Type 0) (connect_view : ConnectInfo → Option ConnectView) (trim : String → String)
    (config_path : String) where
  abbrev D : Type 0
  D = Daemon C H connect_view

  abbrev I : Type 0
  I = Input C H connect_view trim config_path × Surroundings

  unfoldable pub none_submits : List I → Bool
  none_submits [] = true
  none_submits ((i, w) ∷ is) = not (submits C H connect_view trim config_path i) && none_submits is

  abbrev pub sent : Turn C H connect_view trim config_path → ℕ
  sent t =
      connects C H connect_view trim config_path
        (daemon_of C H connect_view trim config_path t).effects

  abbrev holds_request : Turn C H connect_view trim config_path → Bool
  holds_request t = is_some (daemon_of C H connect_view trim config_path t).submitted_connect

  turn-rests :
      (i : Input C H connect_view trim config_path) (w : Surroundings) (d : D)
      → is_some d.submitted_connect ≡ false
      → submits C H connect_view trim config_path i ≡ false
      → (holds_request (turn C H connect_view trim config_path i w d) ≡ false)
        × (sent (turn C H connect_view trim config_path i w d) ≡ sent (running d))
  unfolding keeps
  turn-rests i w d n s =
      let k = turn-keeps C H connect_view trim config_path i w d in
      let f = expected-Framed C H connect_view trim config_path i d in
      let e = ap (connects C H connect_view trim config_path) f.3 in let g = f.2 in ground arith

  turns-rests :
      (is : List I) (t : Turn C H connect_view trim config_path)
      → holds_request t ≡ false
      → none_submits is ≡ true
      → sent (turns C H connect_view trim config_path is t) ≡ sent t
  unfolding turns next none_submits
  turns-rests [] t n s = refl
  turns-rests ((i, w) ∷ is) (running d) n s =
      let r = turn-rests i w d n (ground arith) in
      turns-rests is (turn C H connect_view trim config_path i w d) r.0 (ground arith) ∙ r.1
  turns-rests ((i, w) ∷ is) (exited code d) n s = turns-rests is (exited code d) n (ground arith)

  -- After a tunnel that starts, is up or is to be restarted was disconnected, the daemon itself
  -- sends no request to connect, whatever it is told, until a connect flow reports a new one.
  pub turns-disconnect :
      (d : D) (is : List I)
      → is_some d.connect_cancel ≡ false
      → is_under_way d.model.vpn_state ≡ true
      → none_submits is ≡ true
      → sent (
          turns C H connect_view trim config_path is
            (running (disconnect C H connect_view trim config_path d)))
        ≡ sent (running d)
  unfolding disconnect connects
  turns-disconnect d is c u n =
      let e : holds_request (running (disconnect C H connect_view trim config_path d)) ≡ false =
        ground arith in
      let s : sent (running (disconnect C H connect_view trim config_path d)) ≡ sent (running d) =
        ground arith in
      turns-rests is (running (disconnect C H connect_view trim config_path d)) e n ∙ s
