-- ===== src/Widget/Keeping/Commands.antt =====
-- What a command keeps of the widget's daemon (apps/gpwidget/src/daemon/mod.rs).
use Prim.Native.String.{String}
use global_protect_openconne.Prelude.{ℕ, ◌≡◌, Bool, true, Option, none, arith, Result, ok, err}
use global_protect_openconne.VpnState.{ConnectInfo}
use global_protect_openconne.Widget.{ConnectView}
use global_protect_openconne.Widget.Messages.{
  ClientMsg, get_status, toggle, connect, submit_otp, open_popup, quit,
}
use global_protect_openconne.Widget.State.{Surroundings, Daemon}
use global_protect_openconne.Widget.Daemon.{acknowledge_result, toggled, quit_by, handle_command}
use global_protect_openconne.Widget.Keeping.{
  connects, keeps, start_connect_flow-keeps, disconnect-keeps,
}

module _ (C H : Type 0) (connect_view : ConnectInfo → Option ConnectView) (trim : String → String)
    (config_path : String) where
  abbrev D : Type 0
  D = Daemon C H connect_view

  abbrev kept : D → D → Bool
  kept d e = keeps C H connect_view trim config_path d e

  toggled-keeps :
      (w : Surroundings) (d : D) → kept d (toggled C H connect_view trim config_path w d).0 ≡ true
  unfolding toggled
  toggled-keeps w d =
      let s = start_connect_flow-keeps C H connect_view trim config_path none none w d in
      let t = disconnect-keeps C H connect_view trim config_path d in ground arith

  acknowledge_result-keeps :
      (n : Option ℕ) (d : D) (r : D × Result String Unit)
      → kept d r.0 ≡ true
      → kept d (acknowledge_result C H connect_view trim config_path n r) ≡ true
  unfolding keeps connects
  acknowledge_result-keeps n e (d, ok u) h = ground arith
  acknowledge_result-keeps n e (d, err x) h = ground arith

  pub handle_command-keeps :
      (c : ClientMsg) (w : Surroundings) (d : D)
      → kept d (handle_command C H connect_view trim config_path c w d).0 ≡ true
  unfolding handle_command quit_by keeps connects
  handle_command-keeps (get_status n) w d = ground arith
  handle_command-keeps (connect n portal gateway) w d =
      acknowledge_result-keeps n d _
        (start_connect_flow-keeps C H connect_view trim config_path portal gateway w d)
  handle_command-keeps (ClientMsg.disconnect n) w d =
      acknowledge_result-keeps n d (_, ok tt) (disconnect-keeps C H connect_view trim config_path d)
  handle_command-keeps (toggle n) w d = acknowledge_result-keeps n d _ (toggled-keeps w d)
  handle_command-keeps (submit_otp n otp) w d = acknowledge_result-keeps n d _ (ground arith)
  handle_command-keeps (open_popup n) w d = ground arith
  handle_command-keeps (quit n) w d = ground arith
