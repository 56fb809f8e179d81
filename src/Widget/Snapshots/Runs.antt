-- ===== src/Widget/Snapshots/Runs.antt =====
-- That every status of the widget's daemon is valid, in any run
-- (apps/gpwidget/src/daemon/mod.rs).
use Prim.Native.String.{String}
use global_protect_openconne.Prelude.{
  Bool-cases, ℕ, ◌≡◌, refl, inl, inr, Bool, true, false, Option, none, some, List, [], ◌∷◌, arith,
  Result, ok, err,
}
use global_protect_openconne.VpnState.{ConnectInfo}
use global_protect_openconne.Widget.{ConnectView}
use global_protect_openconne.Widget.Messages.{
  ClientMsg, Config, ConnStats, get_status, toggle, connect, submit_otp, open_popup, quit,
}
use global_protect_openconne.Widget.State.{
  Surroundings, is_connected, Daemon, new_daemon, acknowledge,
}
use global_protect_openconne.Widget.Daemon.{
  acknowledge_result, exit_if, toggled, quit_by, handle_command, Input, event, rejected, lost, gone,
  notices_ended, commands_ended, command, flow, connect_watchdog, expiry_warning, quit_timeout,
  measured, sigterm, sigint, Turn, running, exited, take_stats, turn, next, turns, run,
}
use global_protect_openconne.Widget.Snapshots.{
  is_valid, all_valid, is_clear, is_good, snapshot-is_valid, start_connect_flow-is_good,
  disconnect-is_good,
}
use global_protect_openconne.Widget.Snapshots.Handlers.{
  handle_ws_event-is_good, handle_flow_msg-is_good, handle_rejection-is_good,
  handle_expiry_warning-is_good, handle_watchdog-is_good, republished,
}

module _ (C H : Type 0) (connect_view : ConnectInfo → Option ConnectView) (trim : String → String)
    (config_path : String) where
  abbrev D : Type 0
  D = Daemon C H connect_view

  abbrev good : D → Bool
  good d = is_good C H connect_view d

  toggled-is_good :
      (w : Surroundings) (d : D)
      → good d ≡ true
      → good (toggled C H connect_view trim config_path w d).0 ≡ true
  unfolding toggled
  toggled-is_good w d h =
      let s = start_connect_flow-is_good C H connect_view trim config_path none none w d h in
      let t = disconnect-is_good C H connect_view trim config_path d h in ground arith

  acknowledge_result-is_good :
      (n : Option ℕ) (r : D × Result String Unit)
      → good r.0 ≡ true
      → good (acknowledge_result C H connect_view trim config_path n r) ≡ true
  unfolding is_good all_valid
  acknowledge_result-is_good n (d, ok u) h = ground arith
  acknowledge_result-is_good n (d, err e) h = ground arith

  acknowledge-is_good :
      (n : Option ℕ) (d : D)
      → good d ≡ true
      → good (acknowledge C H connect_view n true none d) ≡ true
  unfolding is_good all_valid
  acknowledge-is_good none d h = h
  acknowledge-is_good (some n) d h = h

  handle_command-is_good :
      (c : ClientMsg) (w : Surroundings) (d : D)
      → good d ≡ true
      → good (handle_command C H connect_view trim config_path c w d).0 ≡ true
  unfolding handle_command quit_by is_good all_valid is_clear
  handle_command-is_good (get_status n) w d h = acknowledge-is_good n _ (ground arith)
  handle_command-is_good (connect n portal gateway) w d h =
      acknowledge_result-is_good n _
        (start_connect_flow-is_good C H connect_view trim config_path portal gateway w d h)
  handle_command-is_good (ClientMsg.disconnect n) w d h =
      acknowledge-is_good n _ (disconnect-is_good C H connect_view trim config_path d h)
  handle_command-is_good (toggle n) w d h = acknowledge_result-is_good n _ (toggled-is_good w d h)
  handle_command-is_good (submit_otp n otp) w d h = acknowledge_result-is_good n _ (ground arith)
  handle_command-is_good (open_popup n) w d h = acknowledge-is_good n _ (ground arith)
  handle_command-is_good (quit n) w d h = ground arith

  abbrev pub daemon_of : Turn C H connect_view trim config_path → D
  daemon_of (running d) = d
  daemon_of (exited code d) = d

  exit_if-is_good :
      (r : D × Bool)
      → good r.0 ≡ true
      → good (daemon_of (exit_if C H connect_view trim config_path r)) ≡ true
  unfolding is_good all_valid
  exit_if-is_good (d, true) h = ground arith
  exit_if-is_good (d, false) h = h

  take_stats-is_good :
      (stats : ConnStats) (w : Surroundings) (d : D)
      → good d ≡ true
      → good (take_stats C H connect_view trim config_path stats w d) ≡ true
  unfolding take_stats is_good is_clear
  take_stats-is_good stats w d h =
      let shown = record d { model = record d.model { conn = some stats } } in
      elim (Bool-cases (is_connected d.model.vpn_state)) [
        | inr n ↦ rw n h
        | inl c ↦
            let k : good shown ≡ true = ground arith in
            let p = republished C H connect_view trim config_path shown k in rw c (ground arith)
      ]

  turn-is_good :
      (i : Input C H connect_view trim config_path) (w : Surroundings) (d : D)
      → good d ≡ true
      → good (daemon_of (turn C H connect_view trim config_path i w d)) ≡ true
  unfolding turn is_good all_valid is_clear
  turn-is_good (event e) w d h =
      exit_if-is_good _ (handle_ws_event-is_good C H connect_view trim config_path e w d h)
  turn-is_good (rejected message) w d h =
      handle_rejection-is_good C H connect_view trim config_path message d h
  turn-is_good lost w d h = h
  turn-is_good gone w d h = ground arith
  turn-is_good notices_ended w d h = ground arith
  turn-is_good commands_ended w d h = ground arith
  turn-is_good (command c) w d h = exit_if-is_good _ (handle_command-is_good c w d h)
  turn-is_good (flow m) w d h = handle_flow_msg-is_good C H connect_view trim config_path m d h
  turn-is_good (connect_watchdog n) w d h =
      handle_watchdog-is_good C H connect_view trim config_path n d h
  turn-is_good (expiry_warning n) w d h =
      handle_expiry_warning-is_good C H connect_view trim config_path n d h
  turn-is_good quit_timeout w d h = ground arith
  turn-is_good (measured stats) w d h = take_stats-is_good stats w d h
  turn-is_good sigterm w d h = ground arith
  turn-is_good sigint w d h = ground arith

  turns-is_good :
      (is : List (Input C H connect_view trim config_path × Surroundings))
      (t : Turn C H connect_view trim config_path)
      → good (daemon_of t) ≡ true
      → good (daemon_of (turns C H connect_view trim config_path is t)) ≡ true
  unfolding turns next
  turns-is_good [] t h = h
  turns-is_good ((i, w) ∷ is) (running d) h = turns-is_good is _ (turn-is_good i w d h)
  turns-is_good ((i, w) ∷ is) (exited code d) h = turns-is_good is (exited code d) h

  -- In any run of the daemon, every status that it has sent, and the one that it gives to new
  -- clients, has statistics exactly if it says connected, no gateway and no session while it says
  -- that no tunnel is wanted, a reason if it says error, and no portal if it says that setup is
  -- needed.
  pub run-is_valid :
      (config : Config) (is : List (Input C H connect_view trim config_path × Surroundings))
      → (all_valid C H connect_view
            (daemon_of (run C H connect_view trim config_path config is)).effects
          ≡ true)
        × (is_valid (daemon_of (run C H connect_view trim config_path config is)).latest ≡ true)
  unfolding run new_daemon is_good all_valid is_clear
  run-is_valid config is =
      let n = new_daemon C H connect_view config in
      let v = snapshot-is_valid C H connect_view n.model refl in
      let g = turns-is_good is (running n) (ground arith) in ground arith
