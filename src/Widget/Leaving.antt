-- ===== src/Widget/Leaving.antt =====
-- That the widget's daemon leaves when it is told to quit (apps/gpwidget/src/daemon/mod.rs).
use Prim.Native.String.{String}
use global_protect_openconne.Prelude.{
  inl, inr, Bool-cases, Bool-cases, ℕ, ◌≡◌, refl, inl, inr, Bool, true, false, ◌||◌, Option, List,
  [], ◌∷◌, arith,
}
use global_protect_openconne.VpnState.{
  ConnectInfo, VpnState, connected, connecting, disconnected, disconnecting, reconnect_required,
}
use global_protect_openconne.Broadcast.{
  tunnel_event, env_event, state_event, active_gui, resume_connection,
}
use global_protect_openconne.Widget.{ConnectView}
use global_protect_openconne.Widget.Messages.{quit}
use global_protect_openconne.Widget.State.{Surroundings, Effect, start_quit_timeout, Daemon}
use global_protect_openconne.Widget.Events.{react, handle_ws_event}
use global_protect_openconne.Widget.Daemon.{
  quit_by, handle_command, Input, event, rejected, lost, gone, notices_ended, commands_ended,
  command, flow, connect_watchdog, expiry_warning, quit_timeout, measured, sigterm, sigint, Turn,
  running, exited, turn, next, turns,
}
use global_protect_openconne.Widget.Keeping.{keeps}
use global_protect_openconne.Widget.Keeping.Turns.{expected-Framed, daemon_of, turn-keeps}

module _ (C H : Type 0) (connect_view : ConnectInfo → Option ConnectView) (trim : String → String)
    (config_path : String) where
  abbrev D : Type 0
  D = Daemon C H connect_view

  abbrev I : Type 0
  I = Input C H connect_view trim config_path × Surroundings

  -- The service's event that the tunnel is down or has failed, the end of the time that a quit is
  -- given, the end of the service or of a channel, or a signal. The environment that the service
  -- sends to a client which connects again is none of these, whatever state it holds.
  abbrev is_end : Input C H connect_view trim config_path → Bool
  is_end quit_timeout = true
  is_end (event (state_event disconnected)) = true
  is_end (event (state_event (VpnState.failed _))) = true
  is_end gone = true
  is_end notices_ended = true
  is_end commands_ended = true
  is_end sigterm = true
  is_end sigint = true
  is_end _ = false

  unfoldable pub has_end : List I → Bool
  has_end [] = false
  has_end ((i, w) ∷ is) = is_end i || has_end is

  abbrev pub has_exited : Turn C H connect_view trim config_path → Bool
  has_exited (running d) = false
  has_exited (exited code d) = true

  turn-is_end :
      (i : Input C H connect_view trim config_path) (w : Surroundings) (d : D)
      → d.quitting ≡ true
      → is_end i ≡ true
      → has_exited (turn C H connect_view trim config_path i w d) ≡ true
  unfolding turn handle_ws_event react
  turn-is_end quit_timeout w d q e = rw q refl
  turn-is_end (event (state_event disconnected)) w d q e = rw q refl
  turn-is_end (event (state_event (VpnState.failed reason))) w d q e = rw q refl
  turn-is_end (event (state_event (connecting x))) w d q e = ground arith
  turn-is_end (event (state_event (connected x))) w d q e = ground arith
  turn-is_end (event (state_event (reconnect_required x))) w d q e = ground arith
  turn-is_end (event (state_event disconnecting)) w d q e = ground arith
  turn-is_end (event (env_event x)) w d q e = ground arith
  turn-is_end (event (tunnel_event x)) w d q e = ground arith
  turn-is_end (event active_gui) w d q e = ground arith
  turn-is_end (event resume_connection) w d q e = ground arith
  turn-is_end (rejected x) w d q e = ground arith
  turn-is_end lost w d q e = ground arith
  turn-is_end gone w d q e = refl
  turn-is_end notices_ended w d q e = refl
  turn-is_end commands_ended w d q e = refl
  turn-is_end (command x) w d q e = ground arith
  turn-is_end (flow x) w d q e = ground arith
  turn-is_end (connect_watchdog x) w d q e = ground arith
  turn-is_end (expiry_warning x) w d q e = ground arith
  turn-is_end (measured x) w d q e = ground arith
  turn-is_end sigterm w d q e = refl
  turn-is_end sigint w d q e = refl

  turn-quitting :
      (i : Input C H connect_view trim config_path) (w : Surroundings) (d : D)
      → d.quitting ≡ true
      → (daemon_of C H connect_view trim config_path
          (turn C H connect_view trim config_path i w d)).quitting
        ≡ true
  unfolding keeps
  turn-quitting i w d q =
      let k = turn-keeps C H connect_view trim config_path i w d in
      let e = (expected-Framed C H connect_view trim config_path i d).0 in ground arith

  pub turns-exited :
      (is : List I) (code : ℕ) (d : D)
      → has_exited (turns C H connect_view trim config_path is (exited code d)) ≡ true
  unfolding turns next
  turns-exited [] code d = refl
  turns-exited ((i, w) ∷ is) code d = turns-exited is code d

  abbrev is_quitting : Turn C H connect_view trim config_path → Bool
  is_quitting (running d) = d.quitting
  is_quitting (exited code d) = true

  turns-leaves :
      (is : List I) (t : Turn C H connect_view trim config_path)
      → is_quitting t ≡ true
      → (has_exited t || has_end is) ≡ true
      → has_exited (turns C H connect_view trim config_path is t) ≡ true
  unfolding turns next has_end
  turns-leaves is (exited code d) q e = turns-exited is code d
  turns-leaves [] (running d) q e = e
  turns-leaves ((i, w) ∷ is) (running d) q e =
      let s = turn-quitting i w d q in
      let t = turn C H connect_view trim config_path i w d in
      turns-leaves is t (stays t s) (elim (Bool-cases (is_end i)) [
        | inl b ↦ rw (turn-is_end i w d q b) refl
        | inr b ↦ let h : has_end is ≡ true = ground arith in ground arith
      ])
    where
      stays :
          (t : Turn C H connect_view trim config_path)
          → (daemon_of C H connect_view trim config_path t).quitting ≡ true
          → is_quitting t ≡ true
      stays (running d) h = h
      stays (exited code d) h = refl

  abbrev starts_timeout : Effect C H connect_view → Bool
  starts_timeout start_quit_timeout = true
  starts_timeout _ = false

  abbrev first_starts_timeout : List (Effect C H connect_view) → Bool
  first_starts_timeout [] = false
  first_starts_timeout (e ∷ es) = starts_timeout e

  -- The daemon has exited, or its last effect started the timer after which it gives up.
  abbrev pub leaves_or_waits : Turn C H connect_view trim config_path → Bool
  leaves_or_waits (running d) = first_starts_timeout d.effects
  leaves_or_waits (exited code d) = true

  turn-quit :
      (n : Option ℕ) (w : Surroundings) (d : D)
      → (is_quitting (turn C H connect_view trim config_path (command (quit n)) w d) ≡ true)
        × (leaves_or_waits (turn C H connect_view trim config_path (command (quit n)) w d) ≡ true)
  unfolding turn handle_command quit_by
  turn-quit n w d = ground arith

  -- A daemon that is told to quit exits at once or starts a timer. Whatever else happens to it, it
  -- has exited once the timer has run out, and also once the service has sent the event that the
  -- tunnel is disconnected or has failed, the service is gone, a channel has ended or a signal has
  -- come. A disconnected state within an environment does not count.
  pub turns-quit :
      (n : Option ℕ) (w : Surroundings) (d : D) (is : List I)
      → has_end is ≡ true
      → (leaves_or_waits (turn C H connect_view trim config_path (command (quit n)) w d) ≡ true)
        × (has_exited
              (turns C H connect_view trim config_path ((command (quit n), w) ∷ is) (running d))
            ≡ true)
  unfolding turns next
  turns-quit n w d is e = let q = turn-quit n w d in (q.1, turns-leaves is _ q.0 (ground arith))
