-- ===== src/SignIn/Window.antt =====
-- The event loop of a sign-in window, `wait_for_auth` of crates/auth/src/webview/webview_auth.rs,
-- with the events and the generation of crates/auth/src/webview/auth_messenger.rs. A turn of the
-- loop takes one input: an event, the end of the restart that is under way, or the deadline.
-- Showing the status and raising the window are left out, as is a window operation that fails,
-- which ends the sign-in. The generation is a 64-bit counter that wraps.
use global_protect_openconne.Prelude.{
  ℕ, ◌+◌, ◌%◌, ◌^◌, Bool, true, false, ◌&&◌, Option, none, some, List, [], ◌∷◌, ◌==◌, if◌then◌else◌,
  is_some,
}
use global_protect_openconne.SignIn.{
  TlsFailureReason, Recovery, RetryPlan, initial, set_status, certificate_accepted, failure, retry,
  page_loaded, loading, failed, tls, accepts_auth_data, blocks_page, is_loading,
}

module _ (AuthData : Type 0) where
  -- The host of a TLS failure, the text of an error and the place where data was found are not used.
  pub data AuthEvent : Type 0 where
    data_found : (generation : ℕ) → AuthData → AuthEvent
    tls_error : (generation : ℕ) (reason : TlsFailureReason) (can_go_on : Bool) → AuthEvent
    temporarily_unavailable load_failed invalid no_auth_data page_was_loaded tls_accepted :
        (generation : ℕ) → AuthEvent
    retry_requested tls_exception_requested raise_window close : AuthEvent

  pub data Input : Type 0 where
    event : AuthEvent → Input
    restarted restart_failed restart_failed_by_tls deadline_passed : Input

  pub record Window : Type 0 where
    pub recovery : Recovery
    pub restart : Option RetryPlan
    pub loading_deadline : Bool
    pub generation : ℕ

  pub data Outcome : Type 0 where
    authenticated : AuthData → Outcome
    cancelled server_tls_error : Outcome

  pub data Turn : Type 0 where
    waiting : Window → Turn
    finished : Outcome → Turn

  abbrev pub opened : ℕ → Window
  opened generation = record {
    recovery = initial;
    restart = none;
    loading_deadline = false;
    generation = generation;
  }

  abbrev pub next_generation : ℕ → ℕ
  next_generation n = (n + 1) % 2 ^ 64

  -- The end of a turn: a plan starts an attempt, and only a loading page keeps its deadline.
  unfoldable pub settle : Window → Recovery × Option RetryPlan → Turn
  settle w (r, some plan) = waiting (record {
    recovery = r;
    restart = some plan;
    loading_deadline = false;
    generation = next_generation w.generation;
  })
  settle w (r, none) =
      waiting
        (record w { recovery = r; loading_deadline = w.loading_deadline && is_loading r.status })

  -- An event of an attempt that is over is skipped.
  abbrev pub current : Window → ℕ → Turn → Turn
  current w generation turn = if generation == w.generation then turn else waiting w

  unfoldable pub handle : AuthEvent → Window → Turn
  unfolding settle
  handle close w = finished cancelled
  handle raise_window w = settle w (w.recovery, none)
  handle tls_exception_requested w = settle w (w.recovery, none)
  handle retry_requested w = settle w (retry w.recovery)
  handle (tls_error generation reason can_go_on) w = current w generation (
      settle (record w { restart = none; loading_deadline = false })
        (set_status (tls reason can_go_on) w.recovery, none))
  handle (tls_accepted generation) w =
      current w generation (settle w (certificate_accepted w.recovery))
  handle (no_auth_data generation) w = current w generation (settle w (w.recovery, none))
  handle (invalid generation) w =
      current w generation (settle w ((failure false w.recovery).0, none))
  handle (temporarily_unavailable generation) w =
      current w generation (settle w (failure true w.recovery))
  handle (load_failed generation) w = current w generation (
      if accepts_auth_data w.recovery.status
      then settle (record w { loading_deadline = false }) (set_status failed w.recovery, none)
      else settle w (w.recovery, none))
  handle (page_was_loaded generation) w =
      let r = page_loaded w.recovery in
      current w generation (
        settle (record w { loading_deadline = w.loading_deadline && blocks_page r.status })
          (r, none))
  handle (data_found generation found) w =
      current w generation
        (if accepts_auth_data w.recovery.status then finished (authenticated found) else waiting w)

  unfoldable pub turn : Input → Window → Turn
  unfolding handle
  turn (event e) w = handle e w
  turn restarted w =
      if is_some w.restart
      then waiting (record {
        recovery = set_status loading w.recovery;
        restart = none;
        loading_deadline = true;
        generation = next_generation w.generation;
      })
      else waiting w
  turn restart_failed w =
      if is_some w.restart
      then waiting (record w { recovery = set_status failed w.recovery; restart = none })
      else waiting w
  turn restart_failed_by_tls w = if is_some w.restart then finished server_tls_error else waiting w
  turn deadline_passed w =
      if w.loading_deadline
      then waiting (record w { recovery = set_status failed w.recovery; loading_deadline = false })
      else waiting w

  -- A finished sign-in takes no more input.
  unfoldable pub turns : List Input → Turn → Turn
  turns [] t = t
  turns (i ∷ is) (waiting w) = turns is (turn i w)
  turns (i ∷ is) (finished o) = finished o
