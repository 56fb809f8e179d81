-- ===== src/SignIn/Restarts.antt =====
-- When the sign-in window of crates/auth/src/webview/webview_auth.rs restarts a sign-in.
use global_protect_openconne.Prelude.{
  ℕ, ◌+◌, ◌≤◌, ◌≡◌, refl, Bool, true, false, ◌&&◌, not, Option, none, some, List, [], ◌∷◌, arith,
  is_some, if◌then◌else◌,
}
use global_protect_openconne.SignIn.{
  RetryPlan, RetryTiming, automatic_delay, immediate, certificate_accepted, failure, retry,
  page_loaded, is_loading, is_restarting,
}
use global_protect_openconne.SignIn.Window.{
  AuthEvent, data_found, tls_error, temporarily_unavailable, load_failed, invalid, no_auth_data,
  page_was_loaded, tls_accepted, retry_requested, tls_exception_requested, raise_window, close,
  Input, event, restarted, restart_failed, restart_failed_by_tls, deadline_passed, Window, Turn,
  waiting, finished, opened, settle, handle, turn, turns,
}

module _ (D : Type 0) where
  -- A restart is under way exactly while the user is told so, and a deadline runs only while the
  -- restarted page loads.
  abbrev pub IsConsistent : Window D → Type 0
  IsConsistent w =
      (is_some w.restart ≡ is_restarting w.recovery.status)
      × ((w.loading_deadline && not (is_loading w.recovery.status)) ≡ false)

  abbrev pub Waits : (Window D → Type 0) → Turn D → Type 0
  Waits P (waiting w) = P w
  Waits P (finished o) = Unit

  handle-IsConsistent :
      (e : AuthEvent D) (w : Window D) → IsConsistent w → Waits IsConsistent (handle D e w)
  unfolding handle settle certificate_accepted failure retry page_loaded
  handle-IsConsistent (data_found g d) w c = ground arith
  handle-IsConsistent (tls_error g r b) w c = ground arith
  handle-IsConsistent (temporarily_unavailable g) w c = ground arith
  handle-IsConsistent (load_failed g) w c = ground arith
  handle-IsConsistent (invalid g) w c = ground arith
  handle-IsConsistent (no_auth_data g) w c = ground arith
  handle-IsConsistent (page_was_loaded g) w c = ground arith
  handle-IsConsistent (tls_accepted g) w c = ground arith
  handle-IsConsistent retry_requested w c = ground arith
  handle-IsConsistent tls_exception_requested w c = ground arith
  handle-IsConsistent raise_window w c = ground arith
  handle-IsConsistent close w c = tt

  turn-IsConsistent :
      (i : Input D) (w : Window D) → IsConsistent w → Waits IsConsistent (turn D i w)
  unfolding turn
  turn-IsConsistent (event e) w c = handle-IsConsistent e w c
  turn-IsConsistent restarted w c = ground arith
  turn-IsConsistent restart_failed w c = ground arith
  turn-IsConsistent restart_failed_by_tls w c = ground arith
  turn-IsConsistent deadline_passed w c = ground arith

  turns-IsConsistent :
      (is : List (Input D)) (t : Turn D) → Waits IsConsistent t → Waits IsConsistent (turns D is t)
  unfolding turns
  turns-IsConsistent [] t c = c
  turns-IsConsistent (i ∷ is) (waiting w) c = turns-IsConsistent is _ (turn-IsConsistent i w c)
  turns-IsConsistent (i ∷ is) (finished o) c = tt

  -- In every window that still waits, whatever has happened to it, a restart is under way exactly if
  -- the status says so, and a deadline is set only while the status is loading.
  pub turns-opened :
      (g : ℕ) (is : List (Input D)) (w : Window D)
      → turns D is (waiting (opened D g)) ≡ waiting w
      → (is_some w.restart ≡ is_restarting w.recovery.status)
        × ((w.loading_deadline && not (is_loading w.recovery.status)) ≡ false)
  turns-opened g is w e = rw e at (turns-IsConsistent is (waiting (opened D g)) (refl, refl))

  abbrev is_automatic : RetryTiming → Bool
  is_automatic automatic_delay = true
  is_automatic immediate = false

  abbrev plans_automatic : Option RetryPlan → Bool
  plans_automatic none = false
  plans_automatic (some p) = is_automatic p.timing

  -- A turn begins an automatic restart.
  abbrev begins_automatic : Window D → Turn D → Bool
  begins_automatic w (waiting w') = not (is_some w.restart) && plans_automatic w'.restart
  begins_automatic w (finished o) = false

  -- How many of the turns begin an automatic restart.
  unfoldable pub automatic_restarts : List (Input D) → Turn D → ℕ
  automatic_restarts [] t = 0
  automatic_restarts (i ∷ is) (finished o) = 0
  automatic_restarts (i ∷ is) (waiting w) =
      (if begins_automatic w (turn D i w) then 1 else 0) + automatic_restarts is (turn D i w)

  abbrev left : Turn D → ℕ
  left (waiting w) = if w.recovery.automatic_retry_used then 0 else 1
  left (finished o) = 0

  -- A turn that begins an automatic restart uses up the one that is left.
  handle-left :
      (e : AuthEvent D) (w : Window D)
      → (if begins_automatic w (handle D e w) then 1 else 0) + left (handle D e w)
        ≤ left (waiting w)
  unfolding handle settle certificate_accepted failure retry page_loaded
  handle-left (data_found g d) w = ground arith
  handle-left (tls_error g r b) w = ground arith
  handle-left (temporarily_unavailable g) w = ground arith
  handle-left (load_failed g) w = ground arith
  handle-left (invalid g) w = ground arith
  handle-left (no_auth_data g) w = ground arith
  handle-left (page_was_loaded g) w = ground arith
  handle-left (tls_accepted g) w = ground arith
  handle-left retry_requested w = ground arith
  handle-left tls_exception_requested w = ground arith
  handle-left raise_window w = ground arith
  handle-left close w = ground arith

  turn-left :
      (i : Input D) (w : Window D)
      → (if begins_automatic w (turn D i w) then 1 else 0) + left (turn D i w) ≤ left (waiting w)
  unfolding turn
  turn-left (event e) w = handle-left e w
  turn-left restarted w = ground arith
  turn-left restart_failed w = ground arith
  turn-left restart_failed_by_tls w = ground arith
  turn-left deadline_passed w = ground arith

  automatic_restarts-left : (is : List (Input D)) (t : Turn D) → automatic_restarts is t ≤ left t
  unfolding automatic_restarts
  automatic_restarts-left [] t = omega arith
  automatic_restarts-left (i ∷ is) (finished o) = omega arith
  automatic_restarts-left (i ∷ is) (waiting w) =
      let a = turn-left i w in let b = automatic_restarts-left is (turn D i w) in omega arith

  -- Whatever happens to a sign-in window, at most one of its restarts is automatic.
  pub automatic_restarts-opened :
      (g : ℕ) (is : List (Input D)) → automatic_restarts is (waiting (opened D g)) ≤ 1
  automatic_restarts-opened g is = automatic_restarts-left is (waiting (opened D g))
