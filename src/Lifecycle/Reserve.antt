-- ===== src/Lifecycle/Reserve.antt =====
-- Exactly when a connection is admitted.
use global_protect_openconne.Prelude.{
  ℕ, ◌≡◌, refl, true, false, ◌⊎◌, ◌↔◌, Option, none, some, arith, is_ok,
}
use global_protect_openconne.VpnState.{Uuid}
use global_protect_openconne.Lifecycle.{Lifecycle, admit, reserve_connect, same_restart}

same_restart-eq : (a b : Option (ℕ × Uuid)) → same_restart a b ≡ true → a ≡ b
same_restart-eq none none h = refl
same_restart-eq none (some y) h = cc
same_restart-eq (some x) none h = cc
same_restart-eq (some (a, s)) (some (b, t)) h = ground arith

same_restart_refl : (a b : Option (ℕ × Uuid)) → a ≡ b → same_restart a b ≡ true
same_restart_refl none none h = refl
same_restart_refl none (some y) h = cc
same_restart_refl (some x) none h = cc
same_restart_refl (some (a, s)) (some (b, t)) h = ground arith

-- A connection is admitted exactly if the lifecycle is open, no admission is current, and the
-- request is no restart or is the restart that was offered last.
pub reserve_connect_iff :
    (restart : Option (ℕ × Uuid)) (l : Lifecycle)
    → (is_ok (reserve_connect restart l).1 ≡ true)
      ↔ ((l.closed ≡ false) × (l.current ≡ none) × ((restart ≡ none) ⊎ (l.restart ≡ restart)))
unfolding reserve_connect
reserve_connect_iff restart l =
    ground (arith, same_restart-eq l.restart restart, same_restart_refl l.restart restart)

-- An offered restart is admitted once: after an admission the same restart is refused, also when
-- the lifecycle is free again, until it is offered anew.
pub restart_once :
    (x : ℕ × Uuid) (l l' : Lifecycle)
    → l'.restart ≡ (reserve_connect (some x) l).0.restart
    → is_ok (reserve_connect (some x) l).1 ≡ true
    → is_ok (reserve_connect (some x) l').1 ≡ false
unfolding reserve_connect admit
restart_once x l l' e h = ground arith
