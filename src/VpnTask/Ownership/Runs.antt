-- ===== src/VpnTask/Ownership/Runs.antt =====
-- What one-handed ownership gives for every schedule of the VPN task.
use Prim.Native.String.{String}
use global_protect_openconne.Prelude.{
  ℕ, ◌+◌, ◌≡◌, refl, Bool, Option, none, some, List, [], ◌∷◌, length,
}
use global_protect_openconne.VpnState.{VpnState}
use global_protect_openconne.Lifecycle.Laws.{starts}
use global_protect_openconne.VpnTask.{SessionStore}
use global_protect_openconne.VpnTask.System.{System, Label, step, run, new}
use global_protect_openconne.VpnTask.Ownership.{nobody, reservation, queued, running, awaited}
use global_protect_openconne.VpnTask.Ownership.Steps.{Owned, step-Owned}

abbrev pub size {ℓ} : {A : Type ℓ} → Option A → ℕ
size none = 0
size (some _) = 1

module _ (R : SessionStore) (fd : ℕ → String) where
  pub run-Owned : (s : System R) (labs : List Label) → Owned R s → Owned R (run R fd s labs)
  unfolding run
  run-Owned s [] w = w
  run-Owned s (lab ∷ labs) w = run-Owned (step R fd s lab) labs (step-Owned R fd s lab w)

  pub new-Owned : (v : VpnState) (b : Bool) (store : R.Store) → Owned R (new R v b store)
  unfolding new
  new-Owned v b store = nobody refl refl refl refl refl

  -- The parties that are responsible for an attempt: reservations, starts in flight, the active
  -- attempt and the awaited one.
  abbrev pub holders : System R → ℕ
  holders s =
      length s.reservations + length (starts s.lifecycle.events) + size s.active + size s.joining

  Owned-holders : (s : System R) → Owned R s → holders s ≡ size s.lifecycle.current
  Owned-holders s (nobody e r q x y) = rw (e, r, q, x, y)
  Owned-holders s (reservation m h e ea ed r q x y) = rw (e, r, q, x, y)
  Owned-holders s (queued m e r q x y) = rw (e, r, q, x, y)
  Owned-holders s (running m a e ea ed r q x y) = rw (e, r, q, x, y)
  Owned-holders s (awaited m a e ea ed r q x y) = rw (e, r, q, x, y)

  -- After any schedule of calls, deliveries and cancellations from the start of the service, a
  -- current admission is in exactly one hand (a reservation, a queued start, the active attempt or
  -- the awaited one), and without a current admission nobody holds an attempt.
  pub run-one_holder :
      (v : VpnState) (b : Bool) (store : R.Store) (labs : List Label)
      → let s = run R fd (new R v b store) labs in holders s ≡ size s.lifecycle.current
  run-one_holder v b store labs =
      Owned-holders (run R fd (new R v b store) labs) (run-Owned _ labs (new-Owned v b store))
