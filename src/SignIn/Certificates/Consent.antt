-- ===== src/SignIn/Certificates/Consent.antt =====
-- That a certificate which fails is taken only with the user's consent, unless errors are ignored
-- (crates/auth/src/webview/gtk_tls.rs).
use Prim.Native.String.{String}
use text.Mathlib.Text.{◌==◌ as str_eq}
use global_protect_openconne.Prelude.{
  ℕ, ◌≡◌, refl, ◌⊎◌, Bool, true, false, ◌&&◌, ◌||◌, not, Option, none, some, List, [], ◌∷◌, ◌==◌,
  arith,
}
use global_protect_openconne.SignIn.Certificates.{
  PendingCertificate, Controls, installed, record_failure, confirm, respond, Step, failing, asking,
  answering, beginning, step, steps, is_allowed, is_taken,
}

module _ (certificate : ℕ) (host : String) where
  abbrev is_failure : Step → Bool
  is_failure (failing (some h) k f g) = k == certificate && str_eq h host
  is_failure _ = false

  abbrev is_question : Step → Bool
  is_question asking = true
  is_question _ = false

  abbrev is_acceptance : Step → Bool
  is_acceptance (answering true) = true
  is_acceptance _ = false

  -- The certificate has failed for the host, in an https address.
  unfoldable pub has_failed : List Step → Bool
  has_failed [] = false
  has_failed (s ∷ past) = is_failure s || has_failed past

  -- After that the user was asked.
  unfoldable pub was_asked : List Step → Bool
  unfolding has_failed
  was_asked [] = false
  was_asked (s ∷ past) = (is_question s && has_failed past) || was_asked past

  -- The failure that came last is one of this certificate, in an https address.
  unfoldable pub is_last : List Step → Bool
  is_last [] = false
  is_last (failing none k f g ∷ past) = false
  is_last (failing (some h) k f g ∷ past) = k == certificate
  is_last (asking ∷ past) = is_last past
  is_last (answering b ∷ past) = is_last past
  is_last (beginning ∷ past) = is_last past

  -- After that the user accepted, and no other certificate had failed last.
  unfoldable pub was_accepted : List Step → Bool
  unfolding was_asked is_last
  was_accepted [] = false
  was_accepted (s ∷ past) = (is_acceptance s && was_asked past && is_last past) || was_accepted past

  abbrev is_of_certificate : Option PendingCertificate → Bool
  is_of_certificate none = false
  is_of_certificate (some p) = p.certificate == certificate

  abbrev is_about : Option PendingCertificate → Bool
  is_about none = false
  is_about (some p) = p.certificate == certificate && str_eq p.failure.host host

  abbrev implies : Bool → Bool → Bool
  implies a b = not a || b

  -- What is pending has failed, what a dialog asks about was asked, what is allowed was accepted.
  unfoldable is_explained : List Step → Controls → Bool
  is_explained past c =
      implies (is_about c.pending) (has_failed past)
      && implies (is_of_certificate c.pending) (is_last past)
      && implies (is_about c.dialog) (was_asked past)
      && implies (is_allowed certificate host c.allowed) (was_accepted past)

  step-is_explained :
      (s : Step) (past : List Step) (c : Controls)
      → is_explained past c ≡ true
      → is_explained (s ∷ past) (step s c) ≡ true
  unfolding is_explained step record_failure confirm respond is_allowed has_failed was_asked is_last
      was_accepted
  step-is_explained (failing none k f g) past c h = ground arith
  step-is_explained (failing (some x) k f g) past c h = ground arith
  step-is_explained asking past c h = ground arith
  step-is_explained (answering true) past c h = ground arith
  step-is_explained (answering false) past c h = ground arith
  step-is_explained beginning past c h = ground arith

  steps-is_explained :
      (ignores : Bool) (g : ℕ) (past : List Step)
      → is_explained past (steps past (installed ignores g)) ≡ true
  unfolding is_explained steps is_allowed has_failed was_asked is_last was_accepted
  steps-is_explained ignores g [] = refl
  steps-is_explained ignores g (s ∷ past) =
      step-is_explained s past (steps past (installed ignores g))
        (steps-is_explained ignores g past)

  step-ignores : (s : Step) (c : Controls) → (step s c).ignores_errors ≡ c.ignores_errors
  unfolding step record_failure confirm respond
  step-ignores (failing x k f g) c = refl
  step-ignores asking c = ground arith
  step-ignores (answering b) c = ground arith
  step-ignores beginning c = refl

  steps-ignores :
      (ignores : Bool) (g : ℕ) (past : List Step)
      → (steps past (installed ignores g)).ignores_errors ≡ ignores
  unfolding steps
  steps-ignores ignores g [] = refl
  steps-ignores ignores g (s ∷ past) =
      let h = steps-ignores ignores g past in
      let k = step-ignores s (steps past (installed ignores g)) in ground arith

  -- A window takes a certificate that fails for a host only if it was set up to ignore such errors,
  -- or if the certificate failed for this host, after that the user was asked, and after that the
  -- user accepted while no other certificate was the last to fail, whatever else happened.
  pub is_taken-steps :
      (ignores : Bool) (g : ℕ) (past : List Step)
      → is_taken certificate host (steps past (installed ignores g)) ≡ true
      → (ignores ≡ true) ⊎ (was_accepted past ≡ true)
  unfolding is_taken is_explained
  is_taken-steps ignores g past h =
      let e = steps-is_explained ignores g past in
      let i = steps-ignores ignores g past in ground arith
