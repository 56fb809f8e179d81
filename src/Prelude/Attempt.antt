-- ===== src/Prelude/Attempt.antt =====
-- Code that stops at its first error, as a chain of `?` in Rust.
use mathlib.Core.Path.{◌≡◌, refl}
use mathlib.Core.Bool.{Bool, true, false}
use global_protect_openconne.Prelude.Results.{Result, ok, err}

infixl 5 ◌>>=◌
abbrev pub ◌>>=◌ : {E A B : Type 0} → Result E A → (A → Result E B) → Result E B
ok a >>= f = f a
err e >>= f = err e

infixl 5 ◌>>◌
abbrev pub ◌>>◌ : {E A B : Type 0} → Result E A → Result E B → Result E B
ok _ >> y = y
err e >> y = err e

-- `ensure!`.
abbrev pub ensure : {E : Type 0} → Bool → E → Result E (Unit {0})
ensure true e = ok tt
ensure false e = err e

module _ {E : Type 0} where
  pub bind-ok :
      {A B : Type 0} (x : Result E A) (f : A → Result E B) (b : B)
      → (x >>= f) ≡ ok b
      → (a : A) × (x ≡ ok a) × (f a ≡ ok b)
  bind-ok (ok a) f b h = (a, refl, h)
  bind-ok (err e) f b h = let g : err e ≡ ok b = h in cc

  pub ensure-ok :
      {B : Type 0} (c : Bool) (e : E) (y : Result E B) (b : B)
      → (ensure c e >> y) ≡ ok b
      → (c ≡ true) × (y ≡ ok b)
  ensure-ok true e y b h = (refl, h)
  ensure-ok false e y b h = let g : err e ≡ ok b = h in cc
