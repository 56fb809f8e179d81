-- ===== src/Prelude/Map.antt =====
-- `HashMap<Uuid, V>` as an association list whose `insert` replaces the value of a present key.
use Prim.Native.Nat.{ℕ, ◌+◌, ◌≤◌}
use mathlib.Core.Path.{◌≡◌, refl, subst}
use mathlib.Core.Bool.{Bool, true, false, ◌||◌}
use mathlib.Core.Option.{Option, none, some}
use mathlib.Core.List.{List, [], ◌∷◌}
use native.Mathlib.Omega.{arith}
use global_protect_openconne.Prelude.Tests.{◌==◌, if◌then◌else◌, Bool-cases}
use mathlib.Core.Logic.{inl, inr}

abbrev pub Map : Type 0 → Type 0
Map V = List (ℕ × V)

module _ {V : Type 0} where
  unfoldable pub lookup : ℕ → Map V → Option V
  lookup k [] = none
  lookup k ((j, v) ∷ m) = if j == k then some v else lookup k m

  unfoldable pub insert : ℕ → V → Map V → Map V
  insert k v [] = (k, v) ∷ []
  insert k v ((j, w) ∷ m) = if j == k then (k, v) ∷ m else (j, w) ∷ insert k v m

  unfoldable pub remove : ℕ → Map V → Map V
  remove k [] = []
  remove k ((j, w) ∷ m) = let rest = remove k m in if j == k then rest else (j, w) ∷ rest

  unfoldable pub retain : (V → Bool) → Map V → Map V
  retain p [] = []
  retain p ((j, w) ∷ m) = let rest = retain p m in if p w then (j, w) ∷ rest else rest

  -- The entries whose value passes the test, counted.
  unfoldable pub count : (V → Bool) → Map V → ℕ
  count p [] = 0
  count p ((j, w) ∷ m) = (if p w then 1 else 0) + count p m

  pub lookup-insert :
      (at j : ℕ) (x : V) (kept : Map V)
      → lookup j (insert at x kept) ≡ (if at == j then some x else lookup j kept)
  unfolding insert lookup
  lookup-insert at j x [] = refl
  lookup-insert at j x ((i, y) ∷ kept) = ground (arith, lookup-insert at j x kept)

  pub lookup-remove :
      (k j : ℕ) (m : Map V) → lookup j (remove k m) ≡ (if k == j then none else lookup j m)
  unfolding lookup remove
  lookup-remove k j [] = ground arith
  lookup-remove k j ((i, w) ∷ m) = ground (arith, lookup-remove k j m)

  -- A value that passes the test is kept under its key.
  pub lookup-retain :
      (p : V → Bool) (k : ℕ) {v : V} (m : Map V)
      → lookup k m ≡ some v
      → p v ≡ true
      → lookup k (retain p m) ≡ some v
  unfolding lookup retain
  lookup-retain p k [] e h = e
  lookup-retain p k {v} ((i, w) ∷ m) e h = ground (arith, lookup-retain p k {v = v} m)

  abbrev weight : (V → Bool) → Option V → ℕ
  weight p none = 0
  weight p (some v) = if p v then 1 else 0

  -- Writing a value trades the one it replaces for the new one.
  pub count-insert :
      (p : V → Bool) (k : ℕ) (v : V) (m : Map V)
      → count p (insert k v m) + weight p (lookup k m) ≡ count p m + weight p (some v)
  unfolding count lookup insert
  count-insert p k v [] = ground arith
  count-insert p k v ((i, w) ∷ m) = ground (arith, count-insert p k v m)

  pub count-remove-le : (p : V → Bool) (k : ℕ) (m : Map V) → count p (remove k m) ≤ count p m
  unfolding count remove
  count-remove-le p k [] = omega arith
  count-remove-le p k ((i, w) ∷ m) = ground (arith, count-remove-le p k m)

  pub count-retain-le : (p q : V → Bool) (m : Map V) → count p (retain q m) ≤ count p m
  unfolding count retain
  count-retain-le p q [] = omega arith
  count-retain-le p q ((i, w) ∷ m) = ground (arith, count-retain-le p q m)

  -- Whether some value passes the test.
  unfoldable pub any_value : (V → Bool) → Map V → Bool
  any_value p [] = false
  any_value p ((j, w) ∷ m) = p w || any_value p m

  -- Every value by a function.
  unfoldable pub each : (V → V) → Map V → Map V
  each f [] = []
  each f ((j, w) ∷ m) = (j, f w) ∷ each f m

  -- The value of a key by a function, where there is one.
  unfoldable pub adjust : ℕ → (V → V) → Map V → Map V
  adjust k f [] = []
  adjust k f ((j, w) ∷ m) =
      let rest = adjust k f m in if j == k then (j, f w) ∷ m else (j, w) ∷ rest

  -- A predicate holds of every value.
  abbrev pub All : (V → Type 0) → Map V → Type 0
  All P [] = Unit
  All P ((j, w) ∷ m) = P w × All P m

  module _ (P : V → Type 0) where
    pub insert-All : (k : ℕ) (v : V) (m : Map V) → P v → All P m → All P (insert k v m)
    unfolding insert
    insert-All k v [] p a = (p, tt)
    insert-All k v ((j, w) ∷ m) p (q, a) = elim (Bool-cases (j == k)) [
      | inl e ↦ rw e (p, a)
      | inr e ↦ rw e (q, insert-All k v m p a)
    ]

    pub remove-All : (k : ℕ) (m : Map V) → All P m → All P (remove k m)
    unfolding remove
    remove-All k [] a = a
    remove-All k ((j, w) ∷ m) (q, a) = elim (Bool-cases (j == k)) [
      | inl e ↦ rw e (remove-All k m a)
      | inr e ↦ rw e (q, remove-All k m a)
    ]

    pub retain-All : (p : V → Bool) (m : Map V) → All P m → All P (retain p m)
    unfolding retain
    retain-All p [] a = a
    retain-All p ((j, w) ∷ m) (q, a) = elim (Bool-cases (p w)) [
      | inl e ↦ rw e (q, retain-All p m a)
      | inr e ↦ rw e (retain-All p m a)
    ]

    pub each-All :
        (f : V → V) → ((v : V) → P v → P (f v)) → (m : Map V) → All P m → All P (each f m)
    unfolding each
    each-All f h [] a = a
    each-All f h ((j, w) ∷ m) (q, a) = (h w q, each-All f h m a)

    pub adjust-All :
        (k : ℕ) (f : V → V)
        → ((v : V) → P v → P (f v))
        → (m : Map V) → All P m
        → All P (adjust k f m)
    unfolding adjust
    adjust-All k f h [] a = a
    adjust-All k f h ((j, w) ∷ m) (q, a) = elim (Bool-cases (j == k)) [
      | inl e ↦ rw e (h w q, a)
      | inr e ↦ rw e (q, adjust-All k f h m a)
    ]

    abbrev Holds : Option V → Type 0
    Holds none = Unit
    Holds (some v) = P v

    lookup-Holds : (k : ℕ) (m : Map V) → All P m → Holds (lookup k m)
    unfolding lookup
    lookup-Holds k [] a = tt
    lookup-Holds k ((j, w) ∷ m) (q, a) = elim (Bool-cases (j == k)) [
      | inl e ↦ rw e q
      | inr e ↦ rw e (lookup-Holds k m a)
    ]

    pub lookup-All : (k : ℕ) {v : V} (m : Map V) → All P m → lookup k m ≡ some v → P v
    lookup-All k m a e = subst Holds e (lookup-Holds k m a)
