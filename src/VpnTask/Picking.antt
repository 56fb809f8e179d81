-- ===== src/VpnTask/Picking.antt =====
-- Taking one element out of a list of reservations or of events.
use global_protect_openconne.Prelude.{
  ℕ, zero, suc, ◌≡◌, refl, ◌⊎◌, inl, inr, some, List, [], ◌∷◌, arith, Option-cases,
}
use global_protect_openconne.Lifecycle.{LifecycleEvent, start}
use global_protect_openconne.Lifecycle.Laws.{start_of, starts}
use global_protect_openconne.VpnTask.System.{pick}

pub pick-one {ℓ} :
    {A : Type ℓ} (k : ℕ) (x y : A) (xs : List A)
    → pick k (x ∷ []) ≡ some (y, xs)
    → (y ≡ x) × (xs ≡ [])
unfolding pick
pick-one zero x y xs e = ground arith
pick-one (suc k) x y xs e = cc

pub pick-nil {ℓ} : {A : Type ℓ} (k : ℕ) (y : A) (xs : List A) → pick k [] ≡ some (y, xs) → ⊥
unfolding pick
pick-nil k y xs e = cc

start_of-cases : (e : LifecycleEvent) → (start_of e ≡ []) ⊎ ((n : ℕ) × (start_of e ≡ n ∷ []))
start_of-cases (start n _ _ _ _) = inr (n, refl)
start_of-cases _ = inl refl

pick-zero {ℓ} :
    {A : Type ℓ} (x y : A) (xs ys : List A)
    → pick zero (x ∷ xs) ≡ some (y, ys)
    → (y ≡ x) × (ys ≡ xs)
unfolding pick
pick-zero x y xs ys e = ground arith

pick-suc {ℓ} :
    {A : Type ℓ} (k : ℕ) (x y : A) (xs ys : List A)
    → pick (suc k) (x ∷ xs) ≡ some (y, ys)
    → (zs : List A) × (pick k xs ≡ some (y, zs)) × (ys ≡ x ∷ zs)
unfolding pick
pick-suc k x y xs ys e = elim (Option-cases (pick k xs)) [
  | inl p ↦ ground (arith)
  | inr ((w, ws), p) ↦ (ws, ground arith, ground arith)
]

-- The first event starts nothing, or it is all that the queue starts.
starts-cons_nil :
    (x : LifecycleEvent) (es : List LifecycleEvent)
    → starts (x ∷ es) ≡ []
    → (start_of x ≡ []) × (starts es ≡ [])
starts-cons_nil x es s = elim (start_of-cases x) [
  | inl p ↦ (p, rw p at s)
  | inr (n, p) ↦ let q : n ∷ starts es ≡ [] = rw p at s in cc
]

starts-cons_one :
    (n : ℕ) (x : LifecycleEvent) (es : List LifecycleEvent)
    → starts (x ∷ es) ≡ n ∷ []
    → ((start_of x ≡ n ∷ []) × (starts es ≡ [])) ⊎ ((start_of x ≡ []) × (starts es ≡ n ∷ []))
starts-cons_one n x es s = elim (start_of-cases x) [
  | inl p ↦ inr (p, rw p at s)
  | inr (m, p) ↦ let q : m ∷ starts es ≡ n ∷ [] = rw p at s in inl (ground arith, ground arith)
]

-- Taking an event out of a queue without starts leaves none and yields none.
pub starts-pick_nil :
    (k : ℕ) (es rest : List LifecycleEvent) (e : LifecycleEvent)
    → pick k es ≡ some (e, rest)
    → starts es ≡ []
    → (start_of e ≡ []) × (starts rest ≡ [])
starts-pick_nil k [] rest e h s = absurd (pick-nil k e rest h)
starts-pick_nil zero (x ∷ es) rest e h s =
    let (p, q) = starts-cons_nil x es s in let (u, v) = pick-zero x e es rest h in rw (u, v) (p, q)
starts-pick_nil (suc k) (x ∷ es) rest e h s =
    let (p, q) = starts-cons_nil x es s in
    let (zs, u, v) = pick-suc k x e es rest h in
    let (a, b) = starts-pick_nil k es zs e u q in (a, rw (v, p) b)

-- Out of a queue with one start, either that start is taken or it stays.
pub starts-pick_one :
    (n k : ℕ) (es rest : List LifecycleEvent) (e : LifecycleEvent)
    → pick k es ≡ some (e, rest)
    → starts es ≡ n ∷ []
    → ((start_of e ≡ n ∷ []) × (starts rest ≡ [])) ⊎ ((start_of e ≡ []) × (starts rest ≡ n ∷ []))
starts-pick_one n k [] rest e h s = absurd (pick-nil k e rest h)
starts-pick_one n zero (x ∷ es) rest e h s =
    let (u, v) = pick-zero x e es rest h in rw (u, v) (starts-cons_one n x es s)
starts-pick_one n (suc k) (x ∷ es) rest e h s =
    let (zs, u, v) = pick-suc k x e es rest h in
    elim (starts-cons_one n x es s) [
      | inl (p, q) ↦ let (a, b) = starts-pick_nil k es zs e u q in inr (a, rw (v, p, b))
      | inr (p, q) ↦ elim (starts-pick_one n k es zs e u q) [
        | inl (a, b) ↦ inl (a, rw (v, p) b)
        | inr (a, b) ↦ inr (a, rw (v, p) b)
      ]
    ]
