-- ===== src/Portal/Sorting.antt =====
-- What `sort_gateways` of crates/gpapi/src/portal/config.rs does to the gateways.
use Prim.Native.String.{String}
use text.Mathlib.Text.{◌==◌ as str_eq}
use text.Mathlib.TextPositions.{eq_refl}
use global_protect_openconne.Prelude.{
  ℕ, zero, suc, ◌+◌, ◌≡◌, refl, ◌∙◌, ap, sym, subst, Bool, true, false, Option, none, some, List,
  [], ◌∷◌, arith, ltb, ◌==◌, if◌then◌else◌, inl, inr, Bool-cases, Option-cases, is_some, get_elem?,
}
use global_protect_openconne.VpnState.{Gateway}
use global_protect_openconne.Portal.{
  max_priority, min_by_priority, find_preferred_gateway, or_else, position, set, swap_first,
  sort_gateways, PortalPolicy, select_gateways, or_portal,
}
use global_protect_openconne.Portal.Preferred.{
  lowest, lowest-le, first_at, first_at-head, first_below, first_below-or_else, region_priority,
  scan-first_below, min_from-first_below,
}

abbrev pub is_named : String → Option Gateway → Bool
is_named x none = false
is_named x (some g) = str_eq g.name x

position-first_at :
    (key : Gateway → ℕ) (n : ℕ) (g : Gateway) (gs : List Gateway)
    → first_at key n gs ≡ some g
    → is_some (position g.name gs) ≡ true
unfolding first_at position
position-first_at key n g [] h = ground arith
position-first_at key n g (x ∷ gs) h = elim (Bool-cases (key x == n)) [
  | inl e ↦ let same : x ≡ g = ground arith in let r = eq_refl g.name in ground arith
  | inr e ↦ let ih = position-first_at key n g gs (ground arith) in ground arith
]

find_preferred_gateway-cases :
    (region : String) (gs : List Gateway)
    → find_preferred_gateway region gs
      ≡ first_below (region_priority region) max_priority gs (min_by_priority gs)
unfolding find_preferred_gateway or_else
find_preferred_gateway-cases region gs =
    ap (λ t. or_else t (min_by_priority gs))
      (scan-first_below region gs none max_priority (omega arith))
    ∙ first_below-or_else (region_priority region) max_priority gs none (min_by_priority gs)

position-min_by_priority :
    (g : Gateway) (gs : List Gateway)
    → min_by_priority gs ≡ some g
    → is_some (position g.name gs) ≡ true
unfolding min_by_priority
position-min_by_priority g [] h = ground arith
position-min_by_priority g (x ∷ gs) h =
    let key : Gateway → ℕ = λ g. g.priority in
    let n = lowest key x.priority gs in
    position-first_at key n g (x ∷ gs)
      (sym (min_from-first_below x gs ∙ first_at-head x gs n (lowest-le key x.priority gs)) ∙ h)

position-find_preferred_gateway :
    (region : String) (g : Gateway) (gs : List Gateway)
    → find_preferred_gateway region gs ≡ some g
    → is_some (position g.name gs) ≡ true
position-find_preferred_gateway region g gs h =
    let key = region_priority region in
    let n = lowest key max_priority gs in
    let found : first_below key max_priority gs (min_by_priority gs) ≡ some g =
      sym (find_preferred_gateway-cases region gs) ∙ h in
    elim (Bool-cases (ltb n max_priority)) [
      | inl e ↦ position-first_at key n g gs (rw e at found)
      | inr e ↦ position-min_by_priority g gs (rw e at found)
    ]

position-get_elem? :
    (x : String) (i : ℕ) (gs : List Gateway)
    → position x gs ≡ some i
    → is_named x (get_elem? gs i) ≡ true
unfolding position
position-get_elem? x i [] h = ground arith
position-get_elem? x zero (g ∷ gs) h = elim (Option-cases (position x gs)) [
  | inl e ↦ ground arith
  | inr (j, e) ↦ ground arith
]
position-get_elem? x (suc i) (g ∷ gs) h = elim (Option-cases (position x gs)) [
  | inl e ↦ ground arith
  | inr (j, e) ↦ let same : position x gs ≡ some i = ground arith in position-get_elem? x i gs same
]

module _ (p : Gateway → Bool) where
  -- The gateways that pass a test, counted.
  unfoldable pub count : List Gateway → ℕ
  count [] = 0
  count (g ∷ gs) = (if p g then 1 else 0) + count gs

  count-set :
      (i : ℕ) (g h : Gateway) (gs : List Gateway)
      → get_elem? gs i ≡ some h
      → (if p h then 1 else 0) + count (set i g gs) ≡ (if p g then 1 else 0) + count gs
  unfolding count set
  count-set i g h [] e = ground arith
  count-set zero g h (x ∷ gs) e = let same : x ≡ h = ground arith in rw same (omega arith)
  count-set (suc i) g h (x ∷ gs) e = omega (arith, count-set i g h gs e)

swap_first-cons :
    (x : String) (i : ℕ) (g : Gateway) (gs : List Gateway)
    → position x (g ∷ gs) ≡ some (suc i)
    → (h : Gateway) × (get_elem? gs i ≡ some h)
      × (str_eq h.name x ≡ true)
      × (swap_first (suc i) (g ∷ gs) ≡ some (h ∷ set i g gs))
unfolding swap_first
swap_first-cons x i g gs h =
    let named = position-get_elem? x (suc i) (g ∷ gs) h in
    elim (Option-cases (get_elem? gs i)) [
      | inl e ↦ let f : ⊥ = ground arith in absurd f
      | inr (k, e) ↦ (k, e, ground arith, ground arith)
    ]

nowhere : (x : String) (i : ℕ) → position x [] ≡ some i → ⊥
unfolding position
nowhere x i h = ground arith

-- What a swap of the first gateway with the first of a name gives.
swap_first-position :
    (p : Gateway → Bool) (x : String) (i : ℕ) (gs : List Gateway)
    → position x gs ≡ some i
    → (gs' : List Gateway) × (swap_first i gs ≡ some gs')
      × (is_named x (get_elem? gs' 0) ≡ true)
      × (count p gs' ≡ count p gs)
unfolding swap_first count
swap_first-position p x i [] h = let f : ⊥ = nowhere x i h in absurd f
swap_first-position p x zero (g ∷ gs) h = (g ∷ gs, refl, position-get_elem? x zero (g ∷ gs) h, refl)
swap_first-position p x (suc i) (g ∷ gs) h =
    let (k, e, named, swapped) = swap_first-cons x i g gs h in
    (k ∷ set i g gs, swapped, named, count-set p i g k gs e)

-- Sorting succeeds where a preferred gateway is found.
sorted :
    (p : Gateway → Bool) (region : String) (g : Gateway) (gs : List Gateway)
    → find_preferred_gateway region gs ≡ some g
    → (gs' : List Gateway) × (sort_gateways region gs ≡ some gs')
      × (is_named g.name (get_elem? gs' 0) ≡ true)
      × (count p gs' ≡ count p gs)
unfolding sort_gateways
sorted p region g gs h = elim (Option-cases (position g.name gs)) [
  | inl e ↦
      let k = position-find_preferred_gateway region g gs h in let f : ⊥ = ground arith in absurd f
  | inr (i, e) ↦
      let (gs', swapped, named, same) = swap_first-position p g.name i gs e in
      (gs', rw (sort_gateways, h, e, swapped) refl, named, same)
]

-- Sorting puts a gateway with the name of the preferred one first and keeps, with their
-- multiplicity, the gateways that pass any test.
pub is_named-sort_gateways :
    (p : Gateway → Bool) (region : String) (g : Gateway) (gs gs' : List Gateway)
    → find_preferred_gateway region gs ≡ some g
    → sort_gateways region gs ≡ some gs'
    → (is_named g.name (get_elem? gs' 0) ≡ true) × (count p gs' ≡ count p gs)
is_named-sort_gateways p region g gs gs' h e =
    let (sorted', e', named, same) = sorted p region g gs h in
    let q : sorted' ≡ gs' = ground arith in
    (
      subst (λ l. is_named g.name (get_elem? l 0) ≡ true) q named,
      subst (λ l. count p l ≡ count p gs) q same,
    )

is_some-find_preferred_gateway :
    (region : String) (x : Gateway) (gs : List Gateway)
    → is_some (find_preferred_gateway region (x ∷ gs)) ≡ true
unfolding find_preferred_gateway or_else min_by_priority
is_some-find_preferred_gateway region x gs = ground arith

is_some-sort_gateways :
    (region : String) (x : Gateway) (gs : List Gateway)
    → is_some (sort_gateways region (x ∷ gs)) ≡ true
is_some-sort_gateways region x gs = elim (Option-cases (find_preferred_gateway region (x ∷ gs))) [
  | inl e ↦
      let k = is_some-find_preferred_gateway region x gs in let f : ⊥ = ground arith in absurd f
  | inr (g, e) ↦ let (gs', e', named, same) = sorted (λ g. true) region g (x ∷ gs) e in rw e' refl
]

or_portal-total :
    (Rest : Type 0) (region portal : String) (gs : List Gateway)
    → (is_some (find_preferred_gateway region (or_portal Rest portal gs)) ≡ true)
      × (is_some (sort_gateways region (or_portal Rest portal gs)) ≡ true)
unfolding or_portal
or_portal-total Rest region portal [] =
    (is_some-find_preferred_gateway region _ [], is_some-sort_gateways region _ [])
or_portal-total Rest region portal (x ∷ gs) =
    (is_some-find_preferred_gateway region x gs, is_some-sort_gateways region x gs)

-- The gateways that are selected from a policy can be sorted for any region, and a preferred one
-- found, without a panic.
pub sort_gateways-select_gateways :
    (Rest : Type 0) (region : String) (prefer_internal : Bool) (detected : Option Bool)
    (policy : PortalPolicy Rest)
    → let gs = (select_gateways Rest prefer_internal detected policy).gateways in
      (is_some (find_preferred_gateway region gs) ≡ true)
      × (is_some (sort_gateways region gs) ≡ true)
unfolding select_gateways
sort_gateways-select_gateways Rest region prefer_internal detected policy =
    or_portal-total Rest region policy.config.portal
      (if prefer_internal then policy.internal_gateways else policy.external_gateways)
