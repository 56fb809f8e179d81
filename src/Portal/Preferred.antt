-- ===== src/Portal/Preferred.antt =====
-- Which gateway `find_preferred_gateway` of crates/gpapi/src/portal/config.rs finds.
use Prim.Native.String.{String}
use global_protect_openconne.Prelude.{
  ℕ, ◌≤◌, ◌≡◌, refl, ◌∙◌, ap, sym, Bool, true, ◌&&◌, Option, none, some, List, [], ◌∷◌, arith, ltb,
  leb, ◌==◌, if◌then◌else◌, inl, inr, Bool-cases,
}
use global_protect_openconne.VpnState.{Gateway, PriorityRule}
use global_protect_openconne.Portal.{
  max_priority, applies, scan_rules, scan, min_from, min_by_priority, find_preferred_gateway,
  or_else,
}

-- The lowest number of a list, and of those up to a bound.
abbrev lower : ℕ → ℕ → ℕ
lower n bound = if ltb n bound then n else bound

lowest_rule : String → ℕ → List PriorityRule → ℕ
lowest_rule region bound [] = bound
lowest_rule region bound (r ∷ rs) =
    lowest_rule region (if applies region r then lower r.priority bound else bound) rs

-- The lowest priority that a gateway has in a region.
unfoldable pub region_priority : String → Gateway → ℕ
unfolding lowest_rule
region_priority region g = lowest_rule region max_priority g.priority_rules

module _ (key : Gateway → ℕ) where
  unfoldable pub lowest : ℕ → List Gateway → ℕ
  lowest bound [] = bound
  lowest bound (g ∷ gs) = lowest (lower (key g) bound) gs

  pub lowest-le : (bound : ℕ) (gs : List Gateway) → lowest bound gs ≤ bound
  unfolding lowest
  lowest-le bound [] = omega arith
  lowest-le bound (g ∷ gs) = ground (arith, lowest-le (lower (key g) bound) gs)

  -- The first gateway whose number is the given one.
  unfoldable pub first_at : ℕ → List Gateway → Option Gateway
  first_at n [] = none
  first_at n (g ∷ gs) = let rest = first_at n gs in if key g == n then some g else rest

  -- The first gateway whose number is the lowest, where that is below the bound.
  abbrev pub first_below : ℕ → List Gateway → Option Gateway → Option Gateway
  first_below bound gs otherwise =
      if ltb (lowest bound gs) bound then first_at (lowest bound gs) gs else otherwise

  first_below-cons :
      (bound : ℕ) (g : Gateway) (gs : List Gateway) (otherwise : Option Gateway)
      → first_below bound (g ∷ gs) otherwise
        ≡ first_below (lower (key g) bound) gs (if ltb (key g) bound then some g else otherwise)
  unfolding lowest first_at
  first_below-cons bound g gs otherwise =
      let le = lowest-le (lower (key g) bound) gs in ground arith

lowest_rule-le :
    (region : String) (bound : ℕ) (rs : List PriorityRule) → lowest_rule region bound rs ≤ bound
unfolding lowest_rule
lowest_rule-le region bound [] = omega arith
lowest_rule-le region bound (r ∷ rs) =
    let le =
      lowest_rule-le region (if applies region r then lower r.priority bound else bound) rs in
    ground arith

lower-lower : (x r n m : ℕ) → n ≤ m → x ≤ lower r m → lower x (lower r n) ≡ lower x n
lower-lower x r n m le le' = ground arith

or_else-if :
    (b : Bool) (g : Gateway) (o y : Option Gateway)
    → or_else (if b then some g else o) y ≡ (if b then some g else or_else o y)
unfolding or_else
or_else-if b g o y = ground arith

first_below-nil :
    (key : Gateway → ℕ) (bound : ℕ) (o y : Option Gateway)
    → or_else (first_below key bound [] o) y ≡ first_below key bound [] (or_else o y)
unfolding lowest
first_below-nil key bound o y = ground arith

pub first_below-or_else :
    (key : Gateway → ℕ) (bound : ℕ) (gs : List Gateway) (o y : Option Gateway)
    → or_else (first_below key bound gs o) y ≡ first_below key bound gs (or_else o y)
first_below-or_else key bound [] o y = first_below-nil key bound o y
first_below-or_else key bound (g ∷ gs) o y =
    ap (λ t. or_else t y) (first_below-cons key bound g gs o)
    ∙ first_below-or_else key (lower (key g) bound) gs (if ltb (key g) bound then some g else o) y
    ∙ ap (first_below key (lower (key g) bound) gs) (or_else-if (ltb (key g) bound) g o y)
    ∙ sym (first_below-cons key bound g gs (or_else o y))

scan_rules-lowest :
    (region : String) (g : Gateway) (rs : List PriorityRule) (p : Option Gateway) (n : ℕ)
    → let m = lowest_rule region n rs in
      scan_rules region g rs (p, n) ≡ (if ltb m n then some g else p, m)
unfolding scan_rules lowest_rule
scan_rules-lowest region g [] p n = ground arith
scan_rules-lowest region g (r ∷ rs) p n = elim (Bool-cases (applies region r && ltb r.priority n)) [
  | inl e ↦
      let le = lowest_rule-le region r.priority rs in
      let ih = scan_rules-lowest region g rs (some g) r.priority in ground arith
  | inr e ↦ let ih = scan_rules-lowest region g rs p n in ground arith
]

lowest_rule-lower :
    (region : String) (rs : List PriorityRule) (n m : ℕ)
    → n ≤ m
    → lowest_rule region n rs ≡ lower (lowest_rule region m rs) n
unfolding lowest_rule
lowest_rule-lower region [] n m le = ground arith
lowest_rule-lower region (r ∷ rs) n m le = elim (Bool-cases (applies region r)) [
  | inl e ↦
      let a =
        lowest_rule-lower region rs (lower r.priority n) (lower r.priority m) (ground arith) in
      let b = lowest_rule-le region (lower r.priority m) rs in
      rw e (a ∙ lower-lower (lowest_rule region (lower r.priority m) rs) r.priority n m le b)
  | inr e ↦ rw e (lowest_rule-lower region rs n m le)
]

lower_below : (x n : ℕ) → ltb (lower x n) n ≡ ltb x n
lower_below x n = ground arith

region_priority-lower :
    (region : String) (g : Gateway) (n : ℕ)
    → n ≤ max_priority
    → lowest_rule region n g.priority_rules ≡ lower (region_priority region g) n
unfolding region_priority
region_priority-lower region g n le = lowest_rule-lower region g.priority_rules n max_priority le

pub scan-first_below :
    (region : String) (gs : List Gateway) (p : Option Gateway) (n : ℕ)
    → n ≤ max_priority
    → (scan region gs (p, n)).0 ≡ first_below (region_priority region) n gs p
unfolding scan lowest
scan-first_below region [] p n le = ground arith
scan-first_below region (g ∷ gs) p n le =
    let m = lowest_rule region n g.priority_rules in
    let e : m ≡ lower (region_priority region g) n = region_priority-lower region g n le in
    let b = lowest_rule-le region n g.priority_rules in
    let chosen = if ltb m n then some g else p in
    let same : first_below (region_priority region) m gs chosen
        ≡ first_below (region_priority region) (lower (region_priority region g) n) gs
            (if ltb (region_priority region g) n then some g else p) =
      rw (e, lower_below (region_priority region g) n) refl in
    rw (scan, scan_rules-lowest region g g.priority_rules p n)
      (scan-first_below region gs chosen m (omega arith)
        ∙ same
        ∙ sym (first_below-cons (region_priority region) n g gs p))

pub min_from-first_below :
    (best : Gateway) (gs : List Gateway)
    → some (min_from best gs) ≡ first_below (λ g. g.priority) best.priority gs (some best)
unfolding min_from lowest
min_from-first_below best [] = ground arith
min_from-first_below best (g ∷ gs) =
    let key : Gateway → ℕ = λ g. g.priority in
    let next : some (min_from best (g ∷ gs))
        ≡ first_below key (lower g.priority best.priority) gs
            (if ltb g.priority best.priority then some g else some best) =
      elim (Bool-cases (ltb g.priority best.priority)) [
        | inl e ↦ rw (min_from, e) (min_from-first_below g gs)
        | inr e ↦ rw (min_from, e) (min_from-first_below best gs)
      ] in
    next ∙ sym (first_below-cons key best.priority g gs (some best))

abbrev pub fits_u32 : List Gateway → Bool
fits_u32 [] = true
fits_u32 (g ∷ gs) = leb g.priority max_priority && fits_u32 gs

pub first_at-head :
    (g : Gateway) (gs : List Gateway) (n : ℕ)
    → n ≤ g.priority
    → (if ltb n g.priority then first_at (λ g. g.priority) n gs else some g)
      ≡ first_at (λ g. g.priority) n (g ∷ gs)
unfolding first_at
first_at-head g gs n le = ground arith

min_by_priority-first_at :
    (gs : List Gateway)
    → fits_u32 gs ≡ true
    → min_by_priority gs ≡ first_at (λ g. g.priority) (lowest (λ g. g.priority) max_priority gs) gs
unfolding min_by_priority first_at lowest
min_by_priority-first_at [] h = refl
min_by_priority-first_at (g ∷ gs) h =
    let le = lowest-le (λ g. g.priority) g.priority gs in
    let same : lower g.priority max_priority ≡ g.priority = ground arith in
    min_from-first_below g gs
    ∙ first_at-head g gs (lowest (λ g. g.priority) g.priority gs) le
    ∙ ap (λ n. first_at (λ g. g.priority) (lowest (λ g. g.priority) n gs) (g ∷ gs)) (sym same)

-- The gateway that is found is the first with the lowest priority in the region, where some gateway
-- has one there below the largest, and otherwise the first with the lowest priority of its own.
-- Priorities are 32-bit numbers.
pub find_preferred_gateway-first_below :
    (region : String) (gs : List Gateway)
    → fits_u32 gs ≡ true
    → find_preferred_gateway region gs
      ≡ first_below
          (region_priority region)
          max_priority
          gs
          (first_at (λ g. g.priority) (lowest (λ g. g.priority) max_priority gs) gs)
unfolding find_preferred_gateway or_else
find_preferred_gateway-first_below region gs h =
    ap (λ t. or_else t (min_by_priority gs))
      (scan-first_below region gs none max_priority (omega arith))
    ∙ first_below-or_else (region_priority region) max_priority gs none (min_by_priority gs)
    ∙ ap (first_below (region_priority region) max_priority gs) (min_by_priority-first_at gs h)
