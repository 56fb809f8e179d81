-- ===== src/Configuration/Cuts.antt =====
-- What the shortening of a tunnel's configuration takes away
-- (crates/gpapi/src/session/desktop/tunnel.rs).
use mathlib.Core.List.{append-nil, append_assoc}
use global_protect_openconne.Prelude.{
  ℕ, zero, suc, ◌≡◌, refl, sym, ap, ◌∙◌, ◌⊎◌, inl, inr, Bool, true, false, Option, none, some, List,
  [], ◌∷◌, ◌++◌, leb, Bool-cases,
}
use global_protect_openconne.Registry.{Bytes}
use global_protect_openconne.Configuration.{
  TunnelList, TunnelConfiguration, pop, is_filled, shorten_list, shorten_lists, shorten_addresses,
  Scalar, interface, server_ip, netmask4, netmask6, text_of, longest, set_text, halve_text,
  shorten_scalars, or_scalars, shorten, limit_encoded_size,
}

-- The entries of one list that another still begins with.
abbrev IsPrefix : List Bytes → List Bytes → Type 0
IsPrefix xs ys = (zs : List Bytes) × (ys ≡ xs ++ zs)

pop-IsPrefix : (xs : List Bytes) → IsPrefix (pop xs) xs
unfolding pop
pop-IsPrefix [] = ([], refl)
pop-IsPrefix (x ∷ []) = (x ∷ [], refl)
pop-IsPrefix (x ∷ y ∷ xs) = let (zs, e) = pop-IsPrefix (y ∷ xs) in (zs, ap (λ l. x ∷ l) e)

-- A list has lost entries at its end, or none; it keeps its count, and is marked if it changed.
abbrev pub IsCut : TunnelList → TunnelList → Type 0
IsCut l m =
    IsPrefix m.items l.items × (m.total_count ≡ l.total_count) × ((m ≡ l) ⊎ (m.truncated ≡ true))

IsCut-refl : (l : TunnelList) → IsCut l l
IsCut-refl l = (([], sym (append-nil l.items)), refl, inl refl)

shorten_list-IsCut : (l : TunnelList) → IsCut l (shorten_list l)
shorten_list-IsCut l = (pop-IsPrefix l.items, refl, inr refl)

IsPrefix-trans : (xs ys zs : List Bytes) → IsPrefix ys xs → IsPrefix zs ys → IsPrefix zs xs
IsPrefix-trans xs ys zs (us, p) (vs, q) =
    (vs ++ us, p ∙ ap (λ l. l ++ us) q ∙ append_assoc zs vs us)

IsCut-trans : (a b c : TunnelList) → IsCut a b → IsCut b c → IsCut a c
IsCut-trans a b c (p, n, h) (q, m, k) =
    (IsPrefix-trans a.items b.items c.items p q, m ∙ n, marked h k)
  where
    marked :
        (b ≡ a) ⊎ (b.truncated ≡ true)
        → (c ≡ b) ⊎ (c.truncated ≡ true)
        → (c ≡ a) ⊎ (c.truncated ≡ true)
    marked h (inr t) = inr t
    marked (inl e) (inl f) = inl (f ∙ e)
    marked (inr t) (inl f) = inr (ap (λ (l : TunnelList). l.truncated) f ∙ t)

-- Every list is cut, and the `mtu` and the mark are kept.
abbrev ListsCut : TunnelConfiguration → TunnelConfiguration → Type 0
ListsCut c d =
    IsCut c.excluded_routes d.excluded_routes
    × IsCut c.included_routes d.included_routes
    × IsCut c.split_dns d.split_dns
    × IsCut c.search_domains d.search_domains
    × IsCut c.dns d.dns
    × (d.mtu ≡ c.mtu)
    × (d.truncated ≡ c.truncated)

ListsCut-refl : (c : TunnelConfiguration) → ListsCut c c
ListsCut-refl c = (
  IsCut-refl c.excluded_routes,
  IsCut-refl c.included_routes,
  IsCut-refl c.split_dns,
  IsCut-refl c.search_domains,
  IsCut-refl c.dns,
  refl,
  refl,
)

ListsCut-trans : (a b c : TunnelConfiguration) → ListsCut a b → ListsCut b c → ListsCut a c
ListsCut-trans a b c (e, i, s, d, n, m, t) (e', i', s', d', n', m', t') = (
  IsCut-trans _ _ _ e e',
  IsCut-trans _ _ _ i i',
  IsCut-trans _ _ _ s s',
  IsCut-trans _ _ _ d d',
  IsCut-trans _ _ _ n n',
  m' ∙ m,
  t' ∙ t,
)

shorten_lists-ListsCut : (c : TunnelConfiguration) → ListsCut c (shorten_lists c).0
unfolding shorten_lists
shorten_lists-ListsCut c =
    let (e, i, s, d, n, m, t) = ListsCut-refl c in
    elim (Bool-cases (is_filled c.excluded_routes)) [
      | inl p ↦ rw p (shorten_list-IsCut c.excluded_routes, i, s, d, n, m, t)
      | inr p ↦ elim (Bool-cases (is_filled c.included_routes)) [
        | inl q ↦ rw (p, q) (e, shorten_list-IsCut c.included_routes, s, d, n, m, t)
        | inr q ↦ elim (Bool-cases (is_filled c.split_dns)) [
          | inl r ↦ rw (p, q, r) (e, i, shorten_list-IsCut c.split_dns, d, n, m, t)
          | inr r ↦ elim (Bool-cases (is_filled c.search_domains)) [
            | inl u ↦ rw (p, q, r, u) (e, i, s, shorten_list-IsCut c.search_domains, n, m, t)
            | inr u ↦ elim (Bool-cases (is_filled c.dns)) [
              | inl v ↦ rw (p, q, r, u, v) (e, i, s, d, shorten_list-IsCut c.dns, m, t)
              | inr v ↦ rw (p, q, r, u, v) (e, i, s, d, n, m, t)
            ]
          ]
        ]
      ]
    ]

set_text-ListsCut :
    (s : Scalar) (t : Option Bytes) (c : TunnelConfiguration) → ListsCut c (set_text s t c)
set_text-ListsCut interface t c = ListsCut-refl c
set_text-ListsCut server_ip t c = ListsCut-refl c
set_text-ListsCut netmask4 t c = ListsCut-refl c
set_text-ListsCut netmask6 t c = ListsCut-refl c

halve_text-ListsCut :
    (s : Scalar) (t : Option Bytes) (c : TunnelConfiguration) → ListsCut c (halve_text s t c).0
unfolding halve_text
halve_text-ListsCut s none c = ListsCut-refl c
halve_text-ListsCut s (some []) c = ListsCut-refl c
halve_text-ListsCut s (some (b ∷ bs)) c = set_text-ListsCut s _ c

or_scalars-ListsCut : (r : TunnelConfiguration × Bool) → ListsCut r.0 (or_scalars r).0
unfolding shorten_scalars
or_scalars-ListsCut (c, true) = ListsCut-refl c
or_scalars-ListsCut (c, false) =
    let d = shorten_addresses c in halve_text-ListsCut (longest d) (text_of (longest d) d) d

-- Every list has lost entries at its end only, keeps its count and is marked if it changed; the
-- `mtu` is kept, and the configuration is marked if it changed.
abbrev pub IsShortened : TunnelConfiguration → TunnelConfiguration → Type 0
IsShortened c d =
    IsCut c.excluded_routes d.excluded_routes
    × IsCut c.included_routes d.included_routes
    × IsCut c.split_dns d.split_dns
    × IsCut c.search_domains d.search_domains
    × IsCut c.dns d.dns
    × (d.mtu ≡ c.mtu)
    × ((d ≡ c) ⊎ (d.truncated ≡ true))

shorten-ListsCut :
    (c : TunnelConfiguration) → ListsCut (record c { truncated = true }) (shorten c).0
unfolding shorten
shorten-ListsCut c =
    let m : TunnelConfiguration = record c { truncated = true } in
    ListsCut-trans m (shorten_lists m).0 (shorten c).0 (shorten_lists-ListsCut m)
      (or_scalars-ListsCut (shorten_lists m))

-- After a round, and whatever was lost before it.
after_shorten :
    (c d : TunnelConfiguration) → ListsCut (record c { truncated = true }) d → IsShortened c d
after_shorten c d (e, i, s, a, n, m, t) = (e, i, s, a, n, m, inr t)

IsShortened-trans :
    (c d e : TunnelConfiguration)
    → ListsCut (record c { truncated = true }) d
    → IsShortened d e
    → IsShortened c e
IsShortened-trans c d x (e, i, s, a, n, m, t) (e', i', s', a', n', m', h) = (
  IsCut-trans _ _ _ e e',
  IsCut-trans _ _ _ i i',
  IsCut-trans _ _ _ s s',
  IsCut-trans _ _ _ a a',
  IsCut-trans _ _ _ n n',
  m' ∙ m,
  inr (mark h),
)
  where
    mark : (x ≡ d) ⊎ (x.truncated ≡ true) → x.truncated ≡ true
    mark (inl q) = ap (λ (y : TunnelConfiguration). y.truncated) q ∙ t
    mark (inr q) = q

IsShortened-refl : (c : TunnelConfiguration) → IsShortened c c
IsShortened-refl c = let (e, i, s, a, n, m, t) = ListsCut-refl c in (e, i, s, a, n, m, inl refl)

abbrev LeavesShortened : TunnelConfiguration → Option (TunnelConfiguration × Bool) → Type 0
LeavesShortened c none = Unit
LeavesShortened c (some (d, b)) = IsShortened c d

LeavesShortened-trans :
    (c d : TunnelConfiguration) (o : Option (TunnelConfiguration × Bool))
    → ListsCut (record c { truncated = true }) d
    → LeavesShortened d o
    → LeavesShortened c o
LeavesShortened-trans c d none k h = tt
LeavesShortened-trans c d (some (x, b)) k h = IsShortened-trans c d x k h

module _ (encoded_size : TunnelConfiguration → ℕ) where
  limit_encoded_size-LeavesShortened :
      (fuel limit : ℕ) (c : TunnelConfiguration)
      → LeavesShortened c (limit_encoded_size encoded_size fuel limit c)
  unfolding limit_encoded_size
  limit_encoded_size-LeavesShortened zero limit c = tt
  limit_encoded_size-LeavesShortened (suc fuel) limit c =
      let rest = limit_encoded_size-LeavesShortened fuel limit (shorten c).0 in
      elim (Bool-cases (leb (encoded_size c) limit)) [
        | inl fit ↦ rw fit (IsShortened-refl c)
        | inr big ↦ elim (Bool-cases (shorten c).1) [
          | inr done ↦ rw (big, done) (after_shorten c _ (shorten-ListsCut c))
          | inl again ↦
              rw (big, again) (LeavesShortened-trans c (shorten c).0 _ (shorten-ListsCut c) rest)
        ]
      ]

  -- What the shortening leaves has lost list entries only at the end of each list, keeps every
  -- list's count and the `mtu`, and every list that changed is marked, as is the configuration if
  -- anything changed.
  pub limit_encoded_size-IsShortened :
      (fuel limit : ℕ) (c d : TunnelConfiguration) (b : Bool)
      → limit_encoded_size encoded_size fuel limit c ≡ some (d, b)
      → IsShortened c d
  limit_encoded_size-IsShortened fuel limit c d b h =
      rw h at (limit_encoded_size-LeavesShortened fuel limit c)
