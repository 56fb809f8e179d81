-- ===== src/Configuration/Limits.antt =====
-- That the shortening of a tunnel's configuration ends, and what it takes away
-- (crates/gpapi/src/session/desktop/tunnel.rs).
use global_protect_openconne.Prelude.{
  ℕ, zero, suc, ◌+◌, ◌/◌, ◌<◌, ◌≡◌, refl, ◌⊎◌, inl, inr, Bool, true, false, Option, none, some,
  List, [], ◌∷◌, leb, length, arith, length-take, Bool-cases,
}
use global_protect_openconne.Registry.{Bytes}
use global_protect_openconne.Registry.Hip.{boundary_below}
use global_protect_openconne.Registry.Preview.{boundary_below-le}
use global_protect_openconne.Configuration.{
  TunnelConfiguration, pop, shorten_lists, truncate_at, shorten_addresses, size_of, netmask_of,
  Scalar, interface, server_ip, netmask4, netmask6, text_of, longest, set_text, halve_text,
  shorten_scalars, or_scalars, shorten, limit_encoded_size,
}

length-pop : (xs : List Bytes) → 0 < length xs → length (pop xs) < length xs
unfolding pop
length-pop [] h = h
length-pop (x ∷ []) h = omega arith
length-pop (x ∷ y ∷ xs) h = omega (arith, length-pop (y ∷ xs) (omega arith))

-- What can still be taken from a configuration: its list entries and the bytes of its texts.
unfoldable pub weight : TunnelConfiguration → ℕ
weight c =
    length c.excluded_routes.items
    + length c.included_routes.items
    + length c.split_dns.items
    + length c.search_domains.items
    + length c.dns.items
    + size_of c.interface
    + size_of c.server_ip
    + size_of (netmask_of c.ipv4)
    + size_of (netmask_of c.ipv6)

shorten_lists-weight :
    (c : TunnelConfiguration) → (shorten_lists c).1 ≡ true → weight (shorten_lists c).0 < weight c
unfolding shorten_lists weight
shorten_lists-weight c h =
    let e = length-pop c.excluded_routes.items in
    let i = length-pop c.included_routes.items in
    let s = length-pop c.split_dns.items in
    let d = length-pop c.search_domains.items in let n = length-pop c.dns.items in ground arith

length-halved :
    (b : ℕ) (bs : Bytes) → length (truncate_at (length (b ∷ bs) / 2) (b ∷ bs)) < length (b ∷ bs)
unfolding truncate_at
length-halved b bs =
    let n = length (b ∷ bs) in
    let le = boundary_below-le (b ∷ bs) (n / 2) in
    let same = length-take (boundary_below (b ∷ bs) (n / 2)) (b ∷ bs) (omega arith) in omega arith

weight-set_text :
    (s : Scalar) (t : Bytes) (c : TunnelConfiguration) (old : Bytes)
    → text_of s c ≡ some old
    → length t < length old
    → weight (set_text s (some t) c) < weight c
unfolding weight
weight-set_text interface t c old e h = ground arith
weight-set_text server_ip t c old e h = ground arith
weight-set_text netmask4 t c old e h = ground arith
weight-set_text netmask6 t c old e h = ground arith

halve_text-weight :
    (s : Scalar) (t : Option Bytes) (c : TunnelConfiguration)
    → text_of s c ≡ t
    → (halve_text s t c).1 ≡ true
    → weight (halve_text s t c).0 < weight c
unfolding halve_text
halve_text-weight s none c e h = ground arith
halve_text-weight s (some []) c e h = ground arith
halve_text-weight s (some (b ∷ bs)) c e h =
    weight-set_text s (truncate_at (length (b ∷ bs) / 2) (b ∷ bs)) c (b ∷ bs) e (length-halved b bs)

shorten_addresses-weight : (c : TunnelConfiguration) → weight (shorten_addresses c) ≡ weight c
unfolding weight
shorten_addresses-weight c = ground arith

shorten_scalars-weight :
    (c : TunnelConfiguration)
    → (shorten_scalars c).1 ≡ true
    → weight (shorten_scalars c).0 < weight c
unfolding shorten_scalars
shorten_scalars-weight c h =
    let d = shorten_addresses c in
    let w = halve_text-weight (longest d) (text_of (longest d) d) d refl h in
    let e = shorten_addresses-weight c in omega arith

weight-shorten_lists :
    (c : TunnelConfiguration) → (shorten_lists c).1 ≡ false → weight (shorten_lists c).0 ≡ weight c
unfolding shorten_lists weight
weight-shorten_lists c h = ground arith

or_scalars-weight :
    (c d : TunnelConfiguration) (b : Bool)
    → ((b ≡ true) × (weight d < weight c)) ⊎ ((b ≡ false) × (weight d ≡ weight c))
    → (or_scalars (d, b)).1 ≡ true
    → weight (or_scalars (d, b)).0 < weight c
or_scalars-weight c d true h a = ground arith
or_scalars-weight c d false h a = let s = shorten_scalars-weight d a in ground arith

shorten-weight : (c : TunnelConfiguration) → (shorten c).1 ≡ true → weight (shorten c).0 < weight c
unfolding shorten weight
shorten-weight c a =
    let m : TunnelConfiguration = record c { truncated = true } in
    or_scalars-weight m (shorten_lists m).0 (shorten_lists m).1
      (elim (Bool-cases (shorten_lists m).1) [
        | inl t ↦ inl (t, shorten_lists-weight m t)
        | inr f ↦ inr (f, weight-shorten_lists m f)
      ])
      a

module _ (encoded_size : TunnelConfiguration → ℕ) where
  -- With one round more than a configuration has list entries and bytes of text, the shortening
  -- ends, and its flag says whether what is left fits the limit.
  pub limit_encoded_size-total :
      (fuel limit : ℕ) (c : TunnelConfiguration)
      → weight c < fuel
      → (d : TunnelConfiguration) × (limit_encoded_size encoded_size fuel limit c
          ≡ some (d, leb (encoded_size d) limit))
  unfolding limit_encoded_size
  limit_encoded_size-total zero limit c h = let f : ⊥ = omega arith in absurd f
  limit_encoded_size-total (suc fuel) limit c h = elim (Bool-cases (leb (encoded_size c) limit)) [
    | inl fit ↦ (c, rw fit refl)
    | inr big ↦ elim (Bool-cases (shorten c).1) [
      | inr done ↦ ((shorten c).0, rw (big, done) refl)
      | inl again ↦
          let w = shorten-weight c again in
          let (d, e) = limit_encoded_size-total fuel limit (shorten c).0 (omega arith) in
          (d, rw (big, again) e)
    ]
  ]
