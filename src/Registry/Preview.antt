-- ===== src/Registry/Preview.antt =====
-- A HIP preview of apps/gpservice/src/session_registry.rs is read in chunks that end between
-- characters.
use global_protect_openconne.Prelude.{
  ℕ, zero, suc, ◌+◌, ◌-◌, ◌≤◌, ◌<◌, ◌≡◌, refl, ap, ◌∙◌, is_ok, Result-cases, Bool, true, false,
  ◌&&◌, ◌||◌, not, Option, none, some, [], ◌∷◌, ◌++◌, arith, Result, ok, err, ltb, ◌==◌, ==_refl,
  if◌then◌else◌, length, min, get_elem?, take, drop, length-take, take-length, take-append-take,
  Bool-cases, inl, inr, ◌⊎◌,
}
use native.Mathlib.Decide.{dec_le, dec_lt}
use global_protect_openconne.VpnState.{Uuid}
use global_protect_openconne.Registry.{
  Bytes, SessionError, SessionRecord, unavailable, unauthorized, is_active, Registry, find, put,
  hip_preview_chunk_bytes,
}
use global_protect_openconne.Registry.Hip.{
  is_char_boundary, boundary_at, is_continuation, boundary_below, chunk_at, report_with,
  hip_preview_chunk, store_hip_preview,
}
use global_protect_openconne.Registry.Laws.{find-ok, find-put}

-- No text in UTF-8 has four continuation bytes in a row, or starts with one. The number counts the
-- continuation bytes just before.
abbrev pub is_text_after : ℕ → Bytes → Bool
is_text_after k [] = true
is_text_after k (b ∷ bs) =
    let next = is_text_after (suc k) bs in
    let fresh = is_text_after 0 bs in if is_continuation b then ltb k 3 && next else fresh

abbrev pub is_text : Bytes → Bool
is_text xml = is_text_after 3 xml

is_text_after-tail :
    (k b : ℕ) (bs : Bytes)
    → is_text_after k (b ∷ bs) ≡ true
    → (is_text_after (suc k) bs ≡ true) ⊎ (is_text_after 0 bs ≡ true)
is_text_after-tail k b bs h = elim (Bool-cases (is_continuation b)) [
  | inl y ↦ inl (ground arith)
  | inr n ↦ inr (ground arith)
]

-- Of four bytes in a row, one starts a character.
abbrev starts_within : Bytes → ℕ → Bool
starts_within xml i =
    boundary_at (get_elem? xml i)
    || boundary_at (get_elem? xml (suc i))
    || boundary_at (get_elem? xml (suc (suc i)))
    || boundary_at (get_elem? xml (suc (suc (suc i))))

starts_within_four :
    (k i : ℕ) (xml : Bytes)
    → is_text_after k xml ≡ true
    → suc (suc (suc i)) < length xml
    → starts_within xml i ≡ true
starts_within_four k i [] h l = ground arith
starts_within_four k (suc i) (b ∷ bs) h l = elim (is_text_after-tail k b bs h) [
  | inl t ↦ starts_within_four (suc k) i bs t (omega arith)
  | inr t ↦ starts_within_four 0 i bs t (omega arith)
]
starts_within_four k zero (a ∷ []) h l = ground arith
starts_within_four k zero (a ∷ b ∷ []) h l = ground arith
starts_within_four k zero (a ∷ b ∷ c ∷ []) h l = ground arith
starts_within_four k zero (a ∷ b ∷ c ∷ d ∷ bs) h l = ground arith

pub boundary_below-le : (xml : Bytes) (n : ℕ) → boundary_below xml n ≤ n
unfolding boundary_below
boundary_below-le xml zero = omega arith
boundary_below-le xml (suc n) = let le = boundary_below-le xml n in ground arith

boundary_below-length : (xml : Bytes) → boundary_below xml (length xml) ≡ length xml
unfolding boundary_below
boundary_below-length [] = refl
boundary_below-length (b ∷ bs) = ground arith

first_boundary : (xml : Bytes) → is_text xml ≡ true → is_char_boundary xml 0 ≡ true
first_boundary [] t = refl
first_boundary (b ∷ bs) t = ground arith

-- The loop that looks for a boundary goes down by at most three.
boundary_below_near :
    (xml : Bytes) (n : ℕ)
    → is_text xml ≡ true
    → suc (suc (suc (suc n))) < length xml
    → n < boundary_below xml (suc (suc (suc (suc n))))
unfolding boundary_below
boundary_below_near xml n t l = let s = starts_within_four 3 (suc n) xml t l in ground arith

boundary_below-is_char_boundary :
    (xml : Bytes) (n : ℕ) → is_text xml ≡ true → is_char_boundary xml (boundary_below xml n) ≡ true
unfolding boundary_below
boundary_below-is_char_boundary [] zero t = refl
boundary_below-is_char_boundary (b ∷ bs) zero t = ground arith
boundary_below-is_char_boundary xml (suc n) t = elim (Bool-cases (is_char_boundary xml (suc n))) [
  | inl y ↦ rw (y, boundary_below) y
  | inr k ↦ rw (k, boundary_below) (boundary_below-is_char_boundary xml n t)
]

-- Where a chunk that is asked for at an offset ends.
abbrev chunk_end : Bytes → ℕ → ℕ
chunk_end xml o = boundary_below xml (min (o + hip_preview_chunk_bytes) (length xml))

chunk_end-le : (xml : Bytes) (o : ℕ) → chunk_end xml o ≤ length xml
chunk_end-le xml o =
    let le = boundary_below-le xml (min (o + hip_preview_chunk_bytes) (length xml)) in omega arith

-- A chunk that is asked for before the end is not empty.
chunk_end_later : (xml : Bytes) (o : ℕ) → is_text xml ≡ true → o < length xml → o < chunk_end xml o
chunk_end_later xml o t l = elim (dec_le (length xml) (o + hip_preview_chunk_bytes)) [
  | yes p ↦
      let e : min (o + hip_preview_chunk_bytes) (length xml) ≡ length xml = omega arith in
      rw e (rw (boundary_below-length xml) l)
  | no p ↦
      let n = o + 16380 in
      let e : min (o + hip_preview_chunk_bytes) (length xml) ≡ suc (suc (suc (suc n))) =
        omega arith in
      let near = boundary_below_near xml n t (omega arith) in rw e (omega arith)
]

chunk_end_last : (xml : Bytes) → chunk_end xml (length xml) ≡ length xml
chunk_end_last xml =
    let e : min (length xml + hip_preview_chunk_bytes) (length xml) ≡ length xml = omega arith in
    rw e (boundary_below-length xml)

chunk_at_lem :
    (xml : Bytes) (o : ℕ)
    → o ≤ length xml
    → is_char_boundary xml o ≡ true
    → chunk_at xml o ≡ ok (take (chunk_end xml o - o) (drop o xml), chunk_end xml o == length xml)
unfolding chunk_at
chunk_at_lem xml o l b =
    let n : ltb (length xml) o ≡ false = ground arith in rw (n, b, chunk_at) refl

-- A client that asks for the chunk after what it has, until it is told that it has the last one.
unfoldable pub read_from : (ℕ → Result SessionError (Bytes × Bool)) → ℕ → Bytes → Option Bytes
read_from fetch zero got = none
read_from fetch (suc fuel) got = elim (fetch (length got)) [
  | err e ↦ none
  | ok (chunk, last) ↦
      let rest = read_from fetch fuel (got ++ chunk) in if last then some (got ++ chunk) else rest
]

module _ (xml : Bytes) (t : is_text xml ≡ true) (fetch : ℕ → Result SessionError (Bytes × Bool))
    (same : (o : ℕ) → fetch o ≡ chunk_at xml o) where
  fetched :
      (o : ℕ) (got : Bytes)
      → got ≡ take o xml
      → o ≤ length xml
      → is_char_boundary xml o ≡ true
      → fetch (length got)
        ≡ ok (take (chunk_end xml o - o) (drop o xml), chunk_end xml o == length xml)
  fetched o got e l b = rw (e, length-take o xml l) (same o ∙ chunk_at_lem xml o l b)

  -- What was read is a part of the report, up to the boundary where the next chunk begins.
  joined :
      (o : ℕ) (got : Bytes)
      → got ≡ take o xml
      → o ≤ chunk_end xml o
      → got ++ take (chunk_end xml o - o) (drop o xml) ≡ take (chunk_end xml o) xml
  joined o got e l = rw e (take-append-take o (chunk_end xml o) xml l)

  not_past : (o : ℕ) → o ≤ length xml → o ≤ chunk_end xml o
  not_past o l = elim (dec_lt o (length xml)) [
    | yes p ↦ let later = chunk_end_later xml o t p in omega arith
    | no p ↦
        let e : o ≡ length xml = omega arith in let last = chunk_end_last xml in rw e (omega arith)
  ]

  grows : (o : ℕ) → o ≤ length xml → (chunk_end xml o == length xml) ≡ false → o < chunk_end xml o
  grows o l n = elim (dec_lt o (length xml)) [
    | yes p ↦ chunk_end_later xml o t p
    | no p ↦
        let e : o ≡ length xml = omega arith in
        let last : chunk_end xml o ≡ length xml = rw e (chunk_end_last xml) in
        let g : true ≡ false = rw (last, ==_refl (length xml)) at n in cc
  ]

  read_from_lem :
      (fuel o : ℕ) (got : Bytes)
      → got ≡ take o xml
      → o ≤ length xml
      → is_char_boundary xml o ≡ true
      → length xml < o + fuel
      → read_from fetch fuel got ≡ some xml
  unfolding read_from
  read_from_lem zero o got e l b f = let g : ⊥ = omega arith in absurd g
  read_from_lem (suc fuel) o got e l b f =
      let j = joined o got e (not_past o l) in
      elim (Bool-cases (chunk_end xml o == length xml)) [
        | inl y ↦
            let w : chunk_end xml o ≡ length xml = ground arith in
            let all : take (chunk_end xml o) xml ≡ xml = rw w (take-length xml) in
            rw (fetched o got e l b, y, read_from) (ap some (j ∙ all))
        | inr n ↦
            let later = grows o l n in
            rw (fetched o got e l b, n, read_from)
              (read_from_lem fuel (chunk_end xml o) _ j (chunk_end-le xml o)
                (boundary_below-is_char_boundary xml _ t) (omega arith))
      ]

report_with_same : (pid : Uuid) (xml : Bytes) → report_with pid (some (pid, xml)) ≡ ok xml
report_with_same pid xml = rw (==_refl pid) refl

-- What a successful store writes.
store_hip_preview-ok :
    (id : Uuid) (xml : Bytes) (pid : Uuid) (g : Registry)
    → is_ok (store_hip_preview id xml pid g).1 ≡ true
    → (r : SessionRecord) × (find unavailable unauthorized g id ≡ ok r)
      × ((store_hip_preview id xml pid g).0 ≡ put id (record r { hip_preview = some (pid, xml) }) g)
unfolding store_hip_preview
store_hip_preview-ok id xml pid g h = elim (Result-cases (find unavailable unauthorized g id)) [
  | inl (e, q) ↦ let f : false ≡ true = rw (q, store_hip_preview) at h in cc
  | inr (r, q) ↦ elim (Bool-cases (not (is_active r))) [
    | inl n ↦ let f : false ≡ true = rw (q, n, store_hip_preview) at h in cc
    | inr y ↦ (r, q, rw (q, y, store_hip_preview) refl)
  ]
]

-- A preview that was stored is read back whole: a client that starts with nothing and asks for
-- chunk after chunk has the stored text after at most one request more than the text has bytes,
-- if the text is one of UTF-8.
pub read_from-store_hip_preview :
    (id : Uuid) (xml : Bytes) (pid : Uuid) (g : Registry)
    → is_text xml ≡ true
    → is_ok (store_hip_preview id xml pid g).1 ≡ true
    → let g' = (store_hip_preview id xml pid g).0 in
      read_from (λ o. hip_preview_chunk id pid o g') (suc (length xml)) [] ≡ some xml
unfolding hip_preview_chunk
read_from-store_hip_preview id xml pid g t h =
    let (r, q, u) = store_hip_preview-ok id xml pid g h in
    let r' : SessionRecord = record r { hip_preview = some (pid, xml) } in
    let g' = (store_hip_preview id xml pid g).0 in
    let found : find unavailable unauthorized g' id ≡ ok r' =
      rw u (find-put _ _ g id r' (find-ok _ _ g id q).0) in
    read_from_lem xml t (λ o. hip_preview_chunk id pid o g')
      (λ o. rw (found, report_with_same pid xml, hip_preview_chunk) refl) (suc (length xml)) 0 []
      refl (omega arith) (first_boundary xml t) (omega arith)
