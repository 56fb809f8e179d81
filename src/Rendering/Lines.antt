-- ===== src/Rendering/Lines.antt =====
-- Which output is recognized as a crash of the rendering, however it is split into pieces
-- (crates/gpapi/src/process/rendering_recovery.rs).
use Prim.Native.String.{String}
use global_protect_openconne.Prelude.{
  ℕ, ◌+◌, ◌≤◌, ◌<◌, ◌≡◌, refl, ap, sym, ◌∙◌, ◌⊎◌, inl, inr, none, some, Bool, true, false, ◌&&◌,
  ◌||◌, List, [], ◌∷◌, ◌++◌, arith, ltb, leb, ◌==◌, if◌then◌else◌, length, Bool-cases,
}
use global_protect_openconne.Registry.{Bytes}
use global_protect_openconne.Rendering.{
  StderrDiagnostic, new_diagnostic, max_line, is_diagnostic, check_line, push_byte, push,
  has_matched, Failure, RecoveryState, rendering_crash, other_failure, recover,
}

-- The lines of a text that goes on from a line that has begun.
abbrev lines_from : Bytes → Bytes → List Bytes
lines_from line [] = line ∷ []
lines_from line (b ∷ bs) =
    let next = lines_from [] bs in
    let longer = lines_from (line ++ b ∷ []) bs in if b == 10 then line ∷ next else longer

abbrev pub lines : Bytes → List Bytes
lines text = lines_from [] text

abbrev pub any_line : (Bytes → Bool) → List Bytes → Bool
any_line p [] = false
any_line p (l ∷ ls) = p l || any_line p ls

abbrev pub is_short_diagnostic : Bytes → Bool
is_short_diagnostic line = leb (length line) max_line && is_diagnostic line

-- What is kept of a line: all of it, or that it is too long.
abbrev Keeps : Bytes → StderrDiagnostic → Type 0
Keeps full d =
    ((length full ≤ max_line) × (d.line ≡ full) × (d.overflow ≡ false))
    ⊎ ((max_line < length full) × (length d.line ≡ max_line) × (d.overflow ≡ true))

length-snoc : (xs : Bytes) (b : ℕ) → length (xs ++ b ∷ []) ≡ length xs + 1
length-snoc [] b = refl
length-snoc (x ∷ xs) b = omega (arith, length-snoc xs b)

check_line-Keeps :
    (full : Bytes) (d : StderrDiagnostic)
    → Keeps full d
    → (check_line d).matched ≡ (d.matched || is_short_diagnostic full)
unfolding check_line
check_line-Keeps full d (inl (le, same, fits)) = ground arith
check_line-Keeps full d (inr (gt, long, over)) = ground arith

push_byte-Keeps :
    (b : ℕ) (full : Bytes) (d : StderrDiagnostic)
    → (b == 10) ≡ false
    → Keeps full d
    → Keeps (full ++ b ∷ []) (push_byte b d) × ((push_byte b d).matched ≡ d.matched)
unfolding push_byte
push_byte-Keeps b full d e (inl (le, same, fits)) =
    let l = length-snoc full b in
    elim (Bool-cases (ltb (length full) max_line)) [
      | inl q ↦ (inl (ground arith, ground arith, ground arith), ground arith)
      | inr q ↦ (inr (ground arith, ground arith, ground arith), ground arith)
    ]
push_byte-Keeps b full d e (inr (gt, long, over)) =
    let l = length-snoc full b in (inr (ground arith, ground arith, ground arith), ground arith)

-- A line feed ends the line and begins the next.
line_feed-Keeps :
    (b : ℕ) (full : Bytes) (d : StderrDiagnostic)
    → (b == 10) ≡ true
    → Keeps full d
    → Keeps [] (push_byte b d) × ((push_byte b d).matched ≡ (d.matched || is_short_diagnostic full))
unfolding push_byte
line_feed-Keeps b full d e k = rw e (inl (omega arith, refl, refl), check_line-Keeps full d k)

or_assoc : (a b c : Bool) → ((a || b) || c) ≡ (a || (b || c))
or_assoc true b c = refl
or_assoc false b c = refl

or_false : (b : Bool) → b ≡ (b || false)
or_false true = refl
or_false false = refl

lines_from-line_feed :
    (b : ℕ) (full text : Bytes)
    → (b == 10) ≡ true
    → lines_from full (b ∷ text) ≡ full ∷ lines_from [] text
lines_from-line_feed b full text e = rw e refl

lines_from-longer :
    (b : ℕ) (full text : Bytes)
    → (b == 10) ≡ false
    → lines_from full (b ∷ text) ≡ lines_from (full ++ b ∷ []) text
lines_from-longer b full text e = rw e refl

has_matched-lines_from :
    (text full : Bytes) (d : StderrDiagnostic)
    → Keeps full d
    → has_matched (push text d) ≡ (d.matched || any_line is_short_diagnostic (lines_from full text))
unfolding has_matched push
has_matched-lines_from [] full d k =
    check_line-Keeps full d k ∙ ap (λ x. d.matched || x) (or_false (is_short_diagnostic full))
has_matched-lines_from (b ∷ text) full d k = elim (Bool-cases (b == 10)) [
  | inl e ↦
      let (k', m) = line_feed-Keeps b full d e k in
      has_matched-lines_from text [] (push_byte b d) k'
      ∙ ap (λ x. x || any_line is_short_diagnostic (lines_from [] text)) m
      ∙ or_assoc d.matched (is_short_diagnostic full)
          (any_line is_short_diagnostic (lines_from [] text))
      ∙ ap (λ ls. d.matched || any_line is_short_diagnostic ls)
          (sym (lines_from-line_feed b full text e))
  | inr e ↦
      let (k', m) = push_byte-Keeps b full d e k in
      has_matched-lines_from text (full ++ b ∷ []) (push_byte b d) k'
      ∙ ap (λ x. x || any_line is_short_diagnostic (lines_from (full ++ b ∷ []) text)) m
      ∙ ap (λ ls. d.matched || any_line is_short_diagnostic ls)
          (sym (lines_from-longer b full text e))
]

abbrev pub concat : List Bytes → Bytes
concat [] = []
concat (c ∷ cs) = c ++ concat cs

abbrev pub push_all : List Bytes → StderrDiagnostic → StderrDiagnostic
push_all [] d = d
push_all (c ∷ cs) d = push_all cs (push c d)

push-append : (xs ys : Bytes) (d : StderrDiagnostic) → push (xs ++ ys) d ≡ push ys (push xs d)
unfolding push
push-append [] ys d = refl
push-append (x ∷ xs) ys d = push-append xs ys (push_byte x d)

push_all-concat : (cs : List Bytes) (d : StderrDiagnostic) → push_all cs d ≡ push (concat cs) d
unfolding push
push_all-concat [] d = refl
push_all-concat (c ∷ cs) d = push_all-concat cs (push c d) ∙ sym (push-append c (concat cs) d)

-- Output that arrives in any pieces is recognized exactly if one of the lines of the whole, the last
-- included, is a diagnostic of at most 1024 bytes.
pub has_matched-lines :
    (cs : List Bytes)
    → has_matched (push_all cs new_diagnostic) ≡ any_line is_short_diagnostic (lines (concat cs))
has_matched-lines cs =
    ap has_matched (push_all-concat cs new_diagnostic)
    ∙ has_matched-lines_from (concat cs) [] new_diagnostic (inl (omega arith, refl, refl))

-- The recoveries that a list of failures leads to.
unfoldable pub recoveries : List Failure → RecoveryState → ℕ
recoveries [] s = 0
recoveries (f ∷ fs) s = let (s', again) = recover f s in (if again then 1 else 0) + recoveries fs s'

recoveries-some : (fs : List Failure) (x : String) → recoveries fs (some x) ≡ 0
unfolding recoveries recover
recoveries-some [] x = refl
recoveries-some (rendering_crash m ∷ fs) x = omega (arith, recoveries-some fs x)
recoveries-some (other_failure m ∷ fs) x = omega (arith, recoveries-some fs x)

-- However many attempts fail, the rendering is recovered at most once.
pub recoveries-none : (fs : List Failure) → recoveries fs none ≤ 1
unfolding recoveries recover
recoveries-none [] = omega arith
recoveries-none (rendering_crash m ∷ fs) = omega (arith, recoveries-some fs m)
recoveries-none (other_failure m ∷ fs) = omega (arith, recoveries-none fs)
