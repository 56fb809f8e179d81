-- ===== src/Tests/Output.antt =====
-- Output and failures of a desktop child (crates/gpapi/src/process/rendering_recovery.rs).
use global_protect_openconne.Prelude.{◌≤◌, ◌≡◌, List, [], ◌∷◌, none}
use global_protect_openconne.Registry.{Bytes}
use global_protect_openconne.Rendering.{
  new_diagnostic, has_matched, Failure, rendering_crash, other_failure,
}
use global_protect_openconne.Rendering.Lines.{
  push_all, any_line, is_short_diagnostic, lines, concat, has_matched-lines, recoveries,
  recoveries-none,
}

-- A line in two pieces, and the start of another.
abbrev pieces : List Bytes
pieces = (71 ∷ 100 ∷ []) ∷ (107 ∷ 10 ∷ 40 ∷ []) ∷ []

has_matched-lines_example :
    has_matched (push_all pieces new_diagnostic)
    ≡ any_line is_short_diagnostic (lines (concat pieces))
has_matched-lines_example = has_matched-lines pieces

abbrev failures : List Failure
failures = rendering_crash "first" ∷ other_failure "lost" ∷ rendering_crash "second" ∷ []

recoveries-none_example : recoveries failures none ≤ 1
recoveries-none_example = recoveries-none failures
