-- ===== src/Lifecycle/Tests.antt =====
-- src/lifecycle.c on a text of two lines.
use taskjuggler_lsp.Base.{◌≡◌, refl, some, List, [], ◌∷◌, codes}
use taskjuggler_lsp.Lifecycle.{
  bytes_to, apply_incremental_change, Change, apply_from, apply_content_changes,
}
use taskjuggler_lsp.Lifecycle.Changes.{range_between, Edits, apply_content_changes-Edits}

abbrev changes : List Change
changes =
    record { range = some (range_between (codes "task\na") (codes "b")); text = some (codes "xyz") }
    ∷ record { range = some (range_between (codes "t") (codes "ask\n")); text = some [] }
    ∷ []

applied : apply_content_changes (some (codes "task\nabc")) changes ≡ some (codes "taxyzc")
unfolding bytes_to apply_incremental_change apply_from
applied = refl

-- A character beyond the end of its line is met nowhere, so the rest of the text is taken.
beyond_line :
    apply_incremental_change
      (some (codes "ab\ncd"))
      record {
        start = record { line = 0; character = 1 };
        end = record { line = 0; character = 9 };
      }
      []
    ≡ codes "a"
unfolding bytes_to apply_incremental_change
beyond_line = refl

edits : Edits (codes "task\nabc") changes (codes "taxyzc")
edits = Edits.part (codes "task\na") (codes "b") (codes "c") (codes "xyz") _ (codes "taxyzc") (
    Edits.part (codes "t") (codes "ask\n") (codes "axyzc") [] [] (codes "taxyzc")
      (Edits.done (codes "taxyzc")))

apply_content_changes-Edits_example :
    apply_content_changes (some (codes "task\nabc")) changes ≡ some (codes "taxyzc")
apply_content_changes-Edits_example =
    apply_content_changes-Edits (codes "task\nabc") _ _ (codes "taxyzc") edits
