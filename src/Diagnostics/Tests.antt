-- ===== src/Diagnostics/Tests.antt =====
-- src/diagnostics.c on two files, one of which has no diagnostics any more.
use taskjuggler_lsp.Base.{ℕ, ◌≡◌, refl, none, [], ◌∷◌, codes, str_eq}
use taskjuggler_lsp.Diagnostics.{
  Diagnostic, DiagSet, diag_set_new, diag_set_add, diag_set_has, publish_current, publish_cleared,
  publish_diagnostics, diag_set_publish,
}
use taskjuggler_lsp.Diagnostics.View.{
  items_of, receive_all, OneBucket, receive_all-diag_set_publish, diag_set_add-OneBucket,
}

abbrev warning : ℕ → Diagnostic
warning l = record {
  range = record {
    start = record { line = l; character = 0 };
    end = record { line = l; character = 1 };
  };
  severity = 2;
  source = none;
  message = none;
}

program : Unit {0}
unfolding diag_set_add diag_set_has publish_current publish_cleared str_eq
program = tt

previous : DiagSet
previous = diag_set_add (diag_set_add diag_set_new (codes "a") (warning 1)) (codes "b") (warning 2)

current : DiagSet
current = diag_set_add (diag_set_add diag_set_new (codes "b") (warning 2)) (codes "b") (warning 3)

messages :
    diag_set_publish current previous
    ≡ record { uri = codes "b"; diagnostics = warning 2 ∷ warning 3 ∷ [] }
      ∷ publish_diagnostics (codes "a")
      ∷ []
unfolding program current previous
messages = refl

current-OneBucket : OneBucket current
unfolding current
current-OneBucket =
    diag_set_add-OneBucket _ (codes "b") (warning 3)
      (diag_set_add-OneBucket [] (codes "b") (warning 2) tt)

receive_all-diag_set_publish_example :
    receive_all (items_of previous) (diag_set_publish current previous) (codes "a")
    ≡ items_of current (codes "a")
receive_all-diag_set_publish_example =
    receive_all-diag_set_publish current previous (items_of previous) current-OneBucket (λ _. refl)
      (codes "a")
