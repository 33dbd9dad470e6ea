-- ===== src/Diagnostics.antt =====
-- src/diagnostics.c: the sets of diagnostics of a project, and the messages that bring the editor from
-- one set to the next. Pointers to sets are sets, NULL being the empty one.
-- A message is the URI and the list that it publishes for it; its JSON is not modelled.
pub mod View
mod Tests
use taskjuggler_lsp.Base.{
  ℕ, Bool, true, false, ◌&&◌, ◌||◌, ◌==◌, not, if◌then◌else◌, Option, none, some, List, [], ◌∷◌,
  ◌++◌, Bytes, codes, length, leb, drop, ◌-◌, str_eq,
}
use taskjuggler_lsp.Syntax.{LspPos, LspRange, TokenKind, TokenSpan}

pub record Diagnostic : Type 0 where
  pub range : LspRange
  pub severity : ℕ
  pub source : Option Bytes
  pub message : Option Bytes

pub record DiagFile : Type 0 where
  pub uri : Bytes
  pub items : List Diagnostic

abbrev pub DiagSet : Type 0
DiagSet = List DiagFile

abbrev pub diag_set_new : DiagSet
diag_set_new = []

-- `diag_set_file` and the append to the bucket that it returns
unfoldable pub diag_set_add : DiagSet → Bytes → Diagnostic → DiagSet
diag_set_add [] uri d = record { uri = uri; items = d ∷ [] } ∷ []
diag_set_add (f ∷ fs) uri d =
    let rest = diag_set_add fs uri d in
    if str_eq f.uri uri then record { uri = f.uri; items = f.items ++ (d ∷ []) } ∷ fs else f ∷ rest

pub diag_set_has : DiagSet → Bytes → Bool
diag_set_has [] uri = false
diag_set_has (f ∷ fs) uri = str_eq f.uri uri || diag_set_has fs uri

pub record Message : Type 0 where
  pub uri : Bytes
  pub diagnostics : List Diagnostic

-- The loop over the current set.
pub publish_current : DiagSet → List Message
publish_current [] = []
publish_current (f ∷ fs) = record { uri = f.uri; diagnostics = f.items } ∷ publish_current fs

-- `publish_diagnostics`: an empty list
abbrev pub publish_diagnostics : Bytes → Message
publish_diagnostics uri = record { uri = uri; diagnostics = [] }

-- The loop over the previous set.
pub publish_cleared : DiagSet → DiagSet → List Message
publish_cleared current [] = []
publish_cleared current (f ∷ fs) =
    if not (diag_set_has current f.uri)
    then publish_diagnostics f.uri ∷ publish_cleared current fs
    else publish_cleared current fs

abbrev pub diag_set_publish : DiagSet → DiagSet → List Message
diag_set_publish current previous = publish_current current ++ publish_cleared current previous
