-- ===== src/Lifecycle.antt =====
-- src/lifecycle.c: the changes of `textDocument/didChange`, applied to the text of a document.
-- A character of a position is a byte of its line. The JSON of a change is read by a library: a change
-- is the text and the range that it finds, NULL being `none`.
pub mod Changes
mod Tests
use taskjuggler_lsp.Base.{
  ℕ, ◌+◌, ◌==◌, Bool, true, false, ◌&&◌, if◌then◌else◌, Option, none, some, List, [], ◌∷◌, ◌++◌,
  take, drop, Bytes,
}
use taskjuggler_lsp.Syntax.{LspPos, LspRange}

-- `if (src[i] == '\n') { cur_line++; cur_char = 0; } else { cur_char++; }`
abbrev pub step_pos : ℕ → LspPos → LspPos
step_pos c cur =
    if c == b'\n'
    then record { line = cur.line + 1; character = 0 }
    else record { line = cur.line; character = cur.character + 1 }

-- How many bytes of `src` the loop passes from the position `cur` until it meets `target` or the end.
pub bytes_to : Bytes → LspPos → LspPos → ℕ
bytes_to [] cur target = 0
bytes_to (c ∷ cs) cur target =
    let rest = bytes_to cs (step_pos c cur) target in
    if cur.line == target.line && cur.character == target.character then 0 else 1 + rest

pub apply_incremental_change : Option Bytes → LspRange → Bytes → Bytes
apply_incremental_change none range new_text = new_text
apply_incremental_change (some src) range new_text =
    let start_byte = bytes_to src record { line = 0; character = 0 } range.start in
    let end_byte = start_byte + bytes_to (drop start_byte src) range.start range.end in
    take start_byte src ++ (new_text ++ drop end_byte src)

pub record Change : Type 0 where
  pub range : Option LspRange
  pub text : Option Bytes

abbrev pub text_of : Option Bytes → Bytes
text_of none = []
text_of (some t) = t

abbrev pub next_text : Bytes → Option LspRange → Bytes → Bytes
next_text base none new_text = new_text
next_text base (some range) new_text = apply_incremental_change (some base) range new_text

-- `current ? current : base_text`
abbrev pub base_of : Option Bytes → Bytes → Bytes
base_of none base_text = base_text
base_of (some t) base_text = t

-- The loop over the changes. `current` is NULL before the first one.
pub apply_from : Bytes → Option Bytes → List Change → Option Bytes
apply_from base_text current [] = current
apply_from base_text current (change ∷ changes) = elim change.text [
  | none ↦ none
  | some new_text ↦
      apply_from base_text (some (next_text (base_of current base_text) change.range new_text))
        changes
]

abbrev pub apply_content_changes : Option Bytes → List Change → Option Bytes
apply_content_changes base_text changes = apply_from (text_of base_text) none changes
