-- ===== src/Lifecycle/Changes.antt =====
-- src/lifecycle.c: the server's text is the editor's text after its changes.
use taskjuggler_lsp.Base.{
  ℕ, ◌+◌, ◌≤◌, ◌<◌, ◌≡◌, ◌⊎◌, inl, inr, Bool-cases, refl, ◌∙◌, sym, ap, ap₂, ◌==◌, ◌||◌, Bool,
  false, if◌then◌else◌, ◌&&◌, none, some, List, [], ◌∷◌, ◌++◌, drop, length, length-append,
  take-append_length, drop-append_length, append_assoc, Bytes, arith,
}
use taskjuggler_lsp.Syntax.{LspPos, LspRange}
use taskjuggler_lsp.Lifecycle.{
  step_pos, bytes_to, apply_incremental_change, Change, apply_from, apply_content_changes,
}

-- Where the loop is behind a text that starts at `cur`.
abbrev pos_after : LspPos → Bytes → LspPos
pos_after cur [] = cur
pos_after cur (c ∷ cs) = pos_after (step_pos c cur) cs

abbrev origin : LspPos
origin = record { line = 0; character = 0 }

-- Later in the text is later in the order of positions.
abbrev Before : LspPos → LspPos → Type 0
Before p q = (p.line < q.line) ⊎ ((p.line ≡ q.line) × (p.character ≤ q.character))

pos_after-Before : (cs : Bytes) (cur : LspPos) → Before cur (pos_after cur cs)
pos_after-Before [] cur = inr (refl, omega arith)
pos_after-Before (c ∷ cs) cur = ground (arith, pos_after-Before cs (step_pos c cur))

not_yet :
    (c : ℕ) (cs : Bytes) (cur : LspPos)
    → (cur.line == (pos_after cur (c ∷ cs)).line
        && cur.character == (pos_after cur (c ∷ cs)).character)
      ≡ false
not_yet c cs cur = ground (arith, pos_after-Before cs (step_pos c cur))

-- The loop stops exactly behind the text whose end it looks for.
bytes_to-pos_after :
    (pre rest : Bytes) (cur : LspPos) → bytes_to (pre ++ rest) cur (pos_after cur pre) ≡ length pre
unfolding bytes_to
bytes_to-pos_after [] [] cur = refl
bytes_to-pos_after [] (c ∷ rest) cur = ground arith
bytes_to-pos_after (c ∷ pre) rest cur =
    rw (not_yet c pre cur) (omega (arith, bytes_to-pos_after pre rest (step_pos c cur)))

abbrev has_newline : Bytes → Bool
has_newline [] = false
has_newline (c ∷ cs) = c == 10 || has_newline cs

-- The number of a line is the number of newlines before it.
abbrev pub newlines : Bytes → ℕ
newlines [] = 0
newlines (c ∷ cs) = (if c == 10 then 1 else 0) + newlines cs

-- What stands behind the last newline.
abbrev pub last_line : Bytes → Bytes
last_line [] = []
last_line (c ∷ cs) = if has_newline (c ∷ cs) then last_line cs else c ∷ cs

-- The position behind the beginning `pre` of a text, as an editor counts it.
abbrev pub position_behind : Bytes → LspPos
position_behind pre = record { line = newlines pre; character = length (last_line pre) }

pos_after-line : (cs : Bytes) (cur : LspPos) → (pos_after cur cs).line ≡ cur.line + newlines cs
pos_after-line [] cur = omega arith
pos_after-line (c ∷ cs) cur = ground (arith, pos_after-line cs (step_pos c cur))

last_line-whole : (cs : Bytes) → has_newline cs ≡ false → last_line cs ≡ cs
last_line-whole [] e = refl
last_line-whole (c ∷ cs) e = rw e refl

pos_after-character :
    (cs : Bytes) (cur : LspPos)
    → (pos_after cur cs).character
      ≡ (if has_newline cs then length (last_line cs) else cur.character + length cs)
pos_after-character [] cur = omega arith
pos_after-character (c ∷ cs) cur =
    ground (arith, pos_after-character cs (step_pos c cur), last_line-whole cs)

origin-character : (pre : Bytes) → (pos_after origin pre).character ≡ length (last_line pre)
origin-character pre = elim (Bool-cases (has_newline pre)) [
  | inl lines ↦ pos_after-character pre origin ∙ rw lines refl
  | inr one ↦ pos_after-character pre origin ∙ rw (one, last_line-whole pre one) (omega arith)
]

abbrev position_of : ℕ → ℕ → LspPos
position_of l k = record { line = l; character = k }

pos_after-position_behind : (pre : Bytes) → pos_after origin pre ≡ position_behind pre
pos_after-position_behind pre =
    let line : (pos_after origin pre).line ≡ newlines pre =
      pos_after-line pre origin ∙ omega arith in
    ap₂ (λ (l k : ℕ). position_of l k) line (origin-character pre)

pos_after-append :
    (a b : Bytes) (cur : LspPos) → pos_after cur (a ++ b) ≡ pos_after (pos_after cur a) b
pos_after-append [] b cur = refl
pos_after-append (c ∷ a) b cur = pos_after-append a b (step_pos c cur)

-- The range from behind `pre` to behind `mid`.
abbrev pub range_between : Bytes → Bytes → LspRange
range_between pre mid = record { start = position_behind pre; end = position_behind (pre ++ mid) }

abbrev walked_between : Bytes → Bytes → LspRange
walked_between pre mid = record {
  start = pos_after origin pre;
  end = pos_after (pos_after origin pre) mid;
}

walked_between-range_between : (pre mid : Bytes) → walked_between pre mid ≡ range_between pre mid
walked_between-range_between pre mid =
    ap₂ (λ (p q : LspPos). record { start = p; end = q }) (pos_after-position_behind pre)
      (sym (pos_after-append pre mid origin) ∙ pos_after-position_behind (pre ++ mid))

apply_walked :
    (pre mid suf new_text : Bytes)
    → apply_incremental_change (some (pre ++ (mid ++ suf))) (walked_between pre mid) new_text
      ≡ pre ++ (new_text ++ suf)
unfolding apply_incremental_change
apply_walked pre mid suf new_text =
    let e = bytes_to-pos_after pre (mid ++ suf) origin in
    let d = drop-append_length pre (mid ++ suf) in
    let m = bytes_to-pos_after mid suf (pos_after origin pre) in
    let len : length pre + length mid ≡ length (pre ++ mid) = sym (length-append pre mid) in
    let back : drop (length pre + length mid) (pre ++ (mid ++ suf)) ≡ suf =
      rw (len, sym (append_assoc pre mid suf)) (drop-append_length (pre ++ mid) suf) in
    rw (e, d, m, take-append_length pre (mid ++ suf), back) refl

-- A change whose range goes from behind `pre` to behind `mid` replaces exactly `mid`, if the
-- characters of positions are counted in bytes.
pub apply_incremental_change_lem :
    (pre mid suf new_text : Bytes)
    → apply_incremental_change (some (pre ++ (mid ++ suf))) (range_between pre mid) new_text
      ≡ pre ++ (new_text ++ suf)
apply_incremental_change_lem pre mid suf new_text =
    ap (λ (r : LspRange). apply_incremental_change (some (pre ++ (mid ++ suf))) r new_text)
      (sym (walked_between-range_between pre mid))
    ∙ apply_walked pre mid suf new_text

-- What an editor sends while its text goes from one to the other: all of a new text, or the range of
-- the part that it replaces and what it puts there.
pub data Edits : Bytes → List Change → Bytes → Type 0 where
  done : (t : Bytes) → Edits t [] t
  whole :
      (t new_text : Bytes) (changes : List Change) (t' : Bytes)
      → Edits new_text changes t'
      → Edits t (record { range = none; text = some new_text } ∷ changes) t'
  part :
      (pre mid suf new_text : Bytes) (changes : List Change) (t' : Bytes)
      → Edits (pre ++ (new_text ++ suf)) changes t'
      → Edits
          (pre ++ (mid ++ suf))
          (record { range = some (range_between pre mid); text = some new_text } ∷ changes)
          t'

apply_from-Edits :
    (base t : Bytes) (changes : List Change) (t' : Bytes)
    → Edits t changes t'
    → apply_from base (some t) changes ≡ some t'
unfolding apply_from
apply_from-Edits base _ _ _ (Edits.done t) = refl
apply_from-Edits base _ _ _ (Edits.whole t new_text changes t' rest) =
    apply_from-Edits base new_text changes t' rest
apply_from-Edits base _ _ _ (Edits.part pre mid suf new_text changes t' rest) =
    ap (λ (u : Bytes). apply_from base (some u) changes)
      (apply_incremental_change_lem pre mid suf new_text)
    ∙ apply_from-Edits base (pre ++ (new_text ++ suf)) changes t' rest

-- After the changes that an editor sends, one at least, each all of a new text or the range of the
-- part that it replaces, the server holds the editor's text, if the characters of positions are
-- counted in bytes.
pub apply_content_changes-Edits :
    (t : Bytes) (change : Change) (changes : List Change) (t' : Bytes)
    → Edits t (change ∷ changes) t'
    → apply_content_changes (some t) (change ∷ changes) ≡ some t'
unfolding apply_from
apply_content_changes-Edits t change changes t' edits =
    apply_from-Edits t t (change ∷ changes) t' edits
