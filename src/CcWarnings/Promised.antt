-- ===== src/CcWarnings/Promised.antt =====
-- src/diagnostics.c: the warnings that the documents of a project get.
use taskjuggler_lsp.Base.{
  ℕ, ◌+◌, ◌-◌, leb, ◌≡◌, ◌≢◌, refl, ◌∙◌, sym, ap, subst, true, false, Bool-cases, inl, inr, some,
  List, [], ◌∷◌, ◌++◌, length, drop, take, take-append-drop, drop-append_length, length-append,
  Bytes, codes, str_eq_iff, arith,
}
use taskjuggler_lsp.Syntax.{LspPos, TokenKind, TokenSpan}
use taskjuggler_lsp.Diagnostics.{Diagnostic}
use taskjuggler_lsp.CcWarnings.{
  CcStatus, DocSnapshot, WsDoc, warning, fragment_message, include_message, is_tji, is_include,
}
use taskjuggler_lsp.CcWarnings.Listed.{include_warnings, doc_warnings}

abbrev pub text_of : CcStatus → Bytes → Bytes
text_of CcStatus.malformed rest = codes "Malformed compile_commands.json, " ++ rest
text_of _ rest = codes "Missing compile_commands.json, " ++ rest

abbrev pub alone_text : Bytes
alone_text =
    codes
      "this file will be parsed stand-alone, not as part of any other loaded .tjp file that includes it."

abbrev pub disabled_text : Bytes
disabled_text = codes "cross-file LSP features are disabled."

abbrev pub warning_at : LspPos → LspPos → Bytes → Diagnostic
warning_at start end text = record {
  range = record { start = start; end = end };
  severity = 2;
  source = some (codes "taskjuggler-lsp");
  message = some text;
}

-- The name of a fragment ends in ".tji".
abbrev pub IsFragment : Bytes → Type 0
IsFragment uri = (stem : Bytes) × (uri ≡ stem ++ codes ".tji")

-- A warning on each `include`.
pub data IncludesWarned (status : CcStatus) : List TokenSpan → List Diagnostic → Type 0 where
  end : IncludesWarned status [] []
  on_include :
      {t : TokenSpan} {ts : List TokenSpan} {ds : List Diagnostic}
      → t.token_kind ≡ TokenKind.kw_include
      → IncludesWarned status ts ds
      → IncludesWarned status
          (t ∷ ts)
          (warning_at t.start t.end (text_of status disabled_text) ∷ ds)
  on_other :
      {t : TokenSpan} {ts : List TokenSpan} {ds : List Diagnostic}
      → t.token_kind ≢ TokenKind.kw_include
      → IncludesWarned status ts ds
      → IncludesWarned status (t ∷ ts) ds

-- The warnings of a document.
pub data DocWarned (status : CcStatus) (s : DocSnapshot) : List Diagnostic → Type 0 where
  fragment :
      IsFragment s.uri
      → DocWarned status s (
          warning_at
            record { line = 0; character = 0 }
            record { line = 0; character = 2147483647 }
            (text_of status alone_text)
          ∷ [])
  file :
      {ds : List Diagnostic}
      → (IsFragment s.uri → ⊥)
      → IncludesWarned status s.tok_spans ds
      → DocWarned status s ds

-- The document is open, belongs to the project at the index, and has the URI.
abbrev pub Shows : ℕ → Bytes → WsDoc → DocSnapshot → Type 0
Shows pindex u w s =
    (w.project_index ≡ some pindex) × ((w.disk_only ≡ false) × ((w.snap ≡ some s) × (s.uri ≡ u)))

pub data DocsWarned (status : CcStatus) (pindex : ℕ) (u : Bytes)
    : List WsDoc → List Diagnostic → Type 0 where
  none_left : DocsWarned status pindex u [] []
  shown :
      {w : WsDoc} {ws : List WsDoc} {own later : List Diagnostic}
      → (s : DocSnapshot) → Shows pindex u w s
      → DocWarned status s own
      → DocsWarned status pindex u ws later
      → DocsWarned status pindex u (w ∷ ws) (own ++ later)
  passed :
      {w : WsDoc} {ws : List WsDoc} {later : List Diagnostic}
      → ((s : DocSnapshot) → Shows pindex u w s → ⊥)
      → DocsWarned status pindex u ws later
      → DocsWarned status pindex u (w ∷ ws) later

is_include-eq : (k : TokenKind) → is_include k ≡ true → k ≡ TokenKind.kw_include
is_include-eq TokenKind.kw_include e = refl
is_include-eq _ e = absurd (ground (arith, e))

not_include : (k : TokenKind) → is_include k ≡ false → k ≢ TokenKind.kw_include
not_include k e same = absurd (ground (arith, e, same))

include_message-text : (status : CcStatus) → include_message status ≡ text_of status disabled_text
unfolding include_message
include_message-text CcStatus.malformed = refl
include_message-text CcStatus.missing = refl
include_message-text CcStatus.ok = refl

fragment_message-text : (status : CcStatus) → fragment_message status ≡ text_of status alone_text
unfolding fragment_message
fragment_message-text CcStatus.malformed = refl
fragment_message-text CcStatus.missing = refl
fragment_message-text CcStatus.ok = refl

is_tji-append : (stem : Bytes) → is_tji (stem ++ codes ".tji") ≡ true
unfolding is_tji
is_tji-append stem =
    let size : length (stem ++ codes ".tji") ≡ length stem + 4 =
      length-append stem (codes ".tji") in
    let cut : length (stem ++ codes ".tji") - 4 ≡ length stem = omega (arith, size) in
    let ending : drop (length (stem ++ codes ".tji") - 4) (stem ++ codes ".tji") ≡ codes ".tji" =
      ap (λ (n : ℕ). drop n (stem ++ codes ".tji")) cut ∙ drop-append_length stem (codes ".tji") in
    let same = (str_eq_iff _ (codes ".tji")).1 ending in
    let long : leb 4 (length (stem ++ codes ".tji")) ≡ true = ground (arith, size) in
    rw (is_tji, long) same

is_tji-IsFragment : (uri : Bytes) → is_tji uri ≡ true → IsFragment uri
unfolding is_tji
is_tji-IsFragment uri e =
    let ending : drop (length uri - 4) uri ≡ codes ".tji" =
      (str_eq_iff (drop (length uri - 4) uri) (codes ".tji")).0 (ground (arith, e)) in
    (
      take (length uri - 4) uri,
      sym (take-append-drop (length uri - 4) uri)
          ∙ ap (λ (x : Bytes). take (length uri - 4) uri ++ x) ending,
    )

not_fragment : (uri : Bytes) → is_tji uri ≡ false → IsFragment uri → ⊥
not_fragment uri e (stem, same) =
    let yes : is_tji uri ≡ true =
      subst (λ (x : Bytes). is_tji x ≡ true) (sym same) (is_tji-append stem) in
    absurd (ground (arith, e, yes))

include_warnings-IncludesWarned :
    (status : CcStatus) (ts : List TokenSpan)
    → IncludesWarned status ts (include_warnings status ts)
unfolding warning
include_warnings-IncludesWarned status [] = IncludesWarned.end
include_warnings-IncludesWarned status (t ∷ ts) =
    let later = include_warnings-IncludesWarned status ts in
    elim (Bool-cases (is_include t.token_kind)) [
      | inl e ↦
          rw (e, include_message-text status)
            (IncludesWarned.on_include (is_include-eq t.token_kind e) later)
      | inr e ↦ rw e (IncludesWarned.on_other (not_include t.token_kind e) later)
    ]

pub doc_warnings-DocWarned :
    (status : CcStatus) (s : DocSnapshot) → DocWarned status s (doc_warnings status s)
unfolding warning
doc_warnings-DocWarned status s = elim (Bool-cases (is_tji s.uri)) [
  | inl e ↦ rw (e, fragment_message-text status) (DocWarned.fragment (is_tji-IsFragment s.uri e))
  | inr e ↦
      rw e
        (DocWarned.file (not_fragment s.uri e) (include_warnings-IncludesWarned status s.tok_spans))
]
