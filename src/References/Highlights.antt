-- ===== src/References/Highlights.antt =====
-- src/document_highlight.c: the highlights of a task in a document.
use taskjuggler_lsp.Base.{
  ℕ, suc, ◌≡◌, ◌≢◌, inl, inr, ap, true, false, Bool-cases, Option, none, some, Option-cases, List,
  [], ◌∷◌, ◌++◌, Bytes, str_eq, str_eq_iff, arith,
}
use taskjuggler_lsp.Syntax.{LspRange, TokenSpan}
use taskjuggler_lsp.ProjectTree.{ProjectDep, ProjectNode, Nodes, resolve_fresh}
use taskjuggler_lsp.ProjectTree.Caching.{Coherent}
use taskjuggler_lsp.References.{
  Highlight, Emitter, is_node, is_here, last_ident_in_range, highlight_emitter,
  build_document_highlight_json, write_highlight,
}
use taskjuggler_lsp.References.Collect.{Walks, dep_hits, hits, collect_in_subtree_lem}
use taskjuggler_lsp.References.LastIdent.{LastIdent, last_ident_in_range-LastIdent}

-- The highlight of a declaration, as Write, if it stands in the document.
pub data Written (doc_uri : Bytes) (n : ProjectNode) : List Highlight → Type 0 where
  here :
      n.source_uri ≡ some doc_uri
      → Written doc_uri n (record { range = n.selection_range; kind = 3 } ∷ [])
  away : n.source_uri ≢ some doc_uri → Written doc_uri n []

module _ (h : Nodes) (wanted root : ℕ) (doc_uri : Bytes) (tokens : List TokenSpan) where
  -- The highlights, as Read, of the dependencies of a node that resolve to the wanted one.
  pub data DepReads (n : ℕ) : List ProjectDep → List Highlight → Type 0 where
    end : DepReads n [] []
    refers :
        {dep : ProjectDep} {deps : List ProjectDep} {reads : List Highlight}
        → (segment : LspRange) → resolve_fresh h n dep root ≡ some wanted
        → LastIdent dep.source_range tokens (some segment)
        → DepReads n deps reads
        → DepReads n (dep ∷ deps) (record { range = segment; kind = 2 } ∷ reads)
    unnamed :
        {dep : ProjectDep} {deps : List ProjectDep} {reads : List Highlight}
        → resolve_fresh h n dep root ≡ some wanted
        → LastIdent dep.source_range tokens none
        → DepReads n deps reads
        → DepReads n (dep ∷ deps) reads
    elsewhere :
        {dep : ProjectDep} {deps : List ProjectDep} {reads : List Highlight}
        → resolve_fresh h n dep root ≢ some wanted
        → DepReads n deps reads
        → DepReads n (dep ∷ deps) reads

  -- Those of the nodes that stand in the document.
  pub data Reads : List ℕ → List Highlight → Type 0 where
    done : Reads [] []
    inside :
        {n : ℕ} {ns : List ℕ} {own later : List Highlight}
        → (h n).source_uri ≡ some doc_uri
        → DepReads n (h n).dependencies own
        → Reads ns later
        → Reads (n ∷ ns) (own ++ later)
    outside :
        {n : ℕ} {ns : List ℕ} {later : List Highlight}
        → (h n).source_uri ≢ some doc_uri
        → Reads ns later
        → Reads (n ∷ ns) later

is_node-eq : (o : Option ℕ) (wanted : ℕ) → is_node o wanted ≡ true → o ≡ some wanted
is_node-eq none wanted e = absurd (ground (arith, e))
is_node-eq (some n) wanted e = ap some (ground (arith, e))

not_node : (o : Option ℕ) (wanted : ℕ) → is_node o wanted ≡ false → o ≢ some wanted
not_node none wanted e same = absurd (ground (arith, same))
not_node (some n) wanted e same = absurd (ground (arith, e, same))

is_here-eq : (doc_uri : Bytes) (u : Option Bytes) → is_here doc_uri u ≡ true → u ≡ some doc_uri
is_here-eq doc_uri none e = absurd (ground (arith, e))
is_here-eq doc_uri (some u) e = ap some ((str_eq_iff u doc_uri).0 e)

not_here : (doc_uri : Bytes) (u : Option Bytes) → is_here doc_uri u ≡ false → u ≢ some doc_uri
not_here doc_uri none e same = absurd (ground (arith, same))
not_here doc_uri (some u) e same =
    let yes : str_eq u doc_uri ≡ true = (str_eq_iff u doc_uri).1 (ground (arith, same)) in
    absurd (ground (arith, e, yes))

write_highlight-Written :
    (doc_uri : Bytes) (n : ProjectNode) → Written doc_uri n (write_highlight doc_uri n)
write_highlight-Written doc_uri n = elim (Bool-cases (is_here doc_uri n.source_uri)) [
  | inl e ↦ rw e (Written.here (is_here-eq doc_uri n.source_uri e))
  | inr e ↦ rw e (Written.away (not_here doc_uri n.source_uri e))
]

module _ (h : Nodes) (wanted root : ℕ) (doc_uri : Bytes) (tokens : List TokenSpan) where
  abbrev emitter : Emitter Highlight
  emitter = highlight_emitter doc_uri tokens

  dep_hits-DepReads :
      (n : ℕ) (deps : List ProjectDep)
      → DepReads h wanted root doc_uri tokens n deps (dep_hits emitter wanted root h n deps)
  dep_hits-DepReads n [] = DepReads.end
  dep_hits-DepReads n (dep ∷ deps) =
      let later = dep_hits-DepReads n deps in
      let named = last_ident_in_range-LastIdent dep.source_range tokens in
      let target = resolve_fresh h n dep root in
      elim (Bool-cases (is_node target wanted)) [
        | inr e ↦ rw e (DepReads.elsewhere (not_node target wanted e) later)
        | inl e ↦ elim (Option-cases (last_ident_in_range tokens dep.source_range none)) [
          | inl gone ↦
              rw (e, gone) (DepReads.unnamed (is_node-eq target wanted e) (rw gone at named) later)
          | inr (segment, found) ↦
              rw (e, found)
                (DepReads.refers segment (is_node-eq target wanted e) (rw found at named) later)
        ]
      ]

  hits-Reads : (ns : List ℕ) → Reads h wanted root doc_uri tokens ns (hits emitter wanted root h ns)
  hits-Reads [] = Reads.done
  hits-Reads (n ∷ ns) = elim (Bool-cases (is_here doc_uri (h n).source_uri)) [
    | inl e ↦ rw e (
        Reads.inside (is_here-eq doc_uri (h n).source_uri e)
          (dep_hits-DepReads n (h n).dependencies) (hits-Reads ns))
    | inr e ↦ rw e (Reads.outside (not_here doc_uri (h n).source_uri e) (hits-Reads ns))
  ]

-- In a project whose memos are right and whose tree has at most as many levels as there is fuel, the
-- highlights of a task in a document are the declaration as Write if it stands in the document, then as
-- Read, in the order of the nodes and of the dependencies in each, the last identifier in the range of
-- each dependency of the document's nodes that resolves to the task, memos not used, if there is one.
pub build_document_highlight_json-hits :
    (h : Nodes) (height root wanted : ℕ) (doc_uri : Bytes) (tokens : List TokenSpan)
    (visited : List ℕ)
    → Walks h (suc height) (root ∷ []) visited
    → Coherent h root
    → (write : List Highlight) × (reads : List Highlight) × Written doc_uri (h wanted) write
      × Reads h wanted root doc_uri tokens visited reads
      × ((build_document_highlight_json
            (suc height)
            h
            (some root)
            (some wanted)
            (some doc_uri)
            tokens).1
          ≡ some (write ++ reads))
unfolding build_document_highlight_json
build_document_highlight_json-hits h height root wanted doc_uri tokens visited w coherent = (
  write_highlight doc_uri (h wanted),
  hits (highlight_emitter doc_uri tokens) wanted root h visited,
  write_highlight-Written doc_uri (h wanted),
  hits-Reads h wanted root doc_uri tokens visited,
  ap (λ (reads : List Highlight). some (write_highlight doc_uri (h wanted) ++ reads))
      (collect_in_subtree_lem (highlight_emitter doc_uri tokens) wanted root h height root visited w
        coherent),
)
