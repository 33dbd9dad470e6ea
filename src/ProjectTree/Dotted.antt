-- ===== src/ProjectTree/Dotted.antt =====
-- src/project_tree.c and src/hover.c: dotted paths, taken apart again.
use taskjuggler_lsp.Base.{
  ℕ, suc, take, ◌≡◌, ◌≢◌, refl, ◌∙◌, sym, ap, ◌==◌, false, some, List, [], ◌∷◌, ◌++◌, append_assoc,
  append-nil, Bytes, arith, Each, subst,
}
use taskjuggler_lsp.ProjectTree.{flush, split_from}
use taskjuggler_lsp.QualifiedId.{id_chain, write_ids, chain_size, sym_qualified_id}
use taskjuggler_lsp.ProjectTree.Ids.{IdsOf, same_keyword_refl, id_chain-IdsOf}
use taskjuggler_lsp.Syntax.{TjInfo, TjNodePtr}

-- An identifier: not empty, and without a dot.
abbrev pub IsSegment : Bytes → Type 0
IsSegment seg = (seg ≢ []) × Each (λ (c : ℕ). c ≢ b'.') seg

flush_segment : (seg : Bytes) → seg ≢ [] → flush seg ≡ seg ∷ []
flush_segment [] ne = absurd (ne refl)
flush_segment (c ∷ cs) ne = refl

-- The bytes of a segment are collected.
split_from-segment :
    (seg rest front : Bytes)
    → Each (λ (c : ℕ). c ≢ b'.') seg
    → split_from (seg ++ rest) front ≡ split_from rest (front ++ seg)
unfolding split_from
split_from-segment [] rest front _ = ap (split_from rest) (sym (append-nil front))
split_from-segment (c ∷ seg) rest front (ne, later) =
    let dotless : (c == b'.') ≡ false = ground (arith, ne) in
    rw (split_from, dotless)
      (split_from-segment seg rest (front ++ (c ∷ [])) later
        ∙ ap (split_from rest) (append_assoc front (c ∷ []) seg))

split_from-dot :
    (seg rest : Bytes)
    → IsSegment seg
    → split_from (seg ++ (b'.' ∷ rest)) [] ≡ seg ∷ split_from rest []
unfolding split_from
split_from-dot seg rest (ne, dotless) =
    split_from-segment seg (b'.' ∷ rest) [] dotless
    ∙ ap (λ (l : List Bytes). l ++ split_from rest []) (flush_segment seg ne)

split_from-last : (seg : Bytes) → IsSegment seg → split_from seg [] ≡ seg ∷ []
unfolding split_from
split_from-last seg (ne, dotless) =
    ap (λ (s : Bytes). split_from s []) (sym (append-nil seg))
    ∙ split_from-segment seg [] [] dotless
    ∙ flush_segment seg ne

-- The ids in the order of the dotted path, in front of what is there already.
abbrev pub reverse_onto : List Bytes → List Bytes → List Bytes
reverse_onto [] out = out
reverse_onto (id ∷ ids) out = reverse_onto ids (id ∷ out)

-- A path written from ids that are not empty and have no dot is taken apart into these ids, with
-- the last of the chain first.
pub split_from-write_ids :
    (ids : List Bytes) (out : Bytes) (segs : List Bytes)
    → Each IsSegment ids
    → split_from out [] ≡ segs
    → split_from (write_ids ids out) [] ≡ reverse_onto ids segs
unfolding write_ids
split_from-write_ids [] out segs _ e = e
split_from-write_ids (id ∷ ids) out segs (seg, later) e =
    split_from-write_ids ids (id ++ (b'.' ∷ out)) (id ∷ segs) later
      (split_from-dot id out seg ∙ ap (λ (l : List Bytes). id ∷ l) e)

-- A declaration's own id is the nearest of its chain.
pub own_id :
    (decl : TjInfo) (up : TjNodePtr) (c : ℕ) (cs : Bytes) (room : ℕ)
    → decl.id ≡ some (c ∷ cs)
    → id_chain decl.keyword (suc room) (decl ∷ up) ≡ (c ∷ cs) ∷ id_chain decl.keyword room up
unfolding id_chain
own_id decl up c cs room e = rw (id_chain, e, same_keyword_refl decl.keyword) refl

write_own :
    (decl : TjInfo) (up : TjNodePtr) (c : ℕ) (cs : Bytes)
    → decl.id ≡ some (c ∷ cs)
    → sym_qualified_id (decl ∷ up) ≡ write_ids (id_chain decl.keyword 63 up) (c ∷ cs)
unfolding sym_qualified_id
write_own decl up c cs e = simp (e, same_keyword_refl)

chain_path :
    (decl : TjInfo) (up : TjNodePtr) (c : ℕ) (cs : Bytes)
    → decl.id ≡ some (c ∷ cs)
    → Each IsSegment (id_chain decl.keyword chain_size (decl ∷ up))
    → split_from (sym_qualified_id (decl ∷ up)) []
      ≡ reverse_onto (id_chain decl.keyword chain_size (decl ∷ up)) []
chain_path decl up c cs e segs =
    let own : id_chain decl.keyword chain_size (decl ∷ up)
        ≡ (c ∷ cs) ∷ id_chain decl.keyword 63 up =
      own_id decl up c cs 63 e in
    let (here, later) = subst (Each IsSegment) own segs in
    ap (λ (q : Bytes). split_from q []) (write_own decl up c cs e)
    ∙ split_from-write_ids (id_chain decl.keyword 63 up) (c ∷ cs) ((c ∷ cs) ∷ []) later
        (split_from-last (c ∷ cs) here)
    ∙ ap (λ (l : List Bytes). reverse_onto l []) (sym own)

-- The dotted path of a declaration with an id, taken apart, gives its own id and those of the
-- declarations of its kind around it, the nearest 64 in all, from the outermost in, if they have no
-- dots.
pub split_from-sym_qualified_id :
    (decl : TjInfo) (up : TjNodePtr) (c : ℕ) (cs : Bytes) (ids : List Bytes)
    → decl.id ≡ some (c ∷ cs)
    → IdsOf decl.keyword (decl ∷ up) ids
    → Each IsSegment (take 64 ids)
    → split_from (sym_qualified_id (decl ∷ up)) [] ≡ reverse_onto (take 64 ids) []
split_from-sym_qualified_id decl up c cs ids e these segs =
    let same = id_chain-IdsOf decl.keyword chain_size (decl ∷ up) ids these in
    chain_path decl up c cs e (subst (Each IsSegment) (sym same) segs)
    ∙ ap (λ (l : List Bytes). reverse_onto l []) same
