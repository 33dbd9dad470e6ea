-- ===== src/Lookup/Cursor.antt =====
-- src/document_symbol.c and src/dependency.c: the node at a cursor, and the nearest dependency and
-- task declaration around it.
use taskjuggler_lsp.Base.{
  ℕ, suc, ◌+◌, ◌≡◌, refl, ap, true, false, Option, none, some, List, [], ◌∷◌, ◌++◌, ◌&&◌, length,
  get_or, arith, Bool-cases, Option-cases, inl, inr, Each,
}
use taskjuggler_lsp.Syntax.{
  LspPos, LspRange, pos_lt, pos_le, TokenSpan, Dependency, TjInfo, TjNodePtr,
}
use taskjuggler_lsp.Syntax.Order.{pos_lt-not-le}
use taskjuggler_lsp.Lookup.{
  search, climb, tj_node_at, pos_in_range, find_dependency, dependency_from, dependency_at_cursor,
  is_task, task_decl_from, task_decl_at_cursor,
}
use taskjuggler_lsp.Lookup.Search.{IsSorted, IsLast, search_lem}

-- The cursor stands before the end of the node.
abbrev pub EndsAfter : LspPos → TjNodePtr → Type 0
EndsAfter pos [] = Unit
EndsAfter pos (n ∷ parents) = pos_lt pos n.range.end ≡ true

-- `p` is what `chain` leaves when the nodes in front that `Skip` allows have been passed.
pub record Skips (Skip : TjInfo → Type 0) (chain p : TjNodePtr) : Type 0 where
  pub skipped : List TjInfo
  pub splits : chain ≡ skipped ++ p
  pub each : Each Skip skipped

skip_more :
    {Skip : TjInfo → Type 0} (n : TjInfo) {chain p : TjNodePtr}
    → Skip n
    → Skips Skip chain p
    → Skips Skip (n ∷ chain) p
skip_more n h s = record {
  skipped = n ∷ s.skipped;
  splits = ap (λ c. n ∷ c) s.splits;
  each = (h, s.each);
}

skip_none : {Skip : TjInfo → Type 0} (chain : TjNodePtr) → Skips Skip chain chain
skip_none chain = record { skipped = []; splits = refl; each = tt }

abbrev pub IsPassed : LspPos → TjInfo → Type 0
IsPassed pos n = pos_le n.range.end pos ≡ true

climb-Skips :
    (chain : TjNodePtr) (pos : LspPos)
    → Skips (IsPassed pos) chain (climb chain pos) × EndsAfter pos (climb chain pos)
unfolding climb
climb-Skips [] pos = (skip_none [], tt)
climb-Skips (n ∷ parents) pos =
    let (s, e) = climb-Skips parents pos in
    elim (Bool-cases (pos_le n.range.end pos)) [
      | inl passed ↦ rw passed (skip_more n passed s, e)
      | inr inside ↦
          rw inside (skip_none (n ∷ parents), rw (pos_lt-not-le pos n.range.end, inside) refl)
    ]

abbrev pub owner_of : List TjNodePtr → Option ℕ → TjNodePtr
owner_of owners none = []
owner_of owners (some k) = get_or owners k []

-- The node at a cursor is found from the owner of the last token that starts at or before the
-- cursor: it is the first of that owner and its ancestors that ends behind the cursor, and NULL if
-- all of them end at or before it.
pub tj_node_at_lem :
    (tokens : List TokenSpan) (owners : List TjNodePtr) (pos : LspPos)
    → IsSorted tokens
    → let p = tj_node_at tokens owners pos in
      (k : Option ℕ) × IsLast tokens pos k
      × Skips (IsPassed pos) (owner_of owners k) p
      × EndsAfter pos p
unfolding tj_node_at
tj_node_at_lem tokens owners pos sorted =
    let found = search tokens pos (length tokens) 0 (length tokens) none in
    elim (Option-cases found) [
      | inl e ↦ (
        none,
        rw e at (search_lem tokens pos sorted),
        rw (e, tj_node_at) (skip_none []),
        rw (e, tj_node_at, EndsAfter) tt,
      )
      | inr (k, e) ↦
          let s = climb-Skips (get_or owners k []) pos in
          (
            some k,
            rw e at (search_lem tokens pos sorted),
            rw (e, tj_node_at) s.0,
            rw (e, tj_node_at, EndsAfter) s.1,
          )
    ]

-- `pos_in_range` counts both ends as inside, unlike the half-open ranges of the protocol.
pub pos_in_range_lem :
    (p : LspPos) (r : LspRange) → pos_in_range p r ≡ (pos_le r.start p && pos_le p r.end)
unfolding pos_in_range pos_le
pos_in_range_lem p r = ground arith

abbrev pub IsOutside : LspPos → Dependency → Type 0
IsOutside cursor d = pos_in_range cursor d.source_range ≡ false

-- `i` is the first dependency of the list that holds the cursor.
pub record IsFirst (cursor : LspPos) (ds : List Dependency) (i : ℕ) : Type 0 where
  pub before : List Dependency
  pub here : Dependency
  pub behind : List Dependency
  pub splits : ds ≡ before ++ (here ∷ behind)
  pub index : i ≡ length before
  pub outside : Each (IsOutside cursor) before
  pub inside : pos_in_range cursor here.source_range ≡ true

abbrev FindsFrom : ℕ → LspPos → List Dependency → Option ℕ → Type 0
FindsFrom i cursor ds none = Each (IsOutside cursor) ds
FindsFrom i cursor ds (some j) = (k : ℕ) × (j ≡ i + k) × IsFirst cursor ds k

find_dependency-cons :
    (i : ℕ) (cursor : LspPos) (d : Dependency) (ds : List Dependency) (r : Option ℕ)
    → IsOutside cursor d
    → FindsFrom (i + 1) cursor ds r
    → FindsFrom i cursor (d ∷ ds) r
find_dependency-cons i cursor d ds none h f = (h, f)
find_dependency-cons i cursor d ds (some j) h (k, e, f) = (
  suc k,
  omega arith,
  record {
    before = d ∷ f.before;
    here = f.here;
    behind = f.behind;
    splits = ap (λ l. d ∷ l) f.splits;
    index = ap suc f.index;
    outside = (h, f.outside);
    inside = f.inside;
  },
)

find_dependency_lem :
    (ds : List Dependency) (cursor : LspPos) (i : ℕ)
    → FindsFrom i cursor ds (find_dependency ds cursor i)
unfolding find_dependency
find_dependency_lem [] cursor i = tt
find_dependency_lem (d ∷ ds) cursor i = elim (Bool-cases (pos_in_range cursor d.source_range)) [
  | inl e ↦ rw e (
    0,
    omega arith,
    record {
      before = [];
      here = d;
      behind = ds;
      splits = refl;
      index = refl;
      outside = tt;
      inside = e;
    },
  )
  | inr e ↦ rw e (find_dependency-cons i cursor d ds _ e (find_dependency_lem ds cursor (i + 1)))
]

abbrev pub HasNone : LspPos → TjInfo → Type 0
HasNone cursor n = Each (IsOutside cursor) n.dependencies

-- What `dependency_at_cursor` may return for the node at the cursor and its ancestors.
abbrev pub IsNearest : LspPos → TjNodePtr → Option (TjNodePtr × ℕ) → Type 0
IsNearest cursor chain none = Each (HasNone cursor) chain
IsNearest cursor chain (some (p, i)) =
    (n : TjInfo) × (parents : TjNodePtr) × (p ≡ n ∷ parents)
    × Skips (HasNone cursor) chain p
    × IsFirst cursor n.dependencies i

IsNearest-cons :
    (cursor : LspPos) (n : TjInfo) (chain : TjNodePtr) (r : Option (TjNodePtr × ℕ))
    → HasNone cursor n
    → IsNearest cursor chain r
    → IsNearest cursor (n ∷ chain) r
IsNearest-cons cursor n chain none h s = (h, s)
IsNearest-cons cursor n chain (some (p, i)) h (m, parents, e, s, f) =
    (m, parents, e, skip_more n h s, f)

-- The first hit in the node itself, or what its ancestors give.
dependency_from-cons :
    (cursor : LspPos) (n : TjInfo) (parents : TjNodePtr) (r : Option ℕ)
    → find_dependency n.dependencies cursor 0 ≡ r
    → FindsFrom 0 cursor n.dependencies r
    → IsNearest cursor parents (dependency_from parents cursor)
    → IsNearest cursor (n ∷ parents) (dependency_from (n ∷ parents) cursor)
unfolding dependency_from
dependency_from-cons cursor n parents none e f up =
    rw (e, dependency_from) (IsNearest-cons cursor n parents _ f up)
dependency_from-cons cursor n parents (some j) e (k, same, f) up =
    let same' : k ≡ j = omega arith in
    rw (e, dependency_from) (n, parents, refl, skip_none (n ∷ parents), rw same' at f)

dependency_from_lem :
    (chain : TjNodePtr) (cursor : LspPos) → IsNearest cursor chain (dependency_from chain cursor)
dependency_from_lem [] cursor = unfold dependency_from in tt
dependency_from_lem (n ∷ parents) cursor =
    dependency_from-cons cursor n parents _ refl (find_dependency_lem n.dependencies cursor 0)
      (dependency_from_lem parents cursor)

-- The dependency at a cursor is the first one around it of the nearest node, from the node at the
-- cursor outwards, that has one; none is returned only if neither that node nor an ancestor has one.
pub dependency_at_cursor_lem :
    (tokens : List TokenSpan) (owners : List TjNodePtr) (cursor : LspPos)
    → IsNearest cursor (tj_node_at tokens owners cursor) (dependency_at_cursor tokens owners cursor)
unfolding dependency_at_cursor
dependency_at_cursor_lem tokens owners cursor =
    dependency_from_lem (tj_node_at tokens owners cursor) cursor

-- The node is no task that the cursor names.
abbrev pub IsNotNamed : LspPos → TjInfo → Type 0
IsNotNamed cursor n = (is_task n.keyword && pos_in_range cursor n.selection_range) ≡ false

abbrev pub NamesTask : LspPos → TjNodePtr → Type 0
NamesTask cursor [] = Unit
NamesTask cursor (n ∷ parents) =
    (is_task n.keyword ≡ true) × (pos_in_range cursor n.selection_range ≡ true)

task_decl_from_lem :
    (chain : TjNodePtr) (cursor : LspPos)
    → Skips (IsNotNamed cursor) chain (task_decl_from chain cursor)
      × NamesTask cursor (task_decl_from chain cursor)
unfolding task_decl_from
task_decl_from_lem [] cursor = (skip_none [], tt)
task_decl_from_lem (n ∷ parents) cursor =
    let (s, e) = task_decl_from_lem parents cursor in
    elim (Bool-cases (is_task n.keyword && pos_in_range cursor n.selection_range)) [
      | inl named ↦ rw named (skip_none (n ∷ parents), (ground arith, ground arith))
      | inr other ↦ rw other (skip_more n other s, e)
    ]

-- The task declaration at a cursor is the nearest task, from the node at the cursor outwards, whose
-- identifier the cursor stands on, and NULL only if there is none.
pub task_decl_at_cursor_lem :
    (tokens : List TokenSpan) (owners : List TjNodePtr) (cursor : LspPos)
    → let p = task_decl_at_cursor tokens owners cursor in
      Skips (IsNotNamed cursor) (tj_node_at tokens owners cursor) p × NamesTask cursor p
unfolding task_decl_at_cursor
task_decl_at_cursor_lem tokens owners cursor =
    task_decl_from_lem (tj_node_at tokens owners cursor) cursor
