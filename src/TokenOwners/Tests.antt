-- ===== src/TokenOwners/Tests.antt =====
-- src/parser.c on a project with a task in its body and a task behind it.
use taskjuggler_lsp.Base.{
  ◌≡◌, refl, true, none, some, List, [], ◌∷◌, map, codes, Bytes, ℕ, inl, inr, Bool-cases,
  if◌then◌else◌,
}
use taskjuggler_lsp.Syntax.{
  LspPos, pos_lt, pos_le, TokenKind, TokenSpan, TjInfo, TjNode, TjNodes, node, nil, cons,
}
use taskjuggler_lsp.Syntax.Order.{pos_le_trans, pos_le_total}
use taskjuggler_lsp.TokenOwners.{
  hoisted, range_within, siblings, scope_of, build_owner_scope, pop_ended, enter, at_token,
  owners_from, assign_token_owners,
}
use taskjuggler_lsp.TokenOwners.Innermost.{innermost, StartsFrom}
use taskjuggler_lsp.TokenOwners.OnePass.{InOrderFrom, origin}
use taskjuggler_lsp.TokenOwners.Layout.{AllOf, IsStartSorted, DeclOk, assign_token_owners-innermost}

-- A sort for the parameter: by insertion.
insert_node : TjNode → TjNodes → TjNodes
insert_node n nil = cons n nil
insert_node (node i kids) (cons (node j below) ns) =
    let later = insert_node (node i kids) ns in
    if pos_le i.range.start j.range.start
    then cons (node i kids) (cons (node j below) ns)
    else cons (node j below) later

insertion_sort : TjNodes → TjNodes
insertion_sort nil = nil
insertion_sort (cons n ns) = insert_node n (insertion_sort ns)

StartsFrom-trans :
    (s t : LspPos) (ns : TjNodes) → pos_le s t ≡ true → StartsFrom t ns → StartsFrom s ns
StartsFrom-trans s t nil le from = tt
StartsFrom-trans s t (cons (node i kids) ns) le (from, later) =
    (pos_le_trans s t i.range.start le from, StartsFrom-trans s t ns le later)

insert_node-StartsFrom :
    (s : LspPos) (i : TjInfo) (kids ns : TjNodes)
    → pos_le s i.range.start ≡ true
    → StartsFrom s ns
    → StartsFrom s (insert_node (node i kids) ns)
unfolding insert_node
insert_node-StartsFrom s i kids nil le from = (le, tt)
insert_node-StartsFrom s i kids (cons (node j below) ns) le (from, later) =
    elim (Bool-cases (pos_le i.range.start j.range.start)) [
      | inl e ↦ rw e (le, (from, later))
      | inr e ↦ rw e (from, insert_node-StartsFrom s i kids ns le later)
    ]

insert_node-IsStartSorted :
    (i : TjInfo) (kids ns : TjNodes)
    → IsStartSorted ns
    → IsStartSorted (insert_node (node i kids) ns)
unfolding insert_node
insert_node-IsStartSorted i kids nil sorted = (tt, tt)
insert_node-IsStartSorted i kids (cons (node j below) ns) (from, sorted) =
    elim (Bool-cases (pos_le i.range.start j.range.start)) [
      | inl e ↦ rw e ((e, StartsFrom-trans i.range.start j.range.start ns e from), (from, sorted))
      | inr e ↦ rw e (
        insert_node-StartsFrom j.range.start i kids ns (pos_le_total i.range.start j.range.start e)
            from,
        insert_node-IsStartSorted i kids ns sorted,
      )
    ]

sorts : (ns : TjNodes) → IsStartSorted (insertion_sort ns)
unfolding insertion_sort
sorts nil = tt
sorts (cons (node i kids) ns) = insert_node-IsStartSorted i kids (insertion_sort ns) (sorts ns)

insert_node-AllOf :
    (P : TjNode → Type 0) (i : TjInfo) (kids ns : TjNodes)
    → P (node i kids)
    → AllOf P ns
    → AllOf P (insert_node (node i kids) ns)
unfolding insert_node
insert_node-AllOf P i kids nil one all = (one, tt)
insert_node-AllOf P i kids (cons (node j below) ns) one (here, all) =
    elim (Bool-cases (pos_le i.range.start j.range.start)) [
      | inl e ↦ rw e (one, (here, all))
      | inr e ↦ rw e (here, insert_node-AllOf P i kids ns one all)
    ]

keeps : (P : TjNode → Type 0) (ns : TjNodes) → AllOf P ns → AllOf P (insertion_sort ns)
unfolding insertion_sort
keeps P nil all = tt
keeps P (cons (node i kids) ns) (here, all) =
    insert_node-AllOf P i kids (insertion_sort ns) here (keeps P ns all)

abbrev pos : ℕ → ℕ → LspPos
pos line character = record { line = line; character = character }

abbrev decl : TokenKind → Bytes → LspPos → LspPos → TjInfo
decl kind id start end = record {
  keyword = some kind;
  id = some id;
  name = none;
  range = record { start = start; end = end };
  selection_range = record { start = start; end = start };
  dependencies = [];
}

abbrev project : TjInfo
project = decl TokenKind.kw_project (codes "p") (pos 0 0) (pos 2 1)

abbrev inner : TjInfo
inner = decl TokenKind.kw_task (codes "a") (pos 1 2) (pos 1 20)

abbrev outer : TjInfo
outer = decl TokenKind.kw_task (codes "b") (pos 3 0) (pos 5 1)

abbrev nested : TjInfo
nested = decl TokenKind.kw_task (codes "c") (pos 4 2) (pos 4 9)

-- The task in the project's body comes before the project, and the last task has one of its own.
abbrev children : TjNodes
children =
    cons (node inner nil)
      (cons (node project nil) (cons (node outer (cons (node nested nil) nil)) nil))

abbrev token : LspPos → TokenSpan
token start = record { token_kind = TokenKind.ident; start = start; end = start; text = none }

abbrev tokens : List TokenSpan
tokens =
    token (pos 0 8)
    ∷ token (pos 1 7)
    ∷ token (pos 2 0)
    ∷ token (pos 2 5)
    ∷ token (pos 3 5)
    ∷ token (pos 4 3)
    ∷ token (pos 5 0)
    ∷ []

owners :
    assign_token_owners insertion_sort children tokens
    ≡ some project ∷ some inner ∷ some project ∷ none ∷ some outer ∷ some nested ∷ some outer ∷ []
unfolding assign_token_owners build_owner_scope scope_of hoisted siblings range_within owners_from
    at_token pop_ended enter insertion_sort insert_node pos_le pos_lt
owners = refl

children-DeclOk : AllOf DeclOk children
unfolding pos_le
children-DeclOk = ((tt, tt), ((tt, tt), (((refl, tt), (tt, tt, tt, tt)), tt)))

tokens-InOrderFrom : InOrderFrom origin tokens
unfolding pos_le
tokens-InOrderFrom = (refl, (refl, (refl, (refl, (refl, (refl, (refl, tt)))))))

assign_token_owners-innermost_example :
    assign_token_owners insertion_sort children tokens
    ≡ map (λ (t : TokenSpan). innermost t.start (build_owner_scope insertion_sort children)) tokens
assign_token_owners-innermost_example =
    assign_token_owners-innermost insertion_sort sorts keeps children tokens children-DeclOk
      tokens-InOrderFrom
