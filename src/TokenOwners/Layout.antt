-- ===== src/TokenOwners/Layout.antt =====
-- src/parser.c: the layout of the scopes is in order, so the owners are the innermost nodes.
use taskjuggler_lsp.Base.{
  ◌≡◌, Bool, true, false, Option, none, some, List, map, arith, inl, inr, Bool-cases,
}
use taskjuggler_lsp.Syntax.{
  LspPos, LspRange, pos_le, TokenSpan, TjInfo, TjNode, TjNodes, node, nil, cons,
}
use taskjuggler_lsp.TokenOwners.{
  is_project, hoisted, range_within, siblings, append, sort_many, scope_of, build_owner_scope,
  assign_token_owners,
}
use taskjuggler_lsp.TokenOwners.Innermost.{innermost, EndsBy, StartsFrom, IsLaidOut}
use taskjuggler_lsp.TokenOwners.OnePass.{InOrderFrom, origin, owners_from_lem}

abbrev pub AllOf : (TjNode → Type 0) → TjNodes → Type 0
AllOf P nil = Unit {0}
AllOf P (cons n ns) = P n × AllOf P ns

-- Each node starts no later than those behind it.
abbrev pub IsStartSorted : TjNodes → Type 0
IsStartSorted nil = Unit {0}
IsStartSorted (cons (node i kids) ns) = StartsFrom i.range.start ns × IsStartSorted ns

-- What the grammar makes of a declaration: its body lies in order inside its range.
abbrev pub DeclOk : TjNode → Type 0
DeclOk (node i kids) = EndsBy i.range.end kids × IsLaidOut kids

abbrev EndsIn : LspPos → TjNode → Type 0
EndsIn e (node i kids) = pos_le i.range.end e ≡ true

sorted-IsLaidOut : (ns : TjNodes) → AllOf DeclOk ns → IsStartSorted ns → IsLaidOut ns
sorted-IsLaidOut nil all sorted = tt
sorted-IsLaidOut (cons (node i kids) ns) (here, all) (from, sorted) =
    (here.0, from, here.1, sorted-IsLaidOut ns all sorted)

all-EndsBy : (e : LspPos) (ns : TjNodes) → AllOf (EndsIn e) ns → EndsBy e ns
all-EndsBy e nil all = tt
all-EndsBy e (cons (node i kids) ns) (here, all) = (here, all-EndsBy e ns all)

append-AllOf :
    (P : TjNode → Type 0) (ns : TjNodes) (n : TjNode)
    → AllOf P ns
    → P n
    → AllOf P (append ns (cons n nil))
append-AllOf P nil n all one = (one, tt)
append-AllOf P (cons m ns) n (here, all) one = (here, append-AllOf P ns n all one)

siblings-AllOf :
    (P : TjNode → Type 0) (inside : Bool) (range : LspRange) (ns : TjNodes)
    → AllOf P ns
    → AllOf P (siblings inside range ns)
unfolding siblings
siblings-AllOf P inside range nil all = tt
siblings-AllOf P true range (cons (node i kids) ns) (here, all) =
    elim (Bool-cases (range_within i.range range)) [
      | inl e ↦ rw (e, siblings) (here, siblings-AllOf P true range ns all)
      | inr e ↦ rw (e, siblings) (siblings-AllOf P true range ns all)
    ]
siblings-AllOf P false range (cons (node i kids) ns) (here, all) =
    elim (Bool-cases (range_within i.range range)) [
      | inl e ↦ rw (e, siblings) (siblings-AllOf P false range ns all)
      | inr e ↦ rw (e, siblings) (here, siblings-AllOf P false range ns all)
    ]

siblings-EndsIn :
    (range : LspRange) (ns : TjNodes) → AllOf (EndsIn range.end) (siblings true range ns)
unfolding siblings range_within
siblings-EndsIn range nil = tt
siblings-EndsIn range (cons (node i kids) ns) = elim (Bool-cases (range_within i.range range)) [
  | inl e ↦ rw (e, siblings) (ground (arith, e), siblings-EndsIn range ns)
  | inr e ↦ rw (e, siblings) (siblings-EndsIn range ns)
]

hoisted-AllOf : (P : TjNode → Type 0) (ns : TjNodes) → AllOf P ns → AllOf P (hoisted ns).1
unfolding hoisted
hoisted-AllOf P nil all = tt
hoisted-AllOf P (cons (node i kids) ns) (here, all) = elim (Bool-cases (is_project i.keyword)) [
  | inl e ↦ rw (e, hoisted) all
  | inr e ↦ rw (e, hoisted) (here, hoisted-AllOf P ns all)
]

-- What the source relies on of `qsort`: what holds of all nodes holds of all nodes sorted, which
-- stand in the order of their starts.
module _ (qsort : TjNodes → TjNodes) (sorts : (ns : TjNodes) → IsStartSorted (qsort ns))
    (keeps : (P : TjNode → Type 0) (ns : TjNodes) → AllOf P ns → AllOf P (qsort ns)) where
  many-IsStartSorted : (ns : TjNodes) → IsStartSorted (sort_many qsort ns)
  many-IsStartSorted nil = tt
  many-IsStartSorted (cons (node i kids) nil) = (tt, tt)
  many-IsStartSorted (cons n (cons m ns)) = sorts (cons n (cons m ns))

  many-AllOf : (P : TjNode → Type 0) (ns : TjNodes) → AllOf P ns → AllOf P (sort_many qsort ns)
  many-AllOf P nil all = all
  many-AllOf P (cons n nil) all = all
  many-AllOf P (cons n (cons m ns)) all = keeps P (cons n (cons m ns)) all

  many-IsLaidOut : (ns : TjNodes) → AllOf DeclOk ns → IsLaidOut (sort_many qsort ns)
  many-IsLaidOut ns all =
      sorted-IsLaidOut (sort_many qsort ns) (many-AllOf DeclOk ns all) (many-IsStartSorted ns)

  scope_of-IsLaidOut :
      (project : Option TjInfo) (others : TjNodes)
      → AllOf DeclOk others
      → IsLaidOut (scope_of qsort (project, others))
  unfolding scope_of
  scope_of-IsLaidOut none others all = many-IsLaidOut others all
  scope_of-IsLaidOut (some project) others all =
      let kids = siblings true project.range others in
      let below = sort_many qsort kids in
      let kids_end : EndsBy project.range.end below =
        all-EndsBy project.range.end below
          (many-AllOf (EndsIn project.range.end) kids (siblings-EndsIn project.range others)) in
      let kids_laid = many-IsLaidOut kids (siblings-AllOf DeclOk true project.range others all) in
      many-IsLaidOut (append (siblings false project.range others) (cons (node project below) nil))
        (append-AllOf DeclOk (siblings false project.range others) (node project below)
          (siblings-AllOf DeclOk false project.range others all) (kids_end, kids_laid))

  -- With a `qsort` that sorts the nodes by their starts and keeps them, on top-level declarations in
  -- which every node's children lie in order inside its range, and on tokens in the order of their
  -- starts: the one pass over the tokens gives each token the innermost node around its start, in the
  -- layout in which the project has the declarations inside its range below it.
  pub assign_token_owners-innermost :
      (children : TjNodes) (ts : List TokenSpan)
      → AllOf DeclOk children
      → InOrderFrom origin ts
      → assign_token_owners qsort children ts
        ≡ map (λ (t : TokenSpan). innermost t.start (build_owner_scope qsort children)) ts
  unfolding assign_token_owners build_owner_scope
  assign_token_owners-innermost children ts all order =
      owners_from_lem (build_owner_scope qsort children) ts
        (scope_of-IsLaidOut (hoisted children).0 (hoisted children).1
          (hoisted-AllOf DeclOk children all))
        order
