-- ===== src/TokenOwners.antt =====
-- src/parser.c: the owner of each token, by one pass over the tokens with a stack of scopes.
-- A frame holds the siblings from its index on. The project node stands in the layout with its
-- synthetic children, which is where the code swaps its `children` for `project_kids`. `qsort` is a
-- parameter.
pub mod Innermost
pub mod OnePass
pub mod Layout
mod Tests
use taskjuggler_lsp.Base.{
  Bool, true, false, ◌&&◌, Option, none, some, List, [], ◌∷◌, ◌++◌, if◌then◌else◌,
}
use taskjuggler_lsp.Syntax.{
  LspPos, LspRange, pos_lt, pos_le, TokenKind, TokenSpan, TjInfo, TjNode, TjNodes, node, nil, cons,
}

abbrev is_project : Option TokenKind → Bool
is_project (some TokenKind.kw_project) = true
is_project _ = false

-- `root->children[i]->keyword == KW_PROJECT`, up to the first, and the other children (`hoisted`).
pub hoisted : TjNodes → Option TjInfo × TjNodes
hoisted nil = (none, nil)
hoisted (cons (node i kids) ns) = elim (is_project i.keyword) [
  | true ↦ (some i, ns)
  | false ↦ let (project, rest) = hoisted ns in (project, cons (node i kids) rest)
]

pub range_within : LspRange → LspRange → Bool
unfolding pos_le
range_within inner outer = pos_le outer.start inner.start && pos_le inner.end outer.end

-- The siblings inside the range, or those outside, in order.
pub siblings : Bool → LspRange → TjNodes → TjNodes
siblings inside range nil = nil
siblings inside range (cons (node i kids) ns) =
    let rest = siblings inside range ns in
    elim (range_within i.range range) [
      | true ↦ if inside then cons (node i kids) rest else rest
      | false ↦ if inside then rest else cons (node i kids) rest
    ]

abbrev pub append : TjNodes → TjNodes → TjNodes
append nil ms = ms
append (cons n ns) ms = cons n (append ns ms)

-- `if (n > 1) qsort (…)`
abbrev pub sort_many : (TjNodes → TjNodes) → TjNodes → TjNodes
sort_many qsort nil = nil
sort_many qsort (cons n nil) = cons n nil
sort_many qsort (cons n (cons m ns)) = qsort (cons n (cons m ns))

-- `top`, with `project_kids` below the project.
pub scope_of : (TjNodes → TjNodes) → Option TjInfo × TjNodes → TjNodes
scope_of qsort (none, others) = sort_many qsort others
scope_of qsort (some project, others) =
    let project_kids = sort_many qsort (siblings true project.range others) in
    sort_many qsort
      (append (siblings false project.range others) (cons (node project project_kids) nil))

pub build_owner_scope : (TjNodes → TjNodes) → TjNodes → TjNodes
build_owner_scope qsort children = scope_of qsort (hoisted children)

pub record OwnerFrame : Type 0 where
  pub rest : TjNodes
  pub scope : TjInfo

-- `while (depth > 1 && pos_cmp (pos, scope->range.end) >= 0) depth--`
pub pop_ended : LspPos → List OwnerFrame → List OwnerFrame
pop_ended pos [] = []
pop_ended pos (f ∷ fs) =
    let below = pop_ended pos fs in if pos_le f.scope.range.end pos then below else f ∷ fs

-- The loop that skips siblings and pushes scopes: what is left of the frame, and the frames pushed on
-- it, the innermost first.
pub enter : LspPos → TjNodes → TjNodes × List OwnerFrame
enter pos nil = (nil, [])
enter pos (cons (node i kids) ns) =
    let skipped = enter pos ns in
    let (kids', deeper) = enter pos kids in
    if pos_le i.range.end pos
    then skipped
    else if pos_lt pos i.range.start
    then (cons (node i kids) ns, [])
    else (cons (node i kids) ns, deeper ++ (record { rest = kids'; scope = i } ∷ []))

-- The bottom frame has no scope.
pub record Scopes : Type 0 where
  pub top : TjNodes
  pub frames : List OwnerFrame

abbrev pub owner_of : List OwnerFrame → Option TjInfo
owner_of [] = none
owner_of (f ∷ fs) = some f.scope

abbrev push_scopes : TjNodes → List OwnerFrame → LspPos → Scopes
push_scopes top [] pos =
    let (top', deeper) = enter pos top in record { top = top'; frames = deeper }
push_scopes top (f ∷ fs) pos =
    let (rest', deeper) = enter pos f.rest in
    record { top = top; frames = deeper ++ (record { rest = rest'; scope = f.scope } ∷ fs) }

-- One round of the loop over the tokens.
pub at_token : Scopes → LspPos → Scopes
at_token s pos = push_scopes s.top (pop_ended pos s.frames) pos

pub owners_from : Scopes → List TokenSpan → List (Option TjInfo)
owners_from s [] = []
owners_from s (t ∷ ts) = let s' = at_token s t.start in owner_of s'.frames ∷ owners_from s' ts

-- `children` are those of the root.
pub assign_token_owners : (TjNodes → TjNodes) → TjNodes → List TokenSpan → List (Option TjInfo)
assign_token_owners qsort children tokens =
    owners_from (record { top = build_owner_scope qsort children; frames = [] }) tokens
