-- ===== src/TokenOwners/OnePass.antt =====
-- src/parser.c: the one pass over the tokens finds for each the innermost node around its start.
use taskjuggler_lsp.Base.{
  ◌≡◌, refl, ◌∙◌, ap, ap₂, true, false, Option, some, List, [], ◌∷◌, ◌++◌, map, inl, inr,
  Bool-cases, Each, Each-append,
}
use taskjuggler_lsp.Syntax.{LspPos, pos_le, TokenSpan, TjInfo, TjNodes}
use taskjuggler_lsp.Syntax.Order.{pos_le_trans, pos_le_refl}
use taskjuggler_lsp.TokenOwners.{
  OwnerFrame, Scopes, pop_ended, enter, owner_of, push_scopes, at_token, owners_from,
}
use taskjuggler_lsp.TokenOwners.Innermost.{
  or_else, innermost, IsLaidOut, look, look_on, look_over, FrameOk, EnterOk, enter-EnterOk,
  owner-append,
}

-- The tokens start in order, from a position on.
abbrev pub InOrderFrom : LspPos → List TokenSpan → Type 0
InOrderFrom pos [] = Unit {0}
InOrderFrom pos (t ∷ ts) = (pos_le pos t.start ≡ true) × InOrderFrom t.start ts

-- The scopes say of every position from `pos` on what the layout says.
record ScopesOk (layout : TjNodes) (pos : LspPos) (s : Scopes) : Type 0 where
  laid : IsLaidOut s.top
  frames : Each FrameOk s.frames
  says :
      (q : LspPos) → pos_le pos q ≡ true → look q s.frames (innermost q s.top) ≡ innermost q layout

pop-look :
    (pos q : LspPos) (fs : List OwnerFrame) (d : Option TjInfo)
    → pos_le pos q ≡ true
    → look q (pop_ended pos fs) d ≡ look q fs d
unfolding pop_ended
pop-look pos q [] d behind = refl
pop-look pos q (f ∷ fs) d behind = elim (Bool-cases (pos_le f.scope.range.end pos)) [
  | inl over ↦
      rw (over, pos_le_trans f.scope.range.end pos q over behind) (pop-look pos q fs d behind)
  | inr on ↦ rw on refl
]

pop-FrameOk :
    (pos : LspPos) (fs : List OwnerFrame) → Each FrameOk fs → Each FrameOk (pop_ended pos fs)
unfolding pop_ended
pop-FrameOk pos [] all = tt
pop-FrameOk pos (f ∷ fs) all = elim (Bool-cases (pos_le f.scope.range.end pos)) [
  | inl over ↦ rw over (pop-FrameOk pos fs all.1)
  | inr on ↦ rw on all
]

abbrev TopOn : LspPos → List OwnerFrame → Type 0
TopOn pos [] = Unit {0}
TopOn pos (f ∷ fs) = pos_le f.scope.range.end pos ≡ false

pop-TopOn : (pos : LspPos) (fs : List OwnerFrame) → TopOn pos (pop_ended pos fs)
unfolding pop_ended
pop-TopOn pos [] = tt
pop-TopOn pos (f ∷ fs) = elim (Bool-cases (pos_le f.scope.range.end pos)) [
  | inl over ↦ rw over (pop-TopOn pos fs)
  | inr on ↦ rw on on
]

-- A frame that was entered says the same of all positions from here on.
entered-look :
    (pos q : LspPos) (f : OwnerFrame) (gs : List OwnerFrame) (d : Option TjInfo)
    → pos_le pos q ≡ true
    → FrameOk f
    → EnterOk pos f.rest (enter pos f.rest)
    → look q
        ((enter pos f.rest).1 ++ (record { rest = (enter pos f.rest).0; scope = f.scope } ∷ gs))
        d
      ≡ look q (f ∷ gs) d
entered-look pos q f gs d behind (b, l) k =
    let f' : OwnerFrame = record { rest = (enter pos f.rest).0; scope = f.scope } in
    elim (Bool-cases (pos_le f.scope.range.end q)) [
      | inl over ↦
          look_over q (enter pos f.rest).1 gs f' d over (k.pushed f.scope.range.end b)
          ∙ rw over refl
      | inr on ↦ look_on q (enter pos f.rest).1 gs f' f.rest d on (k.looks q behind) ∙ rw on refl
    ]

push_scopes-ScopesOk :
    (layout : TjNodes) (pos : LspPos) (top : TjNodes) (fs : List OwnerFrame)
    → TopOn pos fs
    → ScopesOk layout pos (record { top = top; frames = fs })
    → ScopesOk layout pos (push_scopes top fs pos)
      × (owner_of (push_scopes top fs pos).frames ≡ innermost pos layout)
push_scopes-ScopesOk layout pos top [] on s =
    let k = enter-EnterOk pos top s.laid in
    (
      record {
        laid = k.laid;
        frames = k.frames;
        says = λ q behind. k.looks q behind ∙ s.says q behind;
      },
      k.owner ∙ s.says pos (pos_le_refl pos),
    )
push_scopes-ScopesOk layout pos top (f ∷ gs) on s =
    let k = enter-EnterOk pos f.rest s.frames.0.1 in
    let f' : OwnerFrame = record { rest = (enter pos f.rest).0; scope = f.scope } in
    (
      record {
        laid = s.laid;
        frames =
            Each-append FrameOk (enter pos f.rest).1 (f' ∷ gs) k.frames
              ((k.left f.scope.range.end s.frames.0.0, k.laid), s.frames.1);
        says = λ q behind.
            entered-look pos q f gs (innermost q top) behind s.frames.0 k ∙ s.says q behind;
      },
      owner-append (enter pos f.rest).1 gs f'
          ∙ ap (λ (o : Option TjInfo). or_else o (some f.scope)) k.owner
          ∙ rw on refl
          ∙ s.says pos (pos_le_refl pos),
    )

at_token-ScopesOk :
    (layout : TjNodes) (before pos : LspPos) (s : Scopes)
    → pos_le before pos ≡ true
    → ScopesOk layout before s
    → ScopesOk layout pos (at_token s pos)
      × (owner_of (at_token s pos).frames ≡ innermost pos layout)
unfolding at_token
at_token-ScopesOk layout before pos s later k =
    push_scopes-ScopesOk layout pos s.top (pop_ended pos s.frames) (pop-TopOn pos s.frames) record {
      laid = k.laid;
      frames = pop-FrameOk pos s.frames k.frames;
      says = λ q behind.
          pop-look pos q s.frames (innermost q s.top) behind
          ∙ k.says q (pos_le_trans before pos q later behind);
    }

owners_from-innermost :
    (layout : TjNodes) (pos : LspPos) (s : Scopes) (ts : List TokenSpan)
    → ScopesOk layout pos s
    → InOrderFrom pos ts
    → owners_from s ts ≡ map (λ (t : TokenSpan). innermost t.start layout) ts
unfolding owners_from
owners_from-innermost layout pos s [] k order = refl
owners_from-innermost layout pos s (t ∷ ts) k (later, order) =
    let (k', owner) = at_token-ScopesOk layout pos t.start s later k in
    ap₂ (λ (o : Option TjInfo) (os : List (Option TjInfo)). o ∷ os) owner
      (owners_from-innermost layout t.start (at_token s t.start) ts k' order)

-- The start of the text.
abbrev pub origin : LspPos
origin = record { line = 0; character = 0 }

pub owners_from_lem :
    (layout : TjNodes) (ts : List TokenSpan)
    → IsLaidOut layout
    → InOrderFrom origin ts
    → owners_from (record { top = layout; frames = [] }) ts
      ≡ map (λ (t : TokenSpan). innermost t.start layout) ts
owners_from_lem layout ts l order =
    owners_from-innermost layout origin (record { top = layout; frames = [] }) ts
      record { laid = l; frames = tt; says = λ q behind. refl } order
