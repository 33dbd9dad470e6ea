-- ===== src/TokenOwners/Innermost.antt =====
-- src/parser.c: which node encloses a position most closely, and what a stack of scopes says of it.
use taskjuggler_lsp.Base.{
  ◌≡◌, refl, ◌∙◌, sym, ap, true, false, ◌&&◌, not, Option, none, some, List, [], ◌∷◌, ◌++◌,
  if◌then◌else◌, arith, inl, inr, Bool-cases, Each, Each-append,
}
use taskjuggler_lsp.Syntax.{LspPos, pos_le, TjInfo, TjNodes, node, nil, cons}
use taskjuggler_lsp.Syntax.Order.{pos_lt-not-le, pos_le_trans}
use taskjuggler_lsp.TokenOwners.{OwnerFrame, enter, owner_of}

abbrev pub or_else : Option TjInfo → Option TjInfo → Option TjInfo
or_else (some i) o = some i
or_else none o = o

-- The first node around the position, or the innermost one below it.
abbrev pub innermost : LspPos → TjNodes → Option TjInfo
innermost pos nil = none
innermost pos (cons (node i kids) ns) =
    if pos_le i.range.start pos && not (pos_le i.range.end pos)
    then or_else (innermost pos kids) (some i)
    else innermost pos ns

abbrev pub EndsBy : LspPos → TjNodes → Type 0
EndsBy e nil = Unit {0}
EndsBy e (cons (node i kids) ns) = (pos_le i.range.end e ≡ true) × EndsBy e ns

abbrev pub StartsFrom : LspPos → TjNodes → Type 0
StartsFrom s nil = Unit {0}
StartsFrom s (cons (node i kids) ns) = (pos_le s i.range.start ≡ true) × StartsFrom s ns

-- No node starts before the sibling before it, and none ends behind the node around it.
abbrev pub IsLaidOut : TjNodes → Type 0
IsLaidOut nil = Unit {0}
IsLaidOut (cons (node i kids) ns) =
    EndsBy i.range.end kids × StartsFrom i.range.start ns × IsLaidOut kids × IsLaidOut ns

-- What the frames say of a position, over what is said below them.
abbrev pub look : LspPos → List OwnerFrame → Option TjInfo → Option TjInfo
look q [] d = d
look q (f ∷ fs) d =
    if pos_le f.scope.range.end q then look q fs d else or_else (innermost q f.rest) (some f.scope)

look-append :
    (q : LspPos) (fs gs : List OwnerFrame) (d : Option TjInfo)
    → look q (fs ++ gs) d ≡ look q fs (look q gs d)
look-append q [] gs d = refl
look-append q (f ∷ fs) gs d = ground (arith, look-append q fs gs d)

look-or_else :
    (q : LspPos) (fs : List OwnerFrame) (d : Option TjInfo) (i : TjInfo)
    → look q fs (or_else d (some i)) ≡ or_else (look q fs d) (some i)
look-or_else q [] d i = refl
look-or_else q (f ∷ fs) d i = ground (arith, look-or_else q fs d i)

abbrev pub AllEnded : LspPos → List OwnerFrame → Type 0
AllEnded q = Each (λ (f : OwnerFrame). pos_le f.scope.range.end q ≡ true)

look-AllEnded :
    (q : LspPos) (fs : List OwnerFrame) (d : Option TjInfo) → AllEnded q fs → look q fs d ≡ d
look-AllEnded q [] d all = refl
look-AllEnded q (f ∷ fs) d (here, all) = ground (arith, here, look-AllEnded q fs d all)

EndsBy-trans : (a e : LspPos) (ns : TjNodes) → pos_le a e ≡ true → EndsBy a ns → EndsBy e ns
EndsBy-trans a e nil le b = tt
EndsBy-trans a e (cons (node i kids) ns) le (b, bs) =
    (pos_le_trans i.range.end a e b le, EndsBy-trans a e ns le bs)

-- What `enter` does at its first sibling.
data Entering (pos : LspPos) (i : TjInfo) (kids ns : TjNodes)
    : TjNodes × List OwnerFrame → Type 0 where
  skips : pos_le i.range.end pos ≡ true → Entering pos i kids ns (enter pos ns)
  stops :
      pos_le i.range.end pos ≡ false
      → pos_le i.range.start pos ≡ false
      → Entering pos i kids ns (cons (node i kids) ns, [])
  pushes :
      pos_le i.range.end pos ≡ false
      → pos_le i.range.start pos ≡ true
      → Entering pos i kids ns (
        cons (node i kids) ns,
        (enter pos kids).1 ++ (record { rest = (enter pos kids).0; scope = i } ∷ []),
      )

enter-Entering :
    (pos : LspPos) (i : TjInfo) (kids ns : TjNodes)
    → Entering pos i kids ns (enter pos (cons (node i kids) ns))
unfolding enter
enter-Entering pos i kids ns = elim (Bool-cases (pos_le i.range.end pos)) [
  | inl over ↦ rw over (Entering.skips over)
  | inr on ↦ elim (Bool-cases (pos_le i.range.start pos)) [
    | inl inside ↦ rw (on, pos_lt-not-le pos i.range.start, inside) (Entering.pushes on inside)
    | inr before ↦ rw (on, pos_lt-not-le pos i.range.start, before) (Entering.stops on before)
  ]
]

-- A frame's siblings end inside its scope.
abbrev pub FrameOk : OwnerFrame → Type 0
FrameOk f = EndsBy f.scope.range.end f.rest × IsLaidOut f.rest

-- What entering gives: the siblings left and the frames pushed say of this position and all behind it
-- what the siblings said, and the innermost frame is the innermost node.
pub record EnterOk (pos : LspPos) (ns : TjNodes) (res : TjNodes × List OwnerFrame) : Type 0 where
  pub pushed : (e : LspPos) → EndsBy e ns → AllEnded e res.1
  pub left : (e : LspPos) → EndsBy e ns → EndsBy e res.0
  pub laid : IsLaidOut res.0
  pub frames : Each FrameOk res.1
  pub looks : (q : LspPos) → pos_le pos q ≡ true → look q res.1 (innermost q res.0) ≡ innermost q ns
  pub owner : owner_of res.1 ≡ innermost pos ns

-- Nothing is around a position before the first of the siblings.
none_before :
    (pos s : LspPos) (ns : TjNodes)
    → pos_le s pos ≡ false
    → StartsFrom s ns
    → innermost pos ns ≡ none
none_before pos s nil before from = refl
none_before pos s (cons (node i kids) ns) before (from, later) =
    elim (Bool-cases (pos_le i.range.start pos)) [
      | inl at_or_behind ↦
          absurd (ground (arith, before, pos_le_trans s i.range.start pos from at_or_behind))
      | inr ahead ↦ rw ahead (none_before pos s ns before later)
    ]

pub owner-append :
    (fs gs : List OwnerFrame) (f : OwnerFrame)
    → owner_of (fs ++ (f ∷ gs)) ≡ or_else (owner_of fs) (some f.scope)
owner-append [] gs f = refl
owner-append (g ∷ fs) gs f = refl

-- The frames over a scope that still holds the position say what its children say.
pub look_on :
    (q : LspPos) (fs gs : List OwnerFrame) (f : OwnerFrame) (ns : TjNodes) (d : Option TjInfo)
    → pos_le f.scope.range.end q ≡ false
    → look q fs (innermost q f.rest) ≡ innermost q ns
    → look q (fs ++ (f ∷ gs)) d ≡ or_else (innermost q ns) (some f.scope)
look_on q fs gs f ns d on same =
    look-append q fs (f ∷ gs) d
    ∙ rw on (
        look-or_else q fs (innermost q f.rest) f.scope
        ∙ ap (λ (o : Option TjInfo). or_else o (some f.scope)) same)

-- The frames over a scope that has ended have ended too.
pub look_over :
    (q : LspPos) (fs gs : List OwnerFrame) (f : OwnerFrame) (d : Option TjInfo)
    → pos_le f.scope.range.end q ≡ true
    → AllEnded f.scope.range.end fs
    → look q (fs ++ (f ∷ gs)) d ≡ look q gs d
look_over q [] gs f d over all = rw over refl
look_over q (g ∷ fs) gs f d over (here, all) =
    rw (pos_le_trans g.scope.range.end f.scope.range.end q here over)
      (look_over q fs gs f d over all)

pushes-looks :
    (pos q : LspPos) (i : TjInfo) (kids ns : TjNodes)
    → pos_le i.range.start pos ≡ true
    → pos_le pos q ≡ true
    → EndsBy i.range.end kids
    → EnterOk pos kids (enter pos kids)
    → look q
        ((enter pos kids).1 ++ (record { rest = (enter pos kids).0; scope = i } ∷ []))
        (innermost q (cons (node i kids) ns))
      ≡ innermost q (cons (node i kids) ns)
pushes-looks pos q i kids ns inside behind b k =
    let f : OwnerFrame = record { rest = (enter pos kids).0; scope = i } in
    let d = innermost q (cons (node i kids) ns) in
    elim (Bool-cases (pos_le i.range.end q)) [
      | inl over ↦ look_over q (enter pos kids).1 [] f d over (k.pushed i.range.end b)
      | inr on ↦
          look_on q (enter pos kids).1 [] f kids d on (k.looks q behind)
          ∙ rw (pos_le_trans i.range.start pos q inside behind, on) refl
    ]

Entering-EnterOk :
    (pos : LspPos) (i : TjInfo) (kids ns : TjNodes) (res : TjNodes × List OwnerFrame)
    → Entering pos i kids ns res
    → IsLaidOut (cons (node i kids) ns)
    → EnterOk pos kids (enter pos kids)
    → EnterOk pos ns (enter pos ns)
    → EnterOk pos (cons (node i kids) ns) res
Entering-EnterOk pos i kids ns _ (Entering.skips over) l k n = record {
  pushed = λ e b. n.pushed e b.1;
  left = λ e b. n.left e b.1;
  laid = n.laid;
  frames = n.frames;
  looks =
      λ q behind. n.looks q behind ∙ rw (pos_le_trans i.range.end pos q over behind) (ground arith);
  owner = n.owner ∙ rw over (ground arith);
}
Entering-EnterOk pos i kids ns _ (Entering.stops on before) l k n = record {
  pushed = λ e b. tt;
  left = λ e b. b;
  laid = l;
  frames = tt;
  looks = λ q behind. refl;
  owner = rw before (sym (none_before pos i.range.start ns before l.1));
}
Entering-EnterOk pos i kids ns _ (Entering.pushes on inside) l k n =
    let f : OwnerFrame = record { rest = (enter pos kids).0; scope = i } in
    record {
      pushed = λ e b.
          Each-append (λ (g : OwnerFrame). pos_le g.scope.range.end e ≡ true) (enter pos kids).1
            (f ∷ []) (k.pushed e (EndsBy-trans i.range.end e kids b.0 l.0)) (b.0, tt);
      left = λ e b. b;
      laid = l;
      frames =
          Each-append FrameOk (enter pos kids).1 (f ∷ []) k.frames
            ((k.left i.range.end l.0, k.laid), tt);
      looks = λ q behind. pushes-looks pos q i kids ns inside behind l.0 k;
      owner =
          owner-append (enter pos kids).1 [] f
          ∙ rw (inside, on) (ap (λ (o : Option TjInfo). or_else o (some i)) k.owner);
    }

pub enter-EnterOk : (pos : LspPos) (ns : TjNodes) → IsLaidOut ns → EnterOk pos ns (enter pos ns)
unfolding enter
enter-EnterOk pos nil l = record {
  pushed = λ e b. tt;
  left = λ e b. tt;
  laid = tt;
  frames = tt;
  looks = λ q behind. refl;
  owner = refl;
}
enter-EnterOk pos (cons (node i kids) ns) (b, s, lk, ls) =
    Entering-EnterOk pos i kids ns (enter pos (cons (node i kids) ns))
      (enter-Entering pos i kids ns) (b, s, lk, ls) (enter-EnterOk pos kids lk)
      (enter-EnterOk pos ns ls)
