-- ===== src/TokensDelta.antt =====
-- src/semantic_tokens_delta.c: the edits that turn the data of an earlier response into the new one,
-- by a Myers diff over tokens of five numbers.
-- The signed diagonal k is the offset k + max_total into `v`. The rows of `snap` are indexed by the
-- round and the place in it, for the flat index d * (d + 1) / 2 + i of the source.
-- `raw_kinds` is a stack, which is read from its top, so the list begins with the last entry.
pub mod Rows
pub mod Exact
pub mod Trace
pub mod Rounds
pub mod Script
pub mod Backtrace
pub mod Runs
pub mod Apply
pub mod Delta
pub mod Bounds
mod Tests
use taskjuggler_lsp.Base.{
  ℕ, zero, suc, ◌+◌, ◌-◌, ◌*◌, ◌/◌, min, Bool, true, false, Option, none, some, List, [], ◌∷◌, ◌++◌,
  ◌&&◌, ◌||◌, ◌==◌, ltb, leb, not, if◌then◌else◌, length, get_elem?, take, drop,
}

pub record SemToken : Type 0 where
  pub delta_line : ℕ
  pub delta_start : ℕ
  pub len : ℕ
  pub token_type : ℕ
  pub modifiers : ℕ

-- `memcmp` of five numbers
pub tokens_equal : SemToken → SemToken → Bool
tokens_equal a b =
    a.delta_line == b.delta_line
    && a.delta_start == b.delta_start
    && a.len == b.len
    && a.token_type == b.token_type
    && a.modifiers == b.modifiers

-- `tokens_equal (&a[i * TUPLE_LEN], &b[j * TUPLE_LEN])`, with both indices in range
pub equal_at : List SemToken → ℕ → List SemToken → ℕ → Bool
equal_at a i b j = elim (get_elem? a i) [
  | none ↦ false
  | some s ↦ elim (get_elem? b j) [ none ↦ false | some t ↦ tokens_equal s t ]
]

-- `while (n < bound && test (n)) n++`, over the rounds left
pub count_while : (ℕ → Bool) → ℕ → ℕ → ℕ
count_while test zero n = n
count_while test (suc rounds) n = elim (test n) [
  | true ↦ count_while test rounds (n + 1)
  | false ↦ n
]

pub record EditOp : Type 0 where
  pub start_tok : ℕ
  pub delete_tok : ℕ
  pub insert_b_start : ℕ
  pub insert_tok : ℕ

-- 0, 1 and 2 in the source
pub data Kind : Type 0 where
  snake delete insert : Kind

abbrev pub update {ℓ} : {A : Type ℓ} → (ℕ → A) → ℕ → A → ℕ → A
update f i a j = if i == j then a else f j

-- The value of `x` at the start of round `d` on the `i`-th diagonal k = -d + 2 * i, whose offset in
-- `v` is `o`: down (an insertion) or right (a deletion).
pub edge_of : (ℕ → ℕ) → ℕ → ℕ → ℕ → ℕ
edge_of v o d i =
    if i == 0 || not (i == d) && ltb (v (o - 1)) (v (o + 1)) then v (o + 1) else v (o - 1) + 1

-- How the loop over the rounds ends.
pub data Search : Type 0 where
  not_found : (v : ℕ → ℕ) → Search
  found : (x y : ℕ) → Search

module _ (a b : List SemToken) where
  -- `while (x < na && y < nb && tokens_equal (…)) { x++; y++; }`: how far it goes
  pub slide : ℕ → ℕ → ℕ
  slide x y = count_while (λ n. equal_at a (x + n) b (y + n)) (min (length a - x) (length b - y)) 0

  -- The loop over k in round `d`, from the `i`-th diagonal on, with `n` diagonals left.
  pub round : ℕ → ℕ → ℕ → ℕ → (ℕ → ℕ) → Search
  round m d zero i v = not_found v
  round m d (suc n) i v =
      let o = m + 2 * i - d in
      let x₀ = edge_of v o d i in
      let x = x₀ + slide x₀ (x₀ + m - o) in
      let y = x + m - o in
      let v' = update v o x in
      elim (leb (length a) x && leb (length b) y) [
        | true ↦ found x y
        | false ↦ round m d n (i + 1) v'
      ]

  -- The copy of `v` into the snapshot of round `d`.
  pub save : ℕ → ℕ → (ℕ → ℕ) → (ℕ → ℕ → ℕ) → ℕ → ℕ → ℕ
  save m d v snap = update snap d (λ i. v (m + 2 * i - d))

  -- The loop over d: the round, the end point and the snapshots, or `none` if no round finds it.
  pub rounds : ℕ → ℕ → ℕ → (ℕ → ℕ) → (ℕ → ℕ → ℕ) → Option (ℕ × ℕ × ℕ × (ℕ → ℕ → ℕ))
  rounds m zero d v snap = none
  rounds m (suc left) d v snap = elim (round m d (suc d) 0 v) [
    | found x y ↦ some (d, x, y, snap)
    | not_found v' ↦ rounds m left (suc d) v' (save m d v' snap)
  ]

-- `while (x > x_edge && y > y_edge) { x--; y--; raw_kinds[n_raw++] = 0; }`
pub push_snakes : ℕ → List Kind → List Kind
push_snakes zero raw = raw
push_snakes (suc n) raw = push_snakes n (snake ∷ raw)

-- The loop of the backtrace, from round `d` at (x, y), with the leading snake at its end.
pub backtrace : (ℕ → ℕ → ℕ) → ℕ → ℕ → ℕ → List Kind → List Kind
backtrace snap zero x y raw = push_snakes (min x y) raw
backtrace snap (suc d) x y raw =
    let i = (x + suc d - y) / 2 in
    let down = x + suc d == y || not (x == y + suc d) && ltb (snap d (i - 1)) (snap d i) in
    let x_prev = if down then snap d i else snap d (i - 1) in
    let y_prev = if down then x_prev + y - x - 1 else x_prev + y + 1 - x in
    let x_edge = if down then x_prev else x_prev + 1 in
    let y_edge = if down then y_prev + 1 else y_prev in
    let n = min (x - x_edge) (y - y_edge) in
    let raw' = push_snakes n raw in
    elim down [
      | true ↦ backtrace snap d (x - n) (y - n - 1) (insert ∷ raw')
      | false ↦ backtrace snap d (x - n - 1) (y - n) (delete ∷ raw')
    ]

-- A run of edits at the top of the stack: what is left behind it, and its two counts.
pub record EditRun : Type 0 where
  pub rest : List Kind
  pub del : ℕ
  pub ins : ℕ

-- `while (idx > 0 && raw_kinds[idx - 1] != 0)`
pub take_run : List Kind → ℕ → ℕ → EditRun
take_run [] del ins = record { rest = []; del = del; ins = ins }
take_run (snake ∷ r) del ins = record { rest = snake ∷ r; del = del; ins = ins }
take_run (delete ∷ r) del ins = take_run r (del + 1) ins
take_run (insert ∷ r) del ins = take_run r del (ins + 1)

-- `coalesce_edit_ops` from (cur_x, cur_y) on. A round takes an entry at least, so `n_raw` rounds are
-- enough.
pub coalesce_edit_ops : ℕ → ℕ → ℕ → List Kind → ℕ → ℕ → List EditOp
coalesce_edit_ops a_offset b_offset fuel [] cur_x cur_y = []
coalesce_edit_ops a_offset b_offset zero (k ∷ r) cur_x cur_y = []
coalesce_edit_ops a_offset b_offset (suc fuel) (snake ∷ r) cur_x cur_y =
    coalesce_edit_ops a_offset b_offset fuel r (cur_x + 1) (cur_y + 1)
coalesce_edit_ops a_offset b_offset (suc fuel) (k ∷ r) cur_x cur_y =
    let run = take_run (k ∷ r) 0 0 in
    record {
      start_tok = a_offset + cur_x;
      delete_tok = run.del;
      insert_b_start = b_offset + cur_y;
      insert_tok = run.ins;
    }
    ∷ coalesce_edit_ops a_offset b_offset fuel run.rest (cur_x + run.del) (cur_y + run.ins)

abbrev pub d_bound : ℕ
d_bound = 1024

-- One edit for all of the middle.
abbrev pub replace_all : ℕ → ℕ → ℕ → ℕ → List EditOp
replace_all na nb a_offset b_offset =
    record { start_tok = a_offset; delete_tok = na; insert_b_start = b_offset; insert_tok = nb }
    ∷ []

-- What follows the loops: no edits at distance 0 (or if no round found the end), else the trace.
abbrev pub edits_of : ℕ → ℕ → Option (ℕ × ℕ × ℕ × (ℕ → ℕ → ℕ)) → List EditOp
edits_of a_offset b_offset none = []
edits_of a_offset b_offset (some (zero, x, y, snap)) = []
edits_of a_offset b_offset (some (suc d, x, y, snap)) =
    let raw = backtrace snap (suc d) x y [] in
    coalesce_edit_ops a_offset b_offset (length raw) raw 0 0

pub myers_diff_run : List SemToken → List SemToken → ℕ → ℕ → List EditOp
myers_diff_run a b a_offset b_offset =
    let na = length a in
    let nb = length b in
    let m = na + nb in
    let trace = edits_of a_offset b_offset (rounds a b m (suc m) 0 (λ _. 0) (λ _ _. 0)) in
    if na == 0 && nb == 0
    then []
    else if na == 0 || nb == 0 || ltb d_bound m
    then replace_all na nb a_offset b_offset
    else trace

-- `build_semantic_tokens_delta_json` up to the writing of the edits: the common prefix and suffix
-- are cut off, and the middles are compared.
pub common_prefix : List SemToken → List SemToken → ℕ
common_prefix prev new = count_while (λ n. equal_at prev n new n) (min (length prev) (length new)) 0

pub common_suffix : List SemToken → List SemToken → ℕ → ℕ
common_suffix prev new prefix =
    count_while (λ n. equal_at prev (length prev - 1 - n) new (length new - 1 - n))
      (min (length prev - prefix) (length new - prefix)) 0

pub delta_ops : List SemToken → List SemToken → List EditOp
delta_ops prev new =
    let prefix = common_prefix prev new in
    let suffix = common_suffix prev new prefix in
    myers_diff_run (take (length prev - prefix - suffix) (drop prefix prev))
      (take (length new - prefix - suffix) (drop prefix new)) prefix prefix
