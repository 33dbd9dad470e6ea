-- ===== src/Lookup/Search.antt =====
-- src/document_symbol.c: the binary search of `tj_node_at` finds the last token that starts at or
-- before the cursor.
use taskjuggler_lsp.Base.{
  ℕ, zero, suc, ◌+◌, ◌-◌, ◌/◌, ◌≤◌, ◌<◌, ◌≡◌, refl, Bool, true, false, Option, none, some, List, [],
  ◌∷◌, ◌&&◌, not, if◌then◌else◌, length, get_elem?, arith, Bool-cases, inl, inr, dec_lt, lt→ltb,
  Each,
}
use taskjuggler_lsp.Syntax.{LspPos, pos_le, TokenSpan}
use taskjuggler_lsp.Syntax.Order.{pos_le_trans}
use taskjuggler_lsp.Lookup.{is_eof, probe, search}

-- A token of the text that starts at or before `pos`.
unfoldable pub starts_by : LspPos → TokenSpan → Bool
starts_by pos t = not (is_eof t.token_kind) && pos_le t.start pos

unfoldable pub hit : List TokenSpan → LspPos → ℕ → Bool
unfolding starts_by
hit tokens pos i = elim (get_elem? tokens i) [ none ↦ false | some t ↦ starts_by pos t ]

-- The order in which the lexer records tokens: by start, end-of-input markers last.
abbrev pub Follows : TokenSpan → TokenSpan → Type 0
Follows t u =
    (pos_le t.start u.start ≡ true) × (is_eof t.token_kind ≡ true → is_eof u.token_kind ≡ true)

abbrev pub IsSorted : List TokenSpan → Type 0
IsSorted [] = Unit
IsSorted (t ∷ ts) = Each (Follows t) ts × IsSorted ts

-- `r` is the last token that starts at or before `pos`, or `none` if there is none.
abbrev pub IsLast : List TokenSpan → LspPos → Option ℕ → Type 0
IsLast tokens pos none = (i : ℕ) → hit tokens pos i ≡ false
IsLast tokens pos (some k) =
    (hit tokens pos k ≡ true) × ((i : ℕ) → k < i → hit tokens pos i ≡ false)

Each-hit :
    (pos : LspPos) (t : TokenSpan) (ts : List TokenSpan) (j : ℕ)
    → Each (Follows t) ts
    → hit ts pos j ≡ true
    → starts_by pos t ≡ true
unfolding hit
Each-hit pos t [] j h e = cc
Each-hit pos t (u ∷ ts) zero h e = ground (arith, pos_le_trans t.start u.start pos)
Each-hit pos t (u ∷ ts) (suc j) h e = Each-hit pos t ts j h.1 e

-- In sorted tokens, what stands before a hit is a hit.
hit-down :
    (pos : LspPos) (ts : List TokenSpan) (i j : ℕ)
    → IsSorted ts
    → i ≤ j
    → hit ts pos j ≡ true
    → hit ts pos i ≡ true
unfolding hit
hit-down pos [] i j s le e = cc
hit-down pos (t ∷ ts) zero zero s le e = e
hit-down pos (t ∷ ts) zero (suc j) s le e = Each-hit pos t ts j s.0 e
hit-down pos (t ∷ ts) (suc i) zero s le e = absurd (omega arith)
hit-down pos (t ∷ ts) (suc i) (suc j) s le e = hit-down pos ts i j s.1 (omega arith) e

hit-up :
    (pos : LspPos) (ts : List TokenSpan) (i j : ℕ)
    → IsSorted ts
    → hit ts pos i ≡ false
    → i ≤ j
    → hit ts pos j ≡ false
hit-up pos ts i j s e le = elim (Bool-cases (hit ts pos j)) [
  | inl up ↦ cc (hit-down pos ts i j s le up)
  | inr up ↦ up
]

get_elem?-some :
    (ts : List TokenSpan) (i : ℕ) → i < length ts → (t : TokenSpan) × (get_elem? ts i ≡ some t)
get_elem?-some [] i h = absurd (omega arith)
get_elem?-some (t ∷ ts) zero h = (t, refl)
get_elem?-some (t ∷ ts) (suc i) h = get_elem?-some ts i (omega arith)

hit-none : (pos : LspPos) (ts : List TokenSpan) (i : ℕ) → length ts ≤ i → hit ts pos i ≡ false
unfolding hit
hit-none pos [] i h = refl
hit-none pos (t ∷ ts) zero h = absurd (omega arith)
hit-none pos (t ∷ ts) (suc i) h = hit-none pos ts i (omega arith)

-- What `found` is when everything below `lo` has been passed.
abbrev Found : List TokenSpan → LspPos → ℕ → Option ℕ → Type 0
Found tokens pos lo none = lo ≡ 0
Found tokens pos lo (some k) = (lo ≡ k + 1) × (hit tokens pos k ≡ true)

IsLast-end :
    (tokens : List TokenSpan) (pos : LspPos) (lo end : ℕ) (found : Option ℕ)
    → end ≤ lo
    → Found tokens pos lo found
    → ((i : ℕ) → end ≤ i → hit tokens pos i ≡ false)
    → IsLast tokens pos found
IsLast-end tokens pos lo end none h f past = λ i. past i (omega arith)
IsLast-end tokens pos lo end (some k) h f past = (f.1, λ i lt. past i (omega arith))

module _ (tokens : List TokenSpan) (pos : LspPos) where
  search-probe :
      (fuel lo end mid : ℕ) (found : Option ℕ)
      → lo < end
      → mid ≡ lo + (end - 1 - lo) / 2
      → search tokens pos (suc fuel) lo end found
        ≡ probe (search tokens pos fuel) pos lo end found mid (get_elem? tokens mid)
  unfolding search
  search-probe fuel lo end mid found h m = rw (lt→ltb lo end h, search, m)

  search-done :
      (fuel lo end : ℕ) (found : Option ℕ)
      → end ≤ lo
      → search tokens pos (suc fuel) lo end found ≡ found
  unfolding search
  search-done fuel lo end found h = ground arith

  -- One round of the loop, where the interval is not empty.
  search-round :
      (fuel lo end mid : ℕ) (found : Option ℕ)
      → lo < end
      → mid ≡ lo + (end - 1 - lo) / 2
      → end ≤ length tokens
      → search tokens pos (suc fuel) lo end found ≡ (
          if hit tokens pos mid
          then search tokens pos fuel (mid + 1) end (some mid)
          else search tokens pos fuel lo mid found)
  unfolding hit
  search-round fuel lo end mid found h m le =
      let (t, e) = get_elem?-some tokens mid (omega arith) in
      rw (search-probe fuel lo end mid found h m, e, hit) (ground arith)

  search-IsLast :
      (fuel lo end : ℕ) (found : Option ℕ)
      → IsSorted tokens
      → end - lo ≤ fuel
      → end ≤ length tokens
      → Found tokens pos lo found
      → ((i : ℕ) → end ≤ i → hit tokens pos i ≡ false)
      → IsLast tokens pos (search tokens pos fuel lo end found)
  search-IsLast zero lo end found sorted small le f past =
      unfold search in IsLast-end tokens pos lo end found (omega arith) f past
  search-IsLast (suc fuel) lo end found sorted small le f past = elim (dec_lt lo end) [
    | no done ↦
        rw (search-done fuel lo end found (omega arith))
          (IsLast-end tokens pos lo end found (omega arith) f past)
    | yes more ↦
        let mid = lo + (end - 1 - lo) / 2 in
        rw (search-round fuel lo end mid found more refl le)
          (elim (Bool-cases (hit tokens pos mid)) [
            | inl e ↦
                rw e (
                  search-IsLast fuel (mid + 1) end (some mid) sorted (omega arith) le (refl, e)
                    past)
            | inr e ↦ rw e (
                search-IsLast fuel lo mid found sorted (omega arith) (omega arith) f
                  (λ i lt. hit-up pos tokens mid i sorted e lt))
          ])
  ]

-- The search of `tj_node_at` over tokens in the order of their starts finds the last token that is
-- no end-of-input marker and starts at or before the cursor, and finds none if there is none.
pub search_lem :
    (tokens : List TokenSpan) (pos : LspPos)
    → IsSorted tokens
    → IsLast tokens pos (search tokens pos (length tokens) 0 (length tokens) none)
search_lem tokens pos sorted =
    search-IsLast tokens pos (length tokens) 0 (length tokens) none sorted (omega arith)
      (omega arith) refl (hit-none pos tokens)
