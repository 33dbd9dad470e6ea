-- ===== src/TokensDelta/Delta.antt =====
-- src/semantic_tokens_delta.c: a client that makes the edits of the delta holds the new tokens.
use taskjuggler_lsp.Base.{
  ℕ, zero, suc, ◌+◌, ◌-◌, ◌≤◌, ◌<◌, ◌≡◌, List, [], ◌∷◌, ◌++◌, length, arith, refl, ◌∙◌, ap, ap₂,
  sym, take, drop, take-append-drop, length-take, append-nil, Bool, true, false, min, ◌==◌, ltb,
  ◌&&◌, ◌||◌, if◌then◌else◌, Each, some,
}
use taskjuggler_lsp.TokensDelta.{
  SemToken, Kind, snake, EditOp, equal_at, rounds, push_snakes, backtrace, coalesce_edit_ops,
  replace_all, edits_of, d_bound, myers_diff_run, common_prefix, common_suffix, delta_ops,
}
use taskjuggler_lsp.TokensDelta.Rows.{count_while-true, count_while-le}
use taskjuggler_lsp.TokensDelta.Rounds.{Found, rounds-Found}
use taskjuggler_lsp.TokensDelta.Script.{Transforms, equal_at-drop, tokens_equal-eq}
use taskjuggler_lsp.TokensDelta.Backtrace.{backtrace-Transforms, backtrace-zero}
use taskjuggler_lsp.TokensDelta.Apply.{apply, Turns, Turns-at, Turns-edit, coalesce-Turns}

drop-length {ℓ} : {A : Type ℓ} (xs : List A) → drop (length xs) xs ≡ []
drop-length [] = refl
drop-length (x ∷ xs) = drop-length xs

drop-nil {ℓ} : {A : Type ℓ} (n : ℕ) → drop {A = A} n [] ≡ []
drop-nil zero = refl
drop-nil (suc n) = refl

drop-drop {ℓ} : {A : Type ℓ} (p n : ℕ) (xs : List A) → drop n (drop p xs) ≡ drop (p + n) xs
drop-drop {A} p n [] =
    ground (arith, drop-nil {A = A} n, drop-nil {A = A} p, drop-nil {A = A} (p + n))
drop-drop {A} zero n (x ∷ xs) = ground arith
drop-drop {A} (suc p) n (x ∷ xs) =
    let out : suc p + n ≡ suc (p + n) = omega arith in rw out (drop-drop p n xs)

empty_of_length {ℓ} : {A : Type ℓ} (xs : List A) → length xs ≡ 0 → xs ≡ []
empty_of_length [] h = refl
empty_of_length (x ∷ xs) h = absurd (omega arith)

abbrev Snakes : List Kind → Type 0
Snakes raw = Each (λ (k : Kind). k ≡ snake) raw

push_snakes-Snakes : (n : ℕ) (raw : List Kind) → Snakes raw → Snakes (push_snakes n raw)
unfolding push_snakes
push_snakes-Snakes zero raw h = h
push_snakes-Snakes (suc n) raw h = push_snakes-Snakes n (snake ∷ raw) (refl, h)

Snakes-same :
    (raw : List Kind) (xs ys : List SemToken) → Snakes raw → Transforms raw xs ys → xs ≡ ys
Snakes-same [] xs ys h (ex, ey) = ex ∙ sym ey
Snakes-same (snake ∷ r) xs ys (e, h) (s, xs', ys', ex, ey, t) =
    ex ∙ ap (λ (l : List SemToken). s ∷ l) (Snakes-same r xs' ys' h t) ∙ sym ey
Snakes-same (Kind.delete ∷ r) xs ys (e, h) t = absurd (ground (arith, e))
Snakes-same (Kind.insert ∷ r) xs ys (e, h) t = absurd (ground (arith, e))

Turns-if :
    (x y : ℕ) (xs ys : List SemToken) (c : Bool) (ops ops' : List EditOp)
    → (c ≡ true → Turns ops x y xs ys)
    → (c ≡ false → Turns ops' x y xs ys)
    → Turns (if c then ops else ops') x y xs ys
Turns-if x y xs ys true ops ops' h h' = h refl
Turns-if x y xs ys false ops ops' h h' = h' refl

module _ (a b : List SemToken) where
  pub trace-Transforms :
      (m : ℕ) (f : Found a b (rounds a b m (suc m) 0 (λ _. 0) (λ _ _. 0)))
      → Transforms (backtrace f.snap f.dist (length a) (length b) []) a b
  trace-Transforms m f =
      backtrace-Transforms a b f.snap f.dist f.diag (length a) (length b) [] f.in_round
        (sym f.ends_a) f.ends_b (omega arith) (omega arith) f.saved (drop-length a, drop-length b)

  edits_of-Turns :
      (x y d : ℕ) (snap : ℕ → ℕ → ℕ)
      → Transforms (backtrace snap d (length a) (length b) []) a b
      → Turns (edits_of x y (some (d, length a, length b, snap))) x y a b
  edits_of-Turns x y zero snap t =
      let same =
        Snakes-same _ a b (push_snakes-Snakes (min (length a) (length b)) [] _)
          (rw (backtrace-zero snap (length a) (length b) []) at t) in
      λ pre suf pre' suf' _ _. ap (λ (l : List SemToken). pre ++ (l ++ suf)) same
  edits_of-Turns x y (suc d) snap t =
      let raw = backtrace snap (suc d) (length a) (length b) [] in
      Turns-at (coalesce_edit_ops x y (length raw) raw 0 0) (omega arith) (omega arith) refl refl
        (coalesce-Turns x y (length raw) raw 0 0 a b (omega arith) t)

  replace_all-Turns : (x y : ℕ) → Turns (replace_all (length a) (length b) x y) x y a b
  replace_all-Turns x y =
      let ops = replace_all (length a) (length b) x y in
      Turns-at ops refl refl (sym (append-nil a)) (sym (append-nil b)) (
        Turns-edit
          record { start_tok = x; delete_tok = length a; insert_b_start = y; insert_tok = length b }
          [] x y a b [] [] refl refl refl refl (λ pre suf pre' suf' _ _. refl))

  -- The edits of the diff turn one sequence into the other.
  pub myers_diff_run-Turns : (x y : ℕ) → Turns (myers_diff_run a b x y) x y a b
  unfolding myers_diff_run
  myers_diff_run-Turns x y =
      let f = rounds-Found a b (length a + length b) refl in
      let trace : Turns
          (edits_of x y
            (rounds a b (length a + length b) (suc (length a + length b)) 0 (λ _. 0) (λ _ _. 0)))
          x y a b =
        rw f.result (edits_of-Turns x y f.dist f.snap (trace-Transforms (length a + length b) f)) in
      Turns-if x y a b (length a == 0 && length b == 0) [] _
        (λ h.
          Turns-at [] refl refl (empty_of_length a (ground (arith, h)))
            (empty_of_length b (ground (arith, h))) (λ pre suf pre' suf' _ _. refl))
        (λ _.
          Turns-if x y a b (length a == 0 || length b == 0 || ltb d_bound (length a + length b))
            (replace_all (length a) (length b) x y) _ (λ _. replace_all-Turns x y) (λ _. trace))

take-equal :
    (p : ℕ) (xs ys : List SemToken)
    → ((k : ℕ) → k < p → equal_at xs k ys k ≡ true)
    → take p xs ≡ take p ys
unfolding equal_at
take-equal zero xs ys h = refl
take-equal (suc p) [] ys h = absurd (ground (arith, h 0 (omega arith)))
take-equal (suc p) (x ∷ xs) [] h = absurd (ground (arith, h 0 (omega arith)))
take-equal (suc p) (x ∷ xs) (y ∷ ys) h =
    ap₂ (λ (s : SemToken) (l : List SemToken). s ∷ l) (tokens_equal-eq x y (h 0 (omega arith)))
      (take-equal p xs ys (λ k lt. h (suc k) (omega arith)))

drop-equal :
    (n : ℕ) (xs ys : List SemToken)
    → n ≤ length xs
    → n ≤ length ys
    → ((k : ℕ) → k < n → equal_at xs (length xs - 1 - k) ys (length ys - 1 - k) ≡ true)
    → drop (length xs - n) xs ≡ drop (length ys - n) ys
drop-equal zero xs ys hx hy h =
    let none_x : length xs - 0 ≡ length xs = omega arith in
    let none_y : length ys - 0 ≡ length ys = omega arith in
    rw (none_x, none_y) (drop-length xs ∙ sym (drop-length ys))
drop-equal (suc n) xs ys hx hy h =
    let (s, ex, ey) =
      equal_at-drop xs (length xs - 1 - n) ys (length ys - 1 - n) (h n (omega arith)) in
    let ih = drop-equal n xs ys (omega arith) (omega arith) (λ k lt. h k (omega arith)) in
    let ix : length xs - suc n ≡ length xs - 1 - n = omega arith in
    let iy : length ys - suc n ≡ length ys - 1 - n = omega arith in
    let jx : length xs - 1 - n + 1 ≡ length xs - n = omega arith in
    let jy : length ys - 1 - n + 1 ≡ length ys - n = omega arith in
    let tails : drop (length xs - 1 - n + 1) xs ≡ drop (length ys - 1 - n + 1) ys =
      rw (jx, jy) ih in
    rw (ix, iy, ex, ey, tails) refl

module _ (prev new : List SemToken) where
  abbrev pub prefix : ℕ
  prefix = common_prefix prev new

  abbrev pub suffix : ℕ
  suffix = common_suffix prev new prefix

  pub prefix-le : (prefix ≤ length prev) × (prefix ≤ length new)
  unfolding common_prefix
  prefix-le =
      omega (arith, count_while-le (λ n. equal_at prev n new n) (min (length prev) (length new)))

  same_prefix : take prefix prev ≡ take prefix new
  unfolding common_prefix
  same_prefix = take-equal prefix prev new (λ k lt.
      count_while-true (λ n. equal_at prev n new n) (min (length prev) (length new)) 0 k
        (omega arith) lt)

  pub suffix-le : (suffix ≤ length prev - prefix) × (suffix ≤ length new - prefix)
  unfolding common_suffix
  suffix-le = omega (
    arith,
    count_while-le (λ n. equal_at prev (length prev - 1 - n) new (length new - 1 - n))
        (min (length prev - prefix) (length new - prefix)),
  )

  same_suffix : drop (length prev - suffix) prev ≡ drop (length new - suffix) new
  unfolding common_suffix
  same_suffix =
      drop-equal suffix prev new (omega (arith, suffix-le)) (omega (arith, suffix-le)) (λ k lt.
        count_while-true (λ n. equal_at prev (length prev - 1 - n) new (length new - 1 - n))
          (min (length prev - prefix) (length new - prefix)) 0 k (omega arith) lt)

-- The three parts of a sequence.
parts :
    (xs : List SemToken) (p s : ℕ)
    → p + s ≤ length xs
    → take p xs ++ (take (length xs - p - s) (drop p xs) ++ drop (length xs - s) xs) ≡ xs
parts xs p s h =
    let back : p + (length xs - p - s) ≡ length xs - s = omega arith in
    rw
      (
        sym back,
        sym (drop-drop p (length xs - p - s) xs),
        take-append-drop (length xs - p - s) (drop p xs),
      )
      (take-append-drop p xs)

-- A client that makes the edits of the delta in its old tokens holds the new ones.
pub apply-delta_ops : (prev new : List SemToken) → apply new (delta_ops prev new) prev ≡ new
unfolding delta_ops
apply-delta_ops prev new =
    let p = common_prefix prev new in
    let s = common_suffix prev new p in
    let a = take (length prev - p - s) (drop p prev) in
    let b = take (length new - p - s) (drop p new) in
    let old_parts = parts prev p s (omega (arith, prefix-le prev new, suffix-le prev new)) in
    let new_parts = parts new p s (omega (arith, prefix-le prev new, suffix-le prev new)) in
    let turned =
      myers_diff_run-Turns a b p p (take p prev) (drop (length prev - s) prev) (take p new)
        (drop (length new - s) new) (omega (arith, length-take {0} p prev, prefix-le prev new))
        (omega (arith, length-take {0} p new, prefix-le prev new)) in
    ap₂ (λ (n o : List SemToken). apply n (myers_diff_run a b p p) o) (sym new_parts)
      (sym old_parts)
    ∙ turned
    ∙ ap₂ (λ (pre suf : List SemToken). pre ++ (b ++ suf)) (same_prefix prev new)
        (same_suffix prev new)
    ∙ new_parts
