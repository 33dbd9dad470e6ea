-- ===== src/Workspace/Numbering.antt =====
-- src/workspace.c: the ws_doc of each slot.
use taskjuggler_lsp.Base.{
  ℕ, zero, suc, ◌≤◌, ◌≡◌, inl, inr, refl, ap, true, some, List, [], ◌∷◌, get_elem?, arith,
  Bool-cases,
}
use taskjuggler_lsp.DocumentStore.{Document}
use taskjuggler_lsp.Workspace.{is_parsed, number_from, ws_doc_index_of}

number_from-le :
    (n : ℕ) (ds : List Document) (i w : ℕ) → ws_doc_index_of (number_from n ds) i ≡ some w → n ≤ w
unfolding number_from
number_from-le n [] i w e = absurd (ground (arith, e))
number_from-le n (d ∷ ds) zero w e = ground (arith, e)
number_from-le n (d ∷ ds) (suc i) w e = elim (Bool-cases (is_parsed d)) [
  | inl parsed ↦ omega (arith, number_from-le (suc n) ds i w (ground (arith, e, parsed)))
  | inr unparsed ↦ number_from-le n ds i w (ground (arith, e, unparsed))
]

pub number_from-parsed :
    (n : ℕ) (ds : List Document) (i : ℕ) (d : Document)
    → get_elem? ds i ≡ some d
    → is_parsed d ≡ true
    → (w : ℕ) × (ws_doc_index_of (number_from n ds) i ≡ some w)
unfolding number_from
number_from-parsed n [] i d got parsed = absurd (ground (arith, got))
number_from-parsed n (d' ∷ ds) zero d got parsed =
    let same : d' ≡ d = ground (arith, got) in
    let parsed' : is_parsed d' ≡ true = rw same parsed in
    (n, rw (parsed', number_from, ws_doc_index_of) refl)
number_from-parsed n (d' ∷ ds) (suc i) d got parsed = elim (Bool-cases (is_parsed d')) [
  | inl parsed' ↦
      rw (parsed', number_from, ws_doc_index_of) (number_from-parsed (suc n) ds i d got parsed)
  | inr unparsed ↦
      rw (unparsed, number_from, ws_doc_index_of) (number_from-parsed n ds i d got parsed)
]

-- Two slots with one ws_doc are one slot.
pub number_from-inj :
    (n : ℕ) (ds : List Document) (i j w : ℕ)
    → ws_doc_index_of (number_from n ds) i ≡ some w
    → ws_doc_index_of (number_from n ds) j ≡ some w
    → i ≡ j
unfolding number_from
number_from-inj n [] i j w e e' = absurd (ground (arith, e))
number_from-inj n (d ∷ ds) zero zero w e e' = refl
number_from-inj n (d ∷ ds) zero (suc j) w e e' = elim (Bool-cases (is_parsed d)) [
  | inl parsed ↦
      absurd (ground (arith, e, parsed, number_from-le (suc n) ds j w (ground (arith, e', parsed))))
  | inr unparsed ↦ absurd (ground (arith, e, unparsed))
]
number_from-inj n (d ∷ ds) (suc i) zero w e e' = elim (Bool-cases (is_parsed d)) [
  | inl parsed ↦
      absurd (ground (arith, e', parsed, number_from-le (suc n) ds i w (ground (arith, e, parsed))))
  | inr unparsed ↦ absurd (ground (arith, e', unparsed))
]
number_from-inj n (d ∷ ds) (suc i) (suc j) w e e' = elim (Bool-cases (is_parsed d)) [
  | inl parsed ↦
      ap suc
        (number_from-inj (suc n) ds i j w (ground (arith, e, parsed)) (ground (arith, e', parsed)))
  | inr unparsed ↦
      ap suc
        (number_from-inj n ds i j w (ground (arith, e, unparsed)) (ground (arith, e', unparsed)))
]
