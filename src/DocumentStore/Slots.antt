-- ===== src/DocumentStore/Slots.antt =====
-- src/document_store.c: the slot that `doc_alloc` takes is the one that `doc_find` then returns.
use taskjuggler_lsp.Base.{
  ℕ, zero, suc, ◌<◌, length, ◌≡◌, inl, inr, refl, Bool, true, false, ◌&&◌, Option, none, some, List,
  [], ◌∷◌, get_elem?, get_elem?-set_self, set, Bytes, str_eq, str_eq_refl, str_eq_iff, arith,
  Bool-cases, Option-cases, sym, ap, subst,
}
use taskjuggler_lsp.PathUtil.{normalize_uri}
use taskjuggler_lsp.DocumentStore.{
  Document, next_slot, find_uri, doc_find, first_free, occupied, slot_or_empty, doc_alloc,
}

-- The test of a slot.
abbrev named : Bytes → Document → Bool
named uri d = d.in_use && str_eq d.uri uri

next_slot-none : (o : Option ℕ) → next_slot o ≡ none → o ≡ none
next_slot-none none e = refl
next_slot-none (some i) e = absurd (ground (arith, e))

find_uri-head :
    (uri : Bytes) (d : Document) (ds : List Document)
    → find_uri uri (d ∷ ds) ≡ none
    → (named uri d ≡ false) × (find_uri uri ds ≡ none)
unfolding find_uri
find_uri-head uri d ds e = elim (Bool-cases (named uri d)) [
  | inl here ↦ absurd (ground (arith, here, e))
  | inr other ↦ (other, next_slot-none (find_uri uri ds) (ground (arith, other, e)))
]

find_uri-set :
    (uri : Bytes) (ds : List Document) (i : ℕ) (d : Document)
    → i < length ds
    → named uri d ≡ true
    → find_uri uri ds ≡ none
    → find_uri uri (set ds i d) ≡ some i
unfolding find_uri
find_uri-set uri [] i d small here e = absurd (omega (arith, small))
find_uri-set uri (d' ∷ ds) zero d small here e = rw (here, find_uri) refl
find_uri-set uri (d' ∷ ds) (suc i) d small here e =
    let (other, later) = find_uri-head uri d' ds e in
    rw (other, find_uri) (ap next_slot (find_uri-set uri ds i d (omega (arith, small)) here later))

find_uri-set_other :
    (uri : Bytes) (ds : List Document) (i : ℕ) (d : Document)
    → named uri d ≡ false
    → find_uri uri ds ≡ none
    → find_uri uri (set ds i d) ≡ none
unfolding find_uri
find_uri-set_other uri [] i d gone e = refl
find_uri-set_other uri (d' ∷ ds) zero d gone e =
    rw (gone, find_uri) (ap next_slot (find_uri-head uri d' ds e).1)
find_uri-set_other uri (d' ∷ ds) (suc i) d gone e =
    let (other, later) = find_uri-head uri d' ds e in
    rw (other, find_uri) (ap next_slot (find_uri-set_other uri ds i d gone later))

first_free-lt : (ds : List Document) (i : ℕ) → first_free ds ≡ some i → i < length ds
unfolding first_free
first_free-lt [] i e = absurd (ground (arith, e))
first_free-lt (d ∷ ds) i e = elim (Bool-cases d.in_use) [
  | inl used ↦ elim (Option-cases (first_free ds)) [
    | inl full ↦ absurd (ground (arith, used, full, e))
    | inr (j, found) ↦ ground (arith, used, found, e, first_free-lt ds j found)
  ]
  | inr free ↦ ground (arith, free, e)
]

module _ (realpath : Bytes → Option Bytes) where
  -- The URI has the slot.
  pub record Taken (docs : List Document) (uri : Bytes) (i : ℕ) : Type 0 where
    pub slot : Document
    pub there : get_elem? docs i ≡ some slot
    pub used : slot.in_use ≡ true
    pub normal : slot.uri ≡ normalize_uri realpath uri
    pub by_uri : doc_find realpath docs uri ≡ some i
    pub by_normal_form : doc_find realpath docs (normalize_uri realpath uri) ≡ some i

  -- A URI that is not found is in no slot, neither as it is nor in its normal form.
  doc_find-none :
      (docs : List Document) (uri : Bytes)
      → doc_find realpath docs uri ≡ none
      → (find_uri uri docs ≡ none) × (find_uri (normalize_uri realpath uri) docs ≡ none)
  unfolding doc_find
  doc_find-none docs uri e = elim (Option-cases (find_uri uri docs)) [
    | inr (i, found) ↦ absurd (ground (arith, found, e))
    | inl gone ↦ elim (Bool-cases (str_eq (normalize_uri realpath uri) uri)) [
      | inl same ↦ (
        gone,
        subst (λ (x : Bytes). find_uri x docs ≡ none)
            (sym ((str_eq_iff (normalize_uri realpath uri) uri).0 same)) gone,
      )
      | inr other ↦ (gone, ground (arith, gone, other, e))
    ]
  ]

  pub doc_alloc-slot :
      (docs docs' : List Document) (uri : Bytes) (i : ℕ)
      → doc_alloc realpath docs uri ≡ some (docs', i)
      → (i < length docs)
        × (docs'
            ≡ set docs i (occupied (normalize_uri realpath uri) (slot_or_empty (get_elem? docs i))))
  unfolding doc_alloc
  doc_alloc-slot docs docs' uri i taken = elim (Option-cases (first_free docs)) [
    | inl full ↦ absurd (ground (arith, full, taken))
    | inr (j, free) ↦
        let same : j ≡ i = ground (arith, free, taken) in
        (first_free-lt docs i (ground (arith, free, same)), ground (arith, free, taken, same))
  ]

  -- If no slot has the URI and one is free, then the slot that was taken has the normal form of the
  -- URI and is in use, and both the URI and its normal form are found in it.
  pub doc_find-doc_alloc :
      (docs docs' : List Document) (uri : Bytes) (i : ℕ)
      → doc_find realpath docs uri ≡ none
      → doc_alloc realpath docs uri ≡ some (docs', i)
      → Taken docs' uri i
  unfolding doc_find
  doc_find-doc_alloc docs docs' uri i absent taken =
      let canon = normalize_uri realpath uri in
      let new = occupied canon (slot_or_empty (get_elem? docs i)) in
      let (gone, canon_gone) = doc_find-none docs uri absent in
      let (small, slots) = doc_alloc-slot docs docs' uri i taken in
      let found : find_uri canon docs' ≡ some i =
        rw slots (find_uri-set canon docs i new small (str_eq_refl canon) canon_gone) in
      record {
        slot = new;
        there = rw slots (get_elem?-set_self docs i new small);
        used = refl;
        normal = refl;
        by_normal_form = rw (found, doc_find) refl;
        by_uri = elim (Bool-cases (str_eq canon uri)) [
          | inl same ↦
              let direct : find_uri uri docs' ≡ some i =
                subst (λ (x : Bytes). find_uri x docs' ≡ some i) ((str_eq_iff canon uri).0 same)
                  found in
              rw (direct, doc_find) refl
          | inr other ↦
              let missed : find_uri uri docs' ≡ none =
                rw slots (find_uri-set_other uri docs i new other gone) in
              rw (missed, doc_find, other) found
        ];
      }
