-- ===== src/Packfile/Lookup.antt =====
-- Which record of a packfile holds an item, and where in it (packfile/reader.go, ReadItem).
use event_analysis.Prelude.{
  ℕ, zero, suc, ◌+◌, ◌-◌, ◌*◌, ◌/◌, ◌<◌, ◌≡◌, ◌⊎◌, inl, inr, refl, sym, ap, ◌∙◌, arith,
}
use event_analysis.Prelude.{
  List, [], ◌∷◌, ◌++◌, map, length, All, get_elem?, none, some, ltb, ok, append_assoc,
  length-append, get_elem?-append_left, get_elem?-append_right, ne→==_false, eq→==, lt→ltb,
  le→ltb_false, lt→leb_false, Bool-cases,
}
use event_analysis.Packfile.Decoder.{items_in_record, records_for}
use event_analysis.Packfile.Reader.{check_counts, expected_records}
use event_analysis.Packfile.Writer.Invariant.{Records, items_of}
use mathlib.Core.List.{flatten}
use native.Mathlib.Nat.{
  mod-eq_of_lt, mul-add-div_right, mul-add-mod_self_right, div-eq_of_lt, suc-mul, zero-mod,
  add-div_right, zero-mul,
}

-- The record at `j` holds the item at `m`; it is full, or the last.
pub record Found (k : ℕ) (records last : Records) (pending : List (List ℕ)) (j m : ℕ) (it : List ℕ)
    : Type 0 where
  pub found : List (List ℕ) × List ℕ
  pub at : get_elem? (records ++ last) j ≡ some found
  pub holds : get_elem? found.0 m ≡ some it
  pub counted :
      ((j < length records) × (length found.0 ≡ k))
      ⊎ ((j ≡ length records) × (length found.0 ≡ length pending))

pub some_lt : {A : Type 0} (xs : List A) (i : ℕ) {x : A} → get_elem? xs i ≡ some x → i < length xs
some_lt {A = A} [] i e = absurd (not_some e)
  where
    not_some : {x : A} → none ≡ some x → ⊥
    not_some e = cc
some_lt (x ∷ xs) zero e = omega arith
some_lt (x ∷ xs) (suc i) e = omega (arith, some_lt xs i e)

module _ (k : ℕ) (last : Records) (pending : List (List ℕ)) (short : length pending < k)
    (whole : (i : ℕ) (it : List ℕ)
      → get_elem? pending i ≡ some it
      → (r : List (List ℕ) × List ℕ) × (get_elem? last 0 ≡ some r) × (r.0 ≡ pending)) where
  pub find :
      (records : Records) (j m : ℕ) {it : List ℕ}
      → All (λ r. length r.0 ≡ k) records
      → m < k
      → get_elem? (items_of records pending) (j * k + m) ≡ some it
      → Found k records last pending j m it
  unfolding flatten
  find [] zero m {it} full h e =
      let e' = ap (get_elem? pending) (omega arith) ∙ e in
      let (r, at, same) = whole m it e' in
      record {
        found = r;
        at = at;
        holds = ap (λ t. get_elem? t m) same ∙ e';
        counted = inr (omega arith, ap length same);
      }
  find [] (suc j) m full h e =
      absurd (omega (arith, some_lt pending (suc j * k + m) e, suc-mul j k))
  find (r ∷ records) zero m full h e = record {
    found = r;
    at = refl;
    holds =
        sym (get_elem?-append_left r.0 (items_of records pending) m (omega (arith, full.0)))
        ∙ ap (λ t. get_elem? t m)
            (sym (append_assoc r.0 (flatten (map (λ r. r.0) records)) pending))
        ∙ ap (get_elem? (items_of (r ∷ records) pending)) (omega arith)
        ∙ e;
    counted = inl (omega arith, full.0);
  }
  find (r ∷ records) (suc j) m {it} full h e =
      let f = find records j m full.1 h (
        sym (get_elem?-append_right r.0 (items_of records pending) (j * k + m) k full.0)
        ∙ ap (λ t. get_elem? t (k + (j * k + m)))
            (sym (append_assoc r.0 (flatten (map (λ r. r.0) records)) pending))
        ∙ ap (get_elem? (items_of (r ∷ records) pending)) (omega (arith, suc-mul j k))
        ∙ e) in
      record {
        found = f.found;
        at = f.at;
        holds = f.holds;
        counted = elim f.counted [
          | inl (lt, full_one) ↦ inl (omega arith, full_one)
          | inr (end, short_one) ↦ inr (omega arith, short_one)
        ];
      }

-- Full records only, and a rest of `p` items.
records_for-whole : (q k : ℕ) → 0 < k → records_for (q * k + 0) k ≡ q
records_for-whole q k h =
    ap (λ t. t / k) (omega arith)
    ∙ mul-add-div_right h q (k - 1)
    ∙ ap (λ t. q + t) (div-eq_of_lt (omega arith))
    ∙ omega arith

records_for-rest : (q p k : ℕ) → 0 < p → p < k → records_for (q * k + p) k ≡ q + 1
records_for-rest q p k some_items h =
    ap (λ t. t / k) regroup
    ∙ mul-add-div_right (omega arith) q (p - 1 + k)
    ∙ ap (λ t. q + t)
        (add-div_right (p - 1) (omega arith) ∙ ap (λ t. t + 1) (div-eq_of_lt (omega arith)))
  where
    regroup : q * k + p + k - 1 ≡ q * k + (p - 1 + k)
    regroup = omega arith

-- How many items the decoder expects in a record, from the counts.
pub items_in_record-full : (q p k j : ℕ) → p < k → j < q → items_in_record (q * k + p) k j ≡ ok k
unfolding items_in_record
items_in_record-full zero p k j h lt = absurd (omega arith)
items_in_record-full (suc q) zero k j h lt =
    rw
      (
        ne→==_false (suc q * k + 0) 0 (omega (arith, suc-mul q k)),
        ne→==_false k 0 (omega arith),
        records_for-whole (suc q) k h,
        lt→leb_false (suc q) j lt,
        mul-add-mod_self_right (suc q) k 0,
        zero-mod k,
      )
      (elim (Bool-cases (ltb j (suc q - 1))) [ inl t ↦ rw t refl | inr f ↦ rw f refl ])
items_in_record-full (suc q) (suc p) k j h lt =
    rw
      (
        ne→==_false (suc q * k + suc p) 0 (omega arith),
        ne→==_false k 0 (omega arith),
        records_for-rest (suc q) (suc p) k (omega arith) h,
        lt→leb_false (suc q + 1) j (omega arith),
        lt→ltb j (suc q + 1 - 1) (omega arith),
      )
      refl

pub items_in_record-last : (q p k : ℕ) → p < k → 0 < p → items_in_record (q * k + p) k q ≡ ok p
unfolding items_in_record
items_in_record-last q p k h some_items =
    rw
      (
        ne→==_false (q * k + p) 0 (omega arith),
        ne→==_false k 0 (omega arith),
        records_for-rest q p k some_items h,
        lt→leb_false (q + 1) q (omega arith),
        le→ltb_false q (q + 1 - 1) (omega arith),
        mul-add-mod_self_right q k p,
        mod-eq_of_lt h,
        ne→==_false p 0 (omega arith),
      )
      refl

-- The trailer's counts agree.
pub check_counts-rest : (q p k : ℕ) → 0 < p → p < k → check_counts (q * k + p) k (q + 1) ≡ ok tt
unfolding check_counts expected_records
check_counts-rest q p k some_items h =
    rw
      (
        ne→==_false k 0 (omega arith),
        lt→ltb 0 k (omega arith),
        ne→==_false (q * k + p) 0 (omega arith),
        records_for-rest q p k some_items h,
        eq→== (q + 1) (q + 1) refl,
      )
      refl

pub check_counts-whole : (q k : ℕ) → 0 < k → check_counts (q * k + 0) k q ≡ ok tt
unfolding check_counts expected_records
check_counts-whole zero k h = rw (ne→==_false k 0 (omega arith), lt→ltb 0 k h, zero-mul k) refl
check_counts-whole (suc q) k h =
    rw
      (
        ne→==_false k 0 (omega arith),
        lt→ltb 0 k h,
        ne→==_false (suc q * k + 0) 0 (omega (arith, suc-mul q k)),
        records_for-whole (suc q) k h,
        eq→== (suc q) (suc q) refl,
      )
      refl

pub length-full :
    (records : Records) (k : ℕ)
    → All (λ r. length r.0 ≡ k) records
    → length (flatten (map (λ r. r.0) records)) ≡ length records * k
unfolding flatten
length-full [] k full = sym (zero-mul k)
length-full (r ∷ records) k full = omega (
  arith,
  length-append r.0 (flatten (map (λ r. r.0) records)),
  full.0,
  length-full records k full.1,
  suc-mul (length records) k,
)
