-- ===== src/Packfile/Writer/Runs.antt =====
-- Appending many items, one after another, to a writer of packfile/writer.go.
use event_analysis.Prelude.{ℕ, ◌+◌, ◌^◌, ◌<◌, ◌≡◌, refl, sym, ap, subst, ◌∙◌, arith}
use event_analysis.Prelude.{
  List, [], ◌∷◌, ◌++◌, map, length, All, ok, err, panicked, append_assoc, append-nil, length-append,
}
use event_analysis.Zstd
use event_analysis.Packfile.{RecordFormat}
use event_analysis.Packfile.Writer.{Writer, Outcome, and_then, append_item}
use event_analysis.Packfile.Writer.Invariant.{IsBlock, Records, items_of, IsWriting}
use event_analysis.Packfile.Writer.Append.{append_item-short, append_item-full}
use mathlib.Core.List.{flatten}

-- A caller's loop over `AppendItem`, which stops at the first error.
unfoldable pub append_all : Zstd.Library → Writer → List (List ℕ) → Outcome
append_all z w [] = (w, ok tt)
append_all z w (it ∷ items) = and_then (append_item z w (it ∷ [])) (λ w'. append_all z w' items)

and_then_assoc :
    (o : Outcome) (f g : Writer → Outcome)
    → and_then o (λ w. and_then (f w) g) ≡ and_then (and_then o f) g
unfolding and_then
and_then_assoc (w, ok u) f g = refl
and_then_assoc (w, err e) f g = refl
and_then_assoc (w, panicked) f g = refl

pub and_then-ext :
    (o : Outcome) (f g : Writer → Outcome)
    → ((w : Writer) → f w ≡ g w)
    → and_then o f ≡ and_then o g
unfolding and_then
and_then-ext (w, ok u) f g h = h w
and_then-ext (w, err e) f g h = refl
and_then-ext (w, panicked) f g h = refl

pub append_all-append :
    (z : Zstd.Library) (w : Writer) (xs ys : List (List ℕ))
    → append_all z w (xs ++ ys) ≡ and_then (append_all z w xs) (λ w'. append_all z w' ys)
unfolding append_all and_then
append_all-append z w [] ys = refl
append_all-append z w (x ∷ xs) ys =
    and_then-ext (append_item z w (x ∷ [])) _ _ (λ w'. append_all-append z w' xs ys)
    ∙ and_then_assoc (append_item z w (x ∷ [])) (λ w'. append_all z w' xs)
        (λ w'. append_all z w' ys)

abbrev pub Small : List ℕ → Type 0
Small it = length it < 2 ^ 32

module _ (z : Zstd.Library) (format : RecordFormat) (k : ℕ) where
  -- The run ends in a writer with these records and these pending items.
  abbrev pub Ran : Writer → List (List ℕ) → ℕ → Records → List (List ℕ) → Type 0
  Ran w items n records pending =
      (w' : Writer) × (append_all z w items ≡ (w', ok tt))
      × IsWriting z format k w' n records pending

  one_short :
      (w : Writer) (n : ℕ) (records : Records) (pending : List (List ℕ)) (it : List ℕ)
      → IsWriting z format k w n records pending
      → Small it
      → length pending + 1 < k
      → (w' : Writer) × (append_item z w (it ∷ []) ≡ (w', ok tt))
        × IsWriting z format k w' (n + 1) records (pending ++ (it ∷ []))
  unfolding flatten
  one_short w n records pending it v small room =
      let (w', e, v') =
        append_item-short z format k w n records pending v (it ∷ []) (omega arith)
          (subst Small (sym (append-nil it)) small) room in
      (
        w',
        e,
        subst (λ t. IsWriting z format k w' (n + 1) records (pending ++ (t ∷ []))) (append-nil it)
            v',
      )

  one_full :
      (w : Writer) (n : ℕ) (records : Records) (pending : List (List ℕ)) (it block : List ℕ)
      → IsWriting z format k w n records pending
      → Small it
      → length pending + 1 ≡ k
      → IsBlock z format k (pending ++ (it ∷ [])) block
      → (w' : Writer) × (append_item z w (it ∷ []) ≡ (w', ok tt))
        × IsWriting z format k w' (n + 1) (records ++ ((pending ++ (it ∷ []), block) ∷ [])) []
  unfolding flatten
  one_full w n records pending it block v small full made =
      let (w', e, v') =
        append_item-full z format k w n records pending v (it ∷ []) (omega arith)
          (subst Small (sym (append-nil it)) small) block full
          (subst (λ t. IsBlock z format k (pending ++ (t ∷ [])) block) (sym (append-nil it))
            made) in
      (
        w',
        e,
        subst
            (λ t.
              IsWriting z format k w' (n + 1) (records ++ ((pending ++ (t ∷ []), block) ∷ [])) [])
            (append-nil it) v',
      )

  -- Items that do not complete a record stay pending.
  pub fill :
      (w : Writer) (n : ℕ) (records : Records) (pending items : List (List ℕ))
      → IsWriting z format k w n records pending
      → All Small items
      → length pending + length items < k
      → Ran w items (n + length items) records (pending ++ items)
  unfolding append_all and_then
  fill w n records pending [] v small room = (
    w,
    refl,
    subst (λ m. IsWriting z format k w m records (pending ++ [])) (omega arith)
        (subst (IsWriting z format k w n records) (sym (append-nil pending)) v),
  )
  fill w n records pending (it ∷ items) v small room =
      let (w1, e1, v1) = one_short w n records pending it v small.0 (omega arith) in
      let (w2, e2, v2) =
        fill w1 (n + 1) records (pending ++ (it ∷ [])) items v1 small.1
          (omega (arith, length-append pending (it ∷ []))) in
      (
        w2,
        rw (e1, e2) refl,
        subst (λ m. IsWriting z format k w2 m records (pending ++ (it ∷ items))) (omega arith)
            (subst (IsWriting z format k w2 (n + 1 + length items) records)
              (append_assoc pending (it ∷ []) items) v2),
      )

  -- Items that complete a record write it.
  fill_record :
      (w : Writer) (n : ℕ) (records : Records) (pending : List (List ℕ)) (it : List ℕ)
      (items : List (List ℕ)) (block : List ℕ)
      → IsWriting z format k w n records pending
      → All Small (it ∷ items)
      → length pending + length (it ∷ items) ≡ k
      → IsBlock z format k (pending ++ (it ∷ items)) block
      → Ran w
          (it ∷ items)
          (n + length (it ∷ items))
          (records ++ ((pending ++ (it ∷ items), block) ∷ []))
          []
  unfolding append_all and_then
  fill_record w n records pending it [] block v small full made =
      let (w1, e1, v1) = one_full w n records pending it block v small.0 (omega arith) made in
      (w1, rw e1 refl, v1)
  fill_record w n records pending it (it' ∷ items) block v small full made =
      let (w1, e1, v1) = one_short w n records pending it v small.0 (omega arith) in
      let (w2, e2, v2) =
        fill_record w1 (n + 1) records (pending ++ (it ∷ [])) it' items block v1 small.1
          (omega (arith, length-append pending (it ∷ [])))
          (subst (λ t. IsBlock z format k t block)
            (sym (append_assoc pending (it ∷ []) (it' ∷ items))) made) in
      (
        w2,
        rw e1 e2,
        subst
            (λ m.
              IsWriting z format k w2 m (records ++ ((pending ++ (it ∷ (it' ∷ items)), block) ∷ []))
                [])
            (omega arith)
            (subst
              (λ t.
                IsWriting z format k w2 (n + 1 + length (it' ∷ items))
                  (records ++ ((t, block) ∷ [])) [])
              (append_assoc pending (it ∷ []) (it' ∷ items)) v2),
      )

  -- A full record: its items, each small enough, and its block.
  abbrev pub IsFull : List (List ℕ) × List ℕ → Type 0
  IsFull r = (length r.0 ≡ k) × All Small r.0 × IsBlock z format k r.0 r.1

  -- The items of full records write those records.
  pub fill_records :
      (w : Writer) (n : ℕ) (records more : Records)
      → 0 < k
      → IsWriting z format k w n records []
      → All IsFull more
      → Ran w
          (flatten (map (λ r. r.0) more))
          (n + length (flatten (map (λ r. r.0) more)))
          (records ++ more)
          []
  unfolding flatten append_all and_then
  fill_records w n records [] some_room v full = (
    w,
    refl,
    subst (λ m. IsWriting z format k w m (records ++ []) []) (omega arith)
        (subst (λ t. IsWriting z format k w n t []) (sym (append-nil records)) v),
  )
  fill_records w n records (([], block) ∷ more) some_room v full = absurd (omega (arith, full.0.0))
  fill_records w n records ((it ∷ items, block) ∷ more) some_room v full =
      let (w1, e1, v1) =
        fill_record w n records [] it items block v full.0.1 (omega (arith, full.0.0)) full.0.2 in
      let (w2, e2, v2) =
        fill_records w1 (n + length (it ∷ items)) (records ++ ((it ∷ items, block) ∷ [])) more
          some_room v1 full.1 in
      (
        w2,
        append_all-append z w (it ∷ items) (flatten (map (λ r. r.0) more))
            ∙ ap (λ o. and_then o (λ w'. append_all z w' (flatten (map (λ r. r.0) more)))) e1
            ∙ e2,
        subst (λ m. IsWriting z format k w2 m (records ++ ((it ∷ items, block) ∷ more)) [])
            (omega (arith, length-append (it ∷ items) (flatten (map (λ r. r.0) more))))
            (subst
              (λ t.
                IsWriting z format k w2
                  (n + length (it ∷ items) + length (flatten (map (λ r. r.0) more))) t [])
              (append_assoc records ((it ∷ items, block) ∷ []) more) v2),
      )

  -- The items of full records, and fewer than a record more.
  pub append_all-IsWriting :
      (w : Writer) (records : Records) (pending : List (List ℕ))
      → IsWriting z format k w 0 [] []
      → All IsFull records
      → All Small pending
      → length pending < k
      → Ran w (items_of records pending) (length (items_of records pending)) records pending
  unfolding append_all and_then
  append_all-IsWriting w records pending v full small room =
      let (w1, e1, v1) = fill_records w 0 [] records (omega arith) v full in
      let (w2, e2, v2) =
        fill w1 (0 + length (flatten (map (λ r. r.0) records))) records [] pending v1 small
          (omega arith) in
      (
        w2,
        append_all-append z w (flatten (map (λ r. r.0) records)) pending
            ∙ ap (λ o. and_then o (λ w'. append_all z w' pending)) e1
            ∙ e2,
        subst (λ m. IsWriting z format k w2 m records pending)
            (omega (arith, length-append (flatten (map (λ r. r.0) records)) pending)) v2,
      )
