-- ===== src/Packfile/Scattered/Batches.antt =====
-- packfile/reader.go, ReadItems: the batches cover the positions.
use event_analysis.Prelude.{
  ℕ, ◌+◌, ◌-◌, ◌/◌, ◌≤◌, ◌<◌, ◌≡◌, ◌⊎◌, inl, inr, refl, ap, subst, arith, List, [], ◌∷◌, ◌++◌,
  length, All, All-append, All_weaken, Bool, true, false, ◌&&◌, ok, ◌==◌, leb, leb→le, ==_iff,
  Bool-cases, append_assoc, length-append,
}
use Prim.Native.Nat.{max}
use event_analysis.Prelude.Slices.{index}
use event_analysis.Packfile.{Error}
use event_analysis.Packfile.Reader.{Reader}
use event_analysis.Packfile.Range.{read_buf_size}
use event_analysis.Packfile.Scattered.{
  IoBatch, Cutting, batch_of, record_bytes, joins, joined, fresh, cut_batches, batches_of,
}

both : (a b : Bool) → (a && b) ≡ true → (a ≡ true) × (b ≡ true)
both true b h = (refl, h)
both false b h = absurd (impossible h)
  where
    impossible : false ≡ true → ⊥
    impossible e = cc

module _ (k : ℕ) (at : ℕ → ℕ) (n : ℕ) where
  -- A batch's positions lie in its records, and these are one record or fit the buffer.
  unfoldable pub IsBatch : IoBatch → List ℕ → Type 0
  IsBatch b positions =
      All (λ p. (b.first_record ≤ p / k) × (p / k ≤ b.last_record)) positions
      × (b.first_record ≤ b.last_record)
      × (b.last_record < n)
      × ((b.last_record ≡ b.first_record)
          ⊎ (at (b.last_record + 1) - at b.first_record ≤ read_buf_size))

  -- The batches take the positions from the index `i` on one part after another.
  unfoldable pub Covers : ℕ → List IoBatch → List ℕ → Type 0
  Covers i [] positions = positions ≡ []
  Covers i (b ∷ batches) positions =
      (front : List ℕ) × (back : List ℕ) × (positions ≡ front ++ back)
      × (b.idx_start ≡ i)
      × (b.idx_end ≡ i + length front)
      × (0 < length front)
      × IsBatch b front
      × Covers b.idx_end batches back

  -- The state of the loop, with the positions that the current batch has so far.
  record Open (s : Cutting) (taken : List ℕ) : Type 0 where
    some_taken : 0 < length taken
    inside : All (λ p. (s.first_rec ≤ p / k) × (p / k ≤ s.last_rec)) taken
    ordered : s.first_rec ≤ s.last_rec
    known : s.last_rec < n
    size : s.batch_bytes ≡ at (s.last_rec + 1) - at s.first_rec
    fits : (s.last_rec ≡ s.first_rec) ⊎ (s.batch_bytes ≤ read_buf_size)

  module _ (offsets : List ℕ) (indexed : (j : ℕ) → j ≤ n → index {E = Error} offsets j ≡ ok (at j))
      (rising : (i j : ℕ) → i ≤ j → at i ≤ at j) where
    record_bytes_lem : (j : ℕ) → j < n → record_bytes offsets j ≡ ok (at (j + 1) - at j)
    unfolding record_bytes
    record_bytes_lem j below =
        rw (indexed (j + 1) (omega (arith, below)), indexed j (omega (arith, below))) refl

    Open-same :
        (s : Cutting) (taken : List ℕ) (p : ℕ)
        → Open s taken
        → p / k ≡ s.last_rec
        → Open s (taken ++ (p ∷ []))
    Open-same s taken p v same = record {
      some_taken = omega (arith, length-append taken (p ∷ []));
      inside =
          All-append _ taken (p ∷ []) v.inside
            ((omega (arith, same, v.ordered), omega (arith, same)), tt);
      ordered = v.ordered;
      known = v.known;
      size = v.size;
      fits = v.fits;
    }

    Open-joined :
        (s : Cutting) (taken : List ℕ) (p : ℕ)
        → Open s taken
        → p / k ≡ s.last_rec + 1
        → p / k < n
        → s.batch_bytes + (at (p / k + 1) - at (p / k)) ≤ read_buf_size
        → Open (joined s (p / k) (at (p / k + 1) - at (p / k))) (taken ++ (p ∷ []))
    unfolding joined
    Open-joined s taken p v next below small = record {
      some_taken = omega (arith, length-append taken (p ∷ []));
      inside =
          All-append _ taken (p ∷ [])
            (All_weaken _ (λ q. (s.first_rec ≤ q / k) × (q / k ≤ p / k)) taken
              (λ q h. (h.0, omega (arith, h.1, next))) v.inside)
            ((omega (arith, next, v.ordered), omega arith), tt);
      ordered = omega (arith, next, v.ordered);
      known = below;
      size = omega (
        arith,
        v.size,
        ap at next,
        rising s.first_rec (s.last_rec + 1) (omega (arith, v.ordered)),
        rising (p / k) (p / k + 1) (omega arith),
      );
      fits = inr small;
    }

    Open-fresh :
        (i p : ℕ) → p / k < n → Open (fresh i (p / k) (at (p / k + 1) - at (p / k))) (p ∷ [])
    unfolding fresh
    Open-fresh i p below = record {
      some_taken = omega arith;
      inside = ((omega arith, omega arith), tt);
      ordered = omega arith;
      known = below;
      size = refl;
      fits = inl refl;
    }

    closed :
        (s : Cutting) (i : ℕ) (taken back : List ℕ) (rest : List IoBatch)
        → Open s taken
        → i ≡ s.batch_idx_start + length taken
        → Covers i rest back
        → Covers s.batch_idx_start (batch_of s i ∷ rest) (taken ++ back)
    unfolding Covers IsBatch batch_of
    closed s i taken back rest v here h = (
      taken,
      back,
      refl,
      refl,
      here,
      v.some_taken,
      (
        v.inside,
        v.ordered,
        v.known,
        elim v.fits [ inl one ↦ inl one | inr small ↦ inr (omega (arith, small, v.size)) ],
      ),
      h,
    )

    joins-true :
        (max_per_batch : ℕ) (s : Cutting) (i p bytes : ℕ)
        → joins max_per_batch s i p bytes ≡ true
        → (p ≡ s.last_rec + 1) × (s.batch_bytes + bytes ≤ read_buf_size)
    unfolding joins
    joins-true max_per_batch s i p bytes h =
        let (next, rest) = both (p == s.last_rec + 1) _ h in
        let (small, few) = both (leb (s.batch_bytes + bytes) read_buf_size) _ rest in
        ((==_iff p (s.last_rec + 1)).0 next, leb→le _ _ small)

    cut_batches-Covers :
        (max_per_batch : ℕ) (s : Cutting) (i : ℕ) (taken : List ℕ) (positions : List ℕ)
        → Open s taken
        → i ≡ s.batch_idx_start + length taken
        → All (λ p. p / k < n) positions
        → (batches : List IoBatch) × (cut_batches offsets k max_per_batch s i positions
            ≡ ok batches)
          × Covers s.batch_idx_start batches (taken ++ positions)
    unfolding cut_batches joined fresh Covers
    cut_batches-Covers max_per_batch s i taken [] v here below =
        (batch_of s i ∷ [], refl, closed s i taken [] [] v here refl)
    cut_batches-Covers max_per_batch s i taken (p ∷ positions) v here below =
        let bytes : ℕ = at (p / k + 1) - at (p / k) in
        let more : length (taken ++ (p ∷ [])) ≡ length taken + 1 = length-append taken (p ∷ []) in
        elim (Bool-cases (p / k == s.last_rec)) [
          | inl same ↦
              let (batches, made, covers) =
                cut_batches-Covers max_per_batch s (i + 1) (taken ++ (p ∷ [])) positions
                  (Open-same s taken p v ((==_iff (p / k) s.last_rec).0 same))
                  (omega (arith, here, more)) below.1 in
              (
                batches,
                rw same made,
                subst (Covers s.batch_idx_start batches) (append_assoc taken (p ∷ []) positions)
                    covers,
              )
          | inr away ↦ elim (Bool-cases (joins max_per_batch s i (p / k) bytes)) [
            | inl joining ↦
                let (next, small) = joins-true max_per_batch s i (p / k) bytes joining in
                let (batches, made, covers) =
                  cut_batches-Covers max_per_batch (joined s (p / k) bytes) (i + 1)
                    (taken ++ (p ∷ [])) positions (Open-joined s taken p v next below.0 small)
                    (omega (arith, here, more)) below.1 in
                (
                  batches,
                  rw (away, record_bytes_lem (p / k) below.0, joining) made,
                  subst (Covers s.batch_idx_start batches) (append_assoc taken (p ∷ []) positions)
                      covers,
                )
            | inr apart ↦
                let (batches, made, covers) =
                  cut_batches-Covers max_per_batch (fresh i (p / k) bytes) (i + 1) (p ∷ [])
                    positions (Open-fresh i p below.0) (omega arith) below.1 in
                (
                  batch_of s i ∷ batches,
                  rw (away, record_bytes_lem (p / k) below.0, apart, made) refl,
                  closed s i taken (p ∷ positions) batches v here covers,
                )
          ]
        ]

module _ (r : Reader) (concurrency : ℕ) (at : ℕ → ℕ) (n : ℕ)
    (indexed : (j : ℕ) → j ≤ n → index {E = Error} r.offsets j ≡ ok (at j))
    (rising : (i j : ℕ) → i ≤ j → at i ≤ at j) where
  -- For a reader whose offsets have the values of a function that does not decrease, for records up to
  -- `n`, any concurrency, and positions in records below `n`: `ReadItems` cuts the positions into
  -- batches, in order and without a gap, each of at least one position, all of them in records from
  -- the batch's first to its last, which is below `n`, where the batch has one record or its bytes fit
  -- the read buffer.
  pub batches_of-Covers :
      (positions : List ℕ)
      → All (λ p. p / r.items_per_record < n) positions
      → (batches : List IoBatch) × (batches_of r concurrency positions ≡ ok batches)
        × Covers r.items_per_record at n 0 batches positions
  unfolding batches_of Covers fresh
  batches_of-Covers [] below = ([], refl, refl)
  batches_of-Covers (p ∷ positions) below =
      let k = r.items_per_record in
      let (batches, made, covers) =
        cut_batches-Covers k at n r.offsets indexed rising
          (max 1 ((length (p ∷ positions) + concurrency - 1) / concurrency))
          (fresh 0 (p / k) (at (p / k + 1) - at (p / k))) 1 (p ∷ []) positions
          (Open-fresh k at n r.offsets indexed rising 0 p below.0) refl below.1 in
      (batches, rw (record_bytes_lem k at n r.offsets indexed rising (p / k) below.0) made, covers)
