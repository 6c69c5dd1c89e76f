-- ===== src/Packfile/Scattered/Round.antt =====
-- packfile/reader.go, ReadItems: a worker's round reads the items at its positions.
use event_analysis.Prelude.{
  ℕ, ◌+◌, ◌-◌, ◌*◌, ◌/◌, ◌%◌, ◌≤◌, ◌<◌, ◌≡◌, inl, inr, refl, sym, ap, ap₂, subst, ◌∙◌, arith, List,
  [], ◌∷◌, ◌++◌, length, take, drop, All, All_weaken, Option, none, some, get_elem?, ok, ◌==◌,
  ==_iff, Bool-cases, get_elem?-map, take-append_left, drop-append_left, append_assoc,
  length-append, ltb, ltb→lt, check, check-eq-ok, >>=-eq-ok,
}
use event_analysis.Prelude.Slices.{slice}
use event_analysis.Zstd
use event_analysis.Zstd.{IsLawful}
use event_analysis.Packfile.{Error}
use event_analysis.Packfile.Decoder.{Decoder}
use event_analysis.Packfile.Decoder.Items.{Holds, item_lem}
use event_analysis.Packfile.Reader.{Reader}
use event_analysis.Packfile.Writer.Invariant.{Records, blocks_of}
use event_analysis.Packfile.Lookup.{some_lt}
use event_analysis.Packfile.Range.Records.{get_some}
use event_analysis.Packfile.Range.Layout.{
  IsLaid, start_of, run_of, slice_in_batch, slice_between, start_of-add, offset_at, Decoded,
  decoded, get_elem?-take, get_elem?-drop,
}
use event_analysis.Packfile.Scattered.{
  IoBatch, batches_of, check_positions, decode_record, decoder_of,
}
use event_analysis.Packfile.Scattered.Workers.{Round, part_of, open_round, read_next}
use event_analysis.Packfile.Scattered.Batches.{IsBatch, Covers, batches_of-Covers}
use mathlib.Core.List.{flatten}
use native.Mathlib.Nat.{mod-lt, div-add-mod'}

module _ (items : List (List ℕ)) where
  -- The calls for the positions, one for each: its index, from `idx` on, and the item at it.
  abbrev pub item_or_nothing : Option (List ℕ) → List ℕ
  item_or_nothing none = []
  item_or_nothing (some it) = it

  unfoldable pub calls_of : ℕ → List ℕ → List (ℕ × List ℕ)
  calls_of idx [] = []
  calls_of idx (p ∷ positions) =
      (idx, item_or_nothing (get_elem? items p)) ∷ calls_of (idx + 1) positions

  pub calls_of-append :
      (idx : ℕ) (ps qs : List ℕ)
      → calls_of idx (ps ++ qs) ≡ calls_of idx ps ++ calls_of (idx + length ps) qs
  unfolding calls_of
  calls_of-append idx [] qs = ap (λ t. calls_of t qs) (omega arith)
  calls_of-append idx (p ∷ ps) qs =
      ap (λ t. (idx, item_or_nothing (get_elem? items p)) ∷ t)
        (calls_of-append (idx + 1) ps qs
          ∙ ap (λ t. calls_of (idx + 1) ps ++ calls_of t qs) (omega arith))

All-parts : (P : ℕ → Type 0) (xs ys : List ℕ) → All P (xs ++ ys) → All P xs × All P ys
All-parts P [] ys h = (tt, h)
All-parts P (x ∷ xs) ys h = let (front, back) = All-parts P xs ys h.1 in ((h.0, front), back)

valid_below :
    (n : ℕ) (positions : List ℕ) → check_positions n positions ≡ ok tt → All (λ p. p < n) positions
unfolding check_positions
valid_below n [] h = tt
valid_below n (p ∷ []) h = (ltb→lt p n (check-eq-ok {E = Error} _ h), tt)
valid_below n (p ∷ (q ∷ positions)) h =
    let (done, first, next) = >>=-eq-ok (check {E = Error} (ltb p n)) _ h in
    let (done', order, rest) = >>=-eq-ok (check {E = Error} (ltb p q)) _ next in
    (ltb→lt p n (check-eq-ok {E = Error} _ first), valid_below n (q ∷ positions) rest)

module _ (z : Zstd.Library) (law : IsLawful z) (r : Reader) (items : List (List ℕ))
    (records : Records) (laid : IsLaid z r items records) where
  abbrev k : ℕ
  k = r.items_per_record

  -- A decoder that holds the items of the record `j`.
  HoldsRecord : ℕ → Decoder → Type 0
  HoldsRecord j rd = (its : List (List ℕ)) × Holds rd its × (its ≡ take k (drop (j * k) items))

  -- What the round knows of the record that is decoded already.
  Known : Option (ℕ × Decoder) → Type 0
  Known none = Unit {0}
  Known (some (j, rd)) = HoldsRecord j rd

  in_file : (p : ℕ) → p < length items → p / k * k < length items
  in_file p below = omega (arith, div-add-mod' p k, below)

  module _ (first last : ℕ) where
    abbrev bytes : List ℕ
    bytes = run_of (blocks_of records) first (last + 1 - first)

    abbrev from : ℕ
    from = start_of (blocks_of records) first

    decode_record_lem :
        (p : ℕ)
        → p < length items
        → first ≤ p / k
        → p / k ≤ last
        → (rd : Decoder) × (decode_record z r bytes from (p / k) ≡ ok rd) × HoldsRecord (p / k) rd
    unfolding decode_record HoldsRecord
    decode_record_lem p below lo hi =
        let j : ℕ = p / k in
        let d : Decoded z law r items records laid j =
          decoded z law r items records laid j (in_file p below) in
        let same : first + (j - first) ≡ j = omega (arith, lo) in
        let inside : j < length records = some_lt records j d.at in
        (
          d.rd,
          rw
              (
                offset_at z law r items records laid j (omega (arith, inside)),
                offset_at z law r items records laid (j + 1) (omega (arith, inside)),
                subst
                    (λ t.
                      slice {E = Error} bytes (start_of (blocks_of records) t - from)
                        (start_of (blocks_of records) (t + 1) - from)
                      ≡ ok d.found.1)
                    same
                    (slice_in_batch (blocks_of records) first (last + 1 - first) (j - first)
                      (omega (arith, lo, hi))
                      (ap (get_elem? (blocks_of records)) same
                        ∙ get_elem?-map (λ r. r.1) records j d.at)),
              )
              d.decodes,
          (d.found.0, d.holds, d.slice_of),
        )

    decoder_of_lem :
        (prev : Option (ℕ × Decoder)) (p : ℕ)
        → Known prev
        → p < length items
        → first ≤ p / k
        → p / k ≤ last
        → (rd : Decoder) × (decoder_of z r bytes from prev (p / k) ≡ ok rd) × HoldsRecord (p / k) rd
    unfolding decoder_of Known
    decoder_of_lem none p known below lo hi = decode_record_lem p below lo hi
    decoder_of_lem (some (j, rd)) p known below lo hi = elim (Bool-cases (p / k == j)) [
      | inl same ↦
          (rd, rw same refl, subst (λ t. HoldsRecord t rd) (sym ((==_iff (p / k) j).0 same)) known)
      | inr away ↦
          let (rd', made, holds) = decode_record_lem p below lo hi in (rd', rw away made, holds)
    ]

  -- A worker's buffer holds the records `first` to `last`, which have its positions.
  pub record IsGoodRound (round : Round) : Type 0 where
    first : ℕ
    last : ℕ
    buffer : round.read_buf ≡ bytes first last
    begins : round.read_start ≡ from first last
    known : Known round.prev
    below : All (λ p. p < length items) round.positions
    within : All (λ p. (first ≤ p / k) × (p / k ≤ last)) round.positions

  pub read_next_lem :
      (round : Round) (p : ℕ) (ps : List ℕ)
      → IsGoodRound round
      → round.positions ≡ p ∷ ps
      → (made : ℕ × List ℕ) × (round' : Round) × (read_next z r round p ps ≡ ok (made, round'))
        × IsGoodRound round'
        × (calls_of items round.idx round.positions
            ≡ made ∷ calls_of items round'.idx round'.positions)
        × (round'.positions ≡ ps)
  unfolding read_next calls_of Known HoldsRecord
  read_next_lem round p ps v e =
      let below : All (λ p. p < length items) (p ∷ ps) =
        subst (All (λ p. p < length items)) e v.below in
      let within : All (λ p. (v.first ≤ p / k) × (p / k ≤ v.last)) (p ∷ ps) =
        subst (All (λ p. (v.first ≤ p / k) × (p / k ≤ v.last))) e v.within in
      let (it, found) = get_some items p below.0 in
      let (rd, made, holding) =
        decoder_of_lem v.first v.last round.prev p v.known below.0 (within.0).0 (within.0).1 in
      let (its, holds, cut) = holding in
      let at : get_elem? its (p % k) ≡ some it =
        ap (λ t. get_elem? t (p % k)) cut
        ∙ get_elem?-take k (drop (p / k * k) items) (p % k) (mod-lt p laid.some_room)
        ∙ get_elem?-drop (p / k * k) items (p % k)
        ∙ ap (get_elem? items) (div-add-mod' p k)
        ∙ found in
      (
        (round.idx, it),
        record round { prev = some (p / k, rd); idx = round.idx + 1; positions = ps },
        rw
            (
              ap₂ (λ t u. decoder_of z r t u round.prev (p / k)) v.buffer v.begins ∙ made,
              item_lem rd its (p % k) holds at,
            )
            refl,
        record {
          first = v.first;
          last = v.last;
          buffer = v.buffer;
          begins = v.begins;
          known = holding;
          below = below.1;
          within = within.1;
        },
        ap (calls_of items round.idx) e
            ∙ ap (λ t. (round.idx, item_or_nothing items t) ∷ calls_of items (round.idx + 1) ps)
                found,
        refl,
      )

  abbrev at_offset : ℕ → ℕ
  at_offset = start_of (blocks_of records)

  -- A batch as `ReadItems` cuts it, of these positions.
  abbrev pub IsGoodBatch : List ℕ → IoBatch → Type 0
  IsGoodBatch positions b =
      IsBatch k at_offset (length records) b (part_of positions b)
      × All (λ p. p < length items) (part_of positions b)

  pub open_round_lem :
      (positions : List ℕ) (b : IoBatch)
      → IsGoodBatch positions b
      → (round : Round) × (open_round r positions b ≡ ok round)
        × IsGoodRound round
        × (round.idx ≡ b.idx_start)
        × (round.positions ≡ part_of positions b)
  unfolding open_round IsBatch Known
  open_round_lem positions b ((within, ordered, known, fits), below) =
      let buffer : slice {E = Error} r.file (at_offset b.first_record)
            (at_offset (b.last_record + 1))
          ≡ ok (bytes b.first_record b.last_record) =
        ap (λ t. slice {E = Error} t (at_offset b.first_record) (at_offset (b.last_record + 1)))
          laid.content
        ∙ ap
            (λ t.
              slice {E = Error} (flatten (blocks_of records) ++ laid.behind)
                (at_offset b.first_record) (at_offset t))
            {y = b.first_record + (b.last_record + 1 - b.first_record)} (omega (arith, ordered))
        ∙ slice_between (blocks_of records) laid.behind b.first_record
            (b.last_record + 1 - b.first_record) in
      (
        record {
          read_buf = bytes b.first_record b.last_record;
          read_start = at_offset b.first_record;
          prev = none;
          idx = b.idx_start;
          positions = part_of positions b;
        },
        rw
            (
              offset_at z law r items records laid b.first_record (omega (arith, ordered, known)),
              offset_at z law r items records laid (b.last_record + 1) (omega (arith, known)),
              buffer,
            )
            refl,
        record {
          first = b.first_record;
          last = b.last_record;
          buffer = refl;
          begins = refl;
          known = tt;
          below = below;
          within = within;
        },
        refl,
        refl,
      )

  -- The calls for the positions of the batches.
  unfoldable pub batch_calls : List ℕ → List IoBatch → List (ℕ × List ℕ)
  batch_calls positions [] = []
  batch_calls positions (b ∷ batches) =
      calls_of items b.idx_start (part_of positions b) ++ batch_calls positions batches

  covers_lem :
      (batches : List IoBatch) (before rest : List ℕ)
      → Covers k at_offset (length records) (length before) batches rest
      → All (λ p. p < length items) rest
      → All (IsGoodBatch (before ++ rest)) batches
        × (batch_calls (before ++ rest) batches ≡ calls_of items (length before) rest)
  unfolding batch_calls Covers
  covers_lem [] before rest covers below =
      (tt, unfold calls_of in ap (calls_of items (length before)) (sym covers))
  covers_lem (b ∷ batches) before rest covers below =
      let (front, back, cut, starts, ends, some_front, is_batch, others) = covers in
      let (front_below, back_below) =
        All-parts (λ p. p < length items) front back
          (subst (All (λ p. p < length items)) cut below) in
      let part : part_of (before ++ rest) b ≡ front =
        ap (λ t. take (b.idx_end - b.idx_start) (drop b.idx_start (before ++ t))) cut
        ∙ ap (λ t. take (b.idx_end - b.idx_start) (drop t (before ++ (front ++ back)))) starts
        ∙ ap (take (b.idx_end - b.idx_start))
            (drop-append_left (length before) before (front ++ back) refl)
        ∙ take-append_left (b.idx_end - b.idx_start) front back (omega (arith, starts, ends)) in
      let whole : (before ++ front) ++ back ≡ before ++ rest =
        append_assoc before front back ∙ ap (λ t. before ++ t) (sym cut) in
      let (good, calls) =
        covers_lem batches (before ++ front) back
          (subst (λ t. Covers k at_offset (length records) t batches back)
            (ends ∙ sym (length-append before front)) others)
          back_below in
      (
        (
          (
            subst (IsBatch k at_offset (length records) b) (sym part) is_batch,
            subst (All (λ p. p < length items)) (sym part) front_below,
          ),
          subst (λ t. All (IsGoodBatch t) batches) whole good,
        ),
        ap₂ (λ t u. t ++ u) (ap₂ (calls_of items) starts part)
              (ap (λ t. batch_calls t batches) (sym whole)
                ∙ calls
                ∙ ap (λ t. calls_of items t back) (length-append before front))
            ∙ sym (calls_of-append items (length before) front back)
            ∙ ap (calls_of items (length before)) (sym cut),
      )

  rising : (i j : ℕ) → i ≤ j → at_offset i ≤ at_offset j
  rising i j h = omega (
    arith,
    start_of-add (blocks_of records) i (j - i),
    ap at_offset {x = i + (j - i)} {y = j} (omega (arith, h)),
  )

  -- The batches of valid positions.
  pub batches_lem :
      (concurrency : ℕ) (positions : List ℕ)
      → check_positions r.total_items positions ≡ ok tt
      → (batches : List IoBatch) × (batches_of r concurrency positions ≡ ok batches)
        × All (IsGoodBatch positions) batches
        × (batch_calls positions batches ≡ calls_of items 0 positions)
  batches_lem concurrency positions valid =
      let below : All (λ p. p < length items) positions =
        subst (λ t. All (λ p. p < t) positions) laid.total
          (valid_below r.total_items positions valid) in
      let records_below : All (λ p. p / k < length records) positions =
        All_weaken (λ p. p < length items) (λ p. p / k < length records) positions
          (λ p h.
            let d = decoded z law r items records laid (p / k) (in_file p h) in
            some_lt records (p / k) d.at)
          below in
      let (batches, cut, covers) =
        batches_of-Covers r concurrency at_offset (length records)
          (offset_at z law r items records laid) rising positions records_below in
      let (good, calls) = covers_lem batches [] positions covers below in
      (batches, cut, good, calls)
