-- ===== src/Packfile/Scattered/Finished.antt =====
-- packfile/reader.go, ReadItems: what the workers have done when all of them have returned.
use event_analysis.Prelude.{
  ℕ, zero, suc, ◌+◌, ◌-◌, ◌≤◌, ◌<◌, ◌≡◌, ◌⊎◌, inl, inr, refl, sym, ap, ap₂, subst, ◌∙◌, arith, List,
  [], ◌∷◌, ◌++◌, length, drop, All, All_get, All_middle, All_insert, List-cases, Option, none, some,
  get_elem?, true, false, ok, err, Result, drop_of_some, append_assoc, length-append, ok-injective,
  Bool-cases, leb, leb→le, le→leb, append-nil,
}
use event_analysis.Zstd
use event_analysis.Zstd.{IsLawful}
use event_analysis.Packfile.{Error}
use event_analysis.Packfile.Reader.{Reader}
use event_analysis.Packfile.Writer.Invariant.{Records}
use event_analysis.Packfile.Range.Records.{get_some}
use event_analysis.Packfile.Range.Layout.{IsLaid}
use event_analysis.Packfile.Scattered.{IoBatch, batches_of, check_positions}
use event_analysis.Packfile.Scattered.Workers.{
  Round, Reading, Step, leave, take_batch, call, call_failed, read_failed, done, Reach, start,
  later, all_idle, IsFinished, read_next, part_of,
}
use event_analysis.Packfile.Scattered.Round.{
  calls_of, IsGoodRound, IsGoodBatch, read_next_lem, open_round_lem, batch_calls, batches_lem,
}
use mathlib.Core.List.{Perm, perm_middle, perm_append_comm}
use mathlib.Core.List.Perm

-- A call moves from the calls to go to those that were made.
move_call :
    {A : Type 0} (calls front : List A) (made : A) (back rest : List A)
    → Perm
        (calls ++ ((front ++ (made ∷ back)) ++ rest))
        ((calls ++ (made ∷ [])) ++ ((front ++ back) ++ rest))
move_call calls front made back rest =
    subst (Perm (calls ++ ((front ++ (made ∷ back)) ++ rest)))
      (sym (append_assoc calls (made ∷ []) ((front ++ back) ++ rest)))
      (Perm.append_left calls (Perm.append_right rest (perm_middle front back)))

-- The calls of a batch move from the batches to go to the rounds.
move_batch :
    {A : Type 0} (calls busy batch rest : List A)
    → Perm (calls ++ (busy ++ (batch ++ rest))) (calls ++ ((batch ++ busy) ++ rest))
move_batch calls busy batch rest = Perm.append_left calls (
    subst (λ t. Perm t ((batch ++ busy) ++ rest)) (append_assoc busy batch rest)
      (Perm.append_right rest (perm_append_comm busy batch)))

true-false : true ≡ false → ⊥
true-false e = cc

none-some : {A : Type 0} {x : A} → none ≡ some x → ⊥
none-some e = cc

ok_err : {A : Type 0} {x : A} {e : Error} → ◌≡◌ {A = Result Error A} (ok x) (err e) → ⊥
ok_err h = cc

module _ (z : Zstd.Library) (law : IsLawful z) (r : Reader) (items : List (List ℕ))
    (records : Records) (laid : IsLaid z r items records) (positions : List ℕ)
    (batches : List IoBatch) (good : All (IsGoodBatch z law r items records laid positions) batches)
    (fn : ℕ → List ℕ → Option ℕ) (fine : (idx : ℕ) (it : List ℕ) → fn idx it ≡ none) where
  abbrev IsGood : Round → Type 0
  IsGood = IsGoodRound z law r items records laid

  abbrev calls_to_go : List IoBatch → List (ℕ × List ℕ)
  calls_to_go = batch_calls z law r items records laid positions

  -- The calls for the positions that the rounds have to go.
  round_calls : List Round → List (ℕ × List ℕ)
  round_calls [] = []
  round_calls (round ∷ rounds) = calls_of items round.idx round.positions ++ round_calls rounds

  round_calls-append :
      (xs ys : List Round) → round_calls (xs ++ ys) ≡ round_calls xs ++ round_calls ys
  unfolding round_calls
  round_calls-append [] ys = refl
  round_calls-append (x ∷ xs) ys =
      ap (λ t. calls_of items x.idx x.positions ++ t) (round_calls-append xs ys)
      ∙ sym (append_assoc (calls_of items x.idx x.positions) (round_calls xs) (round_calls ys))

  -- All calls: those that were made, those of the rounds, those of the batches to go.
  abbrev all_calls : Reading → List (ℕ × List ℕ)
  all_calls s = s.calls ++ (round_calls s.busy ++ calls_to_go (drop s.next_batch batches))

  record Inv (s : Reading) : Type 0 where
    uncancelled : s.cancelled ≡ false
    no_err : s.first_err ≡ none
    rounds : All IsGood s.busy
    share : Perm (all_calls s) (calls_to_go batches)
    alive : (0 < s.idle + length s.busy) ⊎ (length batches ≤ s.next_batch)

  drop_beyond : {A : Type 0} (n : ℕ) (xs : List A) → length xs ≤ n → drop n xs ≡ []
  drop_beyond zero [] h = refl
  drop_beyond zero (x ∷ xs) h = absurd (omega (arith, h))
  drop_beyond (suc n) [] h = refl
  drop_beyond (suc n) (x ∷ xs) h = drop_beyond n xs (omega (arith, h))

  -- What is known of a call that was read.
  IsRead : Round → (ℕ × List ℕ) × Round → Type 0
  IsRead round q =
      IsGood q.1
      × (calls_of items round.idx round.positions ≡ q.0 ∷ calls_of items q.1.idx q.1.positions)

  read_next-IsRead :
      (round : Round) (p : ℕ) (ps : List ℕ) (q : (ℕ × List ℕ) × Round)
      → IsGood round
      → round.positions ≡ p ∷ ps
      → read_next z r round p ps ≡ ok q
      → IsRead round q
  unfolding IsRead
  read_next-IsRead round p ps q h ahead read =
      let (made, round', reads, next, calls, others) =
        read_next_lem z law r items records laid round p ps h ahead in
      subst (IsRead round) (ok-injective (sym reads ∙ read)) (next, calls)

  round_calls-middle :
      (front : List Round) (round : Round) (back : List Round)
      → round_calls (front ++ (round ∷ back))
        ≡ round_calls front ++ (calls_of items round.idx round.positions ++ round_calls back)
  unfolding round_calls
  round_calls-middle front round back = round_calls-append front (round ∷ back)

  -- A batch that a worker takes.
  share_taken :
      (s : Reading) (b : IoBatch) (round : Round)
      → get_elem? batches s.next_batch ≡ some b
      → calls_of items round.idx round.positions ≡ calls_of items b.idx_start (part_of positions b)
      → Perm (all_calls s) (calls_to_go batches)
      → Perm
          (s.calls
            ++ ((calls_of items round.idx round.positions ++ round_calls s.busy)
                ++ calls_to_go (drop (s.next_batch + 1) batches)))
          (calls_to_go batches)
  unfolding batch_calls
  share_taken s b round at same h =
      Perm.trans
        (Perm.symm (
          move_batch s.calls (round_calls s.busy) (calls_of items round.idx round.positions)
            (calls_to_go (drop (s.next_batch + 1) batches))))
        (subst (λ t. Perm (s.calls ++ (round_calls s.busy ++ t)) (calls_to_go batches))
          (ap calls_to_go (
              drop_of_some batches s.next_batch at
              ∙ ap (λ t. b ∷ drop t batches) {x = suc s.next_batch} {y = s.next_batch + 1}
                  (omega arith))
            ∙ ap (λ t. t ++ calls_to_go (drop (s.next_batch + 1) batches)) (sym same))
          h)

  -- A call that a worker makes.
  share_called :
      (calls rest : List (ℕ × List ℕ)) (front : List Round) (round round' : Round)
      (back : List Round) (made : ℕ × List ℕ)
      → calls_of items round.idx round.positions ≡ made ∷ calls_of items round'.idx round'.positions
      → Perm (calls ++ (round_calls (front ++ (round ∷ back)) ++ rest)) (calls_to_go batches)
      → Perm
          ((calls ++ (made ∷ [])) ++ (round_calls (front ++ (round' ∷ back)) ++ rest))
          (calls_to_go batches)
  share_called calls rest front round round' back made next h =
      subst (λ t. Perm ((calls ++ (made ∷ [])) ++ (t ++ rest)) (calls_to_go batches))
        (sym (round_calls-middle front round' back))
        (Perm.trans
          (Perm.symm (
            move_call calls (round_calls front) made
              (calls_of items round'.idx round'.positions ++ round_calls back) rest))
          (subst (λ t. Perm (calls ++ (t ++ rest)) (calls_to_go batches))
            (round_calls-middle front round back
              ∙ ap (λ t. round_calls front ++ (t ++ round_calls back)) next)
            h))

  round_calls-done :
      (front : List Round) (round : Round) (back : List Round)
      → round.positions ≡ []
      → round_calls (front ++ (round ∷ back)) ≡ round_calls (front ++ back)
  unfolding calls_of
  round_calls-done front round back no_more =
      round_calls-middle front round back
      ∙ ap (λ t. round_calls front ++ (calls_of items round.idx t ++ round_calls back)) no_more
      ∙ sym (round_calls-append front back)

  step-Inv : {s t : Reading} → Inv s → Step z r positions batches fn s t → Inv t
  unfolding round_calls IsRead
  step-Inv {s} v (leave idle e (inr stopped)) = absurd (true-false (sym stopped ∙ v.uncancelled))
  step-Inv {s} v (leave idle e (inl behind)) = record {
    uncancelled = v.uncancelled;
    no_err = v.no_err;
    rounds = v.rounds;
    share =
        subst (λ t. Perm (s.calls ++ (round_calls s.busy ++ calls_to_go t)) (calls_to_go batches))
          (drop_beyond s.next_batch batches behind
            ∙ sym (drop_beyond (s.next_batch + 1) batches (omega (arith, behind))))
          v.share;
    alive = inr (omega (arith, behind));
  }
  step-Inv {s} v (take_batch idle b round e running at opened) =
      let (round', opens, fits, begins, part) =
        open_round_lem z law r items records laid positions b
          (All_get _ batches s.next_batch good at) in
      let same : round' ≡ round = ok-injective (sym opens ∙ opened) in
      record {
        uncancelled = v.uncancelled;
        no_err = v.no_err;
        rounds = (subst IsGood same fits, v.rounds);
        share =
            share_taken s b round at
              (ap (λ t. calls_of items t.idx t.positions) (sym same)
                ∙ ap₂ (calls_of items) begins part)
              v.share;
        alive = inl (omega arith);
      }
  step-Inv {s} v (call front round round' back p ps made e ahead read returned) =
      let (one, others) = All_middle IsGood front round back (subst (All IsGood) e v.rounds) in
      let (next, calls) = read_next-IsRead round p ps (made, round') one ahead read in
      record {
        uncancelled = v.uncancelled;
        no_err = v.no_err;
        rounds = All_insert IsGood front round' back next others;
        share =
            share_called s.calls (calls_to_go (drop s.next_batch batches)) front round round' back
              made calls
              (subst
                (λ t.
                  Perm (s.calls ++ (round_calls t ++ calls_to_go (drop s.next_batch batches)))
                    (calls_to_go batches))
                e v.share);
        alive = inl (omega (arith, length-append front (round' ∷ back)));
      }
  step-Inv {s} v (call_failed front round round' back p ps made fault e ahead read returned) =
      absurd (none-some (sym (fine made.0 made.1) ∙ returned))
  step-Inv {s} v (read_failed front round back p ps fault e ahead read) =
      let (one, others) = All_middle IsGood front round back (subst (All IsGood) e v.rounds) in
      let (made, round', reads, next, calls, others') =
        read_next_lem z law r items records laid round p ps one ahead in
      absurd (ok_err (sym reads ∙ read))
  step-Inv {s} v (done front round back e no_more) =
      let (one, others) = All_middle IsGood front round back (subst (All IsGood) e v.rounds) in
      record {
        uncancelled = v.uncancelled;
        no_err = v.no_err;
        rounds = others;
        share =
            subst
              (λ t.
                Perm (s.calls ++ (t ++ calls_to_go (drop s.next_batch batches)))
                  (calls_to_go batches))
              (ap round_calls e ∙ round_calls-done front round back no_more) v.share;
        alive = inl (omega arith);
      }

  reach-Inv : {first s : Reading} → Inv first → Reach z r positions batches fn first s → Inv s
  reach-Inv v start = v
  reach-Inv v (later r step) = step-Inv (reach-Inv v r) step

  init-Inv : (concurrency : ℕ) → 0 < concurrency → Inv (all_idle concurrency batches)
  unfolding round_calls
  init-Inv concurrency some_workers = record {
    uncancelled = refl;
    no_err = refl;
    rounds = tt;
    share = Perm.refl (calls_to_go batches);
    alive = elim (Bool-cases (leb (length batches) 0)) [
      | inl empty ↦ inr (leb→le (length batches) 0 empty)
      | inr some_batches ↦ inl (ground (arith, le→leb (length batches) 0))
    ];
  }

  finished_calls : (s : Reading) → Inv s → IsFinished s → Perm s.calls (calls_to_go batches)
  unfolding round_calls batch_calls
  finished_calls s v (no_idle, no_busy) =
      let all_taken : length batches ≤ s.next_batch = elim v.alive [
        | inl alive ↦ absurd (omega (arith, alive, no_idle, ap length no_busy))
        | inr behind ↦ behind
      ] in
      subst (λ t. Perm t (calls_to_go batches))
        (ap₂ (λ t u. s.calls ++ (round_calls t ++ calls_to_go u)) no_busy
            (drop_beyond s.next_batch batches all_taken)
          ∙ append-nil s.calls)
        v.share

  -- What is left to do: a worker leaves, a round ends, a batch is taken, a call is made.
  rounds_left : List Round → ℕ
  rounds_left [] = 0
  rounds_left (round ∷ rounds) = 2 + length round.positions + rounds_left rounds

  batches_left : List IoBatch → ℕ
  batches_left [] = 0
  batches_left (b ∷ bs) = 2 + length (part_of positions b) + batches_left bs

  left : Reading → ℕ
  left s = s.idle + rounds_left s.busy + batches_left (drop s.next_batch batches)

  -- A worker that has not returned can make a step, and less is left behind it.
  next_step :
      (s : Reading)
      → Inv s
      → IsFinished s ⊎ ((t : Reading) × Step z r positions batches fn s t × (left t < left s))
  unfolding left rounds_left batches_left
  next_step s v = elim (List-cases s.busy) [
    | inr (round, rest, e) ↦
        let (one, others) = All_middle IsGood [] round rest (subst (All IsGood) e v.rounds) in
        elim (List-cases round.positions) [
          | inl no_more ↦ inr (
            record s { busy = rest; idle = s.idle + 1 },
            done [] round rest e no_more,
            omega (arith, ap rounds_left e, ap length no_more),
          )
          | inr (p, ps, ahead) ↦
              let (made, round', reads, next, calls, others') =
                read_next_lem z law r items records laid round p ps one ahead in
              inr (
                record s { busy = round' ∷ rest; calls = s.calls ++ (made ∷ []) },
                call [] round round' rest p ps made e ahead reads (fine made.0 made.1),
                omega (arith, ap rounds_left e, ap length ahead, ap length others'),
              )
        ]
    | inl no_busy ↦ elim (Bool-cases (leb s.idle 0)) [
      | inl no_idle ↦ inl (ground (arith, leb→le s.idle 0), no_busy)
      | inr some_idle ↦
          let waits : s.idle ≡ (s.idle - 1) + 1 = ground (arith, le→leb s.idle 0) in
          elim (Bool-cases (leb (length batches) s.next_batch)) [
            | inl behind ↦ inr (
              record s { next_batch = s.next_batch + 1; idle = s.idle - 1 },
              leave (s.idle - 1) waits (inl (leb→le _ _ behind)),
              omega (
                arith,
                waits,
                ap batches_left (drop_beyond s.next_batch batches (leb→le _ _ behind)),
                ap batches_left (
                    drop_beyond (s.next_batch + 1) batches
                      (omega (arith, leb→le (length batches) s.next_batch behind))),
              ),
            )
            | inr before ↦
                let (b, at) =
                  get_some batches s.next_batch
                    (ground (arith, le→leb (length batches) s.next_batch)) in
                let (round, opens, fits, begins, part) =
                  open_round_lem z law r items records laid positions b
                    (All_get _ batches s.next_batch good at) in
                inr (
                  record s {
                    next_batch = s.next_batch + 1;
                    idle = s.idle - 1;
                    busy = round ∷ s.busy;
                  },
                  take_batch (s.idle - 1) b round waits v.uncancelled at opens,
                  omega (
                    arith,
                    waits,
                    ap batches_left (drop_of_some batches s.next_batch at),
                    ap (λ t. batches_left (drop t batches)) {x = suc s.next_batch}
                        {y = s.next_batch + 1} (omega arith),
                    ap length part,
                  ),
                )
          ]
    ]
  ]

  run_on :
      (fuel : ℕ) {s t : Reading}
      → Inv t
      → left t ≤ fuel
      → Reach z r positions batches fn s t
      → (u : Reading) × Reach z r positions batches fn s u × IsFinished u
  run_on zero v enough reached = elim (next_step _ v) [
    | inl finished ↦ (_, reached, finished)
    | inr (u, step, less) ↦ absurd (omega (arith, less, enough))
  ]
  run_on (suc fuel) v enough reached = elim (next_step _ v) [
    | inl finished ↦ (_, reached, finished)
    | inr (u, step, less) ↦
        run_on fuel (step-Inv v step) (omega (arith, less, enough)) (later reached step)
  ]

module _ (z : Zstd.Library) (law : IsLawful z) (r : Reader) (items : List (List ℕ))
    (records : Records) (laid : IsLaid z r items records) (concurrency : ℕ)
    (some_workers : 0 < concurrency) (positions : List ℕ)
    (valid : check_positions r.total_items positions ≡ ok tt) (batches : List IoBatch)
    (cut : batches_of r concurrency positions ≡ ok batches) (fn : ℕ → List ℕ → Option ℕ)
    (fine : (idx : ℕ) (it : List ℕ) → fn idx it ≡ none) (s : Reading)
    (reached : Reach z r positions batches fn (all_idle concurrency batches) s) where
  good_batches :
      All (IsGoodBatch z law r items records laid positions) batches
      × (batch_calls z law r items records laid positions batches ≡ calls_of items 0 positions)
  good_batches =
      let (batches', cut', good, calls) =
        batches_lem z law r items records laid concurrency positions valid in
      subst
        (λ t.
          All (IsGoodBatch z law r items records laid positions) t
          × (batch_calls z law r items records laid positions t ≡ calls_of items 0 positions))
        (ok-injective (sym cut' ∙ cut)) (good, calls)

  reached-Inv : Inv z law r items records laid positions batches good_batches.0 fn fine s
  reached-Inv =
      reach-Inv z law r items records laid positions batches good_batches.0 fn fine
        (init-Inv z law r items records laid positions batches good_batches.0 fn fine concurrency
          some_workers)
        reached

  -- For a lawful libzstd, a reader of a file that holds the blocks of its records, at least one
  -- worker, positions that pass the reader's validation, and a callback that does not fail: in any
  -- state that the workers of `ReadItems` reach from the start and in which all of them have returned,
  -- there is no error, and the calls of `fn` are, in some order, one for each position, with its index
  -- and the item at it.
  pub reach-calls_of :
      IsFinished s → (s.first_err ≡ none) × Perm s.calls (calls_of items 0 positions)
  reach-calls_of finished = (
    reached-Inv.no_err,
    subst (Perm s.calls) good_batches.1 (
        finished_calls z law r items records laid positions batches good_batches.0 fn fine s
          reached-Inv finished),
  )

  -- For a lawful libzstd, a reader of a file that holds the blocks of its records, at least one
  -- worker, positions that pass the reader's validation, and a callback that does not fail: from any
  -- state that the workers of `ReadItems` reach from the start, they can go on to one in which all of
  -- them have returned.
  pub reach-IsFinished : (t : Reading) × Reach z r positions batches fn s t × IsFinished t
  reach-IsFinished =
      run_on z law r items records laid positions batches good_batches.0 fn fine
        (left z law r items records laid positions batches good_batches.0 fn fine s) reached-Inv
        (omega arith) start
