-- ===== src/Packfile/Pipeline/Order.antt =====
-- What runWriter of packfile/writer.go has written after the results that it received so far.
use event_analysis.Prelude.{
  ℕ, zero, suc, ◌+◌, ◌%◌, ◌^◌, ◌≤◌, ◌<◌, ◌≡◌, ◌≢◌, inl, inr, refl, sym, ap, ap₂, subst, ◌∙◌, arith,
}
use event_analysis.Prelude.{
  Bool-cases, ==_iff, ==_false→ne, ◌==◌, List, [], ◌∷◌, ◌++◌, map, length, take, All, get_elem?,
  none, some, ok, err, panicked, Option-cases,
}
use event_analysis.Packfile.{Error}
use event_analysis.Packfile.Lookup.{some_lt}
use event_analysis.Packfile.Writer.{Writer, Outcome, write_block}
use event_analysis.Packfile.Writer.Blocks.{write_blocks, write_block_cases, write_blocks-snoc}
use event_analysis.Packfile.Writer.Invariant.{map-snoc}
use event_analysis.Packfile.Pipeline.{
  BlockResult, Run, after_write, next_round, accept, put_block, find_block, delete_block,
  add_digest, write_next, drain, receive,
}
use event_analysis.Packfile.Pipeline.Blocks.{
  count, count-here, count-elsewhere, count-delete_block, All-delete_block, find_block-some,
  find_block-none, all_digests, all_digests-snoc,
}
use mathlib.Core.Option.{some-injective}
use native.Mathlib.Nat.{mod-eq_of_lt}

pub take-snoc :
    {A : Type 0} (xs : List A) (i : ℕ) {x : A}
    → get_elem? xs i ≡ some x
    → take (i + 1) xs ≡ take i xs ++ (x ∷ [])
take-snoc xs i e = ap (λ n. take n xs) {y = suc i} (omega arith) ∙ taken xs i e
  where
    taken :
        {A : Type 0} (xs : List A) (i : ℕ) {x : A}
        → get_elem? xs i ≡ some x
        → take (suc i) xs ≡ take i xs ++ (x ∷ [])
    taken [] i e = absurd (omega (arith, some_lt [] i e))
    taken (y ∷ xs) zero {x} e = ap (λ t. t ∷ []) (some-injective y x e)
    taken (y ∷ xs) (suc i) e = ap (λ t. y ∷ t) (taken xs i e)

pub none-some : {A : Type 0} {x : A} → none ≡ some x → ⊥
none-some e = cc

-- The blocks of `runWriter`, in the order of their ids.
module _ (first : Writer) (results : List BlockResult) (few : length results < 2 ^ 32) where
  abbrev pub IsResult : BlockResult → Type 0
  IsResult b = get_elem? results b.block_id ≡ some b

  abbrev blocks : ℕ → List (List ℕ)
  blocks m = map (λ b. b.bytes) (take m results)

  -- The results before the next id are written and hashed, and each later one waits in the map or is
  -- among the `elsewhere` ones; or an error ended the writing behind the first `m` results.
  pub data Writing (elsewhere : ℕ → ℕ) (run : Run) : Type 0 where
    running :
        run.failed ≡ none
        → run.next_block_id ≤ length results
        → write_blocks first (blocks run.next_block_id) ≡ (run.writer, ok tt)
        → run.digests ≡ all_digests (take run.next_block_id results)
        → ((i : ℕ)
            → run.next_block_id ≤ i
            → i < length results
            → 1 ≤ count i run.pending + elsewhere i)
        → Writing elsewhere run
    write_stopped :
        (m : ℕ) (e : Error)
        → run.failed ≡ some e
        → write_blocks first (blocks m) ≡ (run.writer, err e)
        → Writing elsewhere run
    block_stopped :
        (m : ℕ) (e : Error) (b : BlockResult)
        → run.failed ≡ some e
        → write_blocks first (blocks m) ≡ (run.writer, ok tt)
        → get_elem? results b.block_id ≡ some b
        → b.err ≡ some e
        → Writing elsewhere run

  blocks-snoc :
      (i : ℕ) (b : BlockResult)
      → get_elem? results i ≡ some b
      → blocks (i + 1) ≡ blocks i ++ (b.bytes ∷ [])
  blocks-snoc i b e =
      ap (map (λ b. b.bytes)) (take-snoc results i e) ∙ map-snoc (λ b. b.bytes) (take i results) b

  write_next-Writing :
      (elsewhere : ℕ → ℕ) (run : Run) (br : BlockResult)
      → run.failed ≡ none
      → Writing elsewhere run
      → br.block_id ≡ run.next_block_id
      → IsResult br
      → Writing elsewhere (write_next run br)
  unfolding write_next after_write
  write_next-Writing elsewhere run br fine (running f bound wrote hashed kept) id e =
      let at : get_elem? results run.next_block_id ≡ some br =
        ap (get_elem? results) (sym id) ∙ e in
      elim (write_block_cases run.writer br.bytes) [
        | inl (w, done) ↦
            let next : (run.next_block_id + 1) % 2 ^ 32 ≡ run.next_block_id + 1 =
              mod-eq_of_lt (omega (arith, few, some_lt results run.next_block_id at)) in
            subst (Writing elsewhere) (sym (ap (after_write run br.digest) done)) (
              running refl (omega (arith, next, some_lt results run.next_block_id at))
                (ap (λ t. write_blocks first (blocks t)) next
                  ∙ ap (write_blocks first) (blocks-snoc run.next_block_id br at)
                  ∙ write_blocks-snoc first (blocks run.next_block_id) br.bytes wrote done)
                (ap (add_digest br.digest) hashed
                  ∙ sym (all_digests-snoc (take run.next_block_id results) br)
                  ∙ sym (
                      ap all_digests
                        (ap (λ t. take t results) next ∙ take-snoc results run.next_block_id at)))
                (λ i lo hi. omega (
                  arith,
                  kept i (omega (arith, lo, next)) hi,
                  count-delete_block run.next_block_id i run.pending (omega (arith, lo, next)),
                )))
        | inr (w, e', failure) ↦
            subst (Writing elsewhere) (sym (ap (after_write run br.digest) failure)) (
              write_stopped (run.next_block_id + 1) e' refl (
                ap (write_blocks first) (blocks-snoc run.next_block_id br at)
                ∙ write_blocks-snoc first (blocks run.next_block_id) br.bytes wrote failure))
      ]
  write_next-Writing elsewhere run br fine (write_stopped m e f wrote) id h =
      absurd (none-some (sym fine ∙ f))
  write_next-Writing elsewhere run br fine (block_stopped m e b f wrote at h') id h =
      absurd (none-some (sym fine ∙ f))

  write_next-pending :
      (run : Run) (br : BlockResult)
      → (write_next run br).pending ≡ delete_block run.next_block_id run.pending
  unfolding write_next after_write
  write_next-pending run br = by_outcome (write_block run.writer br.bytes)
    where
      by_outcome :
          (o : Outcome)
          → (after_write run br.digest o).pending ≡ delete_block run.next_block_id run.pending
      by_outcome (w, ok u) = refl
      by_outcome (w, err e) = refl
      by_outcome (w, panicked) = refl

  -- Nothing in the map is next.
  abbrev pub Drained : (ℕ → ℕ) → Run → Type 0
  Drained elsewhere run =
      Writing elsewhere run
      × All IsResult run.pending
      × (run.failed ≡ none → count run.next_block_id run.pending ≡ 0)

  -- With the map's size as fuel, draining comes to its end.
  drain-Drained :
      (fuel : ℕ) (elsewhere : ℕ → ℕ) (run : Run)
      → Writing elsewhere run
      → All IsResult run.pending
      → length run.pending ≤ fuel
      → Drained elsewhere (drain fuel run)
  unfolding drain next_round count
  drain-Drained zero elsewhere run v h enough =
      (v, h, λ fine. no_blocks run.pending (omega (arith, enough)))
    where
      no_blocks :
          (pending : List BlockResult) → length pending ≡ 0 → count run.next_block_id pending ≡ 0
      no_blocks [] e = refl
      no_blocks (b ∷ pending) e = absurd (omega (arith, e))
  drain-Drained (suc fuel) elsewhere run v h enough = elim (Option-cases run.failed) [
    | inr (e, failed) ↦
        subst (Drained elsewhere)
          (sym (ap (λ t. next_round t (find_block run.next_block_id run.pending) run rest) failed))
          (v, h, λ fine. absurd (none-some (sym fine ∙ failed)))
    | inl fine ↦ elim (Option-cases (find_block run.next_block_id run.pending)) [
      | inl missing ↦
          subst (Drained elsewhere) (sym (ap₂ (λ t u. next_round t u run rest) fine missing))
            (v, h, λ same. find_block-none run.next_block_id run.pending missing)
      | inr (br, found) ↦
          let (id, good, less) = find_block-some IsResult run.next_block_id run.pending h found in
          subst (Drained elsewhere) (sym (ap₂ (λ t u. next_round t u run rest) fine found)) (
            drain-Drained fuel elsewhere (write_next run br)
              (write_next-Writing elsewhere run br fine v id good)
              (subst (All IsResult) (sym (write_next-pending run br))
                (All-delete_block IsResult run.next_block_id run.pending h))
              (omega (arith, less, enough, ap length (write_next-pending run br))))
    ]
  ]
    where
      rest : BlockResult → Run
      rest br = drain fuel (write_next run br)

  stopped_Writing :
      (before after : ℕ → ℕ) (run : Run) {e : Error}
      → run.failed ≡ some e
      → Writing before run
      → Writing after run
  stopped_Writing before after run failed (running f bound wrote hashed kept) =
      absurd (none-some (sym f ∙ failed))
  stopped_Writing before after run failed (write_stopped m e f wrote) = write_stopped m e f wrote
  stopped_Writing before after run failed (block_stopped m e b f wrote at h) =
      block_stopped m e b f wrote at h

  failed_Writing :
      (before after : ℕ → ℕ) (run : Run) (b : BlockResult) (e : Error)
      → run.failed ≡ none
      → Writing before run
      → IsResult b
      → b.err ≡ some e
      → Writing after (record run { failed = some e })
  failed_Writing before after run b e fine (running f bound wrote hashed kept) good failed =
      block_stopped run.next_block_id e b refl wrote good failed
  failed_Writing before after run b e fine (write_stopped m e' f wrote) good failed =
      absurd (none-some (sym fine ∙ f))
  failed_Writing before after run b e fine (block_stopped m e' b' f wrote at h) good failed =
      absurd (none-some (sym fine ∙ f))

  put_block-Writing :
      (before after : ℕ → ℕ) (run : Run) (b : BlockResult)
      → run.failed ≡ none
      → Writing before run
      → ((i : ℕ) → i ≢ b.block_id → before i ≤ after i)
      → Writing after (put_block b run)
  unfolding put_block
  put_block-Writing before after run b fine (running f bound wrote hashed kept) others =
      running f bound wrote hashed (λ i lo hi. elim (Bool-cases (b.block_id == i)) [
        | inl same ↦ omega (
          arith,
          count-here i b (delete_block b.block_id run.pending) ((==_iff b.block_id i).0 same),
        )
        | inr differs ↦
            let away : b.block_id ≢ i = ==_false→ne b.block_id i differs in
            omega (
              arith,
              count-elsewhere i b (delete_block b.block_id run.pending) away,
              count-delete_block b.block_id i run.pending away,
              kept i lo hi,
              others i (λ e. away (sym e)),
            )
      ])
  put_block-Writing before after run b fine (write_stopped m e' f wrote) others =
      absurd (none-some (sym fine ∙ f))
  put_block-Writing before after run b fine (block_stopped m e' b' f wrote at h) others =
      absurd (none-some (sym fine ∙ f))

  -- A result that was elsewhere is received.
  pub receive-Drained :
      (before after : ℕ → ℕ) (run : Run) (b : BlockResult)
      → Drained before run
      → IsResult b
      → ((i : ℕ) → i ≢ b.block_id → before i ≤ after i)
      → Drained after (receive run b)
  unfolding receive accept put_block
  receive-Drained before after run b v good others = elim (Option-cases run.failed) [
    | inr (e, failed) ↦ subst (Drained after) (sym (ap (λ t. accept t b.err run rest) failed)) (
      stopped_Writing before after run failed v.0,
      v.1,
      λ fine. absurd (none-some (sym fine ∙ failed)),
    )
    | inl fine ↦ elim (Option-cases b.err) [
      | inr (e, failed) ↦
          subst (Drained after) (sym (ap₂ (λ t u. accept t u run rest) fine failed)) (
            failed_Writing before after run b e fine v.0 good failed,
            v.1,
            λ same. absurd (none-some (sym same)),
          )
      | inl fine_block ↦
          subst (Drained after) (sym (ap₂ (λ t u. accept t u run rest) fine fine_block)) (
            drain-Drained (length (put_block b run).pending) after (put_block b run)
              (put_block-Writing before after run b fine v.0 others)
              (good, All-delete_block IsResult b.block_id run.pending v.1) (omega arith))
    ]
  ]
    where
      rest : Run
      rest = drain (length (put_block b run).pending) (put_block b run)
