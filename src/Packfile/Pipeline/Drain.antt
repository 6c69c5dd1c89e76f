-- ===== src/Packfile/Pipeline/Drain.antt =====
-- The loop of runWriter, packfile/writer.go, over the blocks that are next: it ends.
use event_analysis.Prelude.{
  ℕ, zero, suc, ◌≤◌, ◌<◌, ◌≡◌, ◌⊎◌, inl, inr, refl, sym, ap, ap₂, subst, ◌∙◌, arith, List, [], ◌∷◌,
  length, All, Option, none, some, ok, err, panicked, Option-cases,
}
use event_analysis.Packfile.{Error}
use event_analysis.Packfile.Writer.{Outcome, write_block}
use event_analysis.Packfile.Pipeline.{
  BlockResult, Run, find_block, delete_block, after_write, write_next, next_round, drain, accept,
  put_block, receive,
}
use event_analysis.Packfile.Pipeline.Blocks.{find_block-some}

-- The loop is over: there was an error, or the block that is next is not in the map.
abbrev pub IsOver : Run → Type 0
IsOver run =
    ((e : Error) × (run.failed ≡ some e)) ⊎ (find_block run.next_block_id run.pending ≡ none)

all_units : (blocks : List BlockResult) → All (λ b. Unit {0}) blocks
all_units [] = tt
all_units (b ∷ blocks) = (tt, all_units blocks)

after_write-pending :
    (run : Run) (digest : Option (List ℕ)) (o : Outcome)
    → (after_write run digest o).pending ≡ delete_block run.next_block_id run.pending
unfolding after_write
after_write-pending run digest (w, ok u) = refl
after_write-pending run digest (w, err e) = refl
after_write-pending run digest (w, panicked) = refl

-- A round takes a block out of the map.
write_next-less :
    (run : Run) (br : BlockResult)
    → find_block run.next_block_id run.pending ≡ some br
    → length (write_next run br).pending < length run.pending
unfolding write_next
write_next-less run br found =
    let (id, good, less) =
      find_block-some (λ b. Unit {0}) run.next_block_id run.pending (all_units run.pending) found in
    omega
      (arith, less, ap length (after_write-pending run br.digest (write_block run.writer br.bytes)))

round_failed :
    (run : Run) (rest : BlockResult → Run) {e : Error}
    → run.failed ≡ some e
    → next_round run.failed (find_block run.next_block_id run.pending) run rest ≡ run
unfolding next_round
round_failed run rest failed =
    ap (λ t. next_round t (find_block run.next_block_id run.pending) run rest) failed

round_missing :
    (run : Run) (rest : BlockResult → Run)
    → run.failed ≡ none
    → find_block run.next_block_id run.pending ≡ none
    → next_round run.failed (find_block run.next_block_id run.pending) run rest ≡ run
unfolding next_round
round_missing run rest fine missing = ap₂ (λ t u. next_round t u run rest) fine missing

round_found :
    (run : Run) (rest : BlockResult → Run) {br : BlockResult}
    → run.failed ≡ none
    → find_block run.next_block_id run.pending ≡ some br
    → next_round run.failed (find_block run.next_block_id run.pending) run rest ≡ rest br
unfolding next_round
round_found run rest fine found = ap₂ (λ t u. next_round t u run rest) fine found

-- Behind its end the loop changes nothing.
drain-over : (fuel : ℕ) (run : Run) → IsOver run → drain fuel run ≡ run
unfolding drain
drain-over zero run over = refl
drain-over (suc fuel) run (inl (e, failed)) = round_failed run _ failed
drain-over (suc fuel) run (inr missing) = elim (Option-cases run.failed) [
  | inr (e, failed) ↦ round_failed run _ failed
  | inl fine ↦ round_missing run _ fine missing
]

empty-IsOver : (run : Run) → length run.pending ≤ 0 → IsOver run
empty-IsOver run empty = inr (missing run.pending empty)
  where
    missing :
        (pending : List BlockResult)
        → length pending ≤ 0
        → find_block run.next_block_id pending ≡ none
    missing [] empty = unfold find_block in refl
    missing (b ∷ pending) empty = absurd (omega (arith, empty))

-- With the map's size as fuel or more, the loop ends, and it does not matter how much more.
drain_lem :
    (fuel fuel' : ℕ) (run : Run)
    → length run.pending ≤ fuel
    → fuel ≤ fuel'
    → IsOver (drain fuel run) × (drain fuel' run ≡ drain fuel run)
unfolding drain
drain_lem zero fuel' run enough more =
    (empty-IsOver run enough, drain-over fuel' run (empty-IsOver run enough))
drain_lem (suc fuel) zero run enough more = absurd (omega (arith, more))
drain_lem (suc fuel) (suc fuel') run enough more = elim (Option-cases run.failed) [
  | inr (e, failed) ↦ (
    subst IsOver (sym (round_failed run _ failed)) (inl (e, failed)),
    round_failed run _ failed ∙ sym (round_failed run _ failed),
  )
  | inl fine ↦ elim (Option-cases (find_block run.next_block_id run.pending)) [
    | inl missing ↦ (
      subst IsOver (sym (round_missing run _ fine missing)) (inr missing),
      round_missing run _ fine missing ∙ sym (round_missing run _ fine missing),
    )
    | inr (br, found) ↦
        let (over, same) =
          drain_lem fuel fuel' (write_next run br)
            (omega (arith, enough, write_next-less run br found)) (omega (arith, more)) in
        (
          subst IsOver (sym (round_found run _ fine found)) over,
          round_found run _ fine found ∙ same ∙ sym (round_found run _ fine found),
        )
  ]
]

-- For any state of `runWriter`, any result and any fuel from the size of the map on: behind the result
-- the loop is over, which is that there was an error or the next block is not in the map, and with
-- that fuel the loop comes to the same state.
pub receive-IsOver :
    (run : Run) (result : BlockResult) (fuel : ℕ)
    → length (put_block result run).pending ≤ fuel
    → IsOver (receive run result)
      × (accept run.failed result.err run (drain fuel (put_block result run)) ≡ receive run result)
unfolding receive accept
receive-IsOver run result fuel enough = by_guards run.failed result.err refl
  where
    by_guards :
        (failed error : Option Error)
        → run.failed ≡ failed
        → IsOver (
            accept failed error run
              (drain (length (put_block result run).pending) (put_block result run)))
          × (accept failed error run (drain fuel (put_block result run))
              ≡ accept failed error run
                  (drain (length (put_block result run).pending) (put_block result run)))
    by_guards (some e) error failed = (inl (e, failed), refl)
    by_guards none (some e) failed = (inl (e, refl), refl)
    by_guards none none failed =
        drain_lem (length (put_block result run).pending) fuel (put_block result run) (omega arith)
          enough
