-- ===== src/Packfile/Pipeline/Stuck.antt =====
-- The workers of packfile/writer.go when the compressor fails: each returns after its first error, and
-- the caller of `flush` waits on a channel that nobody reads.
use event_analysis.Prelude.{ℕ, ◌+◌, ◌≤◌, ◌<◌, ◌≡◌, refl, sym, ap, subst, arith}
use event_analysis.Prelude.{
  List, [], ◌∷◌, ◌++◌, length, All, some, ok, append-nil, append_assoc, length-append,
}
use event_analysis.Zstd
use event_analysis.Packfile.{Error, RecordFormat}
use event_analysis.Packfile.Writer.{Writer}
use event_analysis.Packfile.Pipeline.{
  BlockResult, Run, Pipe, Step, send, take_work, work, write, Reach, start, later, init,
  process_block, idle_after, receive,
}

-- Every worker that waits waits for a block, and no result is under way.
abbrev pub at : List BlockResult → List BlockResult → ℕ → Run → Pipe
at todo work_ch idle run = record {
  todo = todo;
  work_ch = work_ch;
  busy = [];
  idle = idle;
  result_ch = [];
  run = run;
}

-- The compressor fails on the block.
abbrev pub IsDoomed : Zstd.Library → RecordFormat → BlockResult → Type 0
IsDoomed z format b =
    (b' : BlockResult) × (e : Error) × (process_block z format b ≡ ok b') × (b'.err ≡ some e)

module _ (z : Zstd.Library) (format : RecordFormat) (conc : ℕ) (first : Pipe) where
  -- One block costs one worker.
  lose_worker :
      (b : BlockResult) (todo : List BlockResult) (idle : ℕ) (run : Run)
      → 0 < conc
      → IsDoomed z format b
      → Reach z format conc first (at (b ∷ todo) [] (idle + 1) run)
      → (run' : Run) × Reach z format conc first (at todo [] idle run')
  unfolding idle_after
  lose_worker b todo idle run some_workers (b', e, made, failed) r =
      let sent = later r (send b todo refl some_workers) in
      let taken = later sent (take_work b [] idle refl refl) in
      let worked = later taken (work [] b b' [] refl made some_workers) in
      let written = later worked (write b' [] refl) in
      (
        receive run b',
        subst (λ t. Reach z format conc first (at todo [] t (receive run b')))
            (ap (λ t. idle_after t idle) failed) written,
      )

  lose_workers :
      (doomed todo : List BlockResult) (idle : ℕ) (run : Run)
      → 0 < conc
      → length doomed ≡ idle
      → All (IsDoomed z format) doomed
      → Reach z format conc first (at (doomed ++ todo) [] idle run)
      → (run' : Run) × Reach z format conc first (at todo [] 0 run')
  lose_workers [] todo idle run some_workers size h r =
      (run, subst (λ t. Reach z format conc first (at todo [] t run)) (sym size) r)
  lose_workers (b ∷ doomed) todo idle run some_workers size h r =
      let (run', r') = lose_worker b (doomed ++ todo) (length doomed) run some_workers h.0 (
        subst (λ t. Reach z format conc first (at (b ∷ (doomed ++ todo)) [] t run))
          (omega (arith, size)) r) in
      lose_workers doomed todo (length doomed) run' some_workers refl h.1 r'

  -- The channel takes blocks up to its capacity.
  fill :
      (work_ch more todo : List BlockResult) (run : Run)
      → length work_ch + length more ≤ conc
      → Reach z format conc first (at (more ++ todo) work_ch 0 run)
      → Reach z format conc first (at todo (work_ch ++ more) 0 run)
  fill work_ch [] todo run room r =
      subst (λ t. Reach z format conc first (at todo t 0 run)) (sym (append-nil work_ch)) r
  fill work_ch (b ∷ more) todo run room r =
      subst (λ t. Reach z format conc first (at todo t 0 run)) (append_assoc work_ch (b ∷ []) more)
        (fill (work_ch ++ (b ∷ [])) more todo run (omega (arith, length-append work_ch (b ∷ [])))
          (later r (send b (more ++ todo) refl (omega arith))))

  no_step :
      (todo work_ch : List BlockResult) (run : Run)
      → length work_ch ≡ conc
      → (t : Pipe) → ¬ Step z format conc (at todo work_ch 0 run) t
  no_step todo work_ch run full t (send b rest e room) = omega (arith, room, full)
  no_step todo work_ch run full t (take_work b rest idle e waiting) = omega (arith, waiting)
  no_step todo work_ch run full t (work front b b' back e made room) =
      omega (arith, ap length e, length-append front (b ∷ back))
  no_step todo work_ch run full t (write b rest e) = omega (arith, ap length e)

-- For as many blocks as there are workers, at least one, that all fail to compress, as many blocks
-- behind them, and one block more: the goroutines reach a state in which that block is still to be
-- sent, and from which no step is possible.
pub flush_waits :
    (z : Zstd.Library) (format : RecordFormat) (conc : ℕ) (w : Writer)
    (doomed waiting : List BlockResult) (b : BlockResult) (todo : List BlockResult)
    → 0 < conc
    → length doomed ≡ conc
    → All (IsDoomed z format) doomed
    → length waiting ≡ conc
    → (run : Run) × Reach z format conc
        (init conc w (doomed ++ (waiting ++ (b ∷ todo))))
        (at (b ∷ todo) waiting 0 run)
      × ((t : Pipe) → ¬ Step z format conc (at (b ∷ todo) waiting 0 run) t)
flush_waits z format conc w doomed waiting b todo some_workers size h full =
    let first = init conc w (doomed ++ (waiting ++ (b ∷ todo))) in
    let (run, r) =
      lose_workers z format conc first doomed (waiting ++ (b ∷ todo)) conc first.run some_workers
        size h start in
    (
      run,
      fill z format conc first [] waiting (b ∷ todo) run (omega (arith, full)) r,
      no_step z format conc first (b ∷ todo) waiting run full,
    )
