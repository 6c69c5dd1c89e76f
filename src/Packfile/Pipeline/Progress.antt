-- ===== src/Packfile/Pipeline/Progress.antt =====
-- The goroutines of packfile/writer.go come to an end: every step is progress, and while a worker is
-- left, one of them can go on.
use event_analysis.Prelude.{
  ℕ, zero, suc, ◌+◌, ◌-◌, ◌^◌, ◌*◌, ◌≤◌, ◌<◌, ◌≡◌, ◌⊎◌, inl, inr, sym, ap, subst, ◌∙◌, arith,
}
use event_analysis.Prelude.{
  List, [], ◌∷◌, ◌++◌, length, All, none, ok, length-append, ok-injective, All_get, All_weaken,
  All_middle, List-cases,
}
use event_analysis.Zstd
use event_analysis.Packfile.{RecordFormat}
use event_analysis.Packfile.Writer.{Writer}
use event_analysis.Packfile.Pipeline.{
  BlockResult, Pipe, Step, send, take_work, work, write, Reach, start, later, init, process_block,
  idle_after,
}
use event_analysis.Packfile.Pipeline.Schedule.{IsQuiet, Processed, busy_IsMade}

-- What is left to do: a block goes through four hands.
unfoldable pub left : Pipe → ℕ
left s = 4 * length s.todo + 3 * length s.work_ch + 2 * length s.busy + length s.result_ch

length-middle :
    {A : Type 0} (front : List A) (b : A) (back : List A)
    → length (front ++ (b ∷ back)) ≡ suc (length (front ++ back))
length-middle front b back = omega (arith, length-append front (b ∷ back), length-append front back)

module _ (z : Zstd.Library) (format : RecordFormat) (conc : ℕ) where
  step-left : {s t : Pipe} → Step z format conc s t → left t < left s
  unfolding left
  step-left {s} (send b todo e room) = omega (arith, ap length e, length-append s.work_ch (b ∷ []))
  step-left {s} (take_work b work_ch idle e waiting) = omega (arith, ap length e)
  step-left {s} (work front b b' back e made room) =
      omega (arith, ap length e, length-middle front b back, length-append s.result_ch (b' ∷ []))
  step-left {s} (write b result_ch e) = omega (arith, ap length e)

  reach-reach :
      {first s t : Pipe}
      → Reach z format conc first s
      → Reach z format conc s t
      → Reach z format conc first t
  reach-reach before start = before
  reach-reach before (later r step) = later (reach-reach before r) step

  front_of :
      (s : Pipe) (b : BlockResult) (back : List BlockResult)
      → s.busy ≡ b ∷ back
      → All (λ b. (b' : BlockResult) × (process_block z format b ≡ ok b')) s.busy
      → (b' : BlockResult) × (process_block z format b ≡ ok b')
  front_of s b back e made =
      (subst (All (λ b. (b' : BlockResult) × (process_block z format b ≡ ok b'))) e made).0

  -- Some goroutine can go on, as long as a worker is left and its block does not panic.
  pub next_step :
      (s : Pipe)
      → 0 < conc
      → 0 < s.idle + length s.busy
      → All (λ b. (b' : BlockResult) × (process_block z format b ≡ ok b')) s.busy
      → IsQuiet s ⊎ ((t : Pipe) × Step z format conc s t)
  next_step s some_workers alive made = elim (List-cases s.result_ch) [
    | inr (b, rest, e) ↦ inr (_, write b rest e)
    | inl no_result ↦ elim (List-cases s.busy) [
      | inr (b, rest, e) ↦
          let (b', processed) = front_of s b rest e made in
          inr (_, work [] b b' rest e processed (omega (arith, ap length no_result)))
      | inl no_busy ↦
          let waits : s.idle ≡ (s.idle - 1) + 1 = omega (arith, alive, ap length no_busy) in
          elim (List-cases s.work_ch) [
            | inr (b, rest, e) ↦ inr (_, take_work b rest (s.idle - 1) e waits)
            | inl no_work ↦ elim (List-cases s.todo) [
              | inr (b, rest, e) ↦ inr (_, send b rest e (omega (arith, ap length no_work)))
              | inl no_todo ↦ inl (no_todo, no_work, no_busy, no_result)
            ]
          ]
    ]
  ]

  module _ (first : Writer) (works results : List BlockResult) (few : length results < 2 ^ 32)
      (processed : Processed z format 0 works results)
      (fine : All (λ b. b.err ≡ none) results) where
    -- Every worker waits or has a block.
    alive :
        {s : Pipe} → Reach z format conc (init conc first works) s → s.idle + length s.busy ≡ conc
    unfolding idle_after
    alive start = omega arith
    alive (later r (send b todo e room)) = alive r
    alive (later {s} r (take_work b work_ch idle e waiting)) = omega (arith, alive r, waiting)
    alive (later {s} r (work front b b' back e made room)) =
        let (good, others) =
          All_middle _ front b back
            (subst (All _) e (busy_IsMade z format conc first works results few processed r)) in
        let (c, made', at) = good in
        let no_err : b'.err ≡ none =
          subst (λ t. t.err ≡ none) (ok-injective (sym made' ∙ made))
            (All_get (λ b. b.err ≡ none) results b.block_id fine at) in
        omega (
          arith,
          alive r,
          ap (λ t. idle_after t s.idle) no_err,
          ap length e,
          length-middle front b back,
        )
    alive (later r (write b result_ch e)) = alive r

    going_on :
        {s : Pipe}
        → 0 < conc
        → Reach z format conc (init conc first works) s
        → IsQuiet s ⊎ ((t : Pipe) × Step z format conc s t)
    going_on {s} some_workers r = next_step s some_workers (omega (arith, alive r, some_workers)) (
        All_weaken _ _ s.busy (λ b made. (made.0, made.1))
          (busy_IsMade z format conc first works results few processed r))

    run_on :
        (fuel : ℕ) {s t : Pipe}
        → 0 < conc
        → left t ≤ fuel
        → Reach z format conc (init conc first works) s
        → Reach z format conc s t
        → (u : Pipe) × Reach z format conc s u × IsQuiet u
    run_on zero some_workers enough before r = elim (going_on some_workers (reach-reach before r)) [
      | inl quiet ↦ (_, r, quiet)
      | inr (u, step) ↦ absurd (omega (arith, step-left step))
    ]
    run_on (suc fuel) some_workers enough before r =
        elim (going_on some_workers (reach-reach before r)) [
          | inl quiet ↦ (_, r, quiet)
          | inr (u, step) ↦
              run_on fuel some_workers (omega (arith, step-left step)) before (later r step)
        ]

    -- For at least one worker, and fewer than 2^32 blocks that have their numbers in the order of
    -- sending and are all processed without an error: from any state that the goroutines reach from
    -- the start, they can go on to one in which all blocks are sent, both channels are empty and no
    -- worker is busy.
    pub reach-IsQuiet :
        {s : Pipe}
        → 0 < conc
        → Reach z format conc (init conc first works) s
        → (t : Pipe) × Reach z format conc s t × IsQuiet t
    reach-IsQuiet {s} some_workers r = run_on (left s) some_workers (omega arith) r start
