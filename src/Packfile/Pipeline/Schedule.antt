-- ===== src/Packfile/Pipeline/Schedule.antt =====
-- Every interleaving of the goroutines of packfile/writer.go: where the blocks are, and what the file
-- holds.
use event_analysis.Prelude.{
  ℕ, zero, suc, ◌+◌, ◌^◌, ◌≤◌, ◌<◌, ◌≡◌, ◌≢◌, inl, inr, refl, sym, ap, subst, ◌∙◌, arith,
}
use event_analysis.Prelude.{
  List, [], ◌∷◌, ◌++◌, map, length, take, All, get_elem?, Option, none, some, ok, err, panicked,
  Result, take_all, All-append, >>=-eq-ok, ok-injective, Bool-cases, ltb, ltb→lt, lt→ltb,
  take-append-drop, drop, All_get, All_middle, ==_iff, ==_false→ne, ◌==◌,
}
use event_analysis.Zstd
use event_analysis.Packfile.{Error, RecordFormat}
use event_analysis.Packfile.Lookup.{some_lt}
use event_analysis.Packfile.Writer.{Writer, Outcome}
use event_analysis.Packfile.Writer.Blocks.{write_blocks, write_blocks_stop}
use event_analysis.Packfile.Pipeline.{
  BlockResult, Run, Pipe, Step, send, take_work, work, write, Reach, start, later, init,
  process_block, block_answer, digest_of,
}
use event_analysis.Packfile.Pipeline.Blocks.{
  count, count-here, count-elsewhere, count-snoc, count-middle, count_same, all_digests,
}
use event_analysis.Packfile.Pipeline.Order.{
  Writing, running, write_stopped, block_stopped, IsResult, Drained, receive-Drained, none-some,
}
use mathlib.Core.Option.{some-injective}
use mathlib.Core.List.{map-append}

unfoldable pub result_of : Option Error → Result Error (Unit {0})
result_of none = ok tt
result_of (some e) = err e

-- What `Finish` gets off the pipeline.
unfoldable pub outcome_of : Run → Outcome
outcome_of run = (run.writer, result_of run.failed)

-- The blocks that `flush` sends, numbered from `n` on, and what the workers make of them.
pub data Processed (z : Zstd.Library) (format : RecordFormat)
    : ℕ → List BlockResult → List BlockResult → Type 0 where
  no_blocks : (n : ℕ) → Processed z format n [] []
  one_more :
      (n : ℕ) {b b' : BlockResult} {bs bs' : List BlockResult}
      → b.block_id ≡ n
      → process_block z format b ≡ ok b'
      → Processed z format (n + 1) bs bs'
      → Processed z format n (b ∷ bs) (b' ∷ bs')

block_answer-id :
    (id : ℕ) (digest : Option (List ℕ)) (r : Result Error (List ℕ)) {b' : BlockResult}
    → block_answer id digest r ≡ ok b'
    → b'.block_id ≡ id
unfolding block_answer
block_answer-id id digest (ok bytes) e = ap (λ t. t.block_id) (sym (ok-injective e))
block_answer-id id digest (err f) e = ap (λ t. t.block_id) (sym (ok-injective e))
block_answer-id id digest panicked e = cc

pub process_block-id :
    (z : Zstd.Library) (format : RecordFormat) (b : BlockResult) {b' : BlockResult}
    → process_block z format b ≡ ok b'
    → b'.block_id ≡ b.block_id
unfolding process_block
process_block-id z format b e =
    let (digest, e', answered) = >>=-eq-ok (digest_of b.bytes b.hash_sizes) _ e in
    block_answer-id b.block_id digest _ answered

Processed-at :
    {z : Zstd.Library} {format : RecordFormat} {n : ℕ} {bs bs' : List BlockResult}
    → Processed z format n bs bs'
    → (i : ℕ) {b : BlockResult} → get_elem? bs i ≡ some b
    → (b.block_id ≡ n + i)
      × (b' : BlockResult) × (process_block z format b ≡ ok b')
      × (get_elem? bs' i ≡ some b')
Processed-at (no_blocks n) i e = absurd (omega (arith, some_lt [] i e))
Processed-at {z} {format} (one_more n {b = b₁} {b'} id processed rest) zero {b} e =
    let same : b₁ ≡ b = some-injective b₁ b e in
    (
      ap (λ t. t.block_id) (sym same) ∙ id ∙ omega arith,
      b',
      ap (process_block z format) (sym same) ∙ processed,
      refl,
    )
Processed-at (one_more n id processed rest) (suc i) e =
    let (id', b', processed', at) = Processed-at rest i e in
    (omega (arith, id'), b', processed', at)

Processed-length :
    {z : Zstd.Library} {format : RecordFormat} {n : ℕ} {bs bs' : List BlockResult}
    → Processed z format n bs bs'
    → length bs ≡ length bs'
Processed-length (no_blocks n) = refl
Processed-length (one_more n id processed rest) = ap suc (Processed-length rest)

Processed-count :
    {z : Zstd.Library} {format : RecordFormat} {n : ℕ} {bs bs' : List BlockResult}
    → Processed z format n bs bs'
    → (i : ℕ) → n ≤ i
    → i < n + length bs'
    → 1 ≤ count i bs
unfolding count
Processed-count (no_blocks n) i lo hi = absurd (omega arith)
Processed-count (one_more n {b} {b'} {bs} id processed rest) i lo hi =
    elim (Bool-cases (b.block_id == i)) [
      | inl same ↦ omega (arith, count-here i b bs ((==_iff b.block_id i).0 same))
      | inr differs ↦
          let away : b.block_id ≢ i = ==_false→ne b.block_id i differs in
          omega (
            arith,
            count-elsewhere i b bs away,
            Processed-count rest i (omega (arith, id, lo, away)) (omega (arith, hi)),
          )
    ]

pub All_from_get {ℓ κ} :
    {A : Type ℓ} (P : A → Type κ) (xs : List A)
    → ((i : ℕ) (x : A) → get_elem? xs i ≡ some x → P x)
    → All P xs
All_from_get P [] h = tt
All_from_get P (x ∷ xs) h = (h 0 x refl, All_from_get P xs (λ i y e. h (suc i) y e))

-- Everything that `flush` sent has come to `runWriter`.
abbrev pub IsQuiet : Pipe → Type 0
IsQuiet s = (s.todo ≡ []) × (s.work_ch ≡ []) × (s.busy ≡ []) × (s.result_ch ≡ [])

module _ (z : Zstd.Library) (format : RecordFormat) (conc : ℕ) (first : Writer)
    (works results : List BlockResult) (few : length results < 2 ^ 32)
    (processed : Processed z format 0 works results) where
  abbrev IsWork : BlockResult → Type 0
  IsWork b = get_elem? works b.block_id ≡ some b

  -- How many of the blocks that `runWriter` has not received have the id.
  abbrev outside : Pipe → ℕ → ℕ
  outside s i = count i s.result_ch + (count i s.busy + (count i s.work_ch + count i s.todo))

  record Inv (s : Pipe) : Type 0 where
    todo_IsWork : All IsWork s.todo
    sent_IsWork : All IsWork s.work_ch
    busy_IsWork : All IsWork s.busy
    done_IsResult : All (IsResult first results few) s.result_ch
    drained : Drained first results few (outside s) s.run

  all_IsWork : All IsWork works
  all_IsWork =
      All_from_get IsWork works
        (λ i b e. ap (get_elem? works) ((Processed-at processed i e).0 ∙ omega arith) ∙ e)

  init-Inv : Inv (init conc first works)
  unfolding count write_blocks all_digests
  init-Inv = record {
    todo_IsWork = all_IsWork;
    sent_IsWork = tt;
    busy_IsWork = tt;
    done_IsResult = tt;
    drained = (
      running refl (omega arith) refl refl
          (λ i lo hi. omega (arith, Processed-count processed i lo (omega (arith, hi)))),
      tt,
      λ fine. refl,
    );
  }

  more_Drained :
      (before after : ℕ → ℕ) (run : Run)
      → ((i : ℕ) → before i ≤ after i)
      → Drained first results few before run
      → Drained first results few after run
  more_Drained before after run more (running f bound wrote hashed kept, h, none_next) =
      (running f bound wrote hashed (λ i lo hi. omega (arith, kept i lo hi, more i)), h, none_next)
  more_Drained before after run more (write_stopped m e f wrote, h, none_next) =
      (write_stopped m e f wrote, h, none_next)
  more_Drained before after run more (block_stopped m e b f wrote at g, h, none_next) =
      (block_stopped m e b f wrote at g, h, none_next)

  work_IsResult :
      (b b' : BlockResult)
      → IsWork b
      → process_block z format b ≡ ok b'
      → IsResult first results few b'
  work_IsResult b b' good made =
      let (id, c, made', at) = Processed-at processed b.block_id good in
      ap (get_elem? results) (process_block-id z format b made)
      ∙ at
      ∙ ap some (ok-injective (sym made' ∙ made))

  step-Inv : {s t : Pipe} → Inv s → Step z format conc s t → Inv t
  unfolding count
  step-Inv {s} v (send b todo e room) =
      let h = subst (All IsWork) e v.todo_IsWork in
      record {
        todo_IsWork = h.1;
        sent_IsWork = All-append IsWork s.work_ch (b ∷ []) v.sent_IsWork (h.0, tt);
        busy_IsWork = v.busy_IsWork;
        done_IsResult = v.done_IsResult;
        drained =
            more_Drained _ _ s.run (λ i. omega (arith, ap (count i) e, count-snoc i s.work_ch b))
              v.drained;
      }
  step-Inv {s} v (take_work b work_ch idle e waiting) =
      let h = subst (All IsWork) e v.sent_IsWork in
      record {
        todo_IsWork = v.todo_IsWork;
        sent_IsWork = h.1;
        busy_IsWork = (h.0, v.busy_IsWork);
        done_IsResult = v.done_IsResult;
        drained = more_Drained _ _ s.run (λ i. omega (arith, ap (count i) e)) v.drained;
      }
  step-Inv {s} v (work front b b' back e made room) =
      let (good, rest) = All_middle IsWork front b back (subst (All IsWork) e v.busy_IsWork) in
      record {
        todo_IsWork = v.todo_IsWork;
        sent_IsWork = v.sent_IsWork;
        busy_IsWork = rest;
        done_IsResult =
            All-append (IsResult first results few) s.result_ch (b' ∷ []) v.done_IsResult
              (work_IsResult b b' good made, tt);
        drained =
            more_Drained _ _ s.run
              (λ i. omega (
                arith,
                ap (count i) e,
                count-middle i front b back,
                count_same i b b' (front ++ back) (sym (process_block-id z format b made)),
                count-snoc i s.result_ch b',
              ))
              v.drained;
      }
  step-Inv {s} v (write b result_ch e) =
      let h = subst (All (IsResult first results few)) e v.done_IsResult in
      record {
        todo_IsWork = v.todo_IsWork;
        sent_IsWork = v.sent_IsWork;
        busy_IsWork = v.busy_IsWork;
        done_IsResult = h.1;
        drained = receive-Drained first results few _ _ s.run b v.drained h.0 (λ i away.
            omega (arith, ap (count i) e, count-elsewhere i b result_ch (λ same. away (sym same))));
      }

  reach-Inv : {s : Pipe} → Reach z format conc (init conc first works) s → Inv s
  reach-Inv start = init-Inv
  reach-Inv (later r step) = step-Inv (reach-Inv r) step

  written_prefix :
      (elsewhere : ℕ → ℕ) (run : Run)
      → Writing first results few elsewhere run
      → (m : ℕ) × (r : Result Error (Unit {0})) × (write_blocks first
            (map (λ b. b.bytes) (take m results))
          ≡ (run.writer, r))
  written_prefix elsewhere run (running f bound wrote hashed kept) = (_, _, wrote)
  written_prefix elsewhere run (write_stopped m e f wrote) = (_, _, wrote)
  written_prefix elsewhere run (block_stopped m e b f wrote at g) = (_, _, wrote)

  -- A worker's block does not panic, and its result is one of `results`.
  abbrev pub IsMade : BlockResult → Type 0
  IsMade b =
      (b' : BlockResult) × (process_block z format b ≡ ok b')
      × (get_elem? results b.block_id ≡ some b')

  IsMade-from : (bs : List BlockResult) → All IsWork bs → All IsMade bs
  IsMade-from [] h = tt
  IsMade-from (b ∷ bs) h =
      let (id, c, made, at) = Processed-at processed b.block_id h.0 in
      ((c, made, at), IsMade-from bs h.1)

  pub busy_IsMade : {s : Pipe} → Reach z format conc (init conc first works) s → All IsMade s.busy
  busy_IsMade {s} r = IsMade-from s.busy (reach-Inv r).busy_IsWork

  -- For fewer than 2^32 blocks that have their numbers in the order of sending, with the workers'
  -- results for them: in any state that the goroutines reach, the writer is that after writing some
  -- first part of the results' blocks one after another.
  pub reach-write_blocks :
      {s : Pipe}
      → Reach z format conc (init conc first works) s
      → (m : ℕ) × (r : Result Error (Unit {0})) × (write_blocks first
            (map (λ b. b.bytes) (take m results))
          ≡ (s.run.writer, r))
  reach-write_blocks {s} r = written_prefix _ s.run (reach-Inv r).drained.0

  ended :
      (elsewhere : ℕ → ℕ) (run : Run)
      → Drained first results few elsewhere run
      → ((i : ℕ) → elsewhere i ≡ 0)
      → All (λ b. b.err ≡ none) results
      → (write_blocks first (map (λ b. b.bytes) results) ≡ outcome_of run)
        × (run.failed ≡ none → run.digests ≡ all_digests results)
  unfolding outcome_of result_of
  ended elsewhere run (running f bound wrote hashed kept, h, none_next) empty fine =
      let all : take run.next_block_id results ≡ results =
        take_all run.next_block_id results
          (elim (Bool-cases (ltb run.next_block_id (length results))) [
            | inl less ↦ absurd (
                omega (
                  arith,
                  kept run.next_block_id (omega arith) (ltb→lt _ _ less),
                  none_next f,
                  empty run.next_block_id,
                ))
            | inr not_less ↦ ground (arith, lt→ltb run.next_block_id (length results))
          ]) in
      (
        ap (λ t. write_blocks first (map (λ b. b.bytes) t)) (sym all)
            ∙ wrote
            ∙ sym (ap (λ t. (run.writer, result_of t)) f),
        λ same. hashed ∙ ap all_digests all,
      )
  ended elsewhere run (write_stopped m e f wrote, h, none_next) empty fine = (
    ap (write_blocks first) (
          ap (map (λ b. b.bytes)) (sym (take-append-drop m results))
          ∙ map-append (λ b. b.bytes) (take m results) (drop m results))
        ∙ write_blocks_stop first (map (λ b. b.bytes) (take m results))
            (map (λ b. b.bytes) (drop m results)) wrote
        ∙ sym (ap (λ t. (run.writer, result_of t)) f),
    λ same. absurd (none-some (sym same ∙ f)),
  )
  ended elsewhere run (block_stopped m e b f wrote at g, h, none_next) empty fine =
      absurd (none-some (sym (All_get (λ b. b.err ≡ none) results b.block_id fine at) ∙ g))

  pub reach-outcome_of :
      {s : Pipe}
      → All (λ b. b.err ≡ none) results
      → Reach z format conc (init conc first works) s
      → IsQuiet s
      → (write_blocks first (map (λ b. b.bytes) results) ≡ outcome_of s.run)
        × (s.run.failed ≡ none → s.run.digests ≡ all_digests results)
  unfolding count
  reach-outcome_of {s} fine r (no_todo, no_work, no_busy, no_result) =
      ended (outside s) s.run (reach-Inv r).drained
        (λ i. omega (
          arith,
          ap (count i) no_todo,
          ap (count i) no_work,
          ap (count i) no_busy,
          ap (count i) no_result,
        ))
        fine
