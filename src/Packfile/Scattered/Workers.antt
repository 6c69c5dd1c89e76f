-- ===== src/Packfile/Scattered/Workers.antt =====
-- packfile/reader.go, ReadItems: the workers, as steps of goroutines that share a counter of batches,
-- the flag `cancelled` and the first error. Reads of the file do not fail, and the context is not
-- cancelled. A worker takes its number and reads the flag in one step, and what it does with an error
-- is one step with what returned it. Where the code panics, the program ends and there is no step.
use event_analysis.Prelude.{
  ℕ, ◌+◌, ◌/◌, ◌%◌, ◌≤◌, ◌≡◌, ◌⊎◌, ◌-◌, min, List, [], ◌∷◌, ◌++◌, length, take, drop, Option, none,
  some, get_elem?, Bool, true, false, Result, ok, err, ◌>>=◌,
}
use event_analysis.Prelude.Slices.{slice, index}
use event_analysis.Zstd
use event_analysis.Packfile.{Error}
use event_analysis.Packfile.Decoder.{Decoder, item}
use event_analysis.Packfile.Reader.{Reader}
use event_analysis.Packfile.Scattered.{IoBatch, decoder_of}

-- An error of the packfile, or one that `fn` returned.
pub data Fault : Type 0 where
  packfile : Error → Fault
  callback : ℕ → Fault

-- A worker within a batch: its buffer, the record that is decoded, and the positions to go.
pub record Round : Type 0 where
  pub read_buf : List ℕ
  pub read_start : ℕ
  pub prev : Option (ℕ × Decoder)
  pub idx : ℕ
  pub positions : List ℕ

-- The positions of a batch.
abbrev pub part_of : List ℕ → IoBatch → List ℕ
part_of positions batch = take (batch.idx_end - batch.idx_start) (drop batch.idx_start positions)

unfoldable pub open_round : Reader → List ℕ → IoBatch → Result Error Round
open_round r positions batch = do
  read_start ← index r.offsets batch.first_record
  read_end ← index r.offsets (batch.last_record + 1)
  read_buf ← slice r.file read_start read_end
  ok (record {
    read_buf = read_buf;
    read_start = read_start;
    prev = none;
    idx = batch.idx_start;
    positions = part_of positions batch;
  })

-- The loop's body up to the call of `fn`: the call's arguments, and the round behind it.
unfoldable pub read_next :
    Zstd.Library → Reader → Round → ℕ → List ℕ → Result Error ((ℕ × List ℕ) × Round)
read_next z r round p positions = do
  let rec = p / r.items_per_record
  rd ← decoder_of z r round.read_buf round.read_start round.prev rec
  it ← item rd (p % r.items_per_record)
  ok (
    (round.idx, it),
    record round { prev = some (rec, rd); idx = round.idx + 1; positions = positions },
  )

-- The shared variables, the workers that are about to take a batch, and those within one. `calls` are
-- the calls of `fn` so far.
pub record Reading : Type 0 where
  pub next_batch : ℕ
  pub idle : ℕ
  pub busy : List Round
  pub calls : List (ℕ × List ℕ)
  pub cancelled : Bool
  pub first_err : Option Fault

-- `errOnce`
unfoldable pub keep_first : Option Fault → Fault → Option Fault
keep_first none fault = some fault
keep_first (some first) fault = some first

abbrev pub all_idle : ℕ → List IoBatch → Reading
all_idle concurrency batches = record {
  next_batch = 0;
  idle = min (length batches) concurrency;
  busy = [];
  calls = [];
  cancelled = false;
  first_err = none;
}

module _ (z : Zstd.Library) (r : Reader) (positions : List ℕ) (batches : List IoBatch)
    (fn : ℕ → List ℕ → Option ℕ) where
  -- A worker leaves, takes a batch, calls `fn`, fails in one of two ways, or is done with its batch.
  pub data Step (s : Reading) : Reading → Type 0 where
    leave :
        (idle : ℕ)
        → s.idle ≡ idle + 1
        → (length batches ≤ s.next_batch) ⊎ (s.cancelled ≡ true)
        → Step s (record s { next_batch = s.next_batch + 1; idle = idle })
    take_batch :
        (idle : ℕ) (batch : IoBatch) (round : Round)
        → s.idle ≡ idle + 1
        → s.cancelled ≡ false
        → get_elem? batches s.next_batch ≡ some batch
        → open_round r positions batch ≡ ok round
        → Step s (record s { next_batch = s.next_batch + 1; idle = idle; busy = round ∷ s.busy })
    call :
        (front : List Round) (round round' : Round) (back : List Round) (p : ℕ) (ps : List ℕ)
        (made : ℕ × List ℕ)
        → s.busy ≡ front ++ (round ∷ back)
        → round.positions ≡ p ∷ ps
        → read_next z r round p ps ≡ ok (made, round')
        → fn made.0 made.1 ≡ none
        → Step s (record s { busy = front ++ (round' ∷ back); calls = s.calls ++ (made ∷ []) })
    call_failed :
        (front : List Round) (round round' : Round) (back : List Round) (p : ℕ) (ps : List ℕ)
        (made : ℕ × List ℕ) (fault : ℕ)
        → s.busy ≡ front ++ (round ∷ back)
        → round.positions ≡ p ∷ ps
        → read_next z r round p ps ≡ ok (made, round')
        → fn made.0 made.1 ≡ some fault
        → Step s (record s {
          busy = front ++ back;
          calls = s.calls ++ (made ∷ []);
          cancelled = true;
          first_err = keep_first s.first_err (callback fault);
        })
    read_failed :
        (front : List Round) (round : Round) (back : List Round) (p : ℕ) (ps : List ℕ) (e : Error)
        → s.busy ≡ front ++ (round ∷ back)
        → round.positions ≡ p ∷ ps
        → read_next z r round p ps ≡ err e
        → Step s (record s {
          busy = front ++ back;
          cancelled = true;
          first_err = keep_first s.first_err (packfile e);
        })
    done :
        (front : List Round) (round : Round) (back : List Round)
        → s.busy ≡ front ++ (round ∷ back)
        → round.positions ≡ []
        → Step s (record s { busy = front ++ back; idle = s.idle + 1 })

  pub data Reach (first : Reading) : Reading → Type 0 where
    start : Reach first first
    later : {s t : Reading} → Reach first s → Step s t → Reach first t

-- `wg.Wait` returns.
abbrev pub IsFinished : Reading → Type 0
IsFinished s = (s.idle ≡ 0) × (s.busy ≡ [])
