-- ===== src/Packfile/Pipeline.antt =====
-- packfile/writer.go with Concurrency above 1: blockWorker, runWriter, and the channels between
-- them. A block is one step at a worker; the channel of an error to Finish is the field `failed`.
pub mod Blocks
pub mod Order
pub mod Drain
pub mod Schedule
pub mod Progress
pub mod Stuck
pub mod Same
pub mod Tests
use event_analysis.Prelude.{
  ℕ, zero, suc, ◌+◌, ◌%◌, ◌^◌, ◌<◌, ◌≡◌, List, [], ◌∷◌, ◌++◌, length, Option, none, some, ◌==◌,
  if◌then◌else◌,
}
use event_analysis.Prelude.{Result, ok, err, panicked, ◌>>=◌}
use event_analysis.Prelude.Bytes.{le_bytes}
use event_analysis.Prelude.Slices.{slice}
use event_analysis.Hash.Sha256.{sum256}
use event_analysis.Zstd
use event_analysis.Packfile.{Error, RecordFormat, block_failed}
use event_analysis.Packfile.Record.{build_index, format_block}
use event_analysis.Packfile.Writer.{Writer, Outcome, write_block}

-- `digest` is `none` where `hasHash` is false, and `hash_sizes` where it is nil.
pub record BlockResult : Type 0 where
  pub block_id : ℕ
  pub bytes : List ℕ
  pub for_index : List ℕ
  pub hash_sizes : Option (List ℕ)
  pub digest : Option (List ℕ)
  pub err : Option Error

-- What `flush` sends to the workers.
unfoldable pub block_work : Writer → ℕ → Result Error BlockResult
block_work w next_block_id = do
  for_index ← build_index w.items_per_record w.sizes
  ok (record {
    block_id = next_block_id;
    bytes = w.buf;
    for_index = for_index;
    hash_sizes = if w.content_hash then some w.sizes else none;
    digest = none;
    err = none;
  })

-- The hash goroutine's bytes: each item behind its size.
unfoldable pub hash_input : List ℕ → ℕ → List ℕ → Result Error (List ℕ)
hash_input bytes offset [] = ok []
hash_input bytes offset (size ∷ sizes) = do
  item ← slice bytes offset (offset + size)
  rest ← hash_input bytes (offset + size) sizes
  ok ((le_bytes 4 size ++ item) ++ rest)

unfoldable pub digest_of : List ℕ → Option (List ℕ) → Result Error (Option (List ℕ))
digest_of bytes none = ok none
digest_of bytes (some sizes) = do input ← hash_input bytes 0 sizes; ok (some (sum256 input))

-- The worker's answer: the block as the format stores it, or the error of the compressor.
unfoldable pub block_answer : ℕ → Option (List ℕ) → Result Error (List ℕ) → Result Error BlockResult
block_answer id digest (ok block) = ok (record {
  block_id = id;
  bytes = block;
  for_index = [];
  hash_sizes = none;
  digest = digest;
  err = none;
})
block_answer id digest (err e) = ok (record {
  block_id = id;
  bytes = [];
  for_index = [];
  hash_sizes = none;
  digest = none;
  err = some (block_failed id e);
})
block_answer id digest panicked = panicked

-- One round of `blockWorker`.
unfoldable pub process_block : Zstd.Library → RecordFormat → BlockResult → Result Error BlockResult
process_block z format work = do
  digest ← digest_of work.bytes work.hash_sizes
  block_answer work.block_id digest (format_block z format work.bytes work.for_index)

-- The variables of `runWriter`, with the writer that it writes to; `failed` is what it sent to Finish.
pub record Run : Type 0 where
  pub writer : Writer
  pub digests : List ℕ
  pub pending : List BlockResult
  pub next_block_id : ℕ
  pub failed : Option Error

-- The map `pending`.
unfoldable pub find_block : ℕ → List BlockResult → Option BlockResult
find_block id [] = none
find_block id (b ∷ blocks) = if b.block_id == id then some b else find_block id blocks

unfoldable pub delete_block : ℕ → List BlockResult → List BlockResult
delete_block id [] = []
delete_block id (b ∷ blocks) =
    if b.block_id == id then delete_block id blocks else b ∷ delete_block id blocks

unfoldable pub add_digest : Option (List ℕ) → List ℕ → List ℕ
add_digest none digests = digests
add_digest (some digest) digests = digests ++ digest

-- Behind the write of the block that is next.
unfoldable pub after_write : Run → Option (List ℕ) → Outcome → Run
after_write run digest (w, ok u) = record {
  writer = w;
  digests = add_digest digest run.digests;
  pending = delete_block run.next_block_id run.pending;
  next_block_id = (run.next_block_id + 1) % 2 ^ 32;
  failed = none;
}
after_write run digest (w, err e) = record run {
  writer = w;
  pending = delete_block run.next_block_id run.pending;
  failed = some e;
}
after_write run digest (w, panicked) = record run {
  writer = w;
  pending = delete_block run.next_block_id run.pending;
}

-- The body of the loop over the blocks that are next.
unfoldable pub write_next : Run → BlockResult → Run
write_next run br = after_write run br.digest (write_block run.writer br.bytes)

-- Whether the loop goes on: without an error, and with a block that is next.
unfoldable pub next_round : Option Error → Option BlockResult → Run → (BlockResult → Run) → Run
next_round (some e) found run rest = run
next_round none none run rest = run
next_round none (some br) run rest = rest br

-- `for br, ok := pending[nextBlockID]; ok; ...`; each round takes a block out of the map, so that its
-- size is enough fuel.
unfoldable pub drain : ℕ → Run → Run
drain zero run = run
drain (suc fuel) run =
    next_round run.failed (find_block run.next_block_id run.pending) run
      (λ br. drain fuel (write_next run br))

-- The guards of the loop over the results: behind an error they are thrown away.
unfoldable pub accept : Option Error → Option Error → Run → Run → Run
accept (some e) error run rest = run
accept none (some e) run rest = record run { failed = some e }
accept none none run rest = rest

unfoldable pub put_block : BlockResult → Run → Run
put_block result run = record run { pending = result ∷ delete_block result.block_id run.pending }

-- One result off the channel.
unfoldable pub receive : Run → BlockResult → Run
receive run result =
    let run' = put_block result run in
    accept run.failed result.err run (drain (length run'.pending) run')

-- The blocks that `flush` has not sent, both channels, and the workers: those with a block, and the
-- number of those that wait for one.
pub record Pipe : Type 0 where
  pub todo : List BlockResult
  pub work_ch : List BlockResult
  pub busy : List BlockResult
  pub idle : ℕ
  pub result_ch : List BlockResult
  pub run : Run

-- A worker returns after an error.
unfoldable pub idle_after : Option Error → ℕ → ℕ
idle_after none idle = idle + 1
idle_after (some e) idle = idle

-- The goroutines' steps; a channel holds `conc` values.
pub data Step (z : Zstd.Library) (format : RecordFormat) (conc : ℕ) (s : Pipe) : Pipe → Type 0 where
  send :
      (b : BlockResult) (todo : List BlockResult)
      → s.todo ≡ b ∷ todo
      → length s.work_ch < conc
      → Step z format conc s (record s { todo = todo; work_ch = s.work_ch ++ (b ∷ []) })
  take_work :
      (b : BlockResult) (work_ch : List BlockResult) (idle : ℕ)
      → s.work_ch ≡ b ∷ work_ch
      → s.idle ≡ idle + 1
      → Step z format conc s (record s { work_ch = work_ch; busy = b ∷ s.busy; idle = idle })
  work :
      (front : List BlockResult) (b b' : BlockResult) (back : List BlockResult)
      → s.busy ≡ front ++ (b ∷ back)
      → process_block z format b ≡ ok b'
      → length s.result_ch < conc
      → Step z format conc s (record s {
        busy = front ++ back;
        idle = idle_after b'.err s.idle;
        result_ch = s.result_ch ++ (b' ∷ []);
      })
  write :
      (b : BlockResult) (result_ch : List BlockResult)
      → s.result_ch ≡ b ∷ result_ch
      → Step z format conc s (record s { result_ch = result_ch; run = receive s.run b })

-- The start: every worker waits.
abbrev pub init : ℕ → Writer → List BlockResult → Pipe
init conc w works = record {
  todo = works;
  work_ch = [];
  busy = [];
  idle = conc;
  result_ch = [];
  run = record { writer = w; digests = []; pending = []; next_block_id = 0; failed = none };
}

pub data Reach (z : Zstd.Library) (format : RecordFormat) (conc : ℕ) (first : Pipe)
    : Pipe → Type 0 where
  start : Reach z format conc first first
  later :
      {s t : Pipe}
      → Reach z format conc first s
      → Step z format conc s t
      → Reach z format conc first t
