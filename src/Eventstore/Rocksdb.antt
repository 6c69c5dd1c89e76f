-- ===== src/Eventstore/Rocksdb.antt =====
-- eventstore/rocksdb/writer.go and eventstore/rocksdb/reader.go: events under their big-endian
-- positions. RocksDB is a parameter; its files and options are not modelled.
pub mod Keys
pub mod Workers
pub mod Written
mod Tests
use event_analysis.Prelude.{
  ℕ, zero, suc, ◌+◌, ◌-◌, ◌*◌, ◌/◌, ◌%◌, ◌^◌, ◌<◌, ◌≡◌, min, List, [], ◌∷◌, ◌++◌, map, length,
  Option, none, some, Bool, true, false, not, ◌&&◌,
}
use event_analysis.Prelude.{
  ltb, leb, ◌==◌, if◌then◌else◌, Result, ok, err, panicked, guard, check, ◌>>=◌, ◌>>◌, get_elem?,
  take, drop, replicate,
}
use event_analysis.Prelude.Int.{ℤ, pos, negsuc}

-- RocksDB as the program calls it; `none` is an error. A pinned value or a key that is not there is an
-- inner `none`.
pub record Library : Type 1 where
  pub Sst : Type 0
  pub Db : Type 0
  pub new_sst : Sst
  pub add : Sst → List ℕ → List ℕ → Option Sst
  -- `SSTFileWriter.Finish` and the ingest of the file.
  pub ingest : Sst → Option Db
  pub create_empty : Option Db
  pub get : Db → List ℕ → Option (Option (List ℕ))
  pub multi_get : Db → List (List ℕ) → Option (List (Option (List ℕ)))
  -- `SeekToLast`, and the values that an iterator passes behind `Seek`.
  pub last_key : Db → Option (List ℕ)
  pub scan : Db → List ℕ → List (List ℕ)

pub data Error : Type 0 where
  writer_closed add_failed ingest_failed create_failed : Error
  too_many_events : ℕ → Error
  key_size : ℕ → Error
  position_out_of_range get_failed multi_get_failed : Error
  exhausted : ℕ → Error
  not_found : ℕ → Error

-- `binary.BigEndian.PutUint32` for `w` = 4 and n < 2^32, and its inverse.
unfoldable pub be_bytes : ℕ → ℕ → List ℕ
be_bytes zero n = []
be_bytes (suc w) n = n / 256 ^ w ∷ be_bytes w (n % 256 ^ w)

unfoldable pub be_num : List ℕ → ℕ
be_num [] = 0
be_num (b ∷ bs) = b * 256 ^ length bs + be_num bs

abbrev pub max_uint32 : ℕ
max_uint32 = 2 ^ 32 - 1

pub record Writer (lib : Library) : Type 0 where
  pub sfw : lib.Sst
  pub count : ℕ
  pub closed : Bool

module _ (lib : Library) where
  unfoldable pub create : Writer lib
  create = record { sfw = lib.new_sst; count = 0; closed = false }

  unfoldable pub append_with : Bool → ℕ → Option lib.Sst → Result Error (Writer lib)
  append_with closed count added = do
    guard (not closed) writer_closed
    guard (leb count max_uint32) (too_many_events count)
    elim added [
      | none ↦ err add_failed
      | some sfw ↦ ok (record { sfw = sfw; count = count + 1; closed = closed })
    ]

  -- The writer is unchanged where `AppendEvent` returns an error.
  unfoldable pub append_event : Writer lib → List ℕ → Result Error (Writer lib)
  append_event w event =
      append_with w.closed w.count (lib.add w.sfw (be_bytes 4 (w.count % 2 ^ 32)) event)

  opened : Error → Option lib.Db → Result Error lib.Db
  opened e none = err e
  opened e (some db) = ok db

  -- The writer is closed by the first call, whatever the result; a database without events is created
  -- empty.
  unfoldable pub finish : Writer lib → Writer lib × Result Error lib.Db
  unfolding opened
  finish w = if w.closed then (w, err writer_closed) else (
    record w { closed = true },
    if w.count == 0
        then opened create_failed lib.create_empty
        else opened ingest_failed (lib.ingest w.sfw),
  )

  unfoldable pub close : Writer lib → Writer lib
  close w = record w { closed = true }

  unfoldable pub count_of : Option (List ℕ) → Result Error ℕ
  count_of none = ok 0
  count_of (some key) = do guard (length key == 4) (key_size (length key)); ok (be_num key + 1)

  unfoldable pub event_count : lib.Db → Result Error ℕ
  event_count db = count_of (lib.last_key db)

  unfoldable pub found : Option (Option (List ℕ)) → Result Error (List ℕ)
  found none = err get_failed
  found (some none) = err position_out_of_range
  found (some (some event)) = ok event

  unfoldable pub read_event : lib.Db → ℤ → Result Error (List ℕ)
  unfolding found
  read_event db (negsuc n) = do count ← event_count db; err position_out_of_range
  read_event db (pos position) = do
    count ← event_count db
    guard (ltb position count) position_out_of_range
    found (lib.get db (be_bytes 4 (position % 2 ^ 32)))

  -- What is yielded, then the error that is yielded last, or a panic.
  abbrev pub Yield : Type 0
  Yield = List (List ℕ) × Result Error (Unit {0})

  -- The loop over the iterator, at the offset `i`.
  unfoldable pub yield_values : ℕ → ℕ → List (List ℕ) → Yield
  yield_values i zero values = ([], ok tt)
  yield_values i (suc n) [] = ([], err (exhausted i))
  yield_values i (suc n) (value ∷ values) =
      let (more, end) = yield_values (i + 1) n values in (value ∷ more, end)

  unfoldable pub settle : Result Error Yield → Yield
  settle (ok y) = y
  settle (err e) = ([], err e)
  settle panicked = ([], panicked)

  -- `ReadEvents`; a negative argument is out of range.
  unfoldable pub read_events : lib.Db → ℕ → ℕ → Yield
  unfolding settle
  read_events db start count =
      if count == 0
      then ([], ok tt)
      else settle (do
        n ← event_count db
        check (leb start n && leb count (n - start))
        ok (yield_values 0 count (lib.scan db (be_bytes 4 (start % 2 ^ 32)))))

  multi : Option (List (Option (List ℕ))) → Result Error (List (Option (List ℕ)))
  multi none = err multi_get_failed
  multi (some values) = ok values

  -- The workers of `ReadPositions` from the key `lo` on; each has `per_worker` keys at most.
  unfoldable pub worker_gets :
      lib.Db → List (List ℕ) → ℕ → ℕ → ℕ → Result Error (List (Option (List ℕ)))
  unfolding multi
  worker_gets db keys per_worker zero lo = ok []
  worker_gets db keys per_worker (suc workers) lo = if leb (length keys) lo then ok [] else (do
    let hi = min (lo + per_worker) (length keys)
    values ← multi (lib.multi_get db (take (hi - lo) (drop lo keys)))
    rest ← worker_gets db keys per_worker workers (lo + per_worker)
    ok (values ++ rest))

  unfoldable pub all_gets : lib.Db → ℕ → List (List ℕ) → Result Error (List (Option (List ℕ)))
  unfolding multi
  all_gets db reader_concurrency keys =
      let concurrency = min reader_concurrency (length keys) in
      if leb concurrency 1
      then multi (lib.multi_get db keys)
      else worker_gets db keys ((length keys + concurrency - 1) / concurrency) concurrency 0

  -- The validation's panics: the positions ascend and are below the count.
  unfoldable pub check_positions : ℕ → List ℕ → Result Error (Unit {0})
  check_positions n [] = ok tt
  check_positions n (p ∷ []) = check (ltb p n)
  check_positions n (p ∷ (q ∷ positions)) = do
    check (ltb p n)
    check (ltb p q)
    check_positions n (q ∷ positions)

  unfoldable pub yielded : ℕ → Option (List ℕ) → Result Error (List ℕ)
  yielded position none = err (not_found position)
  yielded position (some event) = ok event

  unfoldable pub yield_results : List ℕ → List (Option (List ℕ)) → List (Result Error (List ℕ))
  unfolding yielded
  yield_results (p ∷ positions) (result ∷ results) =
      yielded p result ∷ yield_results positions results
  yield_results positions results = []

  -- `ReadPositions` behind its first test, for a consumer that does not break off and a context that
  -- is not cancelled. What is yielded of each position.
  unfoldable pub read_positions : lib.Db → ℕ → List ℕ → Result Error (List (Result Error (List ℕ)))
  read_positions db concurrency positions = do
    n ← event_count db
    check_positions n positions
    results ← all_gets db concurrency (map (λ p. be_bytes 4 (p % 2 ^ 32)) positions)
    ok (yield_results positions results)
