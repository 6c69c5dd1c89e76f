-- ===== src/Eventstore/Rocksdb/Tests.antt =====
-- A database in memory, and a store of three events.
use event_analysis.Prelude.{
  ℕ, ◌≡◌, refl, ap, arith, List, [], ◌∷◌, ◌++◌, map, All, none, some, Bool, true, false,
  if◌then◌else◌, ok, err,
}
use event_analysis.Prelude.Int.{pos}
use event_analysis.Eventstore.Rocksdb.{
  Library, all_gets, position_out_of_range, event_count, read_event, read_events, read_positions,
  check_positions,
}
use event_analysis.Prelude.Bytes.{lex_lt}
use event_analysis.Eventstore.Rocksdb.Workers.{all_gets-map}
use event_analysis.Eventstore.Rocksdb.Written.{
  Entries, lookup, last_of, from, Serves, IsLawful, ingest_events, read_event-ingest_events,
  read_event_beyond, read_events-ingest_events, read_positions-ingest_events,
}

all_below : Entries → List ℕ → Bool
all_below [] k = true
all_below (e ∷ es) k = if lex_lt e.0 k then all_below es k else false

all_below-true :
    (es : Entries) (k : List ℕ) → All (λ e. lex_lt e.0 k ≡ true) es → all_below es k ≡ true
unfolding all_below
all_below-true [] k h = refl
all_below-true (e ∷ es) k h = rw h.0 (all_below-true es k h.1)

abbrev in_memory : Library
in_memory = record {
  Sst = Entries;
  Db = Entries;
  new_sst = [];
  add = λ s k v. if all_below s k then some (s ++ ((k, v) ∷ [])) else none;
  ingest = λ s. some s;
  create_empty = some [];
  get = λ db k. some (lookup k db);
  multi_get = λ db ks. some (map (λ k. lookup k db) ks);
  last_key = last_of;
  scan = λ db k. from k db;
}

serves : (entries : Entries) → Serves in_memory entries entries
serves entries = record {
  gets = λ k. refl;
  multi_gets = λ ks. refl;
  last = refl;
  scans = λ k. refl;
}

in_memory-IsLawful : IsLawful in_memory
in_memory-IsLawful = record {
  contents = λ s. s;
  new_empty = refl;
  adds = λ s k v h. (
    s ++ ((k, v) ∷ []),
    ap (λ t. if t then some (s ++ ((k, v) ∷ [])) else none) (all_below-true s k h),
    refl,
  );
  ingests = λ s some_entry. (s, refl, serves s);
  empties = ([], refl, serves []);
}

abbrev three : List (List ℕ)
three = (7 ∷ []) ∷ ([] ∷ ((8 ∷ 9 ∷ []) ∷ []))

read_event-ingest_events_example :
    (db : Entries) × (ingest_events in_memory three ≡ ok db)
    × (event_count in_memory db ≡ ok 3)
    × (read_event in_memory db (pos 2) ≡ ok (8 ∷ 9 ∷ []))
read_event-ingest_events_example =
    read_event-ingest_events in_memory in_memory-IsLawful three 2 (8 ∷ 9 ∷ []) (omega arith) refl

read_event_beyond_example :
    (db : Entries) × (ingest_events in_memory three ≡ ok db)
    × (read_event in_memory db (pos 3) ≡ err position_out_of_range)
read_event_beyond_example =
    read_event_beyond in_memory in_memory-IsLawful three 3 (omega arith) (omega arith)

read_events-ingest_events_example :
    (db : Entries) × (ingest_events in_memory three ≡ ok db)
    × (read_events in_memory db 1 2 ≡ ([] ∷ ((8 ∷ 9 ∷ []) ∷ []), ok tt))
read_events-ingest_events_example =
    read_events-ingest_events in_memory in_memory-IsLawful three 1 2 (omega arith) (omega arith)

-- Two workers.
read_positions-ingest_events_example :
    (db : Entries) × (found : List (List ℕ)) × (ingest_events in_memory three ≡ ok db)
    × (read_positions in_memory db 2 (0 ∷ (2 ∷ [])) ≡ ok (map ok found))
    × (some (7 ∷ []) ∷ (some (8 ∷ 9 ∷ []) ∷ []) ≡ map some found)
unfolding check_positions
read_positions-ingest_events_example =
    read_positions-ingest_events in_memory in_memory-IsLawful three 2 (0 ∷ (2 ∷ [])) (omega arith)
      refl

abbrev two_entries : Entries
two_entries = (0 ∷ [], 7 ∷ []) ∷ ((2 ∷ [], 8 ∷ []) ∷ [])

-- Three keys for two workers.
all_gets-map_example :
    all_gets in_memory two_entries 2 ((0 ∷ []) ∷ ((1 ∷ []) ∷ ((2 ∷ []) ∷ [])))
    ≡ ok (map (λ k. lookup k two_entries) ((0 ∷ []) ∷ ((1 ∷ []) ∷ ((2 ∷ []) ∷ []))))
all_gets-map_example =
    all_gets-map in_memory two_entries (λ k. lookup k two_entries) (λ keys. refl) 2
      ((0 ∷ []) ∷ ((1 ∷ []) ∷ ((2 ∷ []) ∷ [])))
