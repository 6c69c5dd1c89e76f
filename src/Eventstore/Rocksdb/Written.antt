-- ===== src/Eventstore/Rocksdb/Written.antt =====
-- A RocksDB event store from Create to the reads: eventstore/rocksdb/writer.go and
-- eventstore/rocksdb/reader.go.
use event_analysis.Prelude.{
  ℕ, zero, suc, ◌+◌, ◌-◌, ◌%◌, ◌^◌, ◌≤◌, ◌<◌, ◌≡◌, refl, sym, ap, ap₂, subst, ◌∙◌, arith,
}
use event_analysis.Prelude.{
  List, [], ◌∷◌, ◌++◌, map, length, take, drop, All, Option, none, some, true, false, not, ◌&&◌,
  if◌then◌else◌, ok, err, Result, ltb, get_elem?, append_assoc, append-nil, lt→ltb, le→ltb_false,
  le→leb, eq→==, ne→==_false, length-append, ◌>>=◌, >>=-eq-ok, check-eq-ok, ltb→lt, length-drop,
  check, length-map,
}
use event_analysis.Prelude.Bytes.{lex_lt}
use event_analysis.Prelude.Int.{pos}
use event_analysis.Eventstore.Rocksdb.{
  Library, Error, position_out_of_range, Writer, create, append_event, finish, event_count,
  append_with, count_of, found, settle, read_event, read_events, yield_values, read_positions,
  yield_results, yielded, check_positions, be_bytes, max_uint32,
}
use event_analysis.Packfile.Lookup.{some_lt}
use event_analysis.Eventstore.Rocksdb.Keys.{length-be_bytes, be_num-be_bytes, lex_lt-be_bytes}
use event_analysis.Packfile.Range.Records.{get_some}
use event_analysis.Eventstore.Rocksdb.Workers.{all_gets-map}
use native.Mathlib.Nat.{mod-eq_of_lt}

abbrev pub Entries : Type 0
Entries = List (List ℕ × List ℕ)

-- What a database with these entries answers, in the order of the keys.
unfoldable pub lookup : List ℕ → Entries → Option (List ℕ)
lookup k [] = none
lookup k (e ∷ es) = if not (lex_lt k e.0) && not (lex_lt e.0 k) then some e.1 else lookup k es

unfoldable pub last_of : Entries → Option (List ℕ)
last_of [] = none
last_of (e ∷ []) = some e.0
last_of (e ∷ (e' ∷ es)) = last_of (e' ∷ es)

unfoldable pub from : List ℕ → Entries → List (List ℕ)
from k [] = []
from k (e ∷ es) = if lex_lt e.0 k then from k es else map (λ t. t.1) (e ∷ es)

pub record Serves (lib : Library) (db : lib.Db) (entries : Entries) : Type 0 where
  pub gets : (k : List ℕ) → lib.get db k ≡ some (lookup k entries)
  pub multi_gets :
      (ks : List (List ℕ)) → lib.multi_get db ks ≡ some (map (λ k. lookup k entries) ks)
  pub last : lib.last_key db ≡ last_of entries
  pub scans : (k : List ℕ) → lib.scan db k ≡ from k entries

-- What RocksDB documents: an SST file takes keys in ascending order, a file with entries can be
-- ingested, and a database, ingested or created empty, serves its entries.
pub record IsLawful (lib : Library) : Type 0 where
  pub contents : lib.Sst → Entries
  pub new_empty : contents lib.new_sst ≡ []
  pub adds :
      (s : lib.Sst) (k v : List ℕ)
      → All (λ e. lex_lt e.0 k ≡ true) (contents s)
      → (s' : lib.Sst) × (lib.add s k v ≡ some s') × (contents s' ≡ contents s ++ ((k, v) ∷ []))
  pub ingests :
      (s : lib.Sst)
      → 0 < length (contents s)
      → (db : lib.Db) × (lib.ingest s ≡ some db) × Serves lib db (contents s)
  pub empties : (db : lib.Db) × (lib.create_empty ≡ some db) × Serves lib db []

-- The events under their positions, from the position `n` on.
unfoldable pub numbered : ℕ → List (List ℕ) → Entries
numbered n [] = []
numbered n (e ∷ events) = (be_bytes 4 n, e) ∷ numbered (n + 1) events

numbered-snoc :
    (n : ℕ) (events : List (List ℕ)) (e : List ℕ)
    → numbered n (events ++ (e ∷ []))
      ≡ numbered n events ++ ((be_bytes 4 (n + length events), e) ∷ [])
unfolding numbered
numbered-snoc n [] e = ap (λ t. (be_bytes 4 t, e) ∷ []) (omega arith)
numbered-snoc n (x ∷ events) e =
    ap (λ t. (be_bytes 4 n, x) ∷ t)
      (numbered-snoc (n + 1) events e
        ∙ ap (λ t. numbered (n + 1) events ++ ((be_bytes 4 t, e) ∷ [])) (omega arith))

numbered_below :
    (n m : ℕ) (events : List (List ℕ))
    → n + length events ≤ m
    → m < 2 ^ 32
    → All (λ e. lex_lt e.0 (be_bytes 4 m) ≡ true) (numbered n events)
unfolding numbered
numbered_below n m [] h small = tt
numbered_below n m (e ∷ events) h small = (
  lex_lt-be_bytes 4 n m (omega (arith, h, small)) small ∙ lt→ltb n m (omega (arith, h)),
  numbered_below (n + 1) m events (omega (arith, h)) small,
)

lookup-numbered :
    (n i : ℕ) (events : List (List ℕ))
    → n + length events ≤ 2 ^ 32
    → n + i < 2 ^ 32
    → lookup (be_bytes 4 (n + i)) (numbered n events) ≡ get_elem? events i
unfolding numbered lookup
lookup-numbered n i [] h small = refl
lookup-numbered n zero (e ∷ events) h small =
    rw
      (
        lex_lt-be_bytes 4 (n + 0) n small (omega (arith, small)),
        le→ltb_false (n + 0) n (omega arith),
        lex_lt-be_bytes 4 n (n + 0) (omega (arith, small)) small,
        le→ltb_false n (n + 0) (omega arith),
      )
      refl
lookup-numbered n (suc i) (e ∷ events) h small =
    rw
      (
        lex_lt-be_bytes 4 (n + suc i) n small (omega (arith, small)),
        le→ltb_false (n + suc i) n (omega arith),
        lex_lt-be_bytes 4 n (n + suc i) (omega (arith, small)) small,
        lt→ltb n (n + suc i) (omega arith),
      )
      (ap (λ t. lookup (be_bytes 4 t) (numbered (n + 1) events)) (omega arith)
        ∙ lookup-numbered (n + 1) i events (omega (arith, h)) (omega (arith, small)))

from-numbered :
    (n i : ℕ) (events : List (List ℕ))
    → n + length events ≤ 2 ^ 32
    → n + i < 2 ^ 32
    → from (be_bytes 4 (n + i)) (numbered n events) ≡ drop i events
unfolding numbered from
from-numbered n zero [] h small = refl
from-numbered n (suc i) [] h small = refl
from-numbered n zero (e ∷ events) h small =
    rw
      (
        lex_lt-be_bytes 4 n (n + 0) (omega (arith, small)) small,
        le→ltb_false n (n + 0) (omega arith),
      )
      (ap (λ t. e ∷ t) (values (n + 1) events))
  where
    values : (n : ℕ) (events : List (List ℕ)) → map (λ t. t.1) (numbered n events) ≡ events
    values n [] = refl
    values n (e ∷ events) = ap (λ t. e ∷ t) (values (n + 1) events)
from-numbered n (suc i) (e ∷ events) h small =
    rw
      (
        lex_lt-be_bytes 4 n (n + suc i) (omega (arith, small)) small,
        lt→ltb n (n + suc i) (omega arith),
      )
      (ap (λ t. from (be_bytes 4 t) (numbered (n + 1) events)) (omega arith)
        ∙ from-numbered (n + 1) i events (omega (arith, h)) (omega (arith, small)))

last_of-numbered :
    (n : ℕ) (e : List ℕ) (events : List (List ℕ))
    → last_of (numbered n (e ∷ events)) ≡ some (be_bytes 4 (n + length events))
unfolding numbered last_of
last_of-numbered n e [] = ap (λ t. some (be_bytes 4 t)) (omega arith)
last_of-numbered n e (e' ∷ events) =
    last_of-numbered (n + 1) e' events ∙ ap (λ t. some (be_bytes 4 t)) (omega arith)

-- A caller that creates the store, appends the events one by one up to the first error, and finishes.
unfoldable pub append_all : (lib : Library) → Writer lib → List (List ℕ) → Result Error (Writer lib)
append_all lib w [] = ok w
append_all lib w (e ∷ events) = do w' ← append_event lib w e; append_all lib w' events

unfoldable pub ingest_events : (lib : Library) → List (List ℕ) → Result Error lib.Db
ingest_events lib events = do w ← append_all lib (create lib) events; (finish lib w).1

module _ (lib : Library) (law : IsLawful lib) where
  -- The writer took these events.
  record Holding (w : Writer lib) (events : List (List ℕ)) : Type 0 where
    held : law.contents w.sfw ≡ numbered 0 events
    counted : w.count ≡ length events
    unclosed : w.closed ≡ false

  append_event-Holding :
      (w : Writer lib) (events : List (List ℕ)) (e : List ℕ)
      → Holding w events
      → length events < 2 ^ 32
      → (w' : Writer lib) × (append_event lib w e ≡ ok w') × Holding w' (events ++ (e ∷ []))
  unfolding append_event append_with
  append_event-Holding w events e v small =
      let key : be_bytes 4 (w.count % 2 ^ 32) ≡ be_bytes 4 (length events) =
        ap (λ t. be_bytes 4 (t % 2 ^ 32)) v.counted ∙ ap (be_bytes 4) (mod-eq_of_lt small) in
      let (sfw, added, holds) = law.adds w.sfw (be_bytes 4 (length events)) e (
        subst (All (λ t. lex_lt t.0 (be_bytes 4 (length events)) ≡ true)) (sym v.held)
          (numbered_below 0 (length events) events (omega arith) small)) in
      (
        record { sfw = sfw; count = w.count + 1; closed = false },
        ap (λ t. append_with lib t w.count (lib.add w.sfw (be_bytes 4 (w.count % 2 ^ 32)) e))
              v.unclosed
            ∙ ap (append_with lib false w.count) (ap (λ t. lib.add w.sfw t e) key ∙ added)
            ∙ rw (le→leb w.count max_uint32 (omega (arith, v.counted, small))) refl,
        record {
          held =
              holds
              ∙ ap (λ t. t ++ ((be_bytes 4 (length events), e) ∷ [])) v.held
              ∙ sym (
                  numbered-snoc 0 events e
                  ∙ ap (λ t. numbered 0 events ++ ((be_bytes 4 t, e) ∷ [])) (omega arith));
          counted = omega (arith, v.counted, length-append events (e ∷ []));
          unclosed = refl;
        },
      )

  append_all-Holding :
      (w : Writer lib) (taken events : List (List ℕ))
      → Holding w taken
      → length taken + length events ≤ 2 ^ 32
      → (w' : Writer lib) × (append_all lib w events ≡ ok w') × Holding w' (taken ++ events)
  unfolding append_all
  append_all-Holding w taken [] v small = (w, refl, subst (Holding w) (sym (append-nil taken)) v)
  append_all-Holding w taken (e ∷ events) v small =
      let (w1, made, v1) = append_event-Holding w taken e v (omega (arith, small)) in
      let (w2, all, v2) =
        append_all-Holding w1 (taken ++ (e ∷ [])) events v1
          (omega (arith, small, length-append taken (e ∷ []))) in
      (
        w2,
        ap (λ t. t >>= λ w'. append_all lib w' events) made ∙ all,
        subst (Holding w2) (append_assoc taken (e ∷ []) events) v2,
      )

  finish_lem :
      (w : Writer lib) (events : List (List ℕ))
      → Holding w events
      → (db : lib.Db) × ((finish lib w).1 ≡ ok db) × Serves lib db (numbered 0 events)
  unfolding finish numbered
  finish_lem w [] v =
      let (db, made, serves) = law.empties in
      (db, rw (v.unclosed, eq→== w.count 0 v.counted, made) refl, serves)
  finish_lem w (e ∷ events) v =
      let (db, made, serves) = law.ingests w.sfw (omega (arith, ap length v.held)) in
      (
        db,
        rw (v.unclosed, ne→==_false w.count 0 (omega (arith, v.counted)), made) refl,
        subst (Serves lib db) v.held serves,
      )

  -- The events are written.
  stored :
      (events : List (List ℕ))
      → length events ≤ 2 ^ 32
      → (db : lib.Db) × (ingest_events lib events ≡ ok db) × Serves lib db (numbered 0 events)
  unfolding ingest_events create numbered
  stored events small =
      let (w, made, v) =
        append_all-Holding (create lib) [] events
          (record { held = law.new_empty; counted = refl; unclosed = refl })
          (omega (arith, small)) in
      let (db, finished, serves) = finish_lem w events v in
      (db, ap (λ t. t >>= λ w. (finish lib w).1) made ∙ finished, serves)

yield_values_lem :
    (lib : Library) (i n : ℕ) (values : List (List ℕ))
    → n ≤ length values
    → yield_values lib i n values ≡ (take n values, ok tt)
unfolding yield_values
yield_values_lem lib i zero values h = refl
yield_values_lem lib i (suc n) [] h = absurd (omega (arith, h))
yield_values_lem lib i (suc n) (value ∷ values) h =
    ap {A = List (List ℕ) × Result Error (Unit {0})} (λ t. (value ∷ t.0, t.1))
      (yield_values_lem lib (i + 1) n values (omega (arith, h)))

-- A database that serves the events.
module _ (lib : Library) (events : List (List ℕ)) (small : length events ≤ 2 ^ 32) (db : lib.Db)
    (serves : Serves lib db (numbered 0 events)) where
  counts : event_count lib db ≡ ok (length events)
  unfolding event_count count_of numbered last_of
  counts = by_events events small serves.last
    where
      by_events :
          (events : List (List ℕ))
          → length events ≤ 2 ^ 32
          → lib.last_key db ≡ last_of (numbered 0 events)
          → event_count lib db ≡ ok (length events)
      by_events [] small e = ap (count_of lib) e
      by_events (x ∷ events) small e =
          ap (count_of lib) (e ∙ last_of-numbered 0 x events)
          ∙ rw
              (
                length-be_bytes 4 (0 + length events),
                be_num-be_bytes 4 (0 + length events) (omega (arith, small)),
              )
              (ap ok (omega arith))

  lookup_at :
      (i : ℕ)
      → i < 2 ^ 32
      → lookup (be_bytes 4 (i % 2 ^ 32)) (numbered 0 events) ≡ get_elem? events i
  lookup_at i h =
      ap (λ t. lookup (be_bytes 4 t) (numbered 0 events)) {y = 0 + i} (mod-eq_of_lt h ∙ omega arith)
      ∙ lookup-numbered 0 i events (omega (arith, small)) (omega (arith, h))

  scanned : (i : ℕ) → i < 2 ^ 32 → from (be_bytes 4 i) (numbered 0 events) ≡ drop i events
  scanned i h =
      ap (λ t. from (be_bytes 4 t) (numbered 0 events)) {y = 0 + i} (omega arith)
      ∙ from-numbered 0 i events (omega (arith, small)) (omega (arith, h))

  -- Positions that pass the check are in range.
  below :
      (positions : List ℕ)
      → check_positions lib (length events) positions ≡ ok tt
      → All (λ p. p < length events) positions
  unfolding check_positions
  below [] h = tt
  below (p ∷ []) h = (ltb→lt p (length events) (check-eq-ok {E = Error} _ h), tt)
  below (p ∷ (q ∷ positions)) h =
      let (done, first, next) = >>=-eq-ok (check {E = Error} (ltb p (length events))) _ h in
      let (done', order, rest) = >>=-eq-ok (check {E = Error} (ltb p q)) _ next in
      (ltb→lt p (length events) (check-eq-ok {E = Error} _ first), below (q ∷ positions) rest)

  looked_up :
      (positions : List ℕ)
      → All (λ p. p < length events) positions
      → map (λ k. lookup k (numbered 0 events)) (map (λ p. be_bytes 4 (p % 2 ^ 32)) positions)
        ≡ map (λ p. get_elem? events p) positions
  looked_up [] h = refl
  looked_up (p ∷ positions) h =
      ap₂ (λ t u. t ∷ u) (lookup_at p (omega (arith, h.0, small))) (looked_up positions h.1)

  reads : (i : ℕ) (e : List ℕ) → get_elem? events i ≡ some e → read_event lib db (pos i) ≡ ok e
  unfolding read_event found
  reads i e h =
      let within : i < length events = some_lt events i h in
      rw
        (
          counts,
          lt→ltb i (length events) within,
          serves.gets (be_bytes 4 (i % 2 ^ 32)),
          lookup_at i (omega (arith, within, small)),
          h,
        )
        refl

  beyond : (i : ℕ) → length events ≤ i → read_event lib db (pos i) ≡ err position_out_of_range
  unfolding read_event
  beyond i h = rw (counts, le→ltb_false i (length events) h) refl

  ranges :
      (start count : ℕ)
      → start + count ≤ length events
      → read_events lib db start count ≡ (take count (drop start events), ok tt)
  unfolding read_events settle
  ranges start zero h = refl
  ranges start (suc n) h =
      let small_start : start % 2 ^ 32 ≡ start = mod-eq_of_lt (omega (arith, h, small)) in
      rw
        (
          ne→==_false (suc n) 0 (omega arith),
          counts,
          le→leb start (length events) (omega (arith, h)),
          le→leb (suc n) (length events - start) (omega (arith, h)),
          serves.scans (be_bytes 4 (start % 2 ^ 32)),
          small_start,
          scanned start (omega (arith, h, small)),
        )
        (yield_values_lem lib 0 (suc n) (drop start events)
          (omega (arith, length-drop start events, h)))

  scattered :
      (concurrency : ℕ) (positions : List ℕ)
      → check_positions lib (length events) positions ≡ ok tt
      → read_positions lib db concurrency positions
        ≡ ok (yield_results lib positions (map (λ p. get_elem? events p) positions))
  unfolding read_positions
  scattered concurrency positions h =
      rw
        (
          counts,
          h,
          all_gets-map lib db (λ k. lookup k (numbered 0 events)) serves.multi_gets concurrency
              (map (λ p. be_bytes 4 (p % 2 ^ 32)) positions),
        )
        (ap (λ t. ok (yield_results lib positions t)) (looked_up positions (below positions h)))

-- Positions below the number of events have events.
all_found :
    (events : List (List ℕ)) (positions : List ℕ)
    → All (λ p. p < length events) positions
    → (found : List (List ℕ)) × (map (λ p. get_elem? events p) positions ≡ map some found)
all_found events [] h = ([], refl)
all_found events (p ∷ positions) h =
    let (e, at) = get_some events p h.0 in
    let (found, are) = all_found events positions h.1 in (e ∷ found, ap₂ (λ t u. t ∷ u) at are)

yield_results-found :
    (lib : Library) (positions : List ℕ) (found : List (List ℕ))
    → length (map {A = List ℕ} some found) ≡ length positions
    → yield_results lib positions (map some found) ≡ map ok found
unfolding yield_results yielded
yield_results-found lib [] [] h = refl
yield_results-found lib (p ∷ positions) [] h = absurd (omega (arith, h))
yield_results-found lib [] (e ∷ found) h = absurd (omega (arith, h))
yield_results-found lib (p ∷ positions) (e ∷ found) h =
    ap (λ t. ok e ∷ t) (yield_results-found lib positions found (omega (arith, h)))

-- For a lawful RocksDB and at most 2^32 events: appending them to a new writer and finishing gives a
-- database, `EventCount` of it is the number of events, and `ReadEvent` gives back the event at any
-- position below it.
pub read_event-ingest_events :
    (lib : Library) (law : IsLawful lib) (events : List (List ℕ)) (i : ℕ) (e : List ℕ)
    → length events ≤ 2 ^ 32
    → get_elem? events i ≡ some e
    → (db : lib.Db) × (ingest_events lib events ≡ ok db)
      × (event_count lib db ≡ ok (length events))
      × (read_event lib db (pos i) ≡ ok e)
read_event-ingest_events lib law events i e small h =
    let (db, made, serves) = stored lib law events small in
    (db, made, counts lib events small db serves, reads lib events small db serves i e h)

-- For a lawful RocksDB and at most 2^32 events: appending them to a new writer and finishing gives a
-- database, of which `ReadEvent` of a position at or behind the number of events returns the error of
-- a position out of range.
pub read_event_beyond :
    (lib : Library) (law : IsLawful lib) (events : List (List ℕ)) (i : ℕ)
    → length events ≤ 2 ^ 32
    → length events ≤ i
    → (db : lib.Db) × (ingest_events lib events ≡ ok db)
      × (read_event lib db (pos i) ≡ err position_out_of_range)
read_event_beyond lib law events i small h =
    let (db, made, serves) = stored lib law events small in
    (db, made, beyond lib events small db serves i h)

-- For a lawful RocksDB, at most 2^32 events and a range within them: appending the events to a new
-- writer and finishing gives a database, of which `ReadEvents` of the range yields these events in
-- order and ends without an error.
pub read_events-ingest_events :
    (lib : Library) (law : IsLawful lib) (events : List (List ℕ)) (start count : ℕ)
    → length events ≤ 2 ^ 32
    → start + count ≤ length events
    → (db : lib.Db) × (ingest_events lib events ≡ ok db)
      × (read_events lib db start count ≡ (take count (drop start events), ok tt))
read_events-ingest_events lib law events start count small h =
    let (db, made, serves) = stored lib law events small in
    (db, made, ranges lib events small db serves start count h)

-- For a lawful RocksDB, at most 2^32 events and positions that pass the reader's validation: appending
-- the events to a new writer and finishing gives a database, and there are events, those at the
-- positions in order, that `ReadPositions` yields one after another without an error, for any
-- concurrency.
pub read_positions-ingest_events :
    (lib : Library) (law : IsLawful lib) (events : List (List ℕ)) (concurrency : ℕ)
    (positions : List ℕ)
    → length events ≤ 2 ^ 32
    → check_positions lib (length events) positions ≡ ok tt
    → (db : lib.Db) × (found : List (List ℕ)) × (ingest_events lib events ≡ ok db)
      × (read_positions lib db concurrency positions ≡ ok (map ok found))
      × (map (λ p. get_elem? events p) positions ≡ map some found)
read_positions-ingest_events lib law events concurrency positions small h =
    let (db, made, serves) = stored lib law events small in
    let (found, are) = all_found events positions (below lib events small db serves positions h) in
    (
      db,
      found,
      made,
      scattered lib events small db serves concurrency positions h
          ∙ ap (λ t. ok (yield_results lib positions t)) are
          ∙ ap ok (
              yield_results-found lib positions found
                (ap length (sym are) ∙ length-map _ positions)),
      are,
    )
