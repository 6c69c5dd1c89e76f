-- ===== src/Bitmapindex.antt =====
-- bitmapindex/field.go, bitmapindex/writer.go and bitmapindex/reader.go: which events have a field's
-- value. The bitmaps (roaring) and the minimal perfect hash (streamhash) are parameters.
pub mod Added
pub mod Ranked
mod Tests
use event_analysis.Prelude.{
  ℕ, zero, suc, ◌+◌, ◌-◌, ◌^◌, List, [], ◌∷◌, ◌++◌, map, length, take, drop, replicate, Option,
  none, some, Bool, true, false, ◌&&◌,
}
use event_analysis.Prelude.{
  ltb, leb, ◌==◌, if◌then◌else◌, Result, ok, err, panicked, guard, check, map_err, ◌>>=◌, ◌>>◌,
}
use event_analysis.Prelude.Int.{ℤ, pos, negsuc}
use event_analysis.Prelude.Bytes.{same_bytes, lex_lt}
use event_analysis.Event
use event_analysis.Event.{Event}
use event_analysis.Zstd
use event_analysis.Packfile
use event_analysis.Packfile.{RecordFormat, compressed, uncompressed, crc32c}
use event_analysis.Packfile.Writer
use event_analysis.Packfile.Writer.{File, Outcome, and_then, append_item}
use event_analysis.Packfile.Reader
use event_analysis.Packfile.Reader.{read_item}
use event_analysis.Packfile.EndToEnd.{outcome_of}

-- `Field`: a byte.
abbrev pub field_contract_id : ℕ
field_contract_id = 1

abbrev pub field_topic0 : ℕ
field_topic0 = 2

abbrev pub field_count : ℕ
field_count = 6

abbrev pub fingerprint_size : ℕ
fingerprint_size = 4

-- The key, then the field.
unfoldable pub compose_key : ℕ → List ℕ → List ℕ
compose_key f key = key ++ (f ∷ [])

-- roaring: `none` is an error.
pub record Roaring : Type 1 where
  pub Bitmap : Type 0
  pub new : Bitmap
  pub add : Bitmap → ℕ → Bitmap
  pub run_optimize : Bitmap → Bitmap
  pub to_bytes : Bitmap → Option (List ℕ)
  pub unmarshal : List ℕ → Option Bitmap

pub data Answer : Type 0 where
  rank : ℕ → Answer
  not_found query_failed : Answer

-- streamhash: the hash of a key, and the index that is built from the hashes of all keys.
pub record Streamhash : Type 1 where
  pub Mphf : Type 0
  pub pre_hash : List ℕ → List ℕ
  pub build : List (List ℕ) → Option Mphf
  pub query : Mphf → List ℕ → Answer

pub data Error : Type 0 where
  no_keys : Error
  too_many_keys : ℕ → Error
  mphf_build mphf_query : Error
  serialize : ℕ → Error
  deserialize key_not_found : Error
  packfile : Packfile.Error → Error

module _ (roaring : Roaring) where
  -- The map of the writer, from the hash of a key to its bitmap.
  abbrev pub Bitmaps : Type 0
  Bitmaps = List (List ℕ × roaring.Bitmap)

  unfoldable pub get_bitmap : List ℕ → Bitmaps → Option roaring.Bitmap
  get_bitmap hk [] = none
  get_bitmap hk (e ∷ bitmaps) = if same_bytes e.0 hk then some e.1 else get_bitmap hk bitmaps

  -- Adds an ordinal to the hash's bitmap, a new one where there is none.
  unfoldable pub add_ordinal : List ℕ → ℕ → Bitmaps → Bitmaps
  add_ordinal hk ordinal [] = (hk, roaring.add roaring.new ordinal) ∷ []
  add_ordinal hk ordinal (e ∷ bitmaps) =
      if same_bytes e.0 hk
      then (e.0, roaring.add e.1 ordinal) ∷ bitmaps
      else e ∷ add_ordinal hk ordinal bitmaps

  module _ (streamhash : Streamhash) where
    unfoldable pub add_key : List ℕ → ℕ → Bitmaps → Bitmaps
    add_key key ordinal bitmaps = add_ordinal (streamhash.pre_hash key) ordinal bitmaps

    unfoldable pub add_topics : ℕ → ℕ → List (List ℕ) → Bitmaps → Bitmaps
    add_topics i id [] bitmaps = bitmaps
    add_topics i id (topic ∷ topics) bitmaps =
        add_topics (i + 1) id topics (add_key (compose_key (field_topic0 + i) topic) id bitmaps)

    unfoldable pub add_contract : ℕ → Option (List ℕ) → Bitmaps → Bitmaps
    add_contract id none bitmaps = bitmaps
    add_contract id (some contract) bitmaps =
        add_key (compose_key field_contract_id contract) id bitmaps

    -- `Add`: the contract, and up to four topics.
    unfoldable pub add_event : Event → ℕ → Bitmaps → Bitmaps
    add_event ev id bitmaps =
        add_topics 0 id (take (field_count - field_topic0) ev.topics)
          (add_contract id ev.contract_id bitmaps)

-- `slices.SortedFunc` with `bytes.Compare`.
unfoldable pub insert_key : List ℕ → List (List ℕ) → List (List ℕ)
insert_key k [] = k ∷ []
insert_key k (x ∷ xs) = if lex_lt x k then x ∷ insert_key k xs else k ∷ (x ∷ xs)

unfoldable pub sort_keys : List (List ℕ) → List (List ℕ)
sort_keys [] = []
sort_keys (x ∷ xs) = insert_key x (sort_keys xs)

-- `ranked[rank] = entry`
unfoldable pub place : {A : Type 0} → ℕ → A → List (Option A) → Result Error (List (Option A))
place r e [] = panicked
place zero e (x ∷ xs) = ok (some e ∷ xs)
place (suc r) e (x ∷ xs) = do rest ← place r e xs; ok (x ∷ rest)

pub record WriterOptions : Type 0 where
  pub batch_size : ℤ
  pub compress : Bool
  pub content_hash : Bool

-- `NewWriter`: a batch size of 0 or below is 128.
pub batch_size_of : ℤ → ℕ
batch_size_of (pos n) = if n == 0 then 128 else n
batch_size_of (negsuc n) = 128

-- The packfile of the index.
pub packfile_opts : WriterOptions → Writer.WriterOptions
packfile_opts opts = record {
  items_per_record = pos (batch_size_of opts.batch_size);
  format = if opts.compress then compressed else uncompressed;
  content_hash = opts.content_hash;
  bytes_per_sync = 0;
}

-- An item of the packfile: the fingerprint and the bitmap, appended as two parts.
abbrev pub Prepared : Type 0
Prepared = List ℕ × List ℕ

unfoldable pub append_prepared : Zstd.Library → Writer.Writer → List Prepared → Outcome
append_prepared z w [] = (w, ok tt)
append_prepared z w (p ∷ prepared) =
    and_then (append_item z w (p.0 ∷ (p.1 ∷ []))) (λ w'. append_prepared z w' prepared)

module _ (roaring : Roaring) (streamhash : Streamhash) where
  abbrev pub Ranked : Type 0
  Ranked = List (Option (List ℕ × roaring.Bitmap))

  entry_of : List ℕ → Option roaring.Bitmap → Result Error (List ℕ × roaring.Bitmap)
  entry_of hk none = panicked
  entry_of hk (some bm) = ok (take fingerprint_size hk, bm)

  rank_of : Answer → Result Error ℕ
  rank_of (rank r) = ok r
  rank_of not_found = err mphf_query
  rank_of query_failed = err mphf_query

  -- The bitmaps assigned to their ranks.
  unfoldable pub rank_keys :
      streamhash.Mphf → Bitmaps roaring → List (List ℕ) → Ranked → Result Error Ranked
  unfolding entry_of rank_of
  rank_keys mphf bitmaps [] ranked = ok ranked
  rank_keys mphf bitmaps (hk ∷ keys) ranked = do
    r ← rank_of (streamhash.query mphf hk)
    entry ← entry_of hk (get_bitmap roaring hk bitmaps)
    ranked' ← place r entry ranked
    rank_keys mphf bitmaps keys ranked'

  serialized : ℕ → Option (List ℕ) → Result Error (List ℕ)
  serialized i none = err (serialize i)
  serialized i (some bytes) = ok bytes

  -- Each bitmap optimized and serialized; a rank without one panics.
  unfoldable pub prepare : ℕ → Ranked → Result Error (List Prepared)
  unfolding serialized
  prepare i [] = ok []
  prepare i (none ∷ ranked) = panicked
  prepare i (some e ∷ ranked) = do
    bytes ← serialized i (roaring.to_bytes (roaring.run_optimize e.1))
    rest ← prepare (i + 1) ranked
    ok ((e.0, bytes) ∷ rest)

  built : Option streamhash.Mphf → Result Error streamhash.Mphf
  built none = err mphf_build
  built (some mphf) = ok mphf

  -- `Finish` up to the packfile: the perfect hash of the keys, and the items in the order of the ranks.
  unfoldable pub prepared_of : Bitmaps roaring → Result Error (streamhash.Mphf × List Prepared)
  unfolding built
  prepared_of bitmaps = do
    guard (ltb 0 (length bitmaps)) no_keys
    guard (leb (length bitmaps) (2 ^ 32 - 1)) (too_many_keys (length bitmaps))
    let sorted_keys = sort_keys (map (λ e. e.0) bitmaps)
    mphf ← built (streamhash.build sorted_keys)
    ranked ← rank_keys mphf bitmaps sorted_keys (replicate (length bitmaps) none)
    prepared ← prepare 0 ranked
    ok (mphf, prepared)

  -- `Finish`, on a file that opens.
  pub finish :
      Zstd.Library
      → WriterOptions
      → File
      → Bitmaps roaring
      → Result Error (streamhash.Mphf × Writer.Writer)
  finish z opts file bitmaps = do
    (mphf, prepared) ← prepared_of bitmaps
    pw ← map_err packfile (Writer.create (packfile_opts opts) file)
    pw' ←
        map_err packfile
          (outcome_of (and_then (append_prepared z pw prepared) (λ w. Writer.finish z w [])))
    ok (mphf, pw')

  deserialized : Option roaring.Bitmap → Result Error roaring.Bitmap
  deserialized none = err deserialize
  deserialized (some bm) = ok bm

  -- `verifyAndDeserialize`: the fingerprint, then the bitmap.
  unfoldable pub verify_and_deserialize : List ℕ → List ℕ → Result Error roaring.Bitmap
  unfolding deserialized
  verify_and_deserialize entry hk =
      if leb fingerprint_size (length entry)
        && same_bytes (take fingerprint_size entry) (take fingerprint_size hk)
      then deserialized (roaring.unmarshal (drop fingerprint_size entry))
      else err key_not_found

  looked_up : Answer → Result Error ℕ
  looked_up (rank r) = ok r
  looked_up not_found = err key_not_found
  looked_up query_failed = err mphf_query

  -- `Lookup`
  unfoldable pub lookup :
      Zstd.Library → streamhash.Mphf → Reader.Reader → ℕ → List ℕ → Result Error roaring.Bitmap
  unfolding looked_up
  lookup z mphf r f key = do
    let hk = streamhash.pre_hash (compose_key f key)
    slot ← looked_up (streamhash.query mphf hk)
    entry ← map_err packfile (read_item z r (pos slot))
    verify_and_deserialize entry hk
