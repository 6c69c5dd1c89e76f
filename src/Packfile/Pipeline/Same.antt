-- ===== src/Packfile/Pipeline/Same.antt =====
-- The concurrent path of packfile/writer.go next to its serial path: the blocks and the content hash.
use event_analysis.Prelude.{ℕ, suc, ◌+◌, ◌^◌, ◌<◌, ◌≡◌, refl, sym, ap, ap₂, ◌∙◌, arith}
use event_analysis.Prelude.{
  List, [], ◌∷◌, ◌++◌, map, length, All, Bool, true, false, none, some, if◌then◌else◌, ok, Result,
  ◌>>=◌, >>=-eq-ok, append_assoc, append-nil, length-append,
}
use event_analysis.Prelude.Slices.{slice-append}
use event_analysis.Hash.Sha256.{sum256}
use event_analysis.Zstd
use event_analysis.Packfile.{Error, RecordFormat}
use event_analysis.Packfile.ContentHash.Chunks.{framed, chunk_digest, chunked_hash}
use event_analysis.Packfile.Record.{build_index, format_block}
use event_analysis.Packfile.Writer.{Writer, assemble}
use event_analysis.Packfile.Writer.Invariant.{IsBlock, Records, blocks_of, map-snoc, flatten-snoc}
use event_analysis.Packfile.Writer.Runs.{Small}
use event_analysis.Packfile.Writer.Blocks.{write_blocks}
use event_analysis.Packfile.Pipeline.{
  BlockResult, Pipe, Reach, init, block_work, process_block, block_answer, hash_input, digest_of,
  add_digest,
}
use event_analysis.Packfile.Pipeline.Blocks.{all_digests}
use event_analysis.Packfile.Pipeline.Schedule.{
  Processed, no_blocks, one_more, outcome_of, IsQuiet, reach-outcome_of,
}
use mathlib.Core.List.{flatten}
use native.Mathlib.Nat.{mod-eq_of_lt}

-- The hash goroutine hashes the bytes that the serial hasher does.
hash_input-framed :
    (front : List ℕ) (items : List (List ℕ)) (offset : ℕ)
    → All Small items
    → length front ≡ offset
    → hash_input (front ++ flatten items) offset (map length items) ≡ ok (framed items)
unfolding hash_input flatten
hash_input-framed front [] offset small e = refl
hash_input-framed front (it ∷ items) offset small e =
    rw
      (
        slice-append {E = Error} front it (flatten items) offset (offset + length it) e refl,
        ap (λ t. hash_input t (offset + length it) (map length items))
              (sym (append_assoc front it (flatten items)))
            ∙ hash_input-framed (front ++ it) items (offset + length it) small.1
                (omega (arith, length-append front it, e)),
        mod-eq_of_lt small.0,
      )
      refl

-- What `flush` sends for a record with these items, and what a worker makes of it.
abbrev pub sent : Bool → ℕ → List (List ℕ) → List ℕ → BlockResult
sent hash id items for_index = record {
  block_id = id;
  bytes = flatten items;
  for_index = for_index;
  hash_sizes = if hash then some (map length items) else none;
  digest = none;
  err = none;
}

abbrev pub made : Bool → ℕ → List (List ℕ) → List ℕ → BlockResult
made hash id items out = record {
  block_id = id;
  bytes = out;
  for_index = [];
  hash_sizes = none;
  digest = if hash then some (chunk_digest items) else none;
  err = none;
}

pub process_block-sent :
    (z : Zstd.Library) (format : RecordFormat) (hash : Bool) (id : ℕ) (items : List (List ℕ))
    (for_index out : List ℕ)
    → All Small items
    → format_block z format (flatten items) for_index ≡ ok out
    → process_block z format (sent hash id items for_index) ≡ ok (made hash id items out)
unfolding process_block digest_of block_answer
process_block-sent z format true id items for_index out small e =
    rw (hash_input-framed [] items 0 small refl, e) refl
process_block-sent z format false id items for_index out small e = rw e refl

block_work-sent :
    (w : Writer) (id : ℕ) (items : List (List ℕ)) (for_index : List ℕ)
    → w.buf ≡ flatten items
    → w.sizes ≡ map length items
    → build_index w.items_per_record (map length items) ≡ ok for_index
    → block_work w id ≡ ok (sent w.content_hash id items for_index)
unfolding block_work
block_work-sent w id items for_index buffered sized indexed =
    ap₂ work buffered sized
    ∙ ap (λ t. t >>= λ for_index. ok (shape (flatten items) (map length items) for_index)) indexed
  where
    shape : List ℕ → List ℕ → List ℕ → BlockResult
    shape buf sizes for_index = record {
      block_id = id;
      bytes = buf;
      for_index = for_index;
      hash_sizes = if w.content_hash then some sizes else none;
      digest = none;
      err = none;
    }

    work : List ℕ → List ℕ → Result Error BlockResult
    work buf sizes =
        build_index w.items_per_record sizes >>= λ for_index. ok (shape buf sizes for_index)

-- For a writer whose buffer and sizes hold items of less than 4 GiB, and whose record the serial path
-- assembles into a block: `flush` sends a block with its number, and a worker turns it into that
-- number, the assembled block, the digest of the items if a content hash is asked for, and no error.
pub process_block-block_work :
    (z : Zstd.Library) (w : Writer) (id : ℕ) (items : List (List ℕ)) (out : List ℕ)
    → w.buf ≡ flatten items
    → w.sizes ≡ map length items
    → All Small items
    → assemble z w ≡ ok out
    → (b : BlockResult) × (b' : BlockResult) × (block_work w id ≡ ok b)
      × (process_block z w.format b ≡ ok b')
      × (b'.block_id ≡ id)
      × (b'.bytes ≡ out)
      × (b'.digest ≡ (if w.content_hash then some (chunk_digest items) else none))
      × (b'.err ≡ none)
unfolding assemble
process_block-block_work z w id items out buffered sized small e =
    let (for_index, indexed, formatted) = >>=-eq-ok (build_index w.items_per_record w.sizes) _ e in
    (
      sent w.content_hash id items for_index,
      made w.content_hash id items out,
      block_work-sent w id items for_index buffered sized
          (ap (build_index w.items_per_record) (sym sized) ∙ indexed),
      process_block-sent z w.format w.content_hash id items for_index out small
          (ap (λ t. format_block z w.format t for_index) (sym buffered) ∙ formatted),
      refl,
      refl,
      refl,
      refl,
    )

-- The items of a last record that is not full, if there are any.
abbrev pub last_chunk : List (List ℕ) → List (List (List ℕ))
last_chunk [] = []
last_chunk (it ∷ items) = (it ∷ items) ∷ []

module _ (z : Zstd.Library) (format : RecordFormat) (k : ℕ) where
  -- The blocks that `flush` sends for these records, from the id `n` on, and the workers' results.
  unfoldable pub works_of :
      Bool
      → ℕ
      → (records : Records) → All (λ r. IsBlock z format k r.0 r.1) records
      → List BlockResult
  unfolding IsBlock
  works_of hash n [] h = []
  works_of hash n (r ∷ records) h = sent hash n r.0 (h.0).0 ∷ works_of hash (n + 1) records h.1

  unfoldable pub results_of : Bool → ℕ → Records → List BlockResult
  results_of hash n [] = []
  results_of hash n (r ∷ records) = made hash n r.0 r.1 ∷ results_of hash (n + 1) records

  pub works_of-Processed :
      (hash : Bool) (n : ℕ) (records : Records) (h : All (λ r. IsBlock z format k r.0 r.1) records)
      → All (λ r. All Small r.0) records
      → Processed z format n (works_of hash n records h) (results_of hash n records)
  unfolding works_of results_of IsBlock
  works_of-Processed hash n [] h small = no_blocks n
  works_of-Processed hash n (r ∷ records) h small =
      one_more n refl (process_block-sent z format hash n r.0 (h.0).0 r.1 small.0 (h.0).2)
        (works_of-Processed hash (n + 1) records h.1 small.1)

  results_of-blocks :
      (hash : Bool) (n : ℕ) (records : Records)
      → map (λ b. b.bytes) (results_of hash n records) ≡ blocks_of records
  unfolding results_of
  results_of-blocks hash n [] = refl
  results_of-blocks hash n (r ∷ records) =
      ap (λ t. r.1 ∷ t) (results_of-blocks hash (n + 1) records)

  length-results_of :
      (hash : Bool) (n : ℕ) (records : Records)
      → length (results_of hash n records) ≡ length records
  unfolding results_of
  length-results_of hash n [] = refl
  length-results_of hash n (r ∷ records) = ap suc (length-results_of hash (n + 1) records)

  results_of-no_err :
      (hash : Bool) (n : ℕ) (records : Records)
      → All (λ b. b.err ≡ none) (results_of hash n records)
  unfolding results_of
  results_of-no_err hash n [] = tt
  results_of-no_err hash n (r ∷ records) = (refl, results_of-no_err hash (n + 1) records)

  results_of-digests :
      (n : ℕ) (records : Records)
      → all_digests (results_of true n records)
        ≡ flatten (map chunk_digest (map (λ r. r.0) records))
  unfolding results_of all_digests flatten add_digest
  results_of-digests n [] = refl
  results_of-digests n (r ∷ records) =
      ap (λ t. chunk_digest r.0 ++ t) (results_of-digests (n + 1) records)

  module _ (conc : ℕ) (hash : Bool) (w : Writer) (records : Records)
      (h : All (λ r. IsBlock z format k r.0 r.1) records) (s : Pipe) (few : length records < 2 ^ 32)
      (small : All (λ r. All Small r.0) records)
      (r : Reach z format conc (init conc w (works_of hash 0 records h)) s)
      (quiet : IsQuiet s) where
    ended :
        (write_blocks w (map (λ b. b.bytes) (results_of hash 0 records)) ≡ outcome_of s.run)
        × (s.run.failed ≡ none → s.run.digests ≡ all_digests (results_of hash 0 records))
    ended =
        reach-outcome_of z format conc w (works_of hash 0 records h) (results_of hash 0 records)
          (omega (arith, length-results_of hash 0 records))
          (works_of-Processed hash 0 records h small) (results_of-no_err hash 0 records) r quiet

    -- For fewer than 2^32 records, each of them items of less than 4 GiB with the block that the
    -- format gives them: in any state that the goroutines reach from the start and in which all blocks
    -- are sent, both channels are empty and no worker is busy, the writer and the error are those of
    -- writing the blocks one after another.
    pub outcome_of-write_blocks : outcome_of s.run ≡ write_blocks w (blocks_of records)
    outcome_of-write_blocks = sym ended.0 ∙ ap (write_blocks w) (results_of-blocks hash 0 records)

    -- For fewer than 2^32 records, each of them items of less than 4 GiB with the block that the
    -- format gives them, cut into chunks and a rest that may be empty, with a content hash: in any
    -- state that the goroutines reach from the start and in which all blocks are sent, both channels
    -- are empty, no worker is busy and nothing failed, the hash of the digests is the hash of the
    -- chunks' digests and the rest's.
    pub digests-chunked_hash :
        (chunks : List (List (List ℕ))) (rest : List (List ℕ))
        → hash ≡ true
        → s.run.failed ≡ none
        → map (λ r. r.0) records ≡ chunks ++ last_chunk rest
        → sum256 s.run.digests ≡ chunked_hash chunks rest
    unfolding chunked_hash
    digests-chunked_hash chunks rest on fine cut =
        ap sum256 (
          ended.1 fine
          ∙ ap (λ t. all_digests (results_of t 0 records)) on
          ∙ results_of-digests 0 records
          ∙ ap (λ t. flatten (map chunk_digest t)) cut)
        ∙ hashed rest
      where
        hashed :
            (rest : List (List ℕ))
            → sum256 (flatten (map chunk_digest (chunks ++ last_chunk rest)))
              ≡ chunked_hash chunks rest
        hashed [] = ap (λ t. sum256 (flatten (map chunk_digest t))) (append-nil chunks)
        hashed (it ∷ rest) = ap sum256 (
            ap flatten (map-snoc chunk_digest chunks (it ∷ rest))
            ∙ flatten-snoc (map chunk_digest chunks) (chunk_digest (it ∷ rest)))
