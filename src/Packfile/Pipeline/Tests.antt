-- ===== src/Packfile/Pipeline/Tests.antt =====
-- Runs of the concurrent path of packfile/writer.go on small inputs.
use event_analysis.Prelude.{ℕ, ◌≡◌, refl, arith}
use event_analysis.Prelude.{
  List, [], ◌∷◌, ◌++◌, map, take, All, true, none, some, Result, ok, ◌>>=◌, ap,
}
use event_analysis.Zstd.{Library, known}
use event_analysis.Zstd
use event_analysis.Packfile.{Error, raw, compressed, block_failed}
use event_analysis.Packfile
use event_analysis.Packfile.ContentHash.Chunks.{chunk_digest, chunked_hash}
use event_analysis.Hash.Sha256.{sum256}
use event_analysis.Packfile.Tests.{
  storing, pairs, two_items, one_item, two_block, one_block, two_index, one_index, two_IsBlock,
  one_IsBlock, two_index_made,
}
use event_analysis.Packfile.Record.{format_block}
use event_analysis.Packfile.Writer.{Writer, started, assemble}
use event_analysis.Packfile.Writer.Whole.{new_file}
use event_analysis.Packfile.Writer.Invariant.{IsBlock, Records}
use event_analysis.Packfile.Writer.Runs.{Small}
use event_analysis.Packfile.Writer.Blocks.{write_blocks}
use event_analysis.Packfile.Pipeline.{
  BlockResult, Run, Pipe, Step, send, take_work, work, write, Reach, start, later, init, block_work,
  process_block, digest_of, block_answer,
}
use event_analysis.Packfile.Pipeline.Schedule.{Processed, IsQuiet, outcome_of, reach-write_blocks}
use event_analysis.Packfile.Pipeline.{drain, accept, put_block, receive, delete_block}
use event_analysis.Packfile.Pipeline.Drain.{IsOver, receive-IsOver}
use event_analysis.Packfile.Pipeline.Progress.{reach-IsQuiet}
use event_analysis.Packfile.Pipeline.Stuck.{at, IsDoomed, flush_waits}
use event_analysis.Packfile.Pipeline.Same.{
  sent, made, works_of, results_of, works_of-Processed, process_block-sent,
  process_block-block_work, outcome_of-write_blocks, digests-chunked_hash,
}
use mathlib.Core.List.{flatten}

abbrev w : Writer
w = started pairs 2 none new_file

abbrev records : Records
records = (two_items, two_block) ∷ ((one_item, one_block) ∷ [])

assembled : All (λ r. IsBlock storing raw 2 r.0 r.1) records
assembled = (two_IsBlock, (one_IsBlock, tt))

two-Small : All Small two_items
two-Small = (omega arith, (omega arith, tt))

one-Small : All Small one_item
one-Small = (omega arith, tt)

abbrev two_sent : BlockResult
two_sent = sent true 0 two_items two_index

abbrev one_sent : BlockResult
one_sent = sent true 1 one_item one_index

two_made : process_block storing raw two_sent ≡ ok (made true 0 two_items two_block)
unfolding format_block flatten
two_made = process_block-sent storing raw true 0 two_items two_index two_block two-Small refl

one_made : process_block storing raw one_sent ≡ ok (made true 1 one_item one_block)
unfolding format_block flatten
one_made = process_block-sent storing raw true 1 one_item one_index one_block one-Small refl

abbrev both : List BlockResult
both = works_of storing raw 2 true 0 records assembled

-- Two workers take the two blocks, and the second block is done first.
halfway : (s : Pipe) × Reach storing raw 2 (init 2 w both) s
unfolding works_of assembled two_IsBlock one_IsBlock
halfway =
    let sent_both : Reach storing raw 2 (init 2 w both) _ =
      later (later start (send two_sent (one_sent ∷ []) refl (omega arith)))
        (send one_sent [] refl (omega arith)) in
    let taken : Reach storing raw 2 (init 2 w both) _ =
      later (later sent_both (take_work two_sent (one_sent ∷ []) 1 refl refl))
        (take_work one_sent [] 0 refl refl) in
    (_, later taken (work [] one_sent _ (two_sent ∷ []) refl one_made (omega arith)))

overtaken : (s : Pipe) × Reach storing raw 2 (init 2 w both) s × IsQuiet s
unfolding halfway
overtaken =
    let done : Reach storing raw 2 (init 2 w both) _ =
      later halfway.1 (work [] two_sent _ [] refl two_made (omega arith)) in
    let written : Reach storing raw 2 (init 2 w both) _ =
      later (later done (write _ _ refl)) (write _ [] refl) in
    (_, written, (refl, refl, refl, refl))

outcome_of-write_blocks_example :
    outcome_of overtaken.0.run ≡ write_blocks w (two_block ∷ (one_block ∷ []))
outcome_of-write_blocks_example =
    outcome_of-write_blocks storing raw 2 2 true w records assembled overtaken.0 (omega arith)
      (two-Small, (one-Small, tt)) overtaken.1 overtaken.2

digests-chunked_hash_example :
    sum256 overtaken.0.run.digests ≡ chunked_hash (two_items ∷ []) one_item
unfolding overtaken event_analysis.Packfile.Pipeline.receive
    event_analysis.Packfile.Pipeline.put_block event_analysis.Packfile.Pipeline.accept
    event_analysis.Packfile.Pipeline.drain event_analysis.Packfile.Pipeline.next_round
    event_analysis.Packfile.Pipeline.write_next event_analysis.Packfile.Pipeline.find_block
    event_analysis.Packfile.Pipeline.delete_block event_analysis.Packfile.Pipeline.after_write
    event_analysis.Packfile.Writer.write_block event_analysis.Packfile.Writer.write
    event_analysis.Packfile.Writer.write_answered event_analysis.Packfile.Writer.start_writeback
digests-chunked_hash_example =
    digests-chunked_hash storing raw 2 2 true w records assembled overtaken.0 (omega arith)
      (two-Small, (one-Small, tt)) overtaken.1 overtaken.2 (two_items ∷ []) one_item refl refl refl

both-Processed : Processed storing raw 0 both (results_of storing raw 2 true 0 records)
both-Processed =
    works_of-Processed storing raw 2 true 0 records assembled (two-Small, (one-Small, tt))

reach-write_blocks_example :
    (m : ℕ) × (r : Result Error (Unit {0})) × (write_blocks w
        (map (λ b. b.bytes) (take m (results_of storing raw 2 true 0 records)))
      ≡ (overtaken.0.run.writer, r))
unfolding results_of
reach-write_blocks_example =
    reach-write_blocks storing raw 2 w both (results_of storing raw 2 true 0 records) (omega arith)
      both-Processed overtaken.1

-- From the state in which the second block has overtaken the first.
reach-IsQuiet_example : (t : Pipe) × Reach storing raw 2 halfway.0 t × IsQuiet t
unfolding results_of
reach-IsQuiet_example =
    reach-IsQuiet storing raw 2 w both (results_of storing raw 2 true 0 records) (omega arith)
      both-Processed (refl, (refl, tt)) (omega arith) halfway.1

process_block-block_work_example :
    (b : BlockResult) × (b' : BlockResult) × (block_work
        (record w { buf = 1 ∷ 2 ∷ 3 ∷ []; sizes = 1 ∷ 2 ∷ [] })
        0
      ≡ ok b)
    × (process_block storing raw b ≡ ok b')
    × (b'.block_id ≡ 0)
    × (b'.bytes ≡ two_block)
    × (b'.digest ≡ some (chunk_digest two_items))
    × (b'.err ≡ none)
unfolding flatten assemble format_block
process_block-block_work_example =
    process_block-block_work storing (record w { buf = 1 ∷ 2 ∷ 3 ∷ []; sizes = 1 ∷ 2 ∷ [] }) 0
      two_items two_block refl refl two-Small
      (ap (λ t. t >>= λ i. ok ((1 ∷ 2 ∷ 3 ∷ []) ++ i)) two_index_made)

-- A library that runs out of memory.
abbrev exhausted : Library
exhausted = record { compress = λ d. none; frame_size = λ c. known 0; decompress = λ n c. none }

abbrev plain : ℕ → BlockResult
plain id = record {
  block_id = id;
  bytes = 7 ∷ [];
  for_index = [];
  hash_sizes = none;
  digest = none;
  err = none;
}

plain-IsDoomed : (id : ℕ) → IsDoomed exhausted compressed (plain id)
unfolding process_block digest_of block_answer format_block Zstd.encode
plain-IsDoomed id = (_, _, refl, refl)

flush_waits_example :
    (run : Run) × Reach exhausted compressed 2
      (init 2 w (plain 0 ∷ (plain 1 ∷ (plain 2 ∷ (plain 3 ∷ (plain 4 ∷ []))))))
      (at (plain 4 ∷ []) (plain 2 ∷ (plain 3 ∷ [])) 0 run)
    × ((t : Pipe)
        → ¬ Step exhausted compressed 2 (at (plain 4 ∷ []) (plain 2 ∷ (plain 3 ∷ [])) 0 run) t)
flush_waits_example =
    flush_waits exhausted compressed 2 w (plain 0 ∷ (plain 1 ∷ [])) (plain 2 ∷ (plain 3 ∷ []))
      (plain 4) [] (omega arith) refl (plain-IsDoomed 0, (plain-IsDoomed 1, tt)) refl

-- The first block arrives when the second one waits in the map: both are written, with any more fuel.
abbrev waiting_run : Run
waiting_run = record {
  writer = w;
  digests = [];
  pending = made true 1 one_item one_block ∷ [];
  next_block_id = 0;
  failed = none;
}

receive-IsOver_example :
    IsOver (receive waiting_run (made true 0 two_items two_block))
    × (accept none none waiting_run
          (drain 9 (put_block (made true 0 two_items two_block) waiting_run))
        ≡ receive waiting_run (made true 0 two_items two_block))
unfolding put_block delete_block
receive-IsOver_example =
    receive-IsOver waiting_run (made true 0 two_items two_block) 9 (omega arith)
