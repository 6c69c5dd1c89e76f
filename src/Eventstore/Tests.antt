-- ===== src/Eventstore/Tests.antt =====
-- A run of eventstore/ on three events.
use event_analysis.Prelude.{ℕ, ◌≡◌, refl, arith, [], ◌∷◌, ◌++◌, ok, false}
use event_analysis.Prelude.Int.{pos}
use event_analysis.Packfile.{raw}
use event_analysis.Packfile.Decoder.RoundTrip.{IsReadable}
use event_analysis.Packfile.Writer.{Writer}
use event_analysis.Packfile.Writer.Finish.{rest}
use event_analysis.Packfile.Reader.{Reader, do_open}
use event_analysis.Packfile.Tests.{
  storing, storing-IsLawful, two_items, one_item, two_block, one_block, offset_index, two_IsBlock,
  one_IsBlock, offset_index_made,
}
use event_analysis.Eventstore.{WriterOptions, event_count, read_event, read_events, verify}
use event_analysis.Eventstore.RoundTrip.{
  write_events, read_event-write_events, read_events-write_events,
}
use mathlib.Core.List.{flatten}

abbrev pairs : WriterOptions
pairs = record { items_per_record = pos 2; format = raw; content_hash = false }

read_event-write_events_example :
    (w : Writer) × (r : Reader) × (write_events storing pairs (two_items ++ one_item) ≡ ok w)
    × (do_open w.file.content ≡ ok r)
    × (event_count r ≡ 3)
    × (read_event storing r (pos 2) ≡ ok (4 ∷ []))
unfolding flatten IsReadable
read_event-write_events_example =
    read_event-write_events storing storing-IsLawful pairs 2 ((two_items, two_block) ∷ [])
      ((one_item, one_block) ∷ []) one_item offset_index refl (omega arith) (omega arith)
      ((refl, (omega arith, (omega arith, tt)), two_IsBlock), tt) (omega arith, tt) (omega arith)
      (rest (4 ∷ []) [] one_block one_IsBlock) (omega arith) (omega arith)
      (omega arith, (omega arith, tt)) (tt, (tt, tt)) offset_index_made (omega arith) 2 (4 ∷ [])
      refl

-- Two events across the records' border.
read_events-write_events_example :
    (w : Writer) × (r : Reader) × (write_events storing pairs (two_items ++ one_item) ≡ ok w)
    × (do_open w.file.content ≡ ok r)
    × (verify storing r ≡ ok tt)
    × ((g : ℕ) × (read_events storing r (pos 1) (pos 2) ≡ ((2 ∷ 3 ∷ []) ∷ ((4 ∷ []) ∷ []), ok g)))
unfolding flatten IsReadable
read_events-write_events_example =
    read_events-write_events storing storing-IsLawful pairs 2 ((two_items, two_block) ∷ [])
      ((one_item, one_block) ∷ []) one_item offset_index refl (omega arith) (omega arith)
      ((refl, (omega arith, (omega arith, tt)), two_IsBlock), tt) (omega arith, tt) (omega arith)
      (rest (4 ∷ []) [] one_block one_IsBlock) (omega arith) (omega arith)
      (omega arith, (omega arith, tt)) (tt, (tt, tt)) offset_index_made (omega arith) 1 2
      (omega arith)
