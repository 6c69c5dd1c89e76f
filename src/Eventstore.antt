-- ===== src/Eventstore.antt =====
-- eventstore/writer.go and eventstore/reader.go: events as the items of a packfile.
pub mod RoundTrip
pub mod Rocksdb
mod Tests
use event_analysis.Prelude.{ℕ, ◌*◌, ◌^◌, List, [], ◌∷◌, Bool, Result}
use event_analysis.Prelude.Int.{ℤ}
use event_analysis.Zstd
use event_analysis.Packfile.{Error, RecordFormat}
use event_analysis.Packfile.Writer
use event_analysis.Packfile.Writer.{File, Outcome, append_item}
use event_analysis.Packfile.Reader.{Reader, read_item}
use event_analysis.Packfile.Range
use event_analysis.Packfile.Range.{Yield, read_range}

-- Without Concurrency, which the serial path does not read.
pub record WriterOptions : Type 0 where
  pub items_per_record : ℤ
  pub format : RecordFormat
  pub content_hash : Bool

abbrev pub packfile_opts : WriterOptions → Writer.WriterOptions
packfile_opts opts = record {
  items_per_record = opts.items_per_record;
  format = opts.format;
  content_hash = opts.content_hash;
  bytes_per_sync = 2 ^ 20;
}

unfoldable pub create : WriterOptions → File → Result Error Writer.Writer
create opts file = Writer.create (packfile_opts opts) file

unfoldable pub append_event : Zstd.Library → Writer.Writer → List ℕ → Outcome
append_event z w event = append_item z w (event ∷ [])

unfoldable pub finish : Zstd.Library → Writer.Writer → Outcome
finish z w = Writer.finish z w []

pub close : Writer.Writer → Outcome
close w = Writer.close w

abbrev pub event_count : Reader → ℕ
event_count r = r.total_items

abbrev pub read_event : Zstd.Library → Reader → ℤ → Result Error (List ℕ)
read_event z r position = read_item z r position

abbrev pub read_events : Zstd.Library → Reader → ℤ → ℤ → Yield
read_events z r start count = read_range z r start count

abbrev pub verify : Zstd.Library → Reader → Result Error (Unit {0})
verify z r = Range.verify z r
