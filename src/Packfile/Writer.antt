-- ===== src/Packfile/Writer.antt =====
-- packfile/writer.go: the serial path of the writer (Concurrency of 0 or 1). The file is a script of
-- how its calls go; the compressor is always open; a negative BytesPerSync counts as 0.
pub mod Invariant
pub mod Append
pub mod Runs
pub mod Finish
pub mod Whole
pub mod Failure
pub mod Blocks
pub mod Digest
use event_analysis.Prelude.{
  ℕ, zero, ◌+◌, ◌-◌, ◌*◌, ◌%◌, ◌^◌, List, [], ◌∷◌, ◌++◌, map, length, take, replicate, Bool, true,
  false, not, ◌&&◌, bit_or,
}
use event_analysis.Prelude.{
  Option, none, some, ltb, leb, ◌==◌, if◌then◌else◌, Result, ok, err, panicked, ◌>>=◌,
}
use event_analysis.Prelude.Int.{ℤ, pos, negsuc}
use event_analysis.Prelude.Bytes.{le_bytes}
use event_analysis.Zstd
use event_analysis.Packfile.{
  Error, RecordFormat, compressed, uncompressed, raw, crc32c, magic, version, group_size,
  flag_no_compression, flag_content_hash, flag_no_crc, write_failed, sync_failed, close_failed,
  negative_items_per_record, writer_closed, too_many_items,
}
use event_analysis.Packfile.ContentHash
use event_analysis.Packfile.ContentHash.{Hasher, new_hasher}
use event_analysis.Packfile.Index.{encode_index}
use event_analysis.Packfile.Record.{build_index, format_block}
use mathlib.Core.List.{flatten}

-- What is in the file, and how its next calls go: each write is done, or fails behind some bytes;
-- with no answer left a write is done.
pub record File : Type 0 where
  pub content : List ℕ
  pub answers : List (Option ℕ)
  pub syncs : Bool
  pub closes : Bool

unfoldable pub write_answered : List (Option ℕ) → File → List ℕ → File × ℕ × Bool
write_answered [] f bytes = (record f { content = f.content ++ bytes }, length bytes, true)
write_answered (none ∷ answers) f bytes =
    (record f { content = f.content ++ bytes; answers = answers }, length bytes, true)
write_answered (some n ∷ answers) f bytes = (
  record f { content = f.content ++ take n bytes; answers = answers },
  length (take n bytes),
  false,
)

-- The file, the bytes written, and whether there was no error.
unfoldable pub write : File → List ℕ → File × ℕ × Bool
write f bytes = write_answered f.answers f bytes

pub record WriterOptions : Type 0 where
  pub items_per_record : ℤ
  pub format : RecordFormat
  pub content_hash : Bool
  pub bytes_per_sync : ℕ

pub record Writer : Type 0 where
  pub file : File
  pub pos : ℕ
  pub offsets : List ℕ
  pub bytes_per_sync : ℕ
  pub last_sync_pos : ℕ
  pub buf : List ℕ
  pub sizes : List ℕ
  pub total : ℕ
  pub items_per_record : ℕ
  pub format : RecordFormat
  pub content_hash : Bool
  pub serial_hasher : Option Hasher
  pub err : Option Error
  pub closed : Bool
  pub file_closed : Bool
  -- Whether `Close` removed the file.
  pub removed : Bool

-- A call's writer and result.
abbrev pub Outcome : Type 0
Outcome = Writer × Result Error (Unit {0})

-- `if err := ...; err != nil { w.err = err; return err }`
pub keep_err : Outcome → Outcome
keep_err (w, ok u) = (w, ok u)
keep_err (w, err e) = (record w { err = some e }, err e)
keep_err (w, panicked) = (w, panicked)

unfoldable pub and_then : Outcome → (Writer → Outcome) → Outcome
and_then (w, ok u) f = f w
and_then (w, err e) f = (w, err e)
and_then (w, panicked) f = (w, panicked)

pub resolve_items_per_record : ℤ → Result Error ℕ
resolve_items_per_record (pos n) = if n == 0 then ok 128 else ok n
resolve_items_per_record (negsuc n) = err negative_items_per_record

-- The writer that `Create` starts with.
abbrev pub started : WriterOptions → ℕ → Option Hasher → File → Writer
started opts items_per_record hasher file = record {
  file = file;
  pos = 0;
  offsets = [];
  bytes_per_sync = opts.bytes_per_sync;
  last_sync_pos = 0;
  buf = [];
  sizes = [];
  total = 0;
  items_per_record = items_per_record;
  format = opts.format;
  content_hash = opts.content_hash;
  serial_hasher = hasher;
  err = none;
  closed = false;
  file_closed = false;
  removed = false;
}

-- `Create` on a file that opens.
pub create : WriterOptions → File → Result Error Writer
create opts file = do
  items_per_record ← resolve_items_per_record opts.items_per_record
  hasher ←
      (if opts.content_hash then (do h ← new_hasher items_per_record; ok (some h)) else ok none)
  ok (started opts items_per_record hasher file)

-- The position from which the next writeback starts; the writeback itself changes no content.
unfoldable pub start_writeback : Writer → Writer
start_writeback w =
    if ltb 0 w.bytes_per_sync && leb w.bytes_per_sync (w.pos - w.last_sync_pos)
    then record w { last_sync_pos = w.pos }
    else w

unfoldable pub write_block : Writer → List ℕ → Outcome
write_block w bytes =
    let (file, n, done) = write w.file bytes in
    let w' = record w { offsets = w.offsets ++ (w.pos ∷ []); file = file; pos = w.pos + n } in
    if done then (start_writeback w', ok tt) else keep_err (w', err write_failed)

-- `buildBlock` and the format switch.
unfoldable pub assemble : Zstd.Library → Writer → Result Error (List ℕ)
assemble z w = do
  for_index ← build_index w.items_per_record w.sizes
  format_block z w.format w.buf for_index

pub flush : Zstd.Library → Writer → Outcome
flush z w =
    let w' = record w { buf = []; sizes = [] } in
    elim (assemble z w) [
      | ok block ↦ write_block w' block
      | err e ↦ (w', err e)
      | panicked ↦ (w', panicked)
    ]

-- The item joins the hash and the record.
pub take_item : Writer → List (List ℕ) → Writer
take_item w parts = record w {
  serial_hasher = elim w.serial_hasher [ none ↦ none | some h ↦ some (ContentHash.add h parts) ];
  buf = w.buf ++ flatten parts;
  sizes = w.sizes ++ (length (flatten parts) % 2 ^ 32 ∷ []);
}

-- The guards with which `AppendItem` and `Finish` begin.
pub guarded : Option Error → Bool → Writer → Outcome → Outcome
guarded (some e) closed w rest = (w, err e)
guarded none true w rest = (w, err writer_closed)
guarded none false w rest = rest

pub append_item : Zstd.Library → Writer → List (List ℕ) → Outcome
append_item z w parts = guarded w.err w.closed w (
    if length parts == 0
    then (w, ok tt)
    else (let w' = take_item w parts in
        and_then
          (if length w'.sizes == w.items_per_record then keep_err (flush z w') else (w', ok tt))
          (λ w''. (record w'' { total = w''.total + 1 }, ok tt))))

unfoldable pub is_uncompressed : RecordFormat → Bool
is_uncompressed compressed = false
is_uncompressed uncompressed = true
is_uncompressed raw = true

unfoldable pub is_raw : RecordFormat → Bool
is_raw raw = true
is_raw uncompressed = false
is_raw compressed = false

unfoldable pub set_flag : Bool → ℕ → ℕ → ℕ
set_flag test flag flags = if test then bit_or flags flag else flags

-- The trailer's flags.
unfoldable pub flags_of : RecordFormat → Bool → ℕ
flags_of format content_hash =
    set_flag content_hash flag_content_hash (
      set_flag (is_raw format) flag_no_crc
        (set_flag (is_uncompressed format) flag_no_compression 0))

-- The trailer without its checksum: its fields are next to each other.
unfoldable pub trailer_fields : ℕ → ℕ → ℕ → ℕ → ℕ → ℕ → List ℕ → List ℕ
trailer_fields flags record_count total items_per_record index_size app_data_size hash =
    le_bytes 4 magic
    ++ (version
        ∷ (flags
            ∷ (le_bytes 4 record_count
                ++ (le_bytes 4 total
                    ++ (le_bytes 4 items_per_record
                        ++ (le_bytes 4 index_size
                            ++ (le_bytes 4 app_data_size ++ (hash ++ le_bytes 2 group_size))))))))

unfoldable pub seal_trailer : List ℕ → List ℕ
seal_trailer fields = fields ++ le_bytes 4 (crc32c fields)

-- Zeros without a content hash.
pub content_digest : Writer → List ℕ
content_digest w = elim w.serial_hasher [ none ↦ replicate 32 0 | some h ↦ ContentHash.sum h ]

-- A write of `Finish`, which leaves the position alone.
pub write_all : List ℕ → Writer → Outcome
write_all bytes w =
    let (file, n, done) = write w.file bytes in
    let w' = record w { file = file } in
    if done then (w', ok tt) else keep_err (w', err write_failed)

pub sync_and_close : Writer → Outcome
sync_and_close w =
    if not w.file.syncs
    then keep_err (w, err sync_failed)
    else if not w.file.closes
    then keep_err (w, err close_failed)
    else (record w { file_closed = true; closed = true }, ok tt)

-- The bytes of the trailer of a writer whose offsets are complete.
pub trailer_of : Writer → ℕ → ℕ → List ℕ
trailer_of w index_size app_data_size = seal_trailer (
    trailer_fields (flags_of w.format w.content_hash) ((length w.offsets - 1) % 2 ^ 32)
      (w.total % 2 ^ 32) (w.items_per_record % 2 ^ 32) index_size app_data_size (content_digest w))

-- `Finish` behind the last record.
pub write_tail : Writer → List ℕ → Outcome
write_tail w app_data =
    if ltb (2 ^ 32 - 1) w.total
    then keep_err (w, err (too_many_items w.total))
    else (let w' = record w { offsets = w.offsets ++ (w.pos ∷ []) } in
        elim (encode_index w'.offsets) [
          | err e ↦ keep_err (w', err e)
          | panicked ↦ (w', panicked)
          | ok index_bytes ↦
              let app_data_size = length app_data % 2 ^ 32 in
              and_then
                (and_then
                  (and_then (write_all index_bytes w')
                    (λ w1. if ltb 0 app_data_size then write_all app_data w1 else (w1, ok tt)))
                  (write_all (trailer_of w' (length index_bytes % 2 ^ 32) app_data_size)))
                sync_and_close
        ])

pub finish : Zstd.Library → Writer → List ℕ → Outcome
finish z w app_data = guarded w.err w.closed w (
    and_then (if ltb 0 (length w.sizes) then keep_err (flush z w) else (w, ok tt))
      (λ w'. write_tail w' app_data))

-- A file that `Finish` did not complete is removed; the removal succeeds.
pub close : Writer → Outcome
close w =
    if w.closed
    then (w, ok tt)
    else (let w' = record w { closed = true; removed = true } in
        (w', if not w.file_closed && not w.file.closes then err close_failed else ok tt))
