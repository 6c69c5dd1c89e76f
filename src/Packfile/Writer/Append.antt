-- ===== src/Packfile/Writer/Append.antt =====
-- AppendItem, flush and writeBlock of packfile/writer.go on a file that takes its writes.
use event_analysis.Prelude.{ℕ, ◌+◌, ◌%◌, ◌^◌, ◌<◌, ◌≡◌, refl, sym, ap, ap₂, ◌∙◌, arith}
use event_analysis.Prelude.{
  List, [], ◌∷◌, ◌++◌, map, length, true, false, ◌==◌, if◌then◌else◌, Option, none, ok, ne→==_false,
  eq→==, length-append, length-map, All-append,
}
use event_analysis.Zstd
use event_analysis.Packfile.{RecordFormat}
use event_analysis.Packfile.Decoder.{prefix_sums}
use event_analysis.Packfile.Decoder.Items.{sum-lengths}
use event_analysis.Packfile.Writer.{
  Writer, File, Outcome, write, write_answered, write_block, start_writeback, assemble, flush,
  take_item, keep_err, and_then, guarded, append_item,
}
use event_analysis.Packfile.Writer.Invariant.{
  IsBlock, Records, blocks_of, IsWriting, flatten-snoc, map-snoc, prefix_sums-snoc, count-IsWriting,
  start_writeback-IsWriting,
}
use event_analysis.Packfile.ContentHash.{Hasher}
use mathlib.Core.List.{flatten}
use native.Mathlib.Nat.{mod-eq_of_lt}

abbrev snoc : {A : Type 0} → List A → A → List A
snoc xs x = xs ++ (x ∷ [])

abbrev pub with_block : Writer → List ℕ → Writer
with_block w block = record w {
  file = record w.file { content = w.file.content ++ block };
  pos = w.pos + length block;
  offsets = w.offsets ++ (w.pos ∷ []);
  buf = [];
  sizes = [];
}

pub guarded-open :
    (w : Writer) (rest : Outcome)
    → w.err ≡ none
    → w.closed ≡ false
    → guarded w.err w.closed w rest ≡ rest
unfolding guarded
guarded-open w rest p q = ap₂ (λ e c. guarded e c w rest) p q

pub write-willing :
    (f : File) (bytes : List ℕ)
    → f.answers ≡ []
    → write f bytes ≡ (record f { content = f.content ++ bytes }, length bytes, true)
unfolding write write_answered
write-willing f bytes e = ap (λ a. write_answered a f bytes) e

-- Flushing what is buffered writes its block.
pub flush_lem :
    (z : Zstd.Library) (w : Writer) (format : RecordFormat) (k : ℕ) (items : List (List ℕ))
    (block : List ℕ)
    → w.items_per_record ≡ k
    → w.format ≡ format
    → w.buf ≡ flatten items
    → w.sizes ≡ map length items
    → w.file.answers ≡ []
    → IsBlock z format k items block
    → flush z w ≡ (start_writeback (with_block w block), ok tt)
unfolding flush write_block
flush_lem z w format k items block setting formatted buffered sized willing made =
    rw (assembles, flush) (unfold write_block in rw (write-willing w.file block willing) refl)
  where
    assembles : assemble z w ≡ ok block
    assembles =
        unfold assemble IsBlock in rw (setting, formatted, sized, buffered, made.1, made.2) refl

-- A block behind the records: what the file and the offsets are then.
module _ (z : Zstd.Library) (format : RecordFormat) (k : ℕ) (w : Writer) (n : ℕ) (records : Records)
    (pending : List (List ℕ)) (v : IsWriting z format k w n records pending) where
  pub written-IsWriting :
      (h : Option Hasher) (items : List (List ℕ)) (block : List ℕ)
      → IsBlock z format k items block
      → IsWriting z format k
          (record (with_block w block) { serial_hasher = h })
          n
          (snoc records (items, block))
          []
  unfolding flatten
  written-IsWriting h items block made = record {
    content = ap (λ t. t ++ block) v.content ∙ sym joined;
    willing = v.willing;
    syncing = v.syncing;
    closing = v.closing;
    length_content = omega (
      arith,
      v.length_content,
      ap length joined,
      length-append (flatten (blocks_of records)) block,
    );
    starts =
        ap₂ (λ s t. s ++ (t ∷ [])) v.starts
          (omega (arith, v.length_content, sum-lengths (blocks_of records)))
        ∙ sym (prefix_sums-snoc 0 (map length (blocks_of records)) (length block))
        ∙ ap (prefix_sums 0) (sym lengths);
    buffered = refl;
    sized = refl;
    assembled = All-append _ records ((items, block) ∷ []) v.assembled (made, tt);
    short = omega (arith, v.short);
    setting = v.setting;
    formatted = v.formatted;
    counted = v.counted;
    no_err = v.no_err;
    unclosed = v.unclosed;
  }
    where
      blocks : blocks_of (snoc records (items, block)) ≡ snoc (blocks_of records) block
      blocks = map-snoc (λ r. r.1) records (items, block)

      joined :
          flatten (blocks_of (snoc records (items, block))) ≡ flatten (blocks_of records) ++ block
      joined = ap flatten blocks ∙ flatten-snoc (blocks_of records) block

      lengths :
          map length (blocks_of (snoc records (items, block)))
          ≡ map length (blocks_of records) ++ (length block ∷ [])
      lengths = ap (map length) blocks ∙ map-snoc length (blocks_of records) block

  -- One item, in any number of parts.
  module _ (parts : List (List ℕ)) (some_parts : 0 < length parts)
      (small : length (flatten parts) < 2 ^ 32) where
    abbrev it : List ℕ
    it = flatten parts

    abbrev w1 : Writer
    w1 = take_item w parts

    bufs : w.buf ++ it ≡ flatten (snoc pending it)
    bufs = ap (λ t. t ++ it) v.buffered ∙ sym (flatten-snoc pending it)

    sizes1 : w.sizes ++ (length it % 2 ^ 32 ∷ []) ≡ map length (snoc pending it)
    sizes1 =
        ap₂ (λ s t. s ++ (t ∷ [])) v.sized (mod-eq_of_lt small) ∙ sym (map-snoc length pending it)

    count1 : length (w.sizes ++ (length it % 2 ^ 32 ∷ [])) ≡ length pending + 1
    count1 = omega (
      arith,
      ap length sizes1,
      length-map length (snoc pending it),
      length-append pending (it ∷ []),
    )

    appended :
        append_item z w parts
        ≡ and_then
            (if length w1.sizes == w.items_per_record then keep_err (flush z w1) else (w1, ok tt))
            (λ w''. (record w'' { total = w''.total + 1 }, ok tt))
    unfolding append_item
    appended =
        guarded-open w _ v.no_err v.unclosed ∙ rw (ne→==_false (length parts) 0 (omega arith)) refl

    abbrev pub Appended : Records → List (List ℕ) → Type 0
    Appended records' pending' =
        (w' : Writer) × (append_item z w parts ≡ (w', ok tt))
        × IsWriting z format k w' (n + 1) records' pending'

    -- The record is not full yet.
    pub append_item-short : length pending + 1 < k → Appended records (snoc pending it)
    unfolding take_item and_then
    append_item-short room = (
      record w1 { total = w.total + 1 },
      appended
          ∙ rw (ne→==_false (length w1.sizes) w.items_per_record (omega (arith, count1, v.setting)))
              refl,
      count-IsWriting {w = w1} (record {
        content = v.content;
        willing = v.willing;
        syncing = v.syncing;
        closing = v.closing;
        length_content = v.length_content;
        starts = v.starts;
        buffered = bufs;
        sized = sizes1;
        assembled = v.assembled;
        short = omega (arith, length-append pending (it ∷ []));
        setting = v.setting;
        formatted = v.formatted;
        counted = v.counted;
        no_err = v.no_err;
        unclosed = v.unclosed;
      }),
    )

    -- The item completes the record.
    pub append_item-full :
        (block : List ℕ)
        → length pending + 1 ≡ k
        → IsBlock z format k (snoc pending it) block
        → Appended (snoc records (snoc pending it, block)) []
    unfolding and_then take_item
    append_item-full block full made =
        let w2 = start_writeback (with_block w1 block) in
        (
          record w2 { total = w2.total + 1 },
          appended
              ∙ rw
                  (
                    eq→== (length w1.sizes) w.items_per_record
                        (unfold take_item in omega (arith, count1, v.setting)),
                    flush_lem z w1 format k (snoc pending it) block v.setting v.formatted bufs
                        sizes1 v.willing made,
                  )
                  (unfold keep_err in refl),
          count-IsWriting (
              start_writeback-IsWriting
                (written-IsWriting w1.serial_hasher (snoc pending it) block made)),
        )
