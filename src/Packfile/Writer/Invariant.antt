-- ===== src/Packfile/Writer/Invariant.antt =====
-- What holds of the writer between calls, as long as the file takes its writes (packfile/writer.go).
use event_analysis.Prelude.{ℕ, ◌+◌, ◌<◌, ◌≡◌, refl, sym, ap, ◌∙◌, arith}
use event_analysis.Prelude.{
  List, [], ◌∷◌, ◌++◌, map, length, All, Bool, true, false, if◌then◌else◌, none, ok, append_assoc,
  append-nil,
}
use event_analysis.Zstd
use event_analysis.Packfile.{RecordFormat}
use event_analysis.Packfile.Record.{build_index, format_block}
use event_analysis.Packfile.Decoder.{prefix_sums, sum}
use event_analysis.Packfile.Writer.{Writer, start_writeback}
use mathlib.Core.List.{flatten}

-- The bytes of a record with these items.
unfoldable pub IsBlock : Zstd.Library → RecordFormat → ℕ → List (List ℕ) → List ℕ → Type 0
IsBlock z format k items block =
    (for_index : List ℕ) × (build_index k (map length items) ≡ ok for_index)
    × (format_block z format (flatten items) for_index ≡ ok block)

-- The records written so far, each with its block.
abbrev pub Records : Type 0
Records = List (List (List ℕ) × List ℕ)

abbrev pub blocks_of : Records → List (List ℕ)
blocks_of records = map (λ r. r.1) records

-- The items appended so far, in order.
abbrev pub items_of : Records → List (List ℕ) → List (List ℕ)
items_of records pending = flatten (map (λ r. r.0) records) ++ pending

-- A writer that counted `n` items: these records in the file, the pending items in the buffer.
pub record IsWriting (z : Zstd.Library) (format : RecordFormat) (k : ℕ) (w : Writer) (n : ℕ)
    (records : Records) (pending : List (List ℕ)) : Type 0 where
  pub content : w.file.content ≡ flatten (blocks_of records)
  pub willing : w.file.answers ≡ []
  pub syncing : w.file.syncs ≡ true
  pub closing : w.file.closes ≡ true
  pub length_content : w.pos ≡ length (flatten (blocks_of records))
  pub starts : w.offsets ++ (w.pos ∷ []) ≡ prefix_sums 0 (map length (blocks_of records))
  pub buffered : w.buf ≡ flatten pending
  pub sized : w.sizes ≡ map length pending
  pub assembled : All (λ r. IsBlock z format k r.0 r.1) records
  pub short : length pending < k
  pub setting : w.items_per_record ≡ k
  pub formatted : w.format ≡ format
  pub counted : w.total ≡ n
  pub no_err : w.err ≡ none
  pub unclosed : w.closed ≡ false

pub flatten-snoc :
    {A : Type 0} (xss : List (List A)) (xs : List A)
    → flatten (xss ++ (xs ∷ [])) ≡ flatten xss ++ xs
unfolding flatten
flatten-snoc [] xs = append-nil xs
flatten-snoc (ys ∷ xss) xs =
    ap (λ t. ys ++ t) (flatten-snoc xss xs) ∙ sym (append_assoc ys (flatten xss) xs)

pub map-snoc :
    {A B : Type 0} (f : A → B) (xs : List A) (x : A)
    → map f (xs ++ (x ∷ [])) ≡ map f xs ++ (f x ∷ [])
map-snoc f [] x = refl
map-snoc f (y ∷ xs) x = ap (λ t. f y ∷ t) (map-snoc f xs x)

pub prefix_sums-snoc :
    (offset : ℕ) (ns : List ℕ) (n : ℕ)
    → prefix_sums offset (ns ++ (n ∷ [])) ≡ prefix_sums offset ns ++ ((offset + sum ns + n) ∷ [])
unfolding prefix_sums
prefix_sums-snoc offset [] n = ap (λ t. offset ∷ (t ∷ [])) (omega arith)
prefix_sums-snoc offset (m ∷ ns) n =
    ap (λ t. offset ∷ t)
      (prefix_sums-snoc (offset + m) ns n
        ∙ ap (λ t. prefix_sums (offset + m) ns ++ (t ∷ [])) (omega arith))

module _ {z : Zstd.Library} {format : RecordFormat} {k : ℕ} {w : Writer} {n : ℕ} {records : Records}
    {pending : List (List ℕ)} where
  -- Counting an item.
  pub count-IsWriting :
      IsWriting z format k w n records pending
      → IsWriting z format k (record w { total = w.total + 1 }) (n + 1) records pending
  count-IsWriting v = record {
    content = v.content;
    willing = v.willing;
    syncing = v.syncing;
    closing = v.closing;
    length_content = v.length_content;
    starts = v.starts;
    buffered = v.buffered;
    sized = v.sized;
    assembled = v.assembled;
    short = v.short;
    setting = v.setting;
    formatted = v.formatted;
    counted = ap (λ t. t + 1) v.counted;
    no_err = v.no_err;
    unclosed = v.unclosed;
  }

  synced-IsWriting :
      (b : Bool) (p : ℕ)
      → IsWriting z format k w n records pending
      → IsWriting z format k (if b then record w { last_sync_pos = p } else w) n records pending
  synced-IsWriting true p v = record {
    content = v.content;
    willing = v.willing;
    syncing = v.syncing;
    closing = v.closing;
    length_content = v.length_content;
    starts = v.starts;
    buffered = v.buffered;
    sized = v.sized;
    assembled = v.assembled;
    short = v.short;
    setting = v.setting;
    formatted = v.formatted;
    counted = v.counted;
    no_err = v.no_err;
    unclosed = v.unclosed;
  }
  synced-IsWriting false p v = v

  pub start_writeback-IsWriting :
      IsWriting z format k w n records pending
      → IsWriting z format k (start_writeback w) n records pending
  unfolding start_writeback
  start_writeback-IsWriting v = synced-IsWriting _ _ v
