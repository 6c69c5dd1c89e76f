-- ===== src/Packfile/Writer/Whole.antt =====
-- The first and the last call of a writer of packfile/writer.go.
use event_analysis.Prelude.{ℕ, suc, ◌+◌, ◌-◌, ◌%◌, ◌^◌, ◌<◌, ◌≡◌, refl, ap, ◌∙◌, arith}
use event_analysis.Prelude.{
  List, [], ◌∷◌, ◌++◌, map, length, true, ltb, if◌then◌else◌, Option, none, some, ok, inl, inr,
  Bool-cases, Option-cases, length-map, lt→ltb, ne→==_false,
}
use event_analysis.Prelude.Int.{pos}
use event_analysis.Zstd
use event_analysis.Hash.Sha256.{length-sum256}
use event_analysis.Packfile.{RecordFormat}
use event_analysis.Packfile.ContentHash
use event_analysis.Packfile.ContentHash.{Hasher, new_hasher}
use event_analysis.Packfile.Decoder.{prefix_sums}
use event_analysis.Packfile.Writer.{
  Writer, WriterOptions, File, create, started, resolve_items_per_record, keep_err, and_then, flush,
  finish, write_tail, trailer_of, content_digest, flags_of, trailer_fields, seal_trailer,
}
use event_analysis.Packfile.Writer.Append.{guarded-open}
use event_analysis.Packfile.Writer.Invariant.{Records, blocks_of, IsWriting}
use mathlib.Core.List.{flatten}
use native.Mathlib.Nat.{mod-eq_of_lt}

length-prefix_sums : (offset : ℕ) (ns : List ℕ) → length (prefix_sums offset ns) ≡ suc (length ns)
unfolding prefix_sums
length-prefix_sums offset [] = refl
length-prefix_sums offset (n ∷ ns) = ap suc (length-prefix_sums (offset + n) ns)

-- `Finish` of a writer that is still writing.
pub finish_lem :
    (z : Zstd.Library) (format : RecordFormat) (k : ℕ) (w : Writer) (n : ℕ) (records : Records)
    (pending : List (List ℕ)) (app_data : List ℕ) (w1 : Writer)
    → IsWriting z format k w n records pending
    → (if ltb 0 (length w.sizes) then keep_err (flush z w) else (w, ok tt)) ≡ (w1, ok tt)
    → finish z w app_data ≡ write_tail w1 app_data
unfolding finish and_then
finish_lem z format k w n records pending app_data w1 v e =
    guarded-open w _ v.no_err v.unclosed ∙ ap (λ o. and_then o (λ w'. write_tail w' app_data)) e

pub length-content_digest : (w : Writer) → length (content_digest w) ≡ 32
unfolding content_digest ContentHash.sum
length-content_digest w = elim (Option-cases w.serial_hasher) [
  | inl none_there ↦ rw none_there refl
  | inr (h, there) ↦ rw there (length-sum256 _)
]

-- The fields of the trailer of a writer that counted all its items.
pub trailer_of-written :
    (z : Zstd.Library) (format : RecordFormat) (k : ℕ) (w : Writer) (n : ℕ) (records : Records)
    (index_size app_data_size : ℕ)
    → IsWriting z format k w n records []
    → n < 2 ^ 32
    → length records < 2 ^ 31
    → k < 2 ^ 32
    → index_size < 2 ^ 32
    → app_data_size < 2 ^ 32
    → trailer_of
        (record w { offsets = w.offsets ++ (w.pos ∷ []) })
        (index_size % 2 ^ 32)
        (app_data_size % 2 ^ 32)
      ≡ seal_trailer (
          trailer_fields
            (flags_of format w.content_hash)
            (length records)
            n
            k
            index_size
            app_data_size
            (content_digest w))
unfolding trailer_of content_digest
trailer_of-written z format k w n records index_size app_data_size v few few_records k_small i_small
      a_small =
    rw
      (
        v.formatted,
        v.setting,
        v.counted,
        mod-eq_of_lt few,
        mod-eq_of_lt k_small,
        mod-eq_of_lt i_small,
        mod-eq_of_lt a_small,
        count,
      )
      refl
  where
    count : (length (w.offsets ++ (w.pos ∷ [])) - 1) % 2 ^ 32 ≡ length records
    count =
        ap (λ m. (m - 1) % 2 ^ 32)
          (ap length v.starts ∙ length-prefix_sums 0 (map length (blocks_of records)))
        ∙ omega (arith, length-map length (blocks_of records), length-map (λ r. r.1) records)

-- A file that is empty and takes what it is asked.
abbrev pub new_file : File
new_file = record { content = []; answers = []; syncs = true; closes = true }

pub create-IsWriting :
    (z : Zstd.Library) (opts : WriterOptions) (k : ℕ)
    → opts.items_per_record ≡ pos k
    → 0 < k
    → (w : Writer) × (create opts new_file ≡ ok w)
      × IsWriting z opts.format k w 0 [] []
      × (w.content_hash ≡ opts.content_hash)
unfolding create resolve_items_per_record new_hasher prefix_sums flatten
create-IsWriting z opts k setting some_room = elim (Bool-cases opts.content_hash) [
  | inl hashed ↦ (
    started opts k (some (record { digests = []; buf = []; count = 0; chunk_size = k })) new_file,
    rw (setting, ne→==_false k 0 (omega arith), hashed, lt→ltb 0 k some_room) refl,
    fresh _,
    refl,
  )
  | inr plain ↦ (
    started opts k none new_file,
    rw (setting, ne→==_false k 0 (omega arith), plain) refl,
    fresh _,
    refl,
  )
]
  where
    fresh : (h : Option Hasher) → IsWriting z opts.format k (started opts k h new_file) 0 [] []
    fresh h = record {
      content = refl;
      willing = refl;
      syncing = refl;
      closing = refl;
      length_content = refl;
      starts = refl;
      buffered = refl;
      sized = refl;
      assembled = tt;
      short = some_room;
      setting = refl;
      formatted = refl;
      counted = refl;
      no_err = refl;
      unclosed = refl;
    }
