-- ===== src/Packfile/Writer/Finish.antt =====
-- Finish of packfile/writer.go on a file that takes its writes.
use event_analysis.Prelude.{
  ℕ, suc, ◌+◌, ◌-◌, ◌%◌, ◌^◌, ◌<◌, ◌≡◌, refl, sym, ap, ap₂, subst, ◌∙◌, arith,
}
use event_analysis.Prelude.{
  List, [], ◌∷◌, ◌++◌, map, length, All, true, ltb, if◌then◌else◌, ok, append_assoc, append-nil,
  length-map, le→ltb_false, lt→ltb,
}
use event_analysis.Zstd
use event_analysis.Packfile.{RecordFormat}
use event_analysis.Packfile.Index.{encode_index, decode_index}
use event_analysis.Packfile.Index.Deltas.{Ascends, last_or}
use event_analysis.Packfile.Index.RoundTrip.{decode_index-encode_index}
use event_analysis.Packfile.Decoder.{prefix_sums, sum}
use event_analysis.Packfile.Decoder.Items.{sum-lengths}
use event_analysis.Packfile.Writer.{
  Writer, write_all, keep_err, and_then, flush, write_tail, trailer_of, sync_and_close,
}
use event_analysis.Packfile.Writer.Invariant.{
  IsBlock, Records, blocks_of, IsWriting, start_writeback-IsWriting,
}
use event_analysis.Packfile.Writer.Append.{write-willing, flush_lem, written-IsWriting}
use mathlib.Core.List.{flatten}
use native.Mathlib.Nat.{mod-eq_of_lt}

-- The offsets of blocks of less than 4 GiB: 0, then the end of each.
pub record Offsets (offset : ℕ) (ns : List ℕ) : Type 0 where
  pub ends : List ℕ
  pub cut : prefix_sums offset ns ≡ offset ∷ ends
  pub ascends : Ascends (offset ∷ ends)
  pub counted : length ends ≡ length ns
  pub end_at : last_or offset ends ≡ offset + sum ns

pub offsets_of : (offset : ℕ) (ns : List ℕ) → All (λ n. n < 2 ^ 32) ns → Offsets offset ns
unfolding prefix_sums
offsets_of offset [] h = record {
  ends = [];
  cut = refl;
  ascends = tt;
  counted = refl;
  end_at = omega arith;
}
offsets_of offset (n ∷ ns) h =
    let rest = offsets_of (offset + n) ns h.1 in
    record {
      ends = (offset + n) ∷ rest.ends;
      cut = ap (λ t. offset ∷ t) rest.cut;
      ascends = (omega arith, omega (arith, h.0), rest.ascends);
      counted = ap suc rest.counted;
      end_at = rest.end_at ∙ omega arith;
    }

-- What is pending when the writer finishes, and the record that it becomes.
pub data IsLast (z : Zstd.Library) (format : RecordFormat) (k : ℕ)
    : List (List ℕ) → Records → Type 0 where
  nothing : IsLast z format k [] []
  rest :
      (it : List ℕ) (items : List (List ℕ)) (block : List ℕ)
      → IsBlock z format k (it ∷ items) block
      → IsLast z format k (it ∷ items) ((it ∷ items, block) ∷ [])

abbrev pub with_content : Writer → List ℕ → Writer
with_content w bytes = record w { file = record w.file { content = bytes } }

write_all-willing :
    (w : Writer) (bytes : List ℕ)
    → w.file.answers ≡ []
    → write_all bytes w ≡ (with_content w (w.file.content ++ bytes), ok tt)
unfolding write_all
write_all-willing w bytes willing = rw (write-willing w.file bytes willing) refl

write_app_data :
    (w : Writer) (app_data : List ℕ)
    → w.file.answers ≡ []
    → length app_data < 2 ^ 32
    → (if ltb 0 (length app_data % 2 ^ 32) then write_all app_data w else (w, ok tt))
      ≡ (with_content w (w.file.content ++ app_data), ok tt)
write_app_data w [] willing small =
    ap (λ c. (with_content w c, ok tt)) (sym (append-nil w.file.content))
write_app_data w (x ∷ xs) willing small =
    rw
      (
        mod-eq_of_lt small,
        lt→ltb 0 (length (x ∷ xs)) (omega arith),
        write_all-willing w (x ∷ xs) willing,
      )
      refl

module _ (z : Zstd.Library) (format : RecordFormat) (k : ℕ) (w : Writer) (n : ℕ)
    (records : Records) where
  -- What is pending becomes the last record.
  pub flush_rest :
      (pending : List (List ℕ)) (last : Records)
      → IsWriting z format k w n records pending
      → IsLast z format k pending last
      → (w' : Writer) × ((if ltb 0 (length w.sizes) then keep_err (flush z w) else (w, ok tt))
          ≡ (w', ok tt))
        × IsWriting z format k w' n (records ++ last) []
  unfolding keep_err
  flush_rest _ _ v nothing =
      (w, rw v.sized refl, subst (λ t. IsWriting z format k w n t []) (sym (append-nil records)) v)
  flush_rest _ _ v (rest it items block made) = (
    _,
    rw
        (
          lt→ltb 0 (length w.sizes) (omega (arith, ap length v.sized)),
          flush_lem z w format k (it ∷ items) block v.setting v.formatted v.buffered v.sized
              v.willing made,
        )
        refl,
    start_writeback-IsWriting (
        written-IsWriting z format k w n records (it ∷ items) v w.serial_hasher (it ∷ items) block
          made),
  )

  module _ (app_data : List ℕ) (v : IsWriting z format k w n records []) (few : n < 2 ^ 32)
      (few_records : length records < 2 ^ 31)
      (blocks_small : All (λ m. m < 2 ^ 32) (map length (blocks_of records)))
      (app_small : length app_data < 2 ^ 32) where
    starts : Offsets 0 (map length (blocks_of records))
    starts = offsets_of 0 (map length (blocks_of records)) blocks_small

    -- The writer with the offset of the end.
    abbrev pub complete : Writer
    complete = record w { offsets = w.offsets ++ (w.pos ∷ []) }

    indexed :
        (bytes : List ℕ) × (encode_index (0 ∷ starts.ends) ≡ ok bytes)
        × (decode_index bytes (length starts.ends) (length bytes) (last_or 0 starts.ends)
            ≡ ok (0 ∷ starts.ends))
    indexed = decode_index-encode_index starts.ends starts.ascends (
        omega (
          arith,
          starts.counted,
          length-map length (blocks_of records),
          length-map (λ r. r.1) records,
        ))

    abbrev index_bytes : List ℕ
    index_bytes = indexed.0

    abbrev trailer : List ℕ
    trailer = trailer_of complete (length index_bytes % 2 ^ 32) (length app_data % 2 ^ 32)

    abbrev finished : Writer
    finished =
        record (with_content complete (((w.file.content ++ index_bytes) ++ app_data) ++ trailer)) {
          file_closed = true;
          closed = true;
        }

    offsets : w.offsets ++ (w.pos ∷ []) ≡ 0 ∷ starts.ends
    offsets = v.starts ∙ starts.cut

    finishes : write_tail w app_data ≡ (finished, ok tt)
    unfolding write_tail and_then sync_and_close
    finishes =
        rw
          (
            le→ltb_false (2 ^ 32 - 1) w.total (omega (arith, v.counted)),
            ap encode_index offsets ∙ indexed.1,
            write_all-willing complete index_bytes v.willing,
            write_app_data (with_content complete (w.file.content ++ index_bytes)) app_data
                v.willing app_small,
            write_all-willing (with_content complete ((w.file.content ++ index_bytes) ++ app_data))
                trailer v.willing,
            v.syncing,
            v.closing,
          )
          refl

    -- The tail that `Finish` writes behind the records.
    pub write_tail_lem :
        (w' : Writer) × (index_bytes : List ℕ) × (write_tail w app_data ≡ (w', ok tt))
        × (w'.file.content
            ≡ flatten (blocks_of records)
              ++ (index_bytes
                  ++ (app_data
                      ++ trailer_of complete
                          (length index_bytes % 2 ^ 32)
                          (length app_data % 2 ^ 32))))
        × (decode_index index_bytes
              (length records)
              (length index_bytes)
              (length (flatten (blocks_of records)))
            ≡ ok (prefix_sums 0 (map length (blocks_of records))))
        × (encode_index (prefix_sums 0 (map length (blocks_of records))) ≡ ok index_bytes)
        × (w'.closed ≡ true)
    write_tail_lem = (
      finished,
      index_bytes,
      finishes,
      append_assoc (w.file.content ++ index_bytes) app_data trailer
          ∙ append_assoc w.file.content index_bytes (app_data ++ trailer)
          ∙ ap (λ c. c ++ (index_bytes ++ (app_data ++ trailer))) v.content,
      ap₂ (λ m e. decode_index index_bytes m (length index_bytes) e)
            (omega (
              arith,
              starts.counted,
              length-map length (blocks_of records),
              length-map (λ r. r.1) records,
            ))
            (omega (arith, starts.end_at, sum-lengths (blocks_of records)))
          ∙ indexed.2
          ∙ ap ok (sym starts.cut),
      ap encode_index starts.cut ∙ indexed.1,
      refl,
    )
