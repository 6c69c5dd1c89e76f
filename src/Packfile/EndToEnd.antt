-- ===== src/Packfile/EndToEnd.antt =====
-- A packfile from the first AppendItem to ReadItem: packfile/writer.go and packfile/reader.go.
pub mod Ranges
mod Tests
use event_analysis.Prelude.{
  ℕ, ◌+◌, ◌*◌, ◌/◌, ◌%◌, ◌^◌, ◌<◌, ◌≡◌, inl, inr, refl, sym, ap, ◌∙◌, arith,
}
use event_analysis.Prelude.{
  List, [], ◌∷◌, ◌++◌, map, length, All, get_elem?, Bool, some, ok, err, panicked, Result, ◌>>=◌,
  append-nil, length-append, ne→==_false, ok-injective,
}
use event_analysis.Prelude.Int.{pos}
use event_analysis.Zstd
use event_analysis.Zstd.{IsLawful}
use event_analysis.Packfile.{Error}
use event_analysis.Packfile.Index.{encode_index, decode_index}
use event_analysis.Packfile.Decoder.{prefix_sums, items_in_record}
use event_analysis.Packfile.Decoder.RoundTrip.{IsReadable}
use event_analysis.Packfile.Writer.{
  Writer, WriterOptions, Outcome, create, and_then, finish, trailer_of, content_digest, flags_of,
  trailer_fields, seal_trailer,
}
use event_analysis.Packfile.Writer.Invariant.{Records, blocks_of, items_of}
use event_analysis.Packfile.Writer.Runs.{append_all, Small, IsFull, append_all-IsWriting}
use event_analysis.Packfile.Writer.Finish.{IsLast, nothing, rest, flush_rest, write_tail_lem}
use event_analysis.Packfile.Writer.Whole.{
  finish_lem, create-IsWriting, new_file, trailer_of-written, length-content_digest,
}
use event_analysis.Packfile.Lookup.{
  find, some_lt, items_in_record-full, items_in_record-last, check_counts-rest, check_counts-whole,
  length-full,
}
use event_analysis.Packfile.Reader.{Reader, do_open, read_item, check_counts}
use event_analysis.Packfile.Reader.Open.{opened, do_open-parts}
use event_analysis.Packfile.ReadItem.{IsGood, read_item_lem}
use event_analysis.Packfile.Writer.{keep_err, flush}
use event_analysis.Packfile.Writer.Digest.{
  hashing, hash_items, fresh_hasher, append_all-hasher, last_flush-hasher, create-hasher,
  content_digest-items,
}
use event_analysis.Packfile.ContentHash.Chunks.{chunked_hash}
use event_analysis.Prelude.{true, none, ltb, if◌then◌else◌}
use mathlib.Core.List.{flatten}
use native.Mathlib.Nat.{mod-lt, div-add-mod'}

pub outcome_of : Outcome → Result Error Writer
outcome_of (w, ok u) = ok w
outcome_of (w, err e) = err e
outcome_of (w, panicked) = panicked

-- A caller that creates a packfile, appends the items one by one, and finishes it.
unfoldable pub write_packfile :
    Zstd.Library → WriterOptions → List (List ℕ) → List ℕ → Result Error Writer
write_packfile z opts items app_data = do
  w ← create opts new_file
  outcome_of (and_then (append_all z w items) (λ w'. finish z w' app_data))

module _ (z : Zstd.Library) (law : IsLawful z) (opts : WriterOptions) (k : ℕ)
    (records last : Records) (pending : List (List ℕ)) (app_data index_bytes : List ℕ)
    (setting : opts.items_per_record ≡ pos k) (some_room : 0 < k) (k_small : k < 2 ^ 32)
    (full : All (IsFull z opts.format k) records) (small : All Small pending)
    (short : length pending < k) (is_last : IsLast z opts.format k pending last)
    (few : length (items_of records pending) < 2 ^ 32)
    (few_records : length (records ++ last) < 2 ^ 31)
    (blocks_small : All (λ m. m < 2 ^ 32) (map length (blocks_of (records ++ last))))
    (readable : All (λ r. IsReadable opts.format (flatten r.0)) (records ++ last))
    (app_small : length app_data < 2 ^ 32)
    (indexed : encode_index (prefix_sums 0 (map length (blocks_of (records ++ last))))
      ≡ ok index_bytes)
    (index_small : length index_bytes < 2 ^ 32) where
  abbrev all : Records
  all = records ++ last

  abbrev items : List (List ℕ)
  items = items_of records pending

  abbrev q : ℕ
  q = length records

  abbrev p : ℕ
  p = length pending

  lengths : (rs : Records) → All (IsFull z opts.format k) rs → All (λ r. length r.0 ≡ k) rs
  lengths [] h = tt
  lengths (r ∷ rs) h = (h.0.0, lengths rs h.1)

  total : length items ≡ q * k + p
  total =
      length-append (flatten (map (λ r. r.0) records)) pending
      ∙ ap (λ m. m + p) (length-full records k (lengths records full))

  whole :
      (pending' : List (List ℕ)) (last' : Records)
      → IsLast z opts.format k pending' last'
      → (i : ℕ) (it : List ℕ) → get_elem? pending' i ≡ some it
      → (r : List (List ℕ) × List ℕ) × (get_elem? last' 0 ≡ some r) × (r.0 ≡ pending')
  whole _ _ nothing i it e = absurd (omega (arith, some_lt [] i e))
  whole _ _ (rest x xs block made) i it e = ((x ∷ xs, block), refl, refl)

  counts_of :
      (pending' : List (List ℕ)) (last' : Records)
      → IsLast z opts.format k pending' last'
      → length pending' < k
      → check_counts (q * k + length pending') k (length (records ++ last')) ≡ ok tt
  counts_of _ _ nothing h =
      ap (check_counts (q * k + 0) k) (ap length (append-nil records))
      ∙ check_counts-whole q k some_room
  counts_of _ _ (rest x xs block made) h =
      ap (check_counts (q * k + length (x ∷ xs)) k) (length-append records ((x ∷ xs, block) ∷ []))
      ∙ check_counts-rest q (length (x ∷ xs)) k (omega arith) h

  last-IsGood :
      (pending' : List (List ℕ)) (last' : Records)
      → IsLast z opts.format k pending' last'
      → All Small pending'
      → length pending' < k
      → All (λ r. IsReadable opts.format (flatten r.0)) last'
      → All (IsGood z opts.format k) last'
  last-IsGood _ _ nothing small' h readable' = tt
  last-IsGood _ _ (rest x xs block made) small' h readable' =
      ((omega arith, small', readable'.0, made), tt)

  goods_of :
      (rs : Records)
      → All (IsFull z opts.format k) rs
      → All (λ r. IsReadable opts.format (flatten r.0)) (rs ++ last)
      → All (IsGood z opts.format k) (rs ++ last)
  goods_of [] full' readable' = last-IsGood pending last is_last small short readable'
  goods_of (r ∷ rs) full' readable' = (
    (omega (arith, full'.0.0), full'.0.1, readable'.0, full'.0.2),
    goods_of rs full'.1 readable'.1,
  )

  chunk_lengths :
      (rs : Records) → All (IsFull z opts.format k) rs → All (λ c. length c ≡ k) (map (λ r. r.0) rs)
  chunk_lengths [] h = tt
  chunk_lengths (r ∷ rs) h = (h.0.0, chunk_lengths rs h.1)

  -- What the digest covers.
  hashed :
      (w0 w1 w2 : Writer)
      → create opts new_file ≡ ok w0
      → append_all z w0 items ≡ (w1, ok tt)
      → (if ltb 0 (length w1.sizes) then keep_err (flush z w1) else (w1, ok tt)) ≡ (w2, ok tt)
      → hashing w2 ≡ (
        opts.content_hash,
        hash_items (if opts.content_hash then some (fresh_hasher k) else none) items,
      )
  hashed w0 w1 w2 e0 e1 e2 =
      last_flush-hasher z w1 (ltb 0 (length w1.sizes)) e2
      ∙ append_all-hasher z w0 items e1
      ∙ ap (λ t. (t.0, hash_items t.1 items)) (create-hasher opts k new_file setting some_room e0)

  -- The file that was written, and the reader that it opens as.
  written :
      (w : Writer) × (content_hash : Bool) × (hash : List ℕ) × (trailer : List ℕ) × (write_packfile
          z opts items app_data
        ≡ ok w)
      × (w.file.content ≡ flatten (blocks_of all) ++ (index_bytes ++ (app_data ++ trailer)))
      × (trailer
          ≡ seal_trailer (
              trailer_fields
                (flags_of opts.format content_hash)
                (length all)
                (length items)
                k
                (length index_bytes)
                (length app_data)
                hash))
      × (length hash ≡ 32)
      × (decode_index index_bytes
            (length all)
            (length index_bytes)
            (length (flatten (blocks_of all)))
          ≡ ok (prefix_sums 0 (map length (blocks_of all))))
      × (content_hash ≡ opts.content_hash)
      × (content_hash ≡ true → hash ≡ chunked_hash (map (λ r. r.0) records) pending)
  unfolding write_packfile outcome_of and_then
  written =
      let (w0, e0, v0, h0) = create-IsWriting z opts k setting some_room in
      let (w1, e1, v1) =
        append_all-IsWriting z opts.format k w0 records pending v0 full small short in
      let (w2, e2, v2) =
        flush_rest z opts.format k w1 (length items) records pending last v1 is_last in
      let (w3, index_bytes', e3, content, decodes, encodes, closed) =
        write_tail_lem z opts.format k w2 (length items) all app_data v2 few few_records
          blocks_small app_small in
      let same : index_bytes' ≡ index_bytes = ok-injective (sym encodes ∙ indexed) in
      (
        w3,
        w2.content_hash,
        content_digest w2,
        _,
        rw
            (
              e0,
              e1,
              finish_lem z opts.format k w1 (length items) records pending app_data w2 v1 e2,
              e3,
            )
            refl,
        content
            ∙ ap
                (λ t.
                  flatten (blocks_of all)
                  ++ (t
                      ++ (app_data
                          ++ trailer_of (record w2 { offsets = w2.offsets ++ (w2.pos ∷ []) })
                              (length t % 2 ^ 32) (length app_data % 2 ^ 32))))
                same,
        trailer_of-written z opts.format k w2 (length items) all (length index_bytes)
            (length app_data) v2 few few_records k_small index_small app_small,
        length-content_digest w2,
        ap (λ t. decode_index t (length all) (length t) (length (flatten (blocks_of all))))
              (sym same)
            ∙ decodes,
        ap (λ t. t.0) (hashed w0 w1 w2 e0 e1 e2),
        λ on.
            content_digest-items w2 k opts.content_hash (map (λ r. r.0) records) pending some_room
              (chunk_lengths records full) short (hashed w0 w1 w2 e0 e1 e2)
              (sym (ap (λ t. t.0) (hashed w0 w1 w2 e0 e1 e2)) ∙ on),
      )

  -- The record of an item, and how many items the decoder expects there.
  expected :
      (i : ℕ) (it : List ℕ)
      → get_elem? items i ≡ some it
      → (found : List (List ℕ) × List ℕ) × (get_elem? all (i / k) ≡ some found)
        × (get_elem? found.0 (i % k) ≡ some it)
        × (items_in_record (length items) k (i / k) ≡ ok (length found.0))
  expected i it e =
      let f =
        find k last pending short (whole pending last is_last) records (i / k) (i % k)
          (lengths records full) (mod-lt i some_room)
          (ap (get_elem? items) (div-add-mod' i k) ∙ e) in
      (
        f.found,
        f.at,
        f.holds,
        ap (λ m. items_in_record m k (i / k)) total ∙ elim f.counted [
          | inl (lt, size) ↦ items_in_record-full q p k (i / k) short lt ∙ ap ok (sym size)
          | inr (end, size) ↦
              ap (items_in_record (q * k + p) k) end
              ∙ items_in_record-last q p k short
                  (omega (arith, size, some_lt f.found.0 (i % k) f.holds))
              ∙ ap ok (sym size)
        ],
      )

  -- For a lawful libzstd, a setting of `k` items per record with 0 < k < 2^32, items cut into full
  -- records, each with the block that the writer's format gives it, and a shorter rest with its block
  -- or no rest, items of less than 4 GiB in records that `Decode` accepts, fewer than 2^32 items,
  -- fewer than 2^31 records of less than 4 GiB each, application data and an index of less than 4 GiB:
  -- creating the packfile on a file that takes its writes, appending the items and finishing succeeds,
  -- the file opens, the reader has the number of items and the application data, and the item at any
  -- position is read back.
  pub read_item-write_packfile :
      (i : ℕ) (it : List ℕ)
      → get_elem? items i ≡ some it
      → (w : Writer) × (r : Reader) × (write_packfile z opts items app_data ≡ ok w)
        × (do_open w.file.content ≡ ok r)
        × (r.total_items ≡ length items)
        × (r.app_data ≡ app_data)
        × (read_item z r (pos i) ≡ ok it)
  read_item-write_packfile i it e =
      let (
        w, content_hash, hash, trailer, wrote, content, sealed, size, decodes, hash_on, hash_of,
      ) =
        written in
      let (found, at, holds, count) = expected i it e in
      let counted : check_counts (length items) k (length all) ≡ ok tt =
        ap (λ m. check_counts m k (length all)) total ∙ counts_of pending last is_last short in
      let some_few : length all < 2 ^ 32 = omega (arith, few_records) in
      let r : Reader =
        opened (flatten (blocks_of all)) index_bytes app_data hash
          (prefix_sums 0 (map length (blocks_of all))) opts.format content_hash (length all)
          (length items) k size some_few few k_small index_small app_small decodes counted in
      (
        w,
        r,
        wrote,
        ap do_open (
              content
              ∙ ap (λ t. flatten (blocks_of all) ++ (index_bytes ++ (app_data ++ t))) sealed)
            ∙ do_open-parts (flatten (blocks_of all)) index_bytes app_data hash
                (prefix_sums 0 (map length (blocks_of all))) opts.format content_hash (length all)
                (length items) k size some_few few k_small index_small app_small decodes counted,
        refl,
        refl,
        read_item_lem z law k r all _ refl (rw (ne→==_false k 0 (omega (arith, some_room))) refl)
            refl (goods_of records full readable) i found it (some_lt items i e) at holds count,
      )
