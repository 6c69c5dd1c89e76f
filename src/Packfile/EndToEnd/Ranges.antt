-- ===== src/Packfile/EndToEnd/Ranges.antt =====
-- A packfile from the first AppendItem to ReadRange and Verify: packfile/writer.go and
-- packfile/reader.go.
use event_analysis.Prelude.{
  ℕ, zero, suc, ◌+◌, ◌*◌, ◌/◌, ◌^◌, ◌≤◌, ◌<◌, ◌≡◌, refl, sym, ap, subst, ◌∙◌, inl, inr, arith,
}
use event_analysis.Prelude.{
  List, [], ◌∷◌, ◌++◌, map, length, take, drop, All, get_elem?, some, ok, replicate, Bool,
  if◌then◌else◌, append_assoc, take_all, take-append_left, drop-append_skip, Bool-cases,
  ne→==_false,
}
use event_analysis.Prelude.Int.{pos}
use event_analysis.Zstd
use event_analysis.Zstd.{IsLawful}
use event_analysis.Packfile.ContentHash.Chunks.{chunked_hash}
use event_analysis.Packfile.Index.{encode_index}
use event_analysis.Packfile.Decoder.{prefix_sums, items_in_record}
use event_analysis.Packfile.Decoder.RoundTrip.{IsReadable}
use event_analysis.Packfile.Writer.{Writer, WriterOptions}
use event_analysis.Packfile.Writer.Invariant.{Records, blocks_of, items_of}
use event_analysis.Packfile.Writer.Runs.{Small, IsFull}
use event_analysis.Packfile.Writer.Finish.{IsLast, nothing, rest}
use event_analysis.Packfile.Lookup.{some_lt}
use event_analysis.Packfile.Reader.{Reader, do_open, check_counts}
use event_analysis.Prelude.{◌==◌}
use event_analysis.Packfile.ReadItem.{IsGood}
use event_analysis.Packfile.Reader.Open.{opened, do_open-parts}
use event_analysis.Packfile.EndToEnd.{
  write_packfile, expected, lengths, written, total, counts_of, goods_of, chunk_lengths,
}
use event_analysis.Packfile.Range.{read_range, verify}
use event_analysis.Packfile.Range.Layout.{Cut, IsLaid}
use event_analysis.Packfile.Range.Items.{read_range_lem}
use event_analysis.Packfile.Range.Records.{get_some}
use event_analysis.Packfile.Range.Verify.{verify_lem}
use mathlib.Core.List.{flatten}
use mathlib.Core.Option.{some-injective}
use native.Mathlib.Nat.{suc-mul, zero-mul, mul-div_cancel}

-- A record's items are the next items of the file.
cut_records :
    (z : Zstd.Library) (opts : WriterOptions) (k : ℕ) (pending : List (List ℕ)) (last : Records)
    (records : Records) (j : ℕ) (found : List (List ℕ) × List ℕ)
    → IsLast z opts.format k pending last
    → length pending < k
    → All (λ r. length r.0 ≡ k) records
    → get_elem? (records ++ last) j ≡ some found
    → found.0 ≡ take k (drop (j * k) (items_of records pending))
unfolding flatten
cut_records z opts k _ _ [] zero found nothing short full e = absurd (omega (arith, some_lt [] 0 e))
cut_records z opts k _ _ [] zero found (rest x xs block made) short full e =
    ap (λ t. t.0) (sym (some-injective _ found e))
    ∙ sym (take_all k (x ∷ xs) (omega (arith, short)))
    ∙ ap (λ t. take k (drop t (x ∷ xs))) {x = 0} (sym (zero-mul k))
cut_records z opts k _ _ [] (suc j) found nothing short full e =
    absurd (omega (arith, some_lt [] (suc j) e))
cut_records z opts k _ _ [] (suc j) found (rest x xs block made) short full e =
    absurd (omega (arith, some_lt ((x ∷ xs, block) ∷ []) (suc j) e))
cut_records z opts k pending last (r ∷ records) zero found is_last short full e =
    ap (λ t. t.0) (sym (some-injective r found e))
    ∙ sym (take-append_left k r.0 (items_of records pending) full.0)
    ∙ ap (take k) (sym (append_assoc r.0 (flatten (map (λ r. r.0) records)) pending))
    ∙ ap (λ t. take k (drop t (items_of (r ∷ records) pending))) {x = 0} (sym (zero-mul k))
cut_records z opts k pending last (r ∷ records) (suc j) found is_last short full e =
    cut_records z opts k pending last records j found is_last short full.1 e
    ∙ ap (take k) (
        sym (drop-append_skip k (j * k) r.0 (items_of records pending) full.0)
        ∙ ap (drop (k + j * k)) (sym (append_assoc r.0 (flatten (map (λ r. r.0) records)) pending))
        ∙ ap (λ t. drop t (items_of (r ∷ records) pending)) {x = k + j * k}
            (omega (arith, suc-mul j k)))

module _ (z : Zstd.Library) (law : IsLawful z) (opts : WriterOptions) (k : ℕ)
    (records last : Records) (pending : List (List ℕ)) (app_data index_bytes : List ℕ)
    (setting : opts.items_per_record ≡ pos k) (some_room : 0 < k) (k_small : k < 2 ^ 32)
    (full : All (IsFull z opts.format k) records) (small : All Small pending)
    (short : length pending < k) (is_last : IsLast z opts.format k pending last)
    (few : length (items_of records pending) < 2 ^ 32)
    (few_records : length (records ++ last) < 2 ^ 31)
    (blocks_small : All (λ m. m < 2 ^ 32) (map length (blocks_of (records ++ last))))
    (readable : All (λ r. IsReadable opts.format (flatten r.0)) (records ++ last))
    (app_small : length app_data < 2 ^ 32)
    (indexed : encode_index (prefix_sums 0 (map length (blocks_of (records ++ last))))
      ≡ ok index_bytes)
    (index_small : length index_bytes < 2 ^ 32) where
  file-Cut : Cut k (length (items_of records pending)) (items_of records pending) (records ++ last)
  file-Cut j h =
      let (it, e) = get_some (items_of records pending) (j * k) h in
      let (found, at, holds, count) =
        expected z law opts k records last pending app_data index_bytes setting some_room k_small
          full small short is_last few few_records blocks_small readable app_small indexed
          index_small (j * k) it e in
      let place : j * k / k ≡ j = mul-div_cancel j some_room in
      let at' : get_elem? (records ++ last) j ≡ some found =
        ap (get_elem? (records ++ last)) (sym place) ∙ at in
      (
        found,
        at',
        ap (items_in_record (length (items_of records pending)) k) (sym place) ∙ count,
        cut_records z opts k pending last records j found is_last short
            (lengths z law opts k records last pending app_data index_bytes setting some_room
              k_small full small short is_last few few_records blocks_small readable app_small
              indexed index_small records full)
            at',
        omega (arith, some_lt found.0 _ holds),
      )

  -- The digest that the trailer stores.
  abbrev pub stored_hash : Bool → List ℕ
  stored_hash content_hash =
      if content_hash then chunked_hash (map (λ r. r.0) records) pending else replicate 32 0

  -- The file is written and opens, and the reader finds its records.
  pub laid :
      (w : Writer) × (r : Reader) × (write_packfile z opts (items_of records pending) app_data
        ≡ ok w)
      × (do_open w.file.content ≡ ok r)
      × IsLaid z r (items_of records pending) (records ++ last)
      × (r.items_per_record ≡ k)
      × (r.trailer.has_content_hash ≡ opts.content_hash)
      × (r.trailer.content_hash ≡ stored_hash opts.content_hash)
  laid =
      let (w, content_hash, hash, trailer, wrote, content, sealed, size, decodes, same, digest) =
        written z law opts k records last pending app_data index_bytes setting some_room k_small
          full small short is_last few few_records blocks_small readable app_small indexed
          index_small in
      let counted : check_counts (length (items_of records pending)) k (length (records ++ last))
          ≡ ok tt =
        ap (λ m. check_counts m k (length (records ++ last)))
          (total z law opts k records last pending app_data index_bytes setting some_room k_small
            full small short is_last few few_records blocks_small readable app_small indexed
            index_small)
        ∙ counts_of z law opts k records last pending app_data index_bytes setting some_room k_small
            full small short is_last few few_records blocks_small readable app_small indexed
            index_small pending last is_last short in
      let same_setting : (if k == 0 then 1 else k) ≡ k =
        rw (ne→==_false k 0 (omega (arith, some_room))) refl in
      let some_few : length (records ++ last) < 2 ^ 32 = omega (arith, few_records) in
      let r : Reader =
        opened (flatten (blocks_of (records ++ last))) index_bytes app_data hash
          (prefix_sums 0 (map length (blocks_of (records ++ last)))) opts.format content_hash
          (length (records ++ last)) (length (items_of records pending)) k size some_few few k_small
          index_small app_small decodes counted in
      (
        w,
        r,
        wrote,
        ap do_open (
              content
              ∙ ap (λ t. flatten (blocks_of (records ++ last)) ++ (index_bytes ++ (app_data ++ t)))
                  sealed)
            ∙ do_open-parts (flatten (blocks_of (records ++ last))) index_bytes app_data hash
                (prefix_sums 0 (map length (blocks_of (records ++ last)))) opts.format content_hash
                (length (records ++ last)) (length (items_of records pending)) k size some_few few
                k_small index_small app_small decodes counted,
        record {
          behind = _;
          content = refl;
          offsets = refl;
          good =
              subst (λ t. All (IsGood z opts.format t) (records ++ last)) (sym same_setting)
                (goods_of z law opts k records last pending app_data index_bytes setting some_room
                  k_small full small short is_last few few_records blocks_small readable app_small
                  indexed index_small records full readable);
          total = refl;
          some_room = subst (λ t. 0 < t) (sym same_setting) some_room;
          cut =
              subst
                (λ t.
                  Cut t (length (items_of records pending)) (items_of records pending)
                    (records ++ last))
                (sym same_setting) file-Cut;
        },
        same_setting,
        same,
        elim (Bool-cases content_hash) [
          | inl on ↦
              ap (λ t. if t then hash else replicate 32 0) on
              ∙ digest on
              ∙ ap stored_hash (sym on ∙ same)
          | inr off ↦
              ap (λ t. if t then hash else replicate 32 0) off ∙ ap stored_hash (sym off ∙ same)
        ],
      )

  -- For a lawful libzstd, a setting of `k` items per record with 0 < k < 2^32, items cut into full
  -- records, each with the block that the writer's format gives it, and a shorter rest with its block
  -- or no rest, items of less than 4 GiB in records that `Decode` accepts, fewer than 2^32 items,
  -- fewer than 2^31 records of less than 4 GiB each, application data and an index of less than 4 GiB:
  -- the packfile is written and opens, and `ReadRange` of any range of its items yields these in order
  -- and ends without an error.
  pub read_range-write_packfile :
      (start count : ℕ)
      → start + count ≤ length (items_of records pending)
      → (w : Writer) × (r : Reader) × (write_packfile z opts (items_of records pending) app_data
          ≡ ok w)
        × (do_open w.file.content ≡ ok r)
        × ((g : ℕ) × (read_range z r (pos start) (pos count)
              ≡ (take count (drop start (items_of records pending)), ok g)))
  read_range-write_packfile start count h =
      let (w, r, wrote, opens, v, same_k, same_hash, digest) = laid in
      (
        w,
        r,
        wrote,
        opens,
        read_range_lem z law r (items_of records pending) (records ++ last) v start count h,
      )

  -- Under the conditions of the theorem on `ReadRange` but for the range: the packfile is written and
  -- opens, its trailer says whether a content hash was asked for and stores the hash of the chunks of
  -- items, or zeros without one, and `Verify` returns nil.
  pub verify-write_packfile :
      (w : Writer) × (r : Reader) × (write_packfile z opts (items_of records pending) app_data
        ≡ ok w)
      × (do_open w.file.content ≡ ok r)
      × (r.trailer.has_content_hash ≡ opts.content_hash)
      × (r.trailer.content_hash ≡ stored_hash opts.content_hash)
      × (verify z r ≡ ok tt)
  verify-write_packfile =
      let (w, r, wrote, opens, v, same_k, same_hash, digest) = laid in
      let (unhashed, matching, differing) =
        verify_lem z law r (map (λ r. r.0) records) pending (records ++ last) v
          (subst (λ t. All (λ c. length c ≡ t) (map (λ r. r.0) records)) (sym same_k)
            (chunk_lengths z law opts k records last pending app_data index_bytes setting some_room
              k_small full small short is_last few few_records blocks_small readable app_small
              indexed index_small records full))
          (omega (arith, short, same_k)) in
      (
        w,
        r,
        wrote,
        opens,
        same_hash,
        digest,
        elim (Bool-cases r.trailer.has_content_hash) [
          | inl on ↦ matching (digest ∙ ap stored_hash (sym same_hash ∙ on))
          | inr off ↦ unhashed off
        ],
      )
