-- ===== src/Packfile/Decoder/RoundTrip.antt =====
-- A record that the writer assembled, through `Decode`.
use event_analysis.Prelude.{ℕ, zero, suc, ◌+◌, ◌-◌, ◌^◌, ◌≤◌, ◌<◌, ◌≡◌, refl, sym, ap, ◌∙◌}
use event_analysis.Prelude.{
  List, [], ◌∷◌, ◌++◌, map, length, All, arith, ok, true, map_err, ◌>>=◌, le→leb, lt→ltb, eq→==,
  length-append, length-map, append-nil, ok-injective, >>=-eq-ok, map_err-eq-ok, false, ltb,
  Bool-cases, inl, inr, ltb→lt,
}
use native.Mathlib.Nat.{mod-eq_of_lt, mod-lt}
use event_analysis.Prelude.Bytes.{le_bytes, length-le_bytes, le_num-le_bytes}
use event_analysis.Prelude.Slices.{get_le, get_le-append, slice-append}
use event_analysis.Intpack.{IsU32, encode_group}
use event_analysis.Intpack.RoundTrip.{decode_group_of_encode}
use event_analysis.Zstd
use event_analysis.Zstd.{Library, IsLawful, max_int}
use event_analysis.Packfile.{
  Error, RecordFormat, compressed, uncompressed, raw, crc32c, zstd, intpack,
}
use event_analysis.Packfile.Record.{build_index, format_block}
use event_analysis.Packfile.Decoder.{
  Decoder, items_in_record, strip_index, read_payload, read_sizes, prefix_sums, sum, decode,
}
use event_analysis.Packfile.Decoder.Items.{Holds, sum-lengths}
use mathlib.Core.List.{flatten}
use event_analysis.Packfile.Decoder.Strip.{crc32c-lt, strip_index-encode_group}

-- What `Decode` asks of a payload: libzstd's content size fits an `int`, and an uncompressed record
-- is not empty.
unfoldable pub IsReadable : RecordFormat → List ℕ → Type 0
IsReadable compressed payload = length payload ≤ max_int
IsReadable uncompressed payload = 0 < length payload
IsReadable raw payload = Unit

pub read_payload-format_block :
    (z : Library) (format : RecordFormat) (payload for_index block : List ℕ)
    → IsLawful z
    → IsReadable format payload
    → format_block z format payload for_index ≡ ok block
    → (stored : List ℕ) × (block ≡ stored ++ for_index)
      × (read_payload z format stored ≡ ok payload)
unfolding format_block read_payload IsReadable
read_payload-format_block z compressed payload for_index block law h e =
    let (frame, made, joined) = >>=-eq-ok (map_err zstd (Zstd.encode z true payload)) _ e in
    (
      frame,
      sym (ok-injective joined),
      ap (map_err zstd) (
          Zstd.decode-encode z payload frame law h
            (map_err-eq-ok zstd (Zstd.encode z true payload) frame made)),
    )
read_payload-format_block z raw payload for_index block law h e =
    (payload, sym (ok-injective e), refl)
read_payload-format_block z uncompressed payload for_index block law h e = (
  payload ++ le_bytes 4 (crc32c payload),
  sym (ok-injective e),
  rw
      (
        le→leb 5 (length (payload ++ le_bytes 4 (crc32c payload))) (omega (arith, long)),
        reads_crc,
        slice-append [] payload (le_bytes 4 (crc32c payload)) 0
            (length (payload ++ le_bytes 4 (crc32c payload)) - 4) refl (omega (arith, long)),
        eq→== (crc32c payload) (crc32c payload) refl,
      )
      refl,
)
  where
    long : length (payload ++ le_bytes 4 (crc32c payload)) ≡ length payload + 4
    long =
        length-append payload (le_bytes 4 (crc32c payload))
        ∙ ap (λ n. length payload + n) (length-le_bytes 4 (crc32c payload))

    reads_crc :
        get_le {E = Error} 4
          (payload ++ le_bytes 4 (crc32c payload))
          (length (payload ++ le_bytes 4 (crc32c payload)) - 4)
        ≡ ok (crc32c payload)
    reads_crc =
        ap (λ t. get_le 4 (payload ++ t) (length (payload ++ le_bytes 4 (crc32c payload)) - 4))
          (sym (append-nil (le_bytes 4 (crc32c payload))))
        ∙ get_le-append 4 payload (le_bytes 4 (crc32c payload)) []
            (length (payload ++ le_bytes 4 (crc32c payload)) - 4) (omega (arith, long))
            (length-le_bytes 4 (crc32c payload))
        ∙ ap ok (le_num-le_bytes 4 (crc32c payload) (crc32c-lt payload))

-- A record with several items: its sizes come out of the stored index.
sizes_of_items :
    (items : List (List ℕ)) (group : List ℕ)
    → All IsU32 (map length items)
    → 0 < length items
    → length items < 2 ^ 32
    → encode_group (map length items) ≡ ok group
    → (k : ℕ) → 1 < k
    → read_sizes k (length items) group (flatten items) ≡ ok (map length items)
sizes_of_items items group words some_items small e k several =
    unfold read_sizes in
    rw
      (
        lt→ltb 1 k several,
        ← length-map length items,
        (decode_group_of_encode [] (map length items) group words
            (omega (arith, length-map length items)) (omega (arith, length-map length items)) e).0,
        eq→== (sum (map length items)) (length (flatten items)) (sum-lengths items),
      )
      refl

-- A record never holds more items than the file's setting.
pub items_in_record-le :
    (total k record_idx n : ℕ) → items_in_record total k record_idx ≡ ok n → n ≤ k
unfolding items_in_record
items_in_record-le total zero record_idx n e = ground arith
items_in_record-le total (suc k) record_idx n e =
    ground (arith, mod-lt total {m = suc k} (omega arith))

-- A record of one item stores no index.
sizes_of_item :
    (items : List (List ℕ)) (k : ℕ)
    → ltb 1 k ≡ false
    → length items ≤ k
    → 0 < length items
    → All IsU32 (map length items)
    → read_sizes k (length items) [] (flatten items) ≡ ok (map length items)
unfolding flatten
sizes_of_item [] k one few some_items words = absurd (omega arith)
sizes_of_item (it ∷ (it' ∷ items)) k one few some_items words = absurd (ground arith)
sizes_of_item (it ∷ []) k one few some_items words =
    unfold read_sizes in rw (one, append-nil it, mod-eq_of_lt words.0) refl

pub build_index-many :
    (k : ℕ) (sizes for_index : List ℕ)
    → ltb 1 k ≡ true
    → build_index k sizes ≡ ok for_index
    → (group : List ℕ) × (encode_group sizes ≡ ok group)
      × (for_index ≡ group ++ le_bytes 4 (crc32c group))
unfolding build_index
build_index-many k sizes for_index many e =
    let (group, encoded, tail) =
      >>=-eq-ok (map_err intpack (encode_group sizes)) _ (sym opened ∙ e) in
    (group, map_err-eq-ok intpack (encode_group sizes) group encoded, sym (ok-injective tail))
  where
    opened : build_index k sizes ≡ (
        map_err intpack (encode_group sizes) >>= λ group. ok (group ++ le_bytes 4 (crc32c group)))
    opened = rw many refl

pub build_index-one :
    (k : ℕ) (sizes for_index : List ℕ)
    → ltb 1 k ≡ false
    → build_index k sizes ≡ ok for_index
    → for_index ≡ []
unfolding build_index
build_index-one k sizes for_index one e = ok-injective (sym e ∙ rw one refl)

module _ (z : Library) (rd : Decoder) (record_idx : ℕ) (items : List (List ℕ))
    (for_index block : List ℕ) (law : IsLawful z)
    (count : items_in_record rd.total_items rd.items_per_record record_idx ≡ ok (length items))
    (some_items : 0 < length items) (small : length items < 2 ^ 32)
    (words : All IsU32 (map length items)) (readable : IsReadable rd.format (flatten items))
    (made_index : build_index rd.items_per_record (map length items) ≡ ok for_index)
    (made_block : format_block z rd.format (flatten items) for_index ≡ ok block) where
  decoded : Decoder
  decoded = record rd {
    decompressed = flatten items;
    sizes = map length items;
    offsets = prefix_sums 0 (map length items);
  }

  decoded-Holds : Holds decoded items
  unfolding decoded
  decoded-Holds = record { payload = refl; sized = refl; summed = refl }

  reads :
      (stored : List ℕ) × (block ≡ stored ++ for_index)
      × (read_payload z rd.format stored ≡ ok (flatten items))
  reads =
      read_payload-format_block z rd.format (flatten items) for_index block law readable made_block

  several : ltb 1 rd.items_per_record ≡ true → decode z rd block record_idx ≡ ok decoded
  unfolding decode decoded
  several many =
      let (group, encoded, tail) =
        build_index-many rd.items_per_record (map length items) for_index many made_index in
      rw
        (
          count,
          many,
          reads.1,
          tail,
          ap (λ n. strip_index n (reads.0 ++ (group ++ le_bytes 4 (crc32c group))))
                (sym (length-map length items))
              ∙ strip_index-encode_group reads.0 (map length items) group words
                  (omega (arith, length-map length items)) (omega (arith, length-map length items))
                  encoded,
          reads.2,
          sizes_of_items items group words some_items small encoded rd.items_per_record
              (ltb→lt 1 rd.items_per_record many),
          length-map length items,
          le→leb (length items) (length items) (omega arith),
        )
        refl

  single : ltb 1 rd.items_per_record ≡ false → decode z rd block record_idx ≡ ok decoded
  unfolding decode decoded
  single one =
      rw
        (
          count,
          one,
          reads.1,
          build_index-one rd.items_per_record (map length items) for_index one made_index,
          append-nil reads.0,
          reads.2,
          sizes_of_item items rd.items_per_record one
              (items_in_record-le rd.total_items rd.items_per_record record_idx (length items)
                count)
              some_items words,
          length-map length items,
          le→leb (length items) (length items) (omega arith),
        )
        refl

  -- For a lawful libzstd and items of less than 4 GiB each, as many as the decoder expects in the
  -- record, at least one and fewer than 2^32, with a payload that `Decode` accepts: decoding the block
  -- assembled from them succeeds, and the decoder then holds their bytes, sizes and offsets.
  pub decode-format_block :
      (rd' : Decoder) × (decode z rd block record_idx ≡ ok rd') × Holds rd' items
  decode-format_block = (
    decoded,
    elim (Bool-cases (ltb 1 rd.items_per_record)) [
      | inl many ↦ several many
      | inr one ↦ single one
    ],
    decoded-Holds,
  )
