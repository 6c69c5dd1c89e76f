-- ===== src/Packfile/ReadItem.antt =====
-- ReadItem of packfile/reader.go on a file whose records a writer assembled.
use event_analysis.Prelude.{ℕ, ◌+◌, ◌/◌, ◌%◌, ◌^◌, ◌<◌, ◌≡◌, refl, ap, ap₂, ◌∙◌, arith}
use event_analysis.Prelude.{
  List, [], ◌∷◌, ◌++◌, map, length, All, All_get, get_elem?, some, ok, append_assoc, get_elem?-map,
  lt→ltb,
}
use event_analysis.Prelude.Int.{pos}
use event_analysis.Prelude.Slices.{slice, index, slice-append}
use event_analysis.Zstd
use event_analysis.Zstd.{IsLawful}
use event_analysis.Intpack.{IsU32}
use event_analysis.Packfile.{Error, RecordFormat}
use event_analysis.Packfile.Record.{build_index}
use event_analysis.Packfile.Decoder.{Decoder, prefix_sums, items_in_record, decode, item}
use event_analysis.Packfile.Decoder.Items.{Located, locate, item_lem}
use event_analysis.Packfile.Decoder.RoundTrip.{IsReadable, decode-format_block}
use event_analysis.Packfile.Writer.Invariant.{IsBlock, Records, blocks_of}
use event_analysis.Packfile.Writer.Runs.{Small}
use event_analysis.Packfile.Lookup.{some_lt}
use event_analysis.Packfile.Reader.{Reader, read_item}
use mathlib.Core.List.{flatten}

pub u32_sizes : (items : List (List ℕ)) → All Small items → All IsU32 (map length items)
u32_sizes [] h = tt
u32_sizes (it ∷ items) h = (h.0, u32_sizes items h.1)

-- What each record has to be for its items to come back.
abbrev pub IsGood : Zstd.Library → RecordFormat → ℕ → List (List ℕ) × List ℕ → Type 0
IsGood z format k r =
    (length r.0 < 2 ^ 32)
    × All Small r.0
    × IsReadable format (flatten r.0)
    × IsBlock z format k r.0 r.1

module _ (z : Zstd.Library) (law : IsLawful z) (k : ℕ) (r : Reader) (records : Records)
    (behind : List ℕ) (content : r.file ≡ flatten (blocks_of records) ++ behind)
    (setting : r.items_per_record ≡ k)
    (offsets : r.offsets ≡ prefix_sums 0 (map length (blocks_of records)))
    (good : All (IsGood z r.trailer.format k) records) where
  module _ (i : ℕ) (found : List (List ℕ) × List ℕ) (it : List ℕ) (in_range : i < r.total_items)
      (at : get_elem? records (i / k) ≡ some found) (holds : get_elem? found.0 (i % k) ≡ some it)
      (count : items_in_record r.total_items k (i / k) ≡ ok (length found.0)) where
    place : Located 0 (blocks_of records) (i / k) found.1
    place = locate 0 (blocks_of records) (i / k) (get_elem?-map (λ r. r.1) records (i / k) at)

    next :
        index {E = Error} (prefix_sums 0 (map length (blocks_of records))) (i / k + 1)
        ≡ ok (0 + length place.front + length found.1)
    next =
        ap (index {E = Error} (prefix_sums 0 (map length (blocks_of records)))) (omega arith)
        ∙ place.next

    reads :
        slice {E = Error} r.file (0 + length place.front) (0 + length place.front + length found.1)
        ≡ ok found.1
    reads =
        ap (λ t. slice t (0 + length place.front) (0 + length place.front + length found.1))
          (content
            ∙ ap (λ t. t ++ behind) place.cut
            ∙ append_assoc place.front (found.1 ++ place.back) behind
            ∙ ap (λ t. place.front ++ t) (append_assoc found.1 place.back behind))
        ∙ slice-append place.front found.1 (place.back ++ behind) _ _ (omega arith) refl

    is_good : IsGood z r.trailer.format k found
    is_good = All_get (IsGood z r.trailer.format k) records (i / k) good at

    -- The decoder as `getDecoder` sets it up.
    abbrev fresh : Decoder
    fresh = record {
      format = r.trailer.format;
      total_items = r.total_items;
      items_per_record = r.items_per_record;
      decompressed = [];
      sizes = [];
      offsets = [];
    }

    pub read_item_lem : read_item z r (pos i) ≡ ok it
    unfolding read_item IsBlock
    read_item_lem =
        let (size, small, readable, made) = is_good in
        let (for_index, made_index, made_block) = made in
        let (rd, decodes, h) =
          decode-format_block z fresh (i / k) found.0 for_index found.1 law
            (ap (λ t. items_in_record r.total_items t (i / k)) setting ∙ count)
            (omega (arith, some_lt found.0 (i % k) holds)) size (u32_sizes found.0 small) readable
            (ap (λ t. build_index t (map length found.0)) setting ∙ made_index) made_block in
        rw
          (
            lt→ltb i r.total_items in_range,
            ap₂ (λ t s. index t (i / s)) offsets setting ∙ place.here,
            ap₂ (λ t s. index t (i / s + 1)) offsets setting ∙ next,
            reads,
            ap (λ s. decode z fresh found.1 (i / s)) setting ∙ decodes,
            ap (λ s. item rd (i % s)) setting ∙ item_lem rd found.0 (i % k) h holds,
          )
          refl
