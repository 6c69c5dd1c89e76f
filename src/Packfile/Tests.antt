-- ===== src/Packfile/Tests.antt =====
-- Runs of the packfile format on small inputs.
use event_analysis.Prelude.{ℕ, ◌<◌, ◌≡◌, refl, sym, ap, subst, arith}
use event_analysis.Prelude.{List, [], ◌∷◌, ◌++◌, length, drop, ok, err, none, some, true, Result}
use event_analysis.Prelude.Int.{pos}
use event_analysis.Prelude.Slices.{put_le, get_le, slice}
use event_analysis.Hash.Crc32c.{checksum, update, shift_byte, shift_bit}
use event_analysis.Zstd.{Library, IsLawful, known}
use event_analysis.Intpack.{
  encode_group, range_width, slices_min, slices_max, bit_len, pack_loop, pack_residuals,
}
use event_analysis.Packfile.{
  Error, raw, uncompressed, crc32c, too_short_for_crc, write_failed, writer_closed,
}
use event_analysis.Packfile.Record.{build_index, format_block}
use event_analysis.Packfile.Index.{encode_index, encode_groups, deltas_of, decode_index}
use event_analysis.Prelude.{IsSafe}
use event_analysis.Packfile.Index.Total.{decode_index-IsSafe}
use event_analysis.Packfile.Index.RoundTrip.{decode_index-encode_index}
use event_analysis.Packfile.Decoder.{Decoder, decode, prefix_sums, items_in_record}
use event_analysis.Packfile.Decoder.Items.{Holds}
use event_analysis.Packfile.Decoder.RoundTrip.{IsReadable, decode-format_block}
use event_analysis.Packfile.Decoder.Empty.{decode-empty_record}
use event_analysis.Packfile.Writer.{
  Writer, WriterOptions, started, write_block, append_item, finish, close,
}
use event_analysis.Packfile.Writer.Invariant.{IsBlock}
use event_analysis.Packfile.Writer.Finish.{rest}
use event_analysis.Packfile.Writer.Failure.{write_block-failed, close_lem}
use event_analysis.Packfile.Reader.{Reader, do_open, read_item}
use event_analysis.Packfile.ContentHash
use event_analysis.Packfile.ContentHash.{Hasher, new_hasher}
use event_analysis.Packfile.ContentHash.Chunks.{add_all, chunked_hash, sum-add_all}
use event_analysis.Packfile.EndToEnd.{write_packfile, read_item-write_packfile}
use mathlib.Core.List.{flatten}
use mathlib.Core.Option.{some-injective}

-- A library that stores its input behind one byte.
abbrev pub storing : Library
storing = record {
  compress = λ d. some (0 ∷ d);
  frame_size = λ c. known (length (drop 1 c));
  decompress = λ n c. some (drop 1 c);
}

pub storing-IsLawful : IsLawful storing
storing-IsLawful = record {
  not_empty = λ d c e. subst (λ t. 0 < length t) (some-injective (0 ∷ d) c e) (omega arith);
  sized = λ d c e. ap (λ t. known (length (drop 1 t))) (sym (some-injective (0 ∷ d) c e));
  restores = λ d c e. ap (λ t. some (drop 1 t)) (sym (some-injective (0 ∷ d) c e));
}

abbrev pub pairs : WriterOptions
pairs = record { items_per_record = pos 2; format = raw; content_hash = true; bytes_per_sync = 0 }

abbrev pub two_items : List (List ℕ)
two_items = (1 ∷ []) ∷ ((2 ∷ (3 ∷ [])) ∷ [])

abbrev pub one_item : List (List ℕ)
one_item = (4 ∷ []) ∷ []

abbrev pub two_index : List ℕ
two_index = 2 ∷ 1 ∷ 1 ∷ 0 ∷ 0 ∷ 0 ∷ 93 ∷ 25 ∷ 242 ∷ 105 ∷ []

abbrev pub one_index : List ℕ
one_index = 0 ∷ 1 ∷ 1 ∷ 0 ∷ 0 ∷ 0 ∷ 158 ∷ 185 ∷ 126 ∷ 178 ∷ []

abbrev pub two_block : List ℕ
two_block = 1 ∷ (2 ∷ (3 ∷ two_index))

abbrev pub one_block : List ℕ
one_block = 4 ∷ one_index

abbrev pub offset_index : List ℕ
offset_index = 2 ∷ 2 ∷ 11 ∷ 0 ∷ 0 ∷ 0 ∷ 206 ∷ 233 ∷ 226 ∷ 104 ∷ []

pub two_index_made : build_index 2 (1 ∷ 2 ∷ []) ≡ ok two_index
unfolding build_index encode_group range_width slices_min slices_max bit_len pack_loop
    pack_residuals put_le get_le slice crc32c checksum update shift_byte shift_bit
two_index_made = refl

pub one_index_made : build_index 2 (1 ∷ []) ≡ ok one_index
unfolding build_index encode_group range_width slices_min slices_max bit_len pack_loop
    pack_residuals put_le get_le slice crc32c checksum update shift_byte shift_bit
one_index_made = refl

pub offset_index_made : encode_index (prefix_sums 0 (13 ∷ 11 ∷ [])) ≡ ok offset_index
unfolding encode_index encode_groups deltas_of prefix_sums encode_group range_width slices_min
    slices_max bit_len pack_loop pack_residuals put_le get_le slice crc32c checksum update
    shift_byte shift_bit
offset_index_made = refl

two_block_made : format_block storing raw (flatten two_items) two_index ≡ ok two_block
unfolding format_block flatten
two_block_made = refl

unfoldable pub two_IsBlock : IsBlock storing raw 2 two_items two_block
unfolding IsBlock format_block flatten
two_IsBlock = (two_index, two_index_made, refl)

unfoldable pub one_IsBlock : IsBlock storing raw 2 one_item one_block
unfolding IsBlock format_block flatten
one_IsBlock = (one_index, one_index_made, refl)

-- Three items in records of two, the second item read back.
read_item-write_packfile_example :
    (w : Writer) × (r : Reader) × (write_packfile storing pairs (two_items ++ one_item) (9 ∷ [])
      ≡ ok w)
    × (do_open w.file.content ≡ ok r)
    × (r.total_items ≡ 3)
    × (r.app_data ≡ 9 ∷ [])
    × (read_item storing r (pos 1) ≡ ok (2 ∷ 3 ∷ []))
unfolding flatten IsReadable
read_item-write_packfile_example =
    read_item-write_packfile storing storing-IsLawful pairs 2 ((two_items, two_block) ∷ [])
      ((one_item, one_block) ∷ []) one_item (9 ∷ []) offset_index refl (omega arith) (omega arith)
      ((refl, (omega arith, (omega arith, tt)), two_IsBlock), tt) (omega arith, tt) (omega arith)
      (rest (4 ∷ []) [] one_block one_IsBlock) (omega arith) (omega arith)
      (omega arith, (omega arith, tt)) (tt, (tt, tt)) (omega arith) offset_index_made (omega arith)
      1 (2 ∷ 3 ∷ []) refl

abbrev rd : Decoder
rd = record {
  format = raw;
  total_items = 3;
  items_per_record = 2;
  decompressed = [];
  sizes = [];
  offsets = [];
}

counted : items_in_record 3 2 0 ≡ ok 2
unfolding items_in_record
counted = refl

decode-format_block_example :
    (rd' : Decoder) × (decode storing rd two_block 0 ≡ ok rd') × Holds rd' two_items
unfolding flatten IsReadable
decode-format_block_example =
    decode-format_block storing rd 0 two_items two_index two_block storing-IsLawful counted
      (omega arith) (omega arith) (omega arith, (omega arith, tt)) tt two_index_made two_block_made

abbrev rd_checked : Decoder
rd_checked = record rd { format = uncompressed; items_per_record = 1 }

counted_empty : items_in_record 3 1 1 ≡ ok 1
unfolding items_in_record
counted_empty = refl

decode-empty_record_example :
    decode storing rd_checked (0 ∷ 0 ∷ 0 ∷ 0 ∷ []) 1 ≡ err (too_short_for_crc 4)
unfolding flatten format_block build_index crc32c checksum update
decode-empty_record_example =
    decode-empty_record storing rd_checked 1 ([] ∷ []) [] (0 ∷ 0 ∷ 0 ∷ 0 ∷ []) refl counted_empty
      (omega arith) (omega arith) (omega arith, tt) refl refl refl

abbrev failing : Writer
failing =
    started pairs 2 none
      (record { content = 7 ∷ []; answers = some 1 ∷ []; syncs = true; closes = true })

write_block-failed_example :
    (w' : Writer) × (write_block failing (5 ∷ 6 ∷ []) ≡ (w', err write_failed))
    × (w'.file.content ≡ 7 ∷ 5 ∷ [])
    × (w'.pos ≡ 1)
    × (append_item storing w' one_item ≡ (w', err write_failed))
    × (finish storing w' [] ≡ (w', err write_failed))
write_block-failed_example = write_block-failed storing failing (5 ∷ 6 ∷ []) 1 [] one_item [] refl

close_lem_example :
    (w' : Writer) × (r : Result Error (Unit {0})) × (close failing ≡ (w', r))
    × (w'.removed ≡ true)
    × (append_item storing w' one_item ≡ (w', err writer_closed))
    × (finish storing w' [] ≡ (w', err writer_closed))
    × (close w' ≡ (w', ok tt))
close_lem_example = close_lem storing failing one_item [] refl refl

decode_index-encode_index_example :
    (bytes : List ℕ) × (encode_index (0 ∷ 13 ∷ 24 ∷ []) ≡ ok bytes)
    × (decode_index bytes 2 (length bytes) 24 ≡ ok (0 ∷ 13 ∷ 24 ∷ []))
decode_index-encode_index_example =
    decode_index-encode_index (13 ∷ 24 ∷ [])
      (omega arith, omega arith, (omega arith, omega arith, tt)) (omega arith)

sum-add_all_example :
    (h : Hasher) × (new_hasher 2 ≡ ok h)
    × (ContentHash.sum (add_all h (two_items ++ one_item)) ≡ chunked_hash (two_items ∷ []) one_item)
unfolding flatten
sum-add_all_example = sum-add_all 2 (two_items ∷ []) one_item (omega arith) (refl, tt) (omega arith)

-- A damaged index: its checksum does not match.
decode_index-IsSafe_example :
    IsSafe (decode_index (2 ∷ 2 ∷ 11 ∷ 0 ∷ 0 ∷ 0 ∷ 1 ∷ 2 ∷ 3 ∷ 4 ∷ []) 2 10 24)
decode_index-IsSafe_example = decode_index-IsSafe (2 ∷ 2 ∷ 11 ∷ 0 ∷ 0 ∷ 0 ∷ 1 ∷ 2 ∷ 3 ∷ 4 ∷ []) 2 24
