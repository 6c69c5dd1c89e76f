-- ===== src/Packfile/Record.antt =====
-- packfile/writer.go, buildBlock and the format switches of flush and blockWorker: one record.
use event_analysis.Prelude.{ℕ, List, [], ◌++◌, true, ltb, if◌then◌else◌}
use event_analysis.Prelude.{Result, ok, map_err, ◌>>=◌}
use event_analysis.Prelude.Bytes.{le_bytes}
use event_analysis.Intpack.{encode_group}
use event_analysis.Zstd
use event_analysis.Packfile.{
  Error, RecordFormat, compressed, uncompressed, raw, crc32c, intpack, zstd,
}

-- The FOR index of a record with its own checksum; nothing where a record is one item.
unfoldable pub build_index : ℕ → List ℕ → Result Error (List ℕ)
build_index items_per_record sizes =
    if ltb 1 items_per_record
    then (do
      encoded ← map_err intpack (encode_group sizes)
      ok (encoded ++ le_bytes 4 (crc32c encoded)))
    else ok []

-- The payload as the format stores it, then the index.
unfoldable pub format_block : Zstd.Library → RecordFormat → List ℕ → List ℕ → Result Error (List ℕ)
format_block z compressed payload for_index = do
  frame ← map_err zstd (Zstd.encode z true payload)
  ok (frame ++ for_index)
format_block z uncompressed payload for_index =
    ok ((payload ++ le_bytes 4 (crc32c payload)) ++ for_index)
format_block z raw payload for_index = ok (payload ++ for_index)
