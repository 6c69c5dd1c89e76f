-- ===== src/Packfile/ContentHash.antt =====
-- packfile/contenthash.go: SHA-256 over chunks of length-prefixed items, then over their digests.
pub mod Chunks
use event_analysis.Prelude.{ℕ, ◌+◌, ◌%◌, ◌^◌}
use event_analysis.Prelude.{
  List, [], ◌++◌, length, ◌==◌, ltb, if◌then◌else◌, Result, ok, check, ◌>>◌,
}
use event_analysis.Prelude.Bytes.{le_bytes}
use event_analysis.Hash.Sha256.{sum256}
use event_analysis.Packfile.{Error}
use mathlib.Core.List.{flatten}

pub record Hasher : Type 0 where
  pub digests : List ℕ
  pub buf : List ℕ
  pub count : ℕ
  pub chunk_size : ℕ

-- It panics on a chunk size of 0.
unfoldable pub new_hasher : ℕ → Result Error Hasher
new_hasher chunk_size = do
  check (ltb 0 chunk_size)
  ok (record { digests = []; buf = []; count = 0; chunk_size = chunk_size })

-- The digest of the chunk joins the others, and the next chunk begins.
abbrev pub end_chunk : Hasher → Hasher
end_chunk h = record h { digests = h.digests ++ sum256 h.buf; buf = []; count = 0 }

-- The parts of one item stand behind one length prefix.
unfoldable pub add : Hasher → List (List ℕ) → Hasher
add h parts =
    let item = flatten parts in
    let h' = record h {
      buf = h.buf ++ (le_bytes 4 (length item % 2 ^ 32) ++ item);
      count = h.count + 1;
    } in
    if h'.count == h'.chunk_size then end_chunk h' else h'

unfoldable pub sum : Hasher → List ℕ
sum h = let h' = if ltb 0 h.count then end_chunk h else h in sum256 h'.digests
