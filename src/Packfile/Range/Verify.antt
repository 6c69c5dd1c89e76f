-- ===== src/Packfile/Range/Verify.antt =====
-- Verify of packfile/reader.go.
use event_analysis.Prelude.{ℕ, ◌<◌, ◌≡◌, ◌≢◌, refl, ap, sym, ◌∙◌, arith}
use event_analysis.Prelude.{
  List, ◌++◌, length, All, Bool, true, false, not, if◌then◌else◌, ok, err, take_all, Result,
}
use event_analysis.Prelude.Bytes.{same_bytes, same_bytes_refl, same_bytes_eq}
use event_analysis.Zstd
use event_analysis.Zstd.{IsLawful}
use event_analysis.Packfile.{Error, content_hash_mismatch}
use event_analysis.Packfile.ContentHash.Chunks.{chunked_hash, sum-add_all}
use event_analysis.Packfile.Reader.{Reader}
use event_analysis.Packfile.Writer.Invariant.{Records}
use event_analysis.Packfile.Range.{hash_range, verify}
use event_analysis.Packfile.Range.Layout.{IsLaid}
use event_analysis.Packfile.Range.Items.{read_range_lem}
use mathlib.Core.List.{flatten}

abbrev verdict : Bool → Bool → Result Error (Unit {0})
verdict has_content_hash same =
    if not has_content_hash then ok tt else (if same then ok tt else err content_hash_mismatch)

module _ (z : Zstd.Library) (law : IsLawful z) (r : Reader) (chunks : List (List (List ℕ)))
    (rest : List (List ℕ)) (records : Records) (v : IsLaid z r (flatten chunks ++ rest) records)
    (full : All (λ c. length c ≡ r.items_per_record) chunks)
    (short : length rest < r.items_per_record) where
  computed :
      verify z r
      ≡ verdict r.trailer.has_content_hash
          (same_bytes (chunked_hash chunks rest) r.trailer.content_hash)
  unfolding verify hash_range
  computed =
      let (h, made, hashed) = sum-add_all r.items_per_record chunks rest v.some_room full short in
      let (g, yields) =
        read_range_lem z law r (flatten chunks ++ rest) records v 0 r.total_items
          (omega (arith, v.total)) in
      rw
        (
          made,
          yields,
          take_all r.total_items (flatten chunks ++ rest) (omega (arith, v.total)),
          hashed,
        )
        refl

  pub verify_lem :
      (r.trailer.has_content_hash ≡ false → verify z r ≡ ok tt)
      × (r.trailer.content_hash ≡ chunked_hash chunks rest → verify z r ≡ ok tt)
      × (r.trailer.has_content_hash ≡ true
          → r.trailer.content_hash ≢ chunked_hash chunks rest
          → verify z r ≡ err content_hash_mismatch)
  verify_lem = (
    λ none_stored. computed ∙ ap (λ t. verdict t same) none_stored,
    λ e.
        computed
        ∙ ap (verdict r.trailer.has_content_hash) (
            ap (same_bytes (chunked_hash chunks rest)) e
            ∙ same_bytes_refl (chunked_hash chunks rest))
        ∙ accepted r.trailer.has_content_hash,
    λ stored differs.
        computed
        ∙ ap (λ t. verdict t same) stored
        ∙ ap (verdict true) (refused same (λ e. differs (sym (same_bytes_eq _ _ e)))),
  )
    where
      same : Bool
      same = same_bytes (chunked_hash chunks rest) r.trailer.content_hash

      refused : (b : Bool) → ¬ (b ≡ true) → b ≡ false
      refused true differs = absurd (differs refl)
      refused false differs = refl

      accepted : (b : Bool) → verdict b true ≡ ok tt
      accepted true = refl
      accepted false = refl

  -- For a lawful libzstd, a reader of a file that holds the blocks of its records and of the items in
  -- chunks of the record's size with a shorter rest, and a trailer that has a content hash other than
  -- that of the chunks and the rest: `Verify` returns the error of a mismatch.
  pub verify_mismatch :
      r.trailer.has_content_hash ≡ true
      → r.trailer.content_hash ≢ chunked_hash chunks rest
      → verify z r ≡ err content_hash_mismatch
  verify_mismatch stored differs =
      let (unhashed, matching, differing) = verify_lem in differing stored differs
