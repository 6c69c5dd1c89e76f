-- ===== src/Packfile/Index/Total.antt =====
-- decodeIndex of packfile/index.go on arbitrary bytes.
use event_analysis.Prelude.{ℕ, zero, suc, ◌+◌, ◌-◌, ◌*◌, ◌/◌, ◌%◌, ◌≤◌, inl, inr, arith}
use event_analysis.Prelude.{
  List, [], ◌∷◌, ◌++◌, length, take, leb, ok, ◌>>◌, ◌==◌, map_err, guard, le→leb, leb→le, IsSafe,
  >>=-IsSafe, not, ◌&&◌, Bool-cases, guard-IsSafe, guard-eq-ok, after_guard-IsSafe, ok-IsSafe,
  map_err-IsSafe,
}
use event_analysis.Prelude.Slices.{slice, get_le, slice-prefix}
use event_analysis.Intpack.{decode_group, max_values}
use event_analysis.Intpack.Total.{decode_group-Ends}
use event_analysis.Packfile.{
  Error, crc32c, index_group, corrupt_checksum, unconsumed_bytes, final_offset, index_too_small,
  implausible_count,
}
use event_analysis.Packfile.Index.{group_limit, decode_groups, decode_index, offsets_from}

pub get_le-IsSafe :
    (k : ℕ) (buf : List ℕ) (i : ℕ) → i + k ≤ length buf → IsSafe (get_le {E = Error} k buf i)
unfolding get_le
get_le-IsSafe k buf i h = rw (le→leb (i + k) (length buf) h) tt

decode_group-IsSafe : (buf : List ℕ) (n : ℕ) → n ≤ max_values → IsSafe (decode_group buf n)
decode_group-IsSafe buf n few = elim (decode_group-Ends buf n few) [
  | inl (e, failed) ↦ rw failed tt
  | inr (values, consumed, read, more, low, high) ↦ rw read tt
]

-- No group has more than 128 values.
group_limit-le : (n g left : ℕ) → group_limit n g left ≤ max_values
unfolding group_limit
group_limit-le n g left = elim (Bool-cases ((left + 1 == g) && not (n % 128 == 0))) [
  | inl short ↦ rw short (omega arith)
  | inr full ↦ rw full (omega arith)
]

decode_groups-IsSafe :
    (buf : List ℕ) (n g left pos : ℕ) (deltas : List ℕ)
    → pos ≤ length buf
    → IsSafe (decode_groups buf n g left pos deltas)
unfolding decode_groups
decode_groups-IsSafe buf n g zero pos deltas h = tt
decode_groups-IsSafe buf n g (suc left) pos deltas h =
    >>=-IsSafe (slice buf 0 pos) _
      (ok-IsSafe (slice buf 0 pos) (take pos buf) (slice-prefix buf pos h))
      (λ window e.
        >>=-IsSafe (map_err (index_group left) (decode_group window (group_limit n g left))) _
          (map_err-IsSafe (index_group left) (decode_group window (group_limit n g left))
            (decode_group-IsSafe window (group_limit n g left) (group_limit-le n g left)))
          (λ r e'.
            decode_groups-IsSafe buf n g left (pos - r.1) (r.0 ++ deltas) (omega (arith, h))))

checks-IsSafe :
    (pos end base : ℕ) (starts : List ℕ)
    → IsSafe (
        guard (pos == 0) (unconsumed_bytes pos)
        >> (guard (end == base) (final_offset end base) >> ok (starts ++ (base ∷ []))))
checks-IsSafe pos end base starts =
    after_guard-IsSafe (pos == 0) (unconsumed_bytes pos)
      (guard (end == base) (final_offset end base) >> ok (starts ++ (base ∷ [])))
      (after_guard-IsSafe (end == base) (final_offset end base) (ok (starts ++ (base ∷ []))) tt)

-- `decodeIndex` of a buffer of any bytes, with the buffer's length as the index's size, for any number
-- of records and any base, does not panic.
pub decode_index-IsSafe :
    (buf : List ℕ) (record_count index_base : ℕ)
    → IsSafe (decode_index buf record_count (length buf) index_base)
unfolding decode_index
decode_index-IsSafe buf record_count index_base =
    >>=-IsSafe (guard (leb 4 (length buf)) (index_too_small (length buf))) _ (guard-IsSafe _ _)
      (λ u long.
        >>=-IsSafe
          (guard (leb record_count ((length buf - 4) / 6 * 128))
            (implausible_count record_count (length buf)))
          _ (guard-IsSafe _ _)
          (λ u' few.
            >>=-IsSafe (get_le 4 buf (length buf - 4)) _
              (get_le-IsSafe 4 buf (length buf - 4)
                (omega (arith, leb→le 4 (length buf) (guard-eq-ok _ _ long))))
              (λ stored read.
                >>=-IsSafe (slice buf 0 (length buf - 4)) _
                  (ok-IsSafe (slice buf 0 (length buf - 4)) (take (length buf - 4) buf)
                    (slice-prefix buf (length buf - 4) (omega arith)))
                  (λ payload cut. after_guard-IsSafe (stored == crc32c payload) corrupt_checksum _ (
                    >>=-IsSafe
                      (decode_groups buf record_count ((record_count + 127) / 128)
                        ((record_count + 127) / 128) (length buf - 4) [])
                      _
                      (decode_groups-IsSafe buf record_count ((record_count + 127) / 128)
                        ((record_count + 127) / 128) (length buf - 4) [] (omega arith))
                      (λ r decoded.
                        checks-IsSafe r.1 (offsets_from 0 r.0).1 index_base
                          (offsets_from 0 r.0).0))))))
