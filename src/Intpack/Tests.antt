-- ===== src/Intpack/Tests.antt =====
-- Runs of intpack/intpack.go on small groups.
use event_analysis.Prelude.{
  ℕ, ◌*◌, ◌^◌, ◌<◌, ◌≤◌, ◌≡◌, ◌⊎◌, arith, List, [], ◌∷◌, ◌++◌, length, All, ok,
}
use event_analysis.Intpack.{IsU32, encode_group, decode_group, range_width, slices_max, sub32}
use event_analysis.Intpack.Packing.{Fits}
use event_analysis.Intpack.Layout.{IsGroup, layout, encode_group-IsGroup}
use event_analysis.Intpack.Width.{IsOneOf, range_width_lem}
use event_analysis.Intpack.Total.{Ends, decode_group-Ends}
use event_analysis.Intpack.RoundTrip.{decode_group-encode_group}

abbrev some_values : List ℕ
some_values = 1000 ∷ 1003 ∷ 4294967295 ∷ []

words : All IsU32 some_values
words = (omega arith, (omega arith, (omega arith, tt)))

decode_group-encode_group_example :
    (group : List ℕ) × (encode_group some_values ≡ ok group)
    × (decode_group ((7 ∷ []) ++ group) 3 ≡ ok (some_values, length group))
decode_group-encode_group_example =
    decode_group-encode_group (7 ∷ []) some_values words (omega arith) (omega arith)

encode_group-IsGroup_example :
    (m w : ℕ) × (body : List ℕ) × (encode_group some_values ≡ ok (layout m w body))
    × IsGroup some_values m w body
encode_group-IsGroup_example =
    encode_group-IsGroup 1000 (1003 ∷ 4294967295 ∷ []) words (omega arith)

range_width_lem_example :
    (m w : ℕ) × (range_width some_values ≡ ok (m, w))
    × (0 < w)
    × (w ≤ 32)
    × (m < 2 ^ 32)
    × All (λ x. (m ≤ x) × Fits w (sub32 x m)) some_values
    × ((w ≡ 1) ⊎ (2 ^ w ≤ sub32 (slices_max 1000 (1003 ∷ 4294967295 ∷ [])) m * 2))
    × IsOneOf m some_values
    × IsOneOf (slices_max 1000 (1003 ∷ 4294967295 ∷ [])) some_values
range_width_lem_example = range_width_lem 1000 (1003 ∷ 4294967295 ∷ []) words

decode_group-Ends_example : Ends (1 ∷ 2 ∷ 33 ∷ 4 ∷ 5 ∷ 6 ∷ 7 ∷ []) 3
decode_group-Ends_example = decode_group-Ends (1 ∷ 2 ∷ 33 ∷ 4 ∷ 5 ∷ 6 ∷ 7 ∷ []) 3 (omega arith)
