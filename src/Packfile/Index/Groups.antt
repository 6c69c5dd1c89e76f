-- ===== src/Packfile/Index/Groups.antt =====
-- The loops over the groups of the index, in encodeIndex and decodeIndex of packfile/index.go.
use event_analysis.Prelude.{
  ℕ, zero, suc, ◌+◌, ◌-◌, ◌*◌, ◌/◌, ◌%◌, ◌^◌, ◌≤◌, ◌<◌, ◌≡◌, refl, sym, ap, ◌∙◌, min,
}
use event_analysis.Prelude.{
  List, [], ◌++◌, length, take, drop, All, arith, ok, subst, le→ltb_false, take-min, ==_iff,
  ==_false→ne, ◌==◌, take-add, lt→ltb, Bool-cases, inl, inr, append_assoc, length-append,
  length-take, length-drop, take-append_left, All-take, All-drop,
}
use native.Mathlib.Decide.{dec_lt}
use event_analysis.Prelude.Slices.{slice, slice-prefix}
use event_analysis.Intpack.{IsU32, encode_group, decode_group}
use event_analysis.Intpack.RoundTrip.{decode_group-encode_group, decode_group_of_encode}
use event_analysis.Packfile.{Error}
use event_analysis.Packfile.Index.{deltas_of, encode_groups, group_limit, decode_groups}
use event_analysis.Packfile.Index.Deltas.{
  diffs, Ascends, deltas_of_lem, diffs-IsU32, Ascends-drop, Ascends-take, diffs-drop, diffs-take,
}

-- The deltas of group `g`.
abbrev pub chunk : List ℕ → ℕ → List ℕ
chunk ds g = take 128 (drop (g * 128) ds)

-- `bytes` are the encodings of the first `g` groups, one behind the other.
pub data Encoded (ds : List ℕ) : ℕ → List ℕ → Type 0 where
  none_yet : Encoded ds 0 []
  next :
      {g : ℕ} {bytes : List ℕ}
      → Encoded ds g bytes
      → (group : List ℕ) → g * 128 < length ds
      → encode_group (chunk ds g) ≡ ok group
      → Encoded ds (suc g) (bytes ++ group)

length-chunk : (ds : List ℕ) (g : ℕ) → length (chunk ds g) ≡ min 128 (length ds - g * 128)
length-chunk ds g = omega (arith, length-take 128 (drop (g * 128) ds), length-drop (g * 128) ds)

chunk-IsU32 : (ds : List ℕ) (g : ℕ) → All IsU32 ds → All IsU32 (chunk ds g)
chunk-IsU32 ds g h = All-take IsU32 128 (drop (g * 128) ds) (All-drop IsU32 (g * 128) ds h)

limit_lem : (n g : ℕ) → g * 128 < n → group_limit n ((n + 127) / 128) g ≡ min 128 (n - g * 128)
unfolding group_limit
limit_lem n g h = elim (Bool-cases (g + 1 == (n + 127) / 128)) [
  | inl last ↦ elim (Bool-cases (n % 128 == 0)) [
    | inl even ↦ rw (last, even) (omega (arith, (==_iff _ _).0 last, (==_iff _ _).0 even))
    | inr odd ↦ rw (last, odd) (omega (arith, (==_iff _ _).0 last, ==_false→ne _ _ odd))
  ]
  | inr inner ↦ rw inner (omega (arith, ==_false→ne _ _ inner))
]

-- The limit that the decoder computes is the length of the group.
group_limit_lem :
    (ds : List ℕ) (g : ℕ)
    → g * 128 < length ds
    → group_limit (length ds) ((length ds + 127) / 128) g ≡ length (chunk ds g)
group_limit_lem ds g h = limit_lem (length ds) g h ∙ sym (length-chunk ds g)

take-chunk : (ds : List ℕ) (g : ℕ) → take (g * 128) ds ++ chunk ds g ≡ take (suc g * 128) ds
take-chunk ds g = sym (take-add (g * 128) 128 ds) ∙ ap (λ n. take n ds) (omega arith)

-- Each group has 6 bytes at least.
pub Encoded_long :
    (ds : List ℕ) {g : ℕ} {bytes : List ℕ}
    → All IsU32 ds
    → Encoded ds g bytes
    → g * 6 ≤ length bytes
Encoded_long ds words none_yet = omega arith
Encoded_long ds words (next {g} {bytes} rest group lt e) = omega (
  arith,
  Encoded_long ds words rest,
  length-append bytes group,
  (decode_group_of_encode [] (chunk ds g) group (chunk-IsU32 ds g words)
      (omega (arith, length-chunk ds g)) (omega (arith, length-chunk ds g)) e).1,
)

-- Going backward from group `g`, the decoder recovers the deltas and ends at the front.
pub decode_groups-Encoded :
    (ds : List ℕ) {g : ℕ} {bytes : List ℕ} (more acc : List ℕ)
    → All IsU32 ds
    → Encoded ds g bytes
    → decode_groups (bytes ++ more) (length ds) ((length ds + 127) / 128) g (length bytes) acc
      ≡ ok (take (g * 128) ds ++ acc, 0)
unfolding decode_groups
decode_groups-Encoded ds more acc words none_yet = refl
decode_groups-Encoded ds more acc words (next {g} {bytes} rest group lt e) =
    rw (window, group_limit_lem ds g lt, group_back.0, used)
      (ap
          (λ t.
            decode_groups t (length ds) ((length ds + 127) / 128) g (length bytes)
              (chunk ds g ++ acc))
          (append_assoc bytes group more)
        ∙ decode_groups-Encoded ds (group ++ more) (chunk ds g ++ acc) words rest
        ∙ ap (λ t. ok (t, 0))
            (sym (append_assoc (take (g * 128) ds) (chunk ds g) acc)
              ∙ ap (λ t. t ++ acc) (take-chunk ds g)))
  where
    window :
        slice {E = Error} ((bytes ++ group) ++ more) 0 (length (bytes ++ group))
        ≡ ok (bytes ++ group)
    window =
        slice-prefix ((bytes ++ group) ++ more) (length (bytes ++ group))
          (omega (arith, length-append (bytes ++ group) more))
        ∙ ap ok (take-append_left (length (bytes ++ group)) (bytes ++ group) more refl)

    group_back :
        (decode_group (bytes ++ group) (length (chunk ds g)) ≡ ok (chunk ds g, length group))
        × (6 ≤ length group)
    group_back =
        decode_group_of_encode bytes (chunk ds g) group (chunk-IsU32 ds g words)
          (omega (arith, length-chunk ds g)) (omega (arith, length-chunk ds g)) e

    used : length (bytes ++ group) - length group ≡ length bytes
    used = omega (arith, length-append bytes group)

-- The window that the encoder takes for group `g` gives its deltas.
deltas_of-chunk :
    (offsets : List ℕ) (g n : ℕ)
    → Ascends offsets
    → n ≡ length (diffs offsets)
    → deltas_of (take (min (g * 128 + 128) n - g * 128 + 1) (drop (g * 128) offsets))
      ≡ ok (chunk (diffs offsets) g)
deltas_of-chunk offsets g n up e =
    ap (λ k. deltas_of (take k (drop base offsets))) count
    ∙ deltas_of_lem (take (suc (min 128 (length ds))) (drop base offsets)) (
        Ascends-take (suc (min 128 (length ds))) (drop base offsets) (Ascends-drop base offsets up))
    ∙ ap ok (
        diffs-take (min 128 (length ds)) (drop base offsets)
        ∙ ap (take (min 128 (length ds))) (diffs-drop base offsets)
        ∙ take-min 128 ds)
  where
    base : ℕ
    base = g * 128

    ds : List ℕ
    ds = drop base (diffs offsets)

    count : min (g * 128 + 128) n - g * 128 + 1 ≡ suc (min 128 (length ds))
    count = omega (arith, e, length-drop (g * 128) (diffs offsets))

encode_groups_stop :
    (offsets : List ℕ) (fuel n g : ℕ) (bytes : List ℕ)
    → n ≤ g * 128
    → encode_groups fuel offsets n g bytes ≡ ok bytes
unfolding encode_groups
encode_groups_stop offsets zero n g bytes h = rw (le→ltb_false (g * 128) n h) refl
encode_groups_stop offsets (suc fuel) n g bytes h = rw (le→ltb_false (g * 128) n h) refl

encode_groups_step :
    (offsets : List ℕ) (fuel n g : ℕ) (bytes group : List ℕ)
    → Ascends offsets
    → n ≡ length (diffs offsets)
    → g * 128 < n
    → encode_group (chunk (diffs offsets) g) ≡ ok group
    → encode_groups (suc fuel) offsets n g bytes
      ≡ encode_groups fuel offsets n (g + 1) (bytes ++ group)
unfolding encode_groups
encode_groups_step offsets fuel n g bytes group up e lt made =
    rw (lt→ltb (g * 128) n lt, deltas_of-chunk offsets g n up e, made) refl

-- The forward loop succeeds and leaves the encodings of all groups.
module _ (offsets : List ℕ) (up : Ascends offsets) (small : length (diffs offsets) < 2 ^ 32) where
  abbrev ds : List ℕ
  ds = diffs offsets

  stops :
      (fuel g : ℕ) (bytes : List ℕ)
      → length ds ≤ g * 128
      → g * 128 ≤ length ds + 127
      → Encoded ds g bytes
      → (payload : List ℕ) × (encode_groups fuel offsets (length ds) g bytes ≡ ok payload)
        × Encoded ds ((length ds + 127) / 128) payload
  stops fuel g bytes h close made = (
    bytes,
    encode_groups_stop offsets fuel (length ds) g bytes h,
    subst (λ k. Encoded ds k bytes) (omega arith) made,
  )

  suc-add-one : (g : ℕ) → suc g ≡ g + 1
  suc-add-one g = omega arith

  pub encode_groups-Encoded :
      (fuel g : ℕ) (bytes : List ℕ)
      → length ds ≤ g * 128 + fuel
      → g * 128 ≤ length ds + 127
      → Encoded ds g bytes
      → (payload : List ℕ) × (encode_groups fuel offsets (length ds) g bytes ≡ ok payload)
        × Encoded ds ((length ds + 127) / 128) payload
  encode_groups-Encoded zero g bytes enough close made =
      stops zero g bytes (omega (arith, enough)) close made
  encode_groups-Encoded (suc fuel) g bytes enough close made = elim (dec_lt (g * 128) (length ds)) [
    | no stop ↦ stops (suc fuel) g bytes (omega (arith, stop)) close made
    | yes go ↦
        let (group, e, back) =
          decode_group-encode_group [] (chunk ds g) (chunk-IsU32 ds g (diffs-IsU32 offsets up))
            (omega (arith, length-chunk ds g, go)) (omega (arith, length-chunk ds g)) in
        let (payload, runs, all) =
          encode_groups-Encoded fuel (g + 1) (bytes ++ group) (omega (arith, enough))
            (omega (arith, go))
            (subst (λ k. Encoded ds k (bytes ++ group)) (suc-add-one g) (next made group go e)) in
        (
          payload,
          encode_groups_step offsets fuel (length ds) g bytes group up refl go e ∙ runs,
          all,
        )
  ]
