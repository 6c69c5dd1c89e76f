-- ===== src/Intpack/Layout.antt =====
-- What `EncodeGroup` writes: the packed residuals, the width, the minimum.
use event_analysis.Prelude.{
  ℕ, zero, suc, ◌+◌, ◌*◌, ◌^◌, ◌≤◌, ◌<◌, ◌≡◌, ◌⊎◌, inl, inr, refl, ap, ◌∙◌,
}
use event_analysis.Prelude.{
  List, [], ◌∷◌, ◌++◌, map, length, take, replicate, All, arith, ok, ◌>>=◌, length-take,
  length-replicate, length-map, All-take, All-replicate,
}
use event_analysis.Prelude.Bytes.{IsByte, le_num, le_bytes, le_num-take}
use event_analysis.Prelude.Slices.{
  splice, put_le, slice, put_le-eq-ok, slice-prefix, length-splice, take-splice,
}
use event_analysis.Intpack.{
  Error, IsU32, sub32, pack_size, range_width, pack_residuals, encode_group,
}
use event_analysis.Intpack.Packing.{packed_num, Fits, packed_num-lt, pow-byte}
use event_analysis.Intpack.Pack.{Packs, pack_loop-Packs}
use event_analysis.Intpack.Width.{IsOneOf, range_width_lem}
use native.Mathlib.Nat.{mod-eq_of_lt, one-le-pow, zero-mul, pow-le-pow_right}

-- A group of values with minimum `m` and the least width `w` over the payload `body`.
pub record IsGroup (values : List ℕ) (m w : ℕ) (body : List ℕ) : Type 0 where
  pub wide : 0 < w
  pub narrow : w ≤ 32
  pub word : m < 2 ^ 32
  pub residuals : All (λ v. (m ≤ v) × Fits w (sub32 v m)) values
  pub minimum : IsOneOf m values
  pub least : (w ≡ 1) ⊎ ((x : ℕ) × IsOneOf x values × (2 ^ w ≤ sub32 x m * 2))
  pub size : length body ≡ pack_size w (length values)
  pub bytes : All IsByte body
  pub digits : le_num body ≡ packed_num w (map (λ v. sub32 v m) values)

-- The bytes of such a group, in the order of the package comment.
abbrev pub layout : ℕ → ℕ → List ℕ → List ℕ
layout m w body = (body ++ (w ∷ [])) ++ le_bytes 4 m

All-Fits :
    (m w : ℕ) (vs : List ℕ)
    → All (λ v. (m ≤ v) × Fits w (sub32 v m)) vs
    → All (λ v. Fits w (sub32 v m)) vs
All-Fits m w [] h = tt
All-Fits m w (v ∷ vs) h = (h.0.1, All-Fits m w vs h.1)

pub map-Fits :
    (m w : ℕ) (vs : List ℕ)
    → All (λ v. (m ≤ v) × Fits w (sub32 v m)) vs
    → All (Fits w) (map (λ v. sub32 v m) vs)
map-Fits m w [] h = tt
map-Fits m w (v ∷ vs) h = (h.0.1, map-Fits m w vs h.1)

le_num-replicate : (n : ℕ) → le_num (replicate n 0) ≡ 0
le_num-replicate zero = refl
le_num-replicate (suc n) = omega (arith, le_num-replicate n)

-- The two writes behind the payload, and the final cut.
footer_lem :
    (out : List ℕ) (n w m : ℕ)
    → length out ≡ n + 5 + 7
    → take (n + 5) (splice (splice out n (le_bytes 1 w)) (n + 1) (le_bytes 4 m))
      ≡ (take n out ++ le_bytes 1 w) ++ le_bytes 4 m
footer_lem out n w m h =
    ap (λ t. take t (splice once (n + 1) (le_bytes 4 m))) end
    ∙ take-splice once (n + 1) (le_bytes 4 m)
        (omega (arith, h, length-splice out n (le_bytes 1 w) first))
    ∙ ap (λ t. t ++ le_bytes 4 m) (take-splice out n (le_bytes 1 w) first)
  where
    once : List ℕ
    once = splice out n (le_bytes 1 w)

    first : n + length (le_bytes 1 w) ≤ length out
    first = omega (arith, h)

    end : n + 5 ≡ n + 1 + length (le_bytes 4 m)
    end = omega arith

writes_footer :
    (out : List ℕ) (n w m : ℕ)
    → w ≤ 32
    → length out ≡ n + 5 + 7
    → (do
      with_width ← put_le {E = Error} 1 out n w
      whole ← put_le 4 with_width (n + 1) m
      slice whole 0 (n + 5))
      ≡ ok (layout m w (take n out))
writes_footer out n w m narrow h = rw (put_le-eq-ok {E = Error} 1 out n w (omega (arith, h))) (
    rw (put_le-eq-ok {E = Error} 4 once (n + 1) m (omega (arith, same))) (
      slice-prefix twice (n + 5) (omega (arith, same'))
      ∙ ap ok (footer_lem out n w m h ∙ ap (λ t. (take n out ++ t) ++ le_bytes 4 m) one)))
  where
    once : List ℕ
    once = splice out n (le_bytes 1 w)

    twice : List ℕ
    twice = splice once (n + 1) (le_bytes 4 m)

    same : length once ≡ n + 5 + 7
    same = length-splice out n (le_bytes 1 w) (omega (arith, h)) ∙ h

    same' : length twice ≡ n + 5 + 7
    same' = length-splice once (n + 1) (le_bytes 4 m) (omega (arith, same)) ∙ same

    one : le_bytes 1 w ≡ w ∷ []
    one = ap (λ t. t ∷ []) (omega (arith, narrow))

-- `encode_group` once the minimum and the width are known.
module _ (values : List ℕ) (m w : ℕ) (ranged : range_width values ≡ ok (m, w)) (wide : 0 < w)
    (narrow : w ≤ 32) (word : m < 2 ^ 32) (small : length values < 2 ^ 32)
    (residuals : All (λ v. (m ≤ v) × Fits w (sub32 v m)) values) (minimum : IsOneOf m values)
    (least : (w ≡ 1) ⊎ ((x : ℕ) × IsOneOf x values × (2 ^ w ≤ sub32 x m * 2))) where
  n : ℕ
  n = pack_size w (length values)

  blank : List ℕ
  unfolding n
  blank = replicate (n + 5 + 7) 0

  length-blank : length blank ≡ n + 5 + 7
  unfolding blank
  length-blank = length-replicate (n + 5 + 7) 0

  le_num-blank : le_num blank ≡ 0
  unfolding blank
  le_num-blank = le_num-replicate (n + 5 + 7)

  n_bounds : (w * length values ≤ 8 * n) × (n < 2 ^ 59)
  unfolding n
  n_bounds = let few : w * length values ≤ 32 * length values = grind arith in omega arith

  packs : Packs m w narrow wide 0 values blank
  packs =
      pack_loop-Packs m w narrow wide 0 values blank (All-Fits m w values residuals)
        (unfold blank in All-replicate IsByte (n + 5 + 7) 0 (omega arith))
        (omega (arith, length-blank, n_bounds)) (omega (arith, length-blank, n_bounds))
        (omega (arith, le_num-blank, one-le-pow (0 * w) 2 (omega arith)))

  body : List ℕ
  body = take n packs.0

  encode_group-layout : encode_group values ≡ ok (layout m w body)
  unfolding encode_group pack_residuals body n blank
  encode_group-layout =
      rw ranged (rw packs.1 (writes_footer packs.0 n w m narrow (packs.2 ∙ length-blank)))

  body-IsGroup : IsGroup values m w body
  unfolding body
  body-IsGroup = record {
    wide = wide;
    narrow = narrow;
    word = word;
    residuals = residuals;
    minimum = minimum;
    least = least;
    size = unfold n in omega (arith, length-take n packs.0, packs.2, length-blank);
    bytes = All-take IsByte n packs.0 packs.3;
    digits =
        le_num-take n packs.0 packs.3 ∙ mod-eq_of_lt (omega (arith, whole, below, room)) ∙ whole;
  }
    where
      rs : List ℕ
      rs = map (λ v. sub32 v m) values

      below : packed_num w rs < 2 ^ (w * length values)
      below =
          rw (← length-map (λ v. sub32 v m) values)
            (packed_num-lt w rs (map-Fits m w values residuals))

      room : 2 ^ (w * length values) ≤ 256 ^ n
      room = rw (pow-byte n) (pow-le-pow_right {n = 2} (omega arith) n_bounds.0)

      whole : le_num packs.0 ≡ packed_num w (map (λ v. sub32 v m) values)
      whole =
          omega (arith, packs.4, le_num-blank, ap (λ (t : ℕ). 2 ^ t * packed_num w rs) (zero-mul w))

-- For a first value and more, all uint32 and fewer than 2^32: `EncodeGroup` returns a payload, a width
-- byte and a four-byte minimum, where the minimum is one of the values and no value is below it, every
-- residual fits the width and, unless the width is 1, one has its highest bit, and the payload has
-- ceil(width * n / 8) bytes and is, as a little-endian number, the residuals in base 2^width.
pub encode_group-IsGroup :
    (v : ℕ) (vs : List ℕ)
    → All IsU32 (v ∷ vs)
    → length (v ∷ vs) < 2 ^ 32
    → (m w : ℕ) × (body : List ℕ) × (encode_group (v ∷ vs) ≡ ok (layout m w body))
      × IsGroup (v ∷ vs) m w body
encode_group-IsGroup v vs words small =
    let (m, w, ranged, wide, narrow, word, residuals, least, minimum, maximum) =
      range_width_lem v vs words in
    let least' : (w ≡ 1) ⊎ ((x : ℕ) × IsOneOf x (v ∷ vs) × (2 ^ w ≤ sub32 x m * 2)) = elim least [
      | inl one ↦ inl one
      | inr wide_one ↦ inr (_, maximum, wide_one)
    ] in
    (
      m,
      w,
      body (v ∷ vs) m w ranged wide narrow word small residuals minimum least',
      encode_group-layout (v ∷ vs) m w ranged wide narrow word small residuals minimum least',
      body-IsGroup (v ∷ vs) m w ranged wide narrow word small residuals minimum least',
    )
