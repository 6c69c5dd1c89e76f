-- ===== src/Zstd.antt =====
-- zstd/zstd.go: the Go wrapper round libzstd. The C library is a parameter.
mod Tests
use event_analysis.Prelude.{ℕ, ◌+◌, ◌-◌, ◌*◌, ◌^◌, ◌≤◌, ◌<◌, ◌≡◌, refl, sym, ap, ◌∙◌, arith}
use event_analysis.Prelude.{
  List, [], ◌∷◌, Option, none, some, length, Bool, true, false, not, ltb, ◌==◌, if◌then◌else◌,
}
use event_analysis.Prelude.{
  Result, ok, err, ne→==_false, le→ltb_false, eq→==, Bool-cases, inl, inr, Option-cases,
  ok-injective,
}

pub data Error : Type 0 where
  encode_closed compress_failed decode_closed frame_invalid decompress_failed : Error
  frame_too_large : ℕ → Error

-- The answers of `ZSTD_getFrameContentSize`.
pub data FrameSize : Type 0 where
  invalid unknown : FrameSize
  known : ℕ → FrameSize

-- `none` is a result for which `ZSTD_isError` holds. The capacity comes first in `decompress`.
pub record Library : Type 0 where
  pub compress : List ℕ → Option (List ℕ)
  pub frame_size : List ℕ → FrameSize
  pub decompress : ℕ → List ℕ → Option (List ℕ)

-- What libzstd documents: a frame of `ZSTD_compress2` is not empty, carries the size of its content,
-- and decompresses to it where there is room for that size.
pub record IsLawful (z : Library) : Type 0 where
  pub not_empty : (d c : List ℕ) → z.compress d ≡ some c → 0 < length c
  pub sized : (d c : List ℕ) → z.compress d ≡ some c → z.frame_size c ≡ known (length d)
  pub restores : (d c : List ℕ) → z.compress d ≡ some c → z.decompress (length d) c ≡ some d

abbrev pub max_int : ℕ
max_int = 2 ^ 63 - 1

-- `Compressor.Encode`; the context is open until `Close`.
unfoldable pub encode : Library → Bool → List ℕ → Result Error (List ℕ)
encode z opened d =
    if length d == 0
    then ok []
    else if not opened
    then err encode_closed
    else elim (z.compress d) [ none ↦ err compress_failed | some c ↦ ok c ]

-- The call of `ZSTD_decompressDCtx` with a buffer of `size` bytes.
decompress_into : Library → List ℕ → ℕ → Result Error (List ℕ)
decompress_into z src size = elim (z.decompress size src) [
  | none ↦ err decompress_failed
  | some d ↦ ok d
]

-- `Decompressor.Decode`; what it appends to is always empty.
pub decode : Library → Bool → List ℕ → Result Error (List ℕ)
decode z opened src =
    if length src == 0
    then ok []
    else if not opened
    then err decode_closed
    else elim (z.frame_size src) [
      | invalid ↦ err frame_invalid
      | unknown ↦ decompress_into z src (length src * 4)
      | known n ↦
          if ltb max_int n
          then err (frame_too_large n)
          else if n == 0
          then ok []
          else decompress_into z src n
    ]

encode-some :
    (z : Library) (d c : List ℕ) → 0 < length d → encode z true d ≡ ok c → z.compress d ≡ some c
unfolding encode
encode-some z d c h e = ground (arith, ne→==_false (length d) 0)

encode-nil : (z : Library) → encode z true [] ≡ ok []
unfolding encode
encode-nil z = refl

decompress_into-some :
    (z : Library) (src d : List ℕ) (n : ℕ)
    → z.decompress n src ≡ some d
    → decompress_into z src n ≡ ok d
unfolding decompress_into
decompress_into-some z src d n e = rw (e, decompress_into) refl

-- For a lawful libzstd and bytes whose length fits an int: what an open compressor's `Encode` returned
-- for them, an open decompressor's `Decode` turns back into them.
pub decode-encode :
    (z : Library) (d c : List ℕ)
    → IsLawful z
    → length d ≤ max_int
    → encode z true d ≡ ok c
    → decode z true c ≡ ok d
decode-encode z [] c law small e =
    ap (decode z true) (ok-injective (sym e ∙ encode-nil z)) ∙ unfold decode in refl
decode-encode z (x ∷ xs) c law small e =
    unfold decode in
    rw
      (
        ne→==_false (length c) 0 (omega (arith, law.not_empty (x ∷ xs) c made)),
        law.sized (x ∷ xs) c made,
        le→ltb_false max_int (length (x ∷ xs)) small,
        ne→==_false (length (x ∷ xs)) 0 (omega arith),
        decompress_into-some z c (x ∷ xs) (length (x ∷ xs)) (law.restores (x ∷ xs) c made),
      )
      refl
  where
    made : z.compress (x ∷ xs) ≡ some c
    made = encode-some z (x ∷ xs) c (omega arith) e
