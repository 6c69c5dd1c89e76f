-- ===== src/Zstd/Tests.antt =====
-- A run of zstd/zstd.go with a library that stores its input.
use event_analysis.Prelude.{
  ◌<◌, ◌≡◌, refl, sym, ap, subst, arith, [], ◌∷◌, length, drop, some, true, ok,
}
use event_analysis.Zstd.{Library, IsLawful, known, encode, decode, decode-encode}
use mathlib.Core.Option.{some-injective}

abbrev storing : Library
storing = record {
  compress = λ d. some (0 ∷ d);
  frame_size = λ c. known (length (drop 1 c));
  decompress = λ n c. some (drop 1 c);
}

storing-IsLawful : IsLawful storing
storing-IsLawful = record {
  not_empty = λ d c e. subst (λ t. 0 < length t) (some-injective (0 ∷ d) c e) (omega arith);
  sized = λ d c e. ap (λ t. known (length (drop 1 t))) (sym (some-injective (0 ∷ d) c e));
  restores = λ d c e. ap (λ t. some (drop 1 t)) (sym (some-injective (0 ∷ d) c e));
}

decode-encode_example : decode storing true (0 ∷ 5 ∷ 6 ∷ []) ≡ ok (5 ∷ 6 ∷ [])
unfolding encode
decode-encode_example =
    decode-encode storing (5 ∷ 6 ∷ []) (0 ∷ 5 ∷ 6 ∷ []) storing-IsLawful (omega arith) refl
