-- ===== src/Packfile/Reader/Tail.antt =====
-- The end of a file, as doOpen of packfile/reader.go reads it.
use event_analysis.Prelude.{ℕ, ◌+◌, ◌-◌, ◌≤◌, ◌≡◌, refl, sym, ap, ◌∙◌, arith}
use event_analysis.Prelude.{
  List, [], ◌++◌, length, drop, ok, leb, true, Bool-cases, inl, inr, leb→le, append_assoc,
  append-nil, length-append, length-drop, drop-drop, drop-append_left,
}
use event_analysis.Prelude.Slices.{slice, slice-append, slice-drop}
use event_analysis.Packfile.{Error, trailer_size}
use event_analysis.Packfile.Reader.{read_tail}

-- Records, index, application data and trailer.
module _ (front index_bytes app_data trailer : List ℕ) (sealed : length trailer ≡ 64) where
  abbrev file : List ℕ
  file = front ++ (index_bytes ++ (app_data ++ trailer))

  abbrev n : ℕ
  n = length file

  pub length-file : n ≡ length front + length index_bytes + length app_data + 64
  length-file = omega (
    arith,
    sealed,
    length-append front (index_bytes ++ (app_data ++ trailer)),
    length-append index_bytes (app_data ++ trailer),
    length-append app_data trailer,
  )

  -- Any suffix that is long enough ends in the trailer.
  pub ends_in_trailer :
      (k : ℕ) → k + 64 ≤ n → drop (length (drop k file) - 64) (drop k file) ≡ trailer
  ends_in_trailer k h =
      drop-drop k (length (drop k file) - 64) file
      ∙ ap (λ m. drop m file)
          (omega (
            arith,
            length-drop k file,
            length-file,
            length-append front index_bytes,
            length-append (front ++ index_bytes) app_data,
          ))
      ∙ ap (drop (length ((front ++ index_bytes) ++ app_data))) regroup
      ∙ drop-append_left (length ((front ++ index_bytes) ++ app_data))
          ((front ++ index_bytes) ++ app_data) trailer refl
    where
      regroup : file ≡ ((front ++ index_bytes) ++ app_data) ++ trailer
      regroup =
          sym (append_assoc front index_bytes (app_data ++ trailer))
          ∙ sym (append_assoc (front ++ index_bytes) app_data trailer)

  index_at :
      (lo hi : ℕ)
      → lo ≡ length front
      → hi ≡ length front + length index_bytes
      → slice {E = Error} file lo hi ≡ ok index_bytes
  index_at lo hi p q =
      slice-append front index_bytes (app_data ++ trailer) lo hi (sym p) (omega arith)

  app_at :
      (lo hi : ℕ)
      → lo ≡ length front + length index_bytes
      → hi ≡ length front + length index_bytes + length app_data
      → slice {E = Error} file lo hi ≡ ok app_data
  app_at lo hi p q =
      ap (λ t. slice t lo hi) (sym (append_assoc front index_bytes (app_data ++ trailer)))
      ∙ slice-append (front ++ index_bytes) app_data trailer lo hi
          (omega (arith, length-append front index_bytes)) (omega arith)

  both_at :
      slice {E = Error} file (length front) (length front + (length index_bytes + length app_data))
      ≡ ok (index_bytes ++ app_data)
  both_at =
      ap (λ t. slice t (length front) (length front + (length index_bytes + length app_data)))
        (ap (λ t. front ++ t) (sym (append_assoc index_bytes app_data trailer)))
      ∙ slice-append front (index_bytes ++ app_data) trailer (length front) _ refl
          (omega (arith, length-append index_bytes app_data))

  -- The speculative buffer, from where the tail starts in it.
  module _ (k : ℕ) (h : k ≤ n)
      (fits : leb (length index_bytes + length app_data + trailer_size) (length (drop k file))
        ≡ true) where
    abbrev start : ℕ
    start = length (drop k file) - (length index_bytes + length app_data + trailer_size)

    start_at : k + start ≡ length front
    start_at = omega (arith, length-drop k file, length-file, leb→le _ _ fits)

    buffered_index :
        slice {E = Error} (drop k file) start (start + length index_bytes) ≡ ok index_bytes
    buffered_index =
        slice-drop k file start (start + length index_bytes) (omega arith)
          (omega (arith, start_at, length-file))
        ∙ index_at _ _ start_at (omega (arith, start_at))

    buffered_app :
        slice {E = Error}
          (drop k file)
          (start + length index_bytes)
          (start + length index_bytes + length app_data)
        ≡ ok app_data
    buffered_app =
        slice-drop k file (start + length index_bytes)
          (start + length index_bytes + length app_data) (omega arith)
          (omega (arith, start_at, length-file))
        ∙ app_at _ _ (omega (arith, start_at)) (omega (arith, start_at))

  -- Both ways of reading, from the speculative buffer and by a second read, give the same.
  pub read_tail_lem :
      (k : ℕ)
      → k ≤ n
      → read_tail file (drop k file) (length front) (length index_bytes) (length app_data)
        ≡ ok (index_bytes, app_data)
  unfolding read_tail
  read_tail_lem k h =
      elim (Bool-cases
        (leb (length index_bytes + length app_data + trailer_size) (length (drop k file)))) [
          | inl fits ↦ rw (fits, buffered_index k h fits, buffered_app k h fits) refl
          | inr long ↦
              rw
                (
                  long,
                  both_at,
                  slice-append [] index_bytes app_data 0 (length index_bytes) refl (omega arith),
                  second_part,
                )
                refl
        ]
    where
      second_part :
          slice {E = Error}
            (index_bytes ++ app_data)
            (length index_bytes)
            (length index_bytes + length app_data)
          ≡ ok app_data
      second_part =
          ap
            (λ t.
              slice (index_bytes ++ t) (length index_bytes) (length index_bytes + length app_data))
            (sym (append-nil app_data))
          ∙ slice-append index_bytes app_data [] (length index_bytes) _ refl refl
