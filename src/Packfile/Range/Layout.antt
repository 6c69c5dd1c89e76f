-- ===== src/Packfile/Range/Layout.antt =====
-- The records of a packfile by their offsets, as packfile/reader.go reads them, alone or in batches.
use event_analysis.Prelude.{
  ℕ, zero, suc, ◌+◌, ◌-◌, ◌*◌, ◌≤◌, ◌<◌, ◌≡◌, refl, sym, ap, ap₂, ◌∙◌, arith,
}
use event_analysis.Prelude.{
  List, [], ◌∷◌, ◌++◌, map, length, take, drop, All, All_get, get_elem?, some, ok, append_assoc,
  length-append, length-map, take-append-drop, take-add, append-nil, drop_of_some,
}
use event_analysis.Prelude.Slices.{slice, index, slice-append}
use event_analysis.Zstd
use event_analysis.Zstd.{IsLawful}
use event_analysis.Packfile.{Error}
use event_analysis.Packfile.Decoder.{Decoder, prefix_sums, items_in_record, decode}
use event_analysis.Packfile.Decoder.Items.{Holds}
use event_analysis.Packfile.Decoder.RoundTrip.{decode-format_block}
use event_analysis.Packfile.ReadItem.{IsGood, u32_sizes}
use event_analysis.Packfile.Range.{get_decoder}
use event_analysis.Packfile.Reader.{Reader}
use event_analysis.Packfile.Writer.Invariant.{IsBlock, Records, blocks_of}
use mathlib.Core.List.{flatten}

-- A record's items are the next items of the file.
abbrev pub Cut : ℕ → ℕ → List (List ℕ) → Records → Type 0
Cut k total items records =
    (j : ℕ)
    → j * k < total
    → (found : List (List ℕ) × List ℕ) × (get_elem? records j ≡ some found)
      × (items_in_record total k j ≡ ok (length found.0))
      × (found.0 ≡ take k (drop (j * k) items))
      × (0 < length found.0)

-- The reader's offsets are those of the records in its file.
pub record IsLaid (z : Zstd.Library) (r : Reader) (items : List (List ℕ)) (records : Records)
    : Type 0 where
  pub behind : List ℕ
  pub content : r.file ≡ flatten (blocks_of records) ++ behind
  pub offsets : r.offsets ≡ prefix_sums 0 (map length (blocks_of records))
  pub good : All (IsGood z r.trailer.format r.items_per_record) records
  pub total : r.total_items ≡ length items
  pub some_room : 0 < r.items_per_record
  pub cut : Cut r.items_per_record r.total_items items records

-- Where the block `j` starts.
pub start_of : List (List ℕ) → ℕ → ℕ
start_of blocks j = length (flatten (take j blocks))

index-prefix_sums :
    (offset : ℕ) (blocks : List (List ℕ)) (j : ℕ)
    → j ≤ length blocks
    → index {E = Error} (prefix_sums offset (map length blocks)) j ≡ ok (offset + start_of blocks j)
unfolding index prefix_sums start_of flatten
index-prefix_sums offset [] zero h = ap ok (omega arith)
index-prefix_sums offset [] (suc j) h = absurd (omega (arith, h))
index-prefix_sums offset (b ∷ blocks) zero h = ap ok (omega arith)
index-prefix_sums offset (b ∷ blocks) (suc j) h =
    index-prefix_sums (offset + length b) blocks j (omega (arith, h))
    ∙ ap ok (omega (arith, length-append b (flatten (take j blocks))))

flatten-append : (xs ys : List (List ℕ)) → flatten (xs ++ ys) ≡ flatten xs ++ flatten ys
unfolding flatten
flatten-append [] ys = refl
flatten-append (x ∷ xs) ys =
    ap (λ t. x ++ t) (flatten-append xs ys) ∙ sym (append_assoc x (flatten xs) (flatten ys))

pub take-take : {A : Type 0} (m n : ℕ) (xs : List A) → m ≤ n → take m (take n xs) ≡ take m xs
take-take zero n xs h = refl
take-take (suc m) zero xs h = absurd (omega (arith, h))
take-take (suc m) (suc n) [] h = refl
take-take (suc m) (suc n) (x ∷ xs) h = ap (λ t. x ∷ t) (take-take m n xs (omega (arith, h)))

pub get_elem?-take :
    {A : Type 0} (n : ℕ) (xs : List A) (i : ℕ) → i < n → get_elem? (take n xs) i ≡ get_elem? xs i
get_elem?-take zero xs i h = absurd (omega (arith, h))
get_elem?-take (suc n) [] i h = refl
get_elem?-take (suc n) (x ∷ xs) zero h = refl
get_elem?-take (suc n) (x ∷ xs) (suc i) h = get_elem?-take n xs i (omega (arith, h))

pub get_elem?-drop :
    {A : Type 0} (n : ℕ) (xs : List A) (i : ℕ) → get_elem? (drop n xs) i ≡ get_elem? xs (n + i)
get_elem?-drop zero xs i = ap (get_elem? xs) (omega arith)
get_elem?-drop (suc n) [] i = refl
get_elem?-drop (suc n) (x ∷ xs) i =
    get_elem?-drop n xs i ∙ ap (get_elem? (x ∷ xs)) {x = suc (n + i)} (omega arith)

module _ (blocks : List (List ℕ)) where
  -- The bytes of `n` blocks from the block `i` on.
  abbrev pub run_of : ℕ → ℕ → List ℕ
  run_of i n = flatten (take n (drop i blocks))

  pub start_of-add : (i n : ℕ) → start_of blocks (i + n) ≡ start_of blocks i + length (run_of i n)
  unfolding start_of
  start_of-add i n =
      ap length
        (ap flatten (take-add i n blocks) ∙ flatten-append (take i blocks) (take n (drop i blocks)))
      ∙ length-append (flatten (take i blocks)) (run_of i n)

  pub run_of-one : (i : ℕ) {b : List ℕ} → get_elem? blocks i ≡ some b → run_of i 1 ≡ b
  unfolding flatten
  run_of-one i {b} e = ap (λ t. flatten (take 1 t)) (drop_of_some blocks i e) ∙ append-nil b

  pub start_of-suc :
      (i : ℕ) {b : List ℕ}
      → get_elem? blocks i ≡ some b
      → start_of blocks (i + 1) ≡ start_of blocks i + length b
  start_of-suc i e = start_of-add i 1 ∙ ap (λ t. start_of blocks i + length t) (run_of-one i e)

  -- The bytes between two of the offsets.
  pub slice_between :
      (behind : List ℕ) (i n : ℕ)
      → slice {E = Error} (flatten blocks ++ behind) (start_of blocks i) (start_of blocks (i + n))
        ≡ ok (run_of i n)
  slice_between behind i n =
      ap (λ t. slice t (start_of blocks i) (start_of blocks (i + n))) cut
      ∙ slice-append (flatten (take i blocks)) (run_of i n)
          (flatten (drop n (drop i blocks)) ++ behind) _ _ (unfold start_of in refl)
          (sym (start_of-add i n))
    where
      cut :
          flatten blocks ++ behind
          ≡ flatten (take i blocks) ++ (run_of i n ++ (flatten (drop n (drop i blocks)) ++ behind))
      cut =
          ap (λ t. t ++ behind)
            (ap flatten (sym (take-append-drop i blocks))
              ∙ flatten-append (take i blocks) (drop i blocks))
          ∙ append_assoc (flatten (take i blocks)) (flatten (drop i blocks)) behind
          ∙ ap (λ t. flatten (take i blocks) ++ t)
              (ap (λ t. t ++ behind)
                  (ap flatten (sym (take-append-drop n (drop i blocks)))
                    ∙ flatten-append (take n (drop i blocks)) (drop n (drop i blocks)))
                ∙ append_assoc (run_of i n) (flatten (drop n (drop i blocks))) behind)

-- A block within the bytes of a batch.
pub slice_in_batch :
    (blocks : List (List ℕ)) (i n m : ℕ) {b : List ℕ}
    → m < n
    → get_elem? blocks (i + m) ≡ some b
    → slice {E = Error}
        (run_of blocks i n)
        (start_of blocks (i + m) - start_of blocks i)
        (start_of blocks (i + m + 1) - start_of blocks i)
      ≡ ok b
unfolding start_of
slice_in_batch blocks i n m {b} h e =
    ap₂ (λ lo hi. slice (run_of blocks i n) lo hi) (lower m (omega (arith, h)))
      (ap (λ t. start_of blocks t - start_of blocks i) (omega arith)
        ∙ lower (m + 1) (omega (arith, h)))
    ∙ ap (λ t. slice t (start_of batch m) (start_of batch (m + 1)))
        (sym (append-nil (flatten batch)))
    ∙ slice_between batch [] m 1
    ∙ ap ok
        (run_of-one batch m (get_elem?-take n (drop i blocks) m h ∙ get_elem?-drop i blocks m ∙ e))
  where
    batch : List (List ℕ)
    batch = take n (drop i blocks)

    lower : (m : ℕ) → m ≤ n → start_of blocks (i + m) - start_of blocks i ≡ start_of batch m
    lower m h = omega (
      arith,
      start_of-add blocks i m,
      ap (λ t. length (flatten t)) (take-take m n (drop i blocks) h),
    )

module _ (z : Zstd.Library) (law : IsLawful z) (r : Reader) (items : List (List ℕ))
    (records : Records) (v : IsLaid z r items records) where
  abbrev pub blocks : List (List ℕ)
  blocks = blocks_of records

  pub offset_at :
      (j : ℕ) → j ≤ length records → index {E = Error} r.offsets j ≡ ok (start_of blocks j)
  offset_at j h =
      ap (λ t. index {E = Error} t j) v.offsets
      ∙ index-prefix_sums 0 blocks j (omega (arith, length-map (λ r. r.1) records))
      ∙ ap ok (omega arith)

  -- A record: where it stands, and the decoder that holds its items.
  pub record Decoded (j : ℕ) : Type 0 where
    pub found : List (List ℕ) × List ℕ
    pub at : get_elem? records j ≡ some found
    pub rd : Decoder
    pub decodes : decode z (get_decoder r) found.1 j ≡ ok rd
    pub holds : Holds rd found.0
    pub slice_of : found.0 ≡ take r.items_per_record (drop (j * r.items_per_record) items)

  pub decoded : (j : ℕ) → j * r.items_per_record < length items → Decoded j
  unfolding IsBlock
  decoded j h =
      let (found, at, count, slice_of, some_item) = v.cut j (omega (arith, v.total)) in
      let (size, small, readable, made) =
        All_get (IsGood z r.trailer.format r.items_per_record) records j v.good at in
      let (for_index, made_index, made_block) = made in
      let (rd, decodes, holds) =
        decode-format_block z (get_decoder r) j found.0 for_index found.1 law count some_item size
          (u32_sizes found.0 small) readable made_index made_block in
      record {
        found = found;
        at = at;
        rd = rd;
        decodes = decodes;
        holds = holds;
        slice_of = slice_of;
      }
