-- ===== src/Bitmapindex/Ranked.antt =====
-- bitmapindex/writer.go, Finish: every bitmap stands at the rank of its key.
use event_analysis.Prelude.{
  ℕ, zero, suc, ◌+◌, ◌-◌, ◌^◌, ◌≤◌, ◌<◌, ◌≡◌, ◌≢◌, ◌⊎◌, refl, sym, ap, subst, ◌∙◌, inl, inr, arith,
  List, [], ◌∷◌, ◌++◌, map, length, take, replicate, Option, none, some, if◌then◌else◌, ok,
  Bool-cases, get_elem?, ◌==◌, lt→ltb, le→leb, ==_iff, ==_false→ne, length-replicate, length-append,
  length-take, take-append_left, drop-append_skip,
}
use event_analysis.Prelude.Bytes.{same_bytes, same_bytes_eq, same_bytes_refl, lex_lt}
use event_analysis.Bitmapindex.Added.{differs_ne}
use mathlib.Core.Option.{some-injective}
use event_analysis.Bitmapindex.{
  Roaring, Streamhash, rank, Bitmaps, get_bitmap, insert_key, sort_keys, place, Prepared, Ranked,
  entry_of, rank_of, rank_keys, serialized, prepare, built, prepared_of, fingerprint_size,
  verify_and_deserialize, deserialized,
}

unfoldable pub IsIn : List ℕ → List (List ℕ) → Type 0
IsIn k [] = ⊥
IsIn k (x ∷ xs) = (k ≡ x) ⊎ IsIn k xs

insert_key-IsIn :
    (k x : List ℕ) (xs : List (List ℕ)) → (k ≡ x) ⊎ IsIn k xs → IsIn k (insert_key x xs)
unfolding IsIn insert_key
insert_key-IsIn k x [] h = h
insert_key-IsIn k x (y ∷ xs) h = elim (Bool-cases (lex_lt y x)) [
  | inl less ↦ rw less (elim h [
    | inl e ↦ inr (insert_key-IsIn k x xs (inl e))
    | inr old ↦ elim old [ inl e ↦ inl e | inr rest ↦ inr (insert_key-IsIn k x xs (inr rest)) ]
  ])
  | inr not_less ↦ rw not_less h
]

insert_key-back :
    (k x : List ℕ) (xs : List (List ℕ)) → IsIn k (insert_key x xs) → (k ≡ x) ⊎ IsIn k xs
unfolding IsIn insert_key
insert_key-back k x [] h = h
insert_key-back k x (y ∷ xs) h = elim (Bool-cases (lex_lt y x)) [
  | inl less ↦ elim (subst (λ b. IsIn k (if b then y ∷ insert_key x xs else x ∷ (y ∷ xs))) less h) [
    | inl e ↦ inr (inl e)
    | inr rest ↦ elim (insert_key-back k x xs rest) [ inl e ↦ inl e | inr old ↦ inr (inr old) ]
  ]
  | inr not_less ↦ subst (λ b. IsIn k (if b then y ∷ insert_key x xs else x ∷ (y ∷ xs))) not_less h
]

sort_keys-IsIn : (k : List ℕ) (xs : List (List ℕ)) → IsIn k xs → IsIn k (sort_keys xs)
unfolding IsIn sort_keys
sort_keys-IsIn k [] h = h
sort_keys-IsIn k (x ∷ xs) (inl e) = insert_key-IsIn k x (sort_keys xs) (inl e)
sort_keys-IsIn k (x ∷ xs) (inr h) = insert_key-IsIn k x (sort_keys xs) (inr (sort_keys-IsIn k xs h))

sort_keys-back : (k : List ℕ) (xs : List (List ℕ)) → IsIn k (sort_keys xs) → IsIn k xs
unfolding IsIn sort_keys
sort_keys-back k [] h = h
sort_keys-back k (x ∷ xs) h = elim (insert_key-back k x (sort_keys xs) h) [
  | inl e ↦ inl e
  | inr rest ↦ inr (sort_keys-back k xs rest)
]

place_lem :
    {A : Type 0} (r : ℕ) (e : A) (xs : List (Option A))
    → r < length xs
    → (ys : List (Option A)) × (place r e xs ≡ ok ys)
      × (length ys ≡ length xs)
      × (get_elem? ys r ≡ some (some e))
      × ((i : ℕ) → i ≢ r → get_elem? ys i ≡ get_elem? xs i)
unfolding place
place_lem r e [] h = absurd (omega (arith, h))
place_lem zero e (x ∷ xs) h = (some e ∷ xs, refl, refl, refl, others)
  where
    others : (i : ℕ) → i ≢ 0 → get_elem? (some e ∷ xs) i ≡ get_elem? (x ∷ xs) i
    others zero away = absurd (away refl)
    others (suc i) away = refl
place_lem (suc r) e (x ∷ xs) h =
    let (ys, made, size, here, others) = place_lem r e xs (omega (arith, h)) in
    (x ∷ ys, rw made refl, ap suc size, here, beyond r ys xs x others)
  where
    beyond :
        {A : Type 0} (r : ℕ) (ys xs : List (Option A)) (x : Option A)
        → ((i : ℕ) → i ≢ r → get_elem? ys i ≡ get_elem? xs i)
        → (i : ℕ) → i ≢ suc r
        → get_elem? (x ∷ ys) i ≡ get_elem? (x ∷ xs) i
    beyond r ys xs x others zero away = refl
    beyond r ys xs x others (suc i) away = others i (λ e. away (ap suc e))

get_elem?-cons :
    {A : Type 0} (x : A) (xs : List A) (n : ℕ) (f : ℕ → A)
    → x ≡ f 0
    → ((r : ℕ) → r < n → get_elem? xs r ≡ some (f (suc r)))
    → (r : ℕ) → r < suc n
    → get_elem? (x ∷ xs) r ≡ some (f r)
get_elem?-cons x xs n f first rest zero below = ap some first
get_elem?-cons x xs n f first rest (suc r) below = rest r (omega (arith, below))

module _ (roaring : Roaring) (streamhash : Streamhash) where
  -- What streamhash documents of the index of these keys: the ranks are a bijection with the numbers
  -- below the number of keys.
  pub record IsPerfect (mphf : streamhash.Mphf) (keys : List (List ℕ)) (n : ℕ) : Type 0 where
    pub slot_of : List ℕ → ℕ
    pub key_at : ℕ → List ℕ
    pub answers : (hk : List ℕ) → IsIn hk keys → streamhash.query mphf hk ≡ rank (slot_of hk)
    pub bound : (hk : List ℕ) → IsIn hk keys → slot_of hk < n
    pub key_at_slot : (hk : List ℕ) → IsIn hk keys → key_at (slot_of hk) ≡ hk
    pub onto : (r : ℕ) → r < n → IsIn (key_at r) keys
    pub slot_of_key : (r : ℕ) → r < n → slot_of (key_at r) ≡ r

  module _ (mphf : streamhash.Mphf) (bitmaps : Bitmaps roaring) (all_keys : List (List ℕ)) (n : ℕ)
      (perfect : IsPerfect mphf all_keys n) (bm : List ℕ → roaring.Bitmap)
      (known : (hk : List ℕ)
        → IsIn hk all_keys
        → get_bitmap roaring hk bitmaps ≡ some (bm hk)) where
    -- A rank has its entry, or none of the keys has it and it is as before.
    Slot : List (List ℕ) → Ranked roaring streamhash → Ranked roaring streamhash → ℕ → Type 0
    Slot keys before after r =
        (get_elem? after r
          ≡ some (some (take fingerprint_size (perfect.key_at r), bm (perfect.key_at r))))
        ⊎ ((get_elem? after r ≡ get_elem? before r) × ¬ IsIn (perfect.key_at r) keys)

    rank_keys_lem :
        (keys : List (List ℕ)) (ranked : Ranked roaring streamhash)
        → ((k : List ℕ) → IsIn k keys → IsIn k all_keys)
        → length ranked ≡ n
        → (ranked' : Ranked roaring streamhash) × (rank_keys roaring streamhash mphf bitmaps keys
              ranked
            ≡ ok ranked')
          × (length ranked' ≡ n)
          × ((r : ℕ) → r < n → Slot keys ranked ranked' r)
    unfolding rank_keys entry_of rank_of IsIn Slot
    rank_keys_lem [] ranked within size = (ranked, refl, size, λ r h. inr (refl, λ e. e))
    rank_keys_lem (hk ∷ keys) ranked within size =
        let known_key : IsIn hk all_keys = within hk (inl refl) in
        let (ranked1, placed, size1, here, others) =
          place_lem (perfect.slot_of hk) (take fingerprint_size hk, bm hk) ranked
            (omega (arith, perfect.bound hk known_key, size)) in
        let (ranked', done, size', slots) =
          rank_keys_lem keys ranked1 (λ k h. within k (inr h)) (size1 ∙ size) in
        (
          ranked',
          rw (perfect.answers hk known_key, known hk known_key, placed) done,
          size',
          λ r h. elim (slots r h) [
            | inl found ↦ inl found
            | inr unchanged ↦ elim (Bool-cases (r == perfect.slot_of hk)) [
              | inl same ↦
                  let at : perfect.key_at r ≡ hk =
                    ap perfect.key_at ((==_iff r (perfect.slot_of hk)).0 same)
                    ∙ perfect.key_at_slot hk known_key in
                  inl (
                    unchanged.0
                    ∙ ap (get_elem? ranked1) ((==_iff r (perfect.slot_of hk)).0 same)
                    ∙ here
                    ∙ ap (λ k. some (some (take fingerprint_size k, bm k))) (sym at))
              | inr away ↦ inr (
                unchanged.0 ∙ others r (==_false→ne r _ away),
                λ e. elim e [
                  | inl at ↦
                      ==_false→ne r _ away (sym (perfect.slot_of_key r h) ∙ ap perfect.slot_of at)
                  | inr old ↦ unchanged.1 old
                ],
              )
            ]
          ],
        )

  -- A rank's item: the fingerprint and the bytes of its bitmap.
  module _ (bytes_of : roaring.Bitmap → List ℕ)
      (to_bytes : (b : roaring.Bitmap)
        → roaring.to_bytes (roaring.run_optimize b) ≡ some (bytes_of b)) where
    prepare_lem :
        (i : ℕ) (ranked : Ranked roaring streamhash) (entry : ℕ → List ℕ × roaring.Bitmap)
        → ((r : ℕ) → r < length ranked → get_elem? ranked r ≡ some (some (entry r)))
        → (prepared : List Prepared) × (prepare roaring streamhash i ranked ≡ ok prepared)
          × (length prepared ≡ length ranked)
          × ((r : ℕ)
              → r < length ranked
              → get_elem? prepared r ≡ some ((entry r).0, bytes_of (entry r).1))
    unfolding prepare serialized
    prepare_lem i [] entry h = ([], refl, refl, λ r below. absurd (omega (arith, below)))
    prepare_lem i (e ∷ ranked) entry h =
        let first : e ≡ some (entry 0) = some-injective _ _ (h 0 (omega arith)) in
        let (prepared, made, size, at) =
          prepare_lem (i + 1) ranked (λ r. entry (suc r))
            (λ r below. h (suc r) (omega (arith, below))) in
        (
          ((entry 0).0, bytes_of (entry 0).1) ∷ prepared,
          ap (λ t. prepare roaring streamhash i (t ∷ ranked)) first
              ∙ rw (to_bytes (entry 0).1, made) refl,
          ap suc size,
          get_elem?-cons ((entry 0).0, bytes_of (entry 0).1) prepared (length ranked)
              (λ r. ((entry r).0, bytes_of (entry r).1)) refl at,
        )

  get_bitmap-IsIn :
      (hk : List ℕ) (bitmaps : Bitmaps roaring) (b : roaring.Bitmap)
      → get_bitmap roaring hk bitmaps ≡ some b
      → IsIn hk (map (λ e. e.0) bitmaps)
  unfolding get_bitmap IsIn
  get_bitmap-IsIn hk [] b h = absurd (none_some h)
    where
      none_some : none ≡ some b → ⊥
      none_some e = cc
  get_bitmap-IsIn hk (e ∷ bitmaps) b h = elim (Bool-cases (same_bytes e.0 hk)) [
    | inl same ↦ inl (sym (same_bytes_eq e.0 hk same))
    | inr away ↦ inr (
        get_bitmap-IsIn hk bitmaps b
          (subst (λ t. (if t then some e.1 else get_bitmap roaring hk bitmaps) ≡ some b) away h))
  ]

  -- The bitmap of a hash in the map.
  bitmap_at : Bitmaps roaring → List ℕ → roaring.Bitmap
  bitmap_at [] hk = roaring.new
  bitmap_at (e ∷ bitmaps) hk = if same_bytes e.0 hk then e.1 else bitmap_at bitmaps hk

  get_bitmap-known :
      (hk : List ℕ) (bitmaps : Bitmaps roaring)
      → IsIn hk (map (λ e. e.0) bitmaps)
      → get_bitmap roaring hk bitmaps ≡ some (bitmap_at bitmaps hk)
  unfolding get_bitmap IsIn bitmap_at
  get_bitmap-known hk [] h = elim h [ ]
  get_bitmap-known hk (e ∷ bitmaps) h = elim (Bool-cases (same_bytes e.0 hk)) [
    | inl same ↦ rw same refl
    | inr away ↦ elim h [
      | inl at ↦ absurd (differs_ne e.0 hk away (sym at))
      | inr rest ↦ rw away (get_bitmap-known hk bitmaps rest)
    ]
  ]

  module _ (mphf : streamhash.Mphf) (bitmaps : Bitmaps roaring)
      (perfect : IsPerfect mphf (sort_keys (map (λ e. e.0) bitmaps)) (length bitmaps))
      (building : streamhash.build (sort_keys (map (λ e. e.0) bitmaps)) ≡ some mphf)
      (some_keys : 0 < length bitmaps) (few : length bitmaps < 2 ^ 32)
      (bytes_of : roaring.Bitmap → List ℕ)
      (to_bytes : (b : roaring.Bitmap)
        → roaring.to_bytes (roaring.run_optimize b) ≡ some (bytes_of b))
      (round_trip : (b : roaring.Bitmap) → roaring.unmarshal (bytes_of b) ≡ some b) where
    accepted :
        (hk : List ℕ) (b : roaring.Bitmap)
        → fingerprint_size ≤ length hk
        → verify_and_deserialize roaring streamhash (take fingerprint_size hk ++ bytes_of b) hk
          ≡ ok b
    unfolding verify_and_deserialize deserialized
    accepted hk b long =
        let fingerprint : List ℕ = take fingerprint_size hk in
        let size : length fingerprint ≡ 4 = omega (arith, length-take 4 hk, long) in
        rw
          (
            le→leb 4 (length (fingerprint ++ bytes_of b))
                (omega (arith, size, length-append fingerprint (bytes_of b))),
            take-append_left 4 fingerprint (bytes_of b) size,
            same_bytes_refl fingerprint,
            drop-append_skip 4 0 fingerprint (bytes_of b) size,
            round_trip b,
          )
          refl

    -- For a map of bitmaps with at least one key and fewer than 2^32, a perfect hash that streamhash
    -- builds of its sorted hashes and that ranks them one to one below their number, and bitmaps that
    -- serialize, once optimized, to bytes that read back as the bitmap: `Finish` prepares as many
    -- items as there are hashes, and for a hash of at least four bytes in the map the query gives a
    -- rank whose item, fingerprint and bytes joined, passes the reader's check and gives the hash's
    -- bitmap.
    pub prepared_of-lookups :
        (hk : List ℕ) (b : roaring.Bitmap)
        → get_bitmap roaring hk bitmaps ≡ some b
        → fingerprint_size ≤ length hk
        → (prepared : List Prepared) × (r : ℕ) × (p : Prepared) × (prepared_of roaring streamhash
              bitmaps
            ≡ ok (mphf, prepared))
          × (length prepared ≡ length bitmaps)
          × (streamhash.query mphf hk ≡ rank r)
          × (get_elem? prepared r ≡ some p)
          × (verify_and_deserialize roaring streamhash (p.0 ++ p.1) hk ≡ ok b)
    unfolding prepared_of built Slot
    prepared_of-lookups hk b h long =
        let keys : List (List ℕ) = sort_keys (map (λ e. e.0) bitmaps) in
        let n : ℕ = length bitmaps in
        let (ranked, ranks, size, slots) =
          rank_keys_lem mphf bitmaps keys n perfect (bitmap_at bitmaps)
            (λ k inside. get_bitmap-known k bitmaps (sort_keys-back k _ inside)) keys
            (replicate n none) (λ k inside. inside) (length-replicate n none) in
        let entry : ℕ → List ℕ × roaring.Bitmap =
          λ r. (take fingerprint_size (perfect.key_at r), bitmap_at bitmaps (perfect.key_at r)) in
        let filled : (r : ℕ) → r < length ranked → get_elem? ranked r ≡ some (some (entry r)) =
          λ r below. elim (slots r (omega (arith, below, size))) [
            | inl found ↦ found
            | inr empty ↦ absurd (empty.1 (perfect.onto r (omega (arith, below, size))))
          ] in
        let (prepared, made, size', at) = prepare_lem bytes_of to_bytes 0 ranked entry filled in
        let inside : IsIn hk keys = sort_keys-IsIn hk _ (get_bitmap-IsIn hk bitmaps b h) in
        let slot : ℕ = perfect.slot_of hk in
        let same : bitmap_at bitmaps hk ≡ b =
          some-injective _ _ (sym (get_bitmap-known hk bitmaps (sort_keys-back hk _ inside)) ∙ h) in
        (
          prepared,
          slot,
          (take fingerprint_size hk, bytes_of b),
          rw
              (
                lt→ltb 0 n some_keys,
                le→leb n (2 ^ 32 - 1) (omega (arith, few)),
                building,
                ranks,
                made,
              )
              refl,
          size' ∙ size,
          perfect.answers hk inside,
          at slot (omega (arith, perfect.bound hk inside, size))
              ∙ ap (λ k. some (take fingerprint_size k, bytes_of (bitmap_at bitmaps k)))
                  (perfect.key_at_slot hk inside)
              ∙ ap (λ t. some (take fingerprint_size hk, bytes_of t)) same,
          accepted hk b long,
        )
