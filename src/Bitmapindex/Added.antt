-- ===== src/Bitmapindex/Added.antt =====
-- bitmapindex/writer.go, Add: the bitmaps as sets of ordinals by key.
use event_analysis.Prelude.{
  ℕ, ◌+◌, ◌≡◌, ◌≢◌, refl, sym, ap, ◌∙◌, inl, inr, List, [], ◌∷◌, ◌++◌, map, take, Option, none,
  some, true, false, if◌then◌else◌, Bool-cases,
}
use event_analysis.Prelude.Bytes.{same_bytes, same_bytes_refl, same_bytes_eq}
use mathlib.Core.List.{map-append}
use event_analysis.Event.{Event}
use event_analysis.Bitmapindex.{
  Roaring, Streamhash, Bitmaps, compose_key, get_bitmap, add_ordinal, add_key, add_topics,
  add_contract, add_event,
}

same_bytes_differs : (xs ys : List ℕ) → xs ≢ ys → same_bytes xs ys ≡ false
same_bytes_differs xs ys h = elim (Bool-cases (same_bytes xs ys)) [
  | inl same ↦ absurd (h (same_bytes_eq xs ys same))
  | inr differs ↦ differs
]

pub differs_ne : (xs ys : List ℕ) → same_bytes xs ys ≡ false → xs ≢ ys
differs_ne xs ys h e = true_false (sym (ap (λ t. same_bytes t ys) e ∙ same_bytes_refl ys) ∙ h)
  where
    true_false : true ≡ false → ⊥
    true_false e = cc

-- The keys of an event, in the order in which `Add` takes them.
unfoldable pub topic_keys : ℕ → List (List ℕ) → List (List ℕ)
topic_keys i [] = []
topic_keys i (topic ∷ topics) = compose_key (2 + i) topic ∷ topic_keys (i + 1) topics

unfoldable pub contract_keys : Option (List ℕ) → List (List ℕ)
contract_keys none = []
contract_keys (some contract) = compose_key 1 contract ∷ []

unfoldable pub keys_of : Event → List (List ℕ)
keys_of ev = contract_keys ev.contract_id ++ topic_keys 0 (take 4 ev.topics)

-- Each key of each event, with the event's ordinal.
unfoldable pub pairs_of : List (Event × ℕ) → List (List ℕ × ℕ)
pairs_of [] = []
pairs_of (e ∷ events) = map (λ key. (key, e.1)) (keys_of e.0) ++ pairs_of events

module _ (roaring : Roaring) (streamhash : Streamhash) where
  -- The ordinals of the keys with this hash, as they come.
  unfoldable pub ordinals : List ℕ → List (List ℕ × ℕ) → List ℕ
  ordinals hk [] = []
  ordinals hk (p ∷ pairs) =
      if same_bytes (streamhash.pre_hash p.0) hk then p.1 ∷ ordinals hk pairs else ordinals hk pairs

  unfoldable pub add_each : roaring.Bitmap → List ℕ → roaring.Bitmap
  add_each bm [] = bm
  add_each bm (id ∷ ids) = add_each (roaring.add bm id) ids

  -- The bitmap of these ordinals, on top of what there is; none without any.
  unfoldable pub bitmap_of : Option roaring.Bitmap → List ℕ → Option roaring.Bitmap
  bitmap_of bm [] = bm
  bitmap_of none (id ∷ ids) = some (add_each (roaring.add roaring.new id) ids)
  bitmap_of (some bm) (id ∷ ids) = some (add_each (roaring.add bm id) ids)

  -- The events' ordinals added one event after another.
  unfoldable pub add_events : List (Event × ℕ) → Bitmaps roaring → Bitmaps roaring
  add_events [] bitmaps = bitmaps
  add_events (e ∷ events) bitmaps = add_events events (add_event roaring streamhash e.0 e.1 bitmaps)

  add_pairs : List (List ℕ × ℕ) → Bitmaps roaring → Bitmaps roaring
  add_pairs [] bitmaps = bitmaps
  add_pairs (p ∷ pairs) bitmaps = add_pairs pairs (add_key roaring streamhash p.0 p.1 bitmaps)

  get_bitmap-add_ordinal :
      (hk : List ℕ) (ordinal : ℕ) (bitmaps : Bitmaps roaring)
      → get_bitmap roaring hk (add_ordinal roaring hk ordinal bitmaps)
        ≡ bitmap_of (get_bitmap roaring hk bitmaps) (ordinal ∷ [])
  unfolding get_bitmap add_ordinal bitmap_of add_each
  get_bitmap-add_ordinal hk ordinal [] = rw (same_bytes_refl hk) refl
  get_bitmap-add_ordinal hk ordinal (e ∷ bitmaps) = elim (Bool-cases (same_bytes e.0 hk)) [
    | inl same ↦ rw (same, same) refl
    | inr differs ↦ rw (differs, differs) (get_bitmap-add_ordinal hk ordinal bitmaps)
  ]

  get_bitmap-add_other :
      (hk other : List ℕ) (ordinal : ℕ) (bitmaps : Bitmaps roaring)
      → other ≢ hk
      → get_bitmap roaring hk (add_ordinal roaring other ordinal bitmaps)
        ≡ get_bitmap roaring hk bitmaps
  unfolding get_bitmap add_ordinal
  get_bitmap-add_other hk other ordinal [] h = rw (same_bytes_differs other hk h) refl
  get_bitmap-add_other hk other ordinal (e ∷ bitmaps) h = elim (Bool-cases (same_bytes e.0 other)) [
    | inl same ↦
        let away : same_bytes e.0 hk ≡ false =
          same_bytes_differs e.0 hk (λ e'. h (sym (same_bytes_eq e.0 other same) ∙ e')) in
        rw (same, away) refl
    | inr differs ↦ elim (Bool-cases (same_bytes e.0 hk)) [
      | inl found ↦ rw (differs, found) refl
      | inr away ↦ rw (differs, away) (get_bitmap-add_other hk other ordinal bitmaps h)
    ]
  ]

  add_each-append :
      (bm : roaring.Bitmap) (xs ys : List ℕ) → add_each bm (xs ++ ys) ≡ add_each (add_each bm xs) ys
  unfolding add_each
  add_each-append bm [] ys = refl
  add_each-append bm (x ∷ xs) ys = add_each-append (roaring.add bm x) xs ys

  bitmap_of-some :
      (bm : roaring.Bitmap) (ids : List ℕ) → bitmap_of (some bm) ids ≡ some (add_each bm ids)
  unfolding bitmap_of add_each
  bitmap_of-some bm [] = refl
  bitmap_of-some bm (id ∷ ids) = refl

  bitmap_of-append :
      (bm : Option roaring.Bitmap) (xs ys : List ℕ)
      → bitmap_of bm (xs ++ ys) ≡ bitmap_of (bitmap_of bm xs) ys
  unfolding bitmap_of
  bitmap_of-append bm [] ys = refl
  bitmap_of-append none (x ∷ xs) ys =
      ap some (add_each-append (roaring.add roaring.new x) xs ys)
      ∙ sym (bitmap_of-some (add_each (roaring.add roaring.new x) xs) ys)
  bitmap_of-append (some bm) (x ∷ xs) ys =
      ap some (add_each-append (roaring.add bm x) xs ys)
      ∙ sym (bitmap_of-some (add_each (roaring.add bm x) xs) ys)

  get_bitmap-add_pairs :
      (hk : List ℕ) (pairs : List (List ℕ × ℕ)) (bitmaps : Bitmaps roaring)
      → get_bitmap roaring hk (add_pairs pairs bitmaps)
        ≡ bitmap_of (get_bitmap roaring hk bitmaps) (ordinals hk pairs)
  unfolding add_pairs ordinals add_key bitmap_of
  get_bitmap-add_pairs hk [] bitmaps = refl
  get_bitmap-add_pairs hk (p ∷ pairs) bitmaps =
      get_bitmap-add_pairs hk pairs (add_key roaring streamhash p.0 p.1 bitmaps)
      ∙ elim (Bool-cases (same_bytes (streamhash.pre_hash p.0) hk)) [
        | inl same ↦ rw same (
            ap (λ t. bitmap_of t (ordinals hk pairs))
              (ap (λ t. get_bitmap roaring hk (add_ordinal roaring t p.1 bitmaps))
                  (same_bytes_eq (streamhash.pre_hash p.0) hk same)
                ∙ get_bitmap-add_ordinal hk p.1 bitmaps)
            ∙ sym (bitmap_of-append (get_bitmap roaring hk bitmaps) (p.1 ∷ []) (ordinals hk pairs)))
        | inr differs ↦ rw differs (
            ap (λ t. bitmap_of t (ordinals hk pairs))
              (get_bitmap-add_other hk (streamhash.pre_hash p.0) p.1 bitmaps
                (differs_ne (streamhash.pre_hash p.0) hk differs)))
      ]

  add_pairs-append :
      (xs ys : List (List ℕ × ℕ)) (bitmaps : Bitmaps roaring)
      → add_pairs (xs ++ ys) bitmaps ≡ add_pairs ys (add_pairs xs bitmaps)
  unfolding add_pairs
  add_pairs-append [] ys bitmaps = refl
  add_pairs-append (x ∷ xs) ys bitmaps =
      add_pairs-append xs ys (add_key roaring streamhash x.0 x.1 bitmaps)

  add_topics-pairs :
      (i id : ℕ) (topics : List (List ℕ)) (bitmaps : Bitmaps roaring)
      → add_topics roaring streamhash i id topics bitmaps
        ≡ add_pairs (map (λ key. (key, id)) (topic_keys i topics)) bitmaps
  unfolding add_topics add_pairs topic_keys
  add_topics-pairs i id [] bitmaps = refl
  add_topics-pairs i id (topic ∷ topics) bitmaps = add_topics-pairs (i + 1) id topics _

  add_contract-pairs :
      (id : ℕ) (contract : Option (List ℕ)) (bitmaps : Bitmaps roaring)
      → add_contract roaring streamhash id contract bitmaps
        ≡ add_pairs (map (λ key. (key, id)) (contract_keys contract)) bitmaps
  unfolding add_contract add_pairs contract_keys
  add_contract-pairs id none bitmaps = refl
  add_contract-pairs id (some contract) bitmaps = refl

  add_event-pairs :
      (ev : Event) (id : ℕ) (bitmaps : Bitmaps roaring)
      → add_event roaring streamhash ev id bitmaps
        ≡ add_pairs (map (λ key. (key, id)) (keys_of ev)) bitmaps
  unfolding add_event keys_of
  add_event-pairs ev id bitmaps =
      add_topics-pairs 0 id (take 4 ev.topics)
        (add_contract roaring streamhash id ev.contract_id bitmaps)
      ∙ ap (add_pairs (map (λ key. (key, id)) (topic_keys 0 (take 4 ev.topics))))
          (add_contract-pairs id ev.contract_id bitmaps)
      ∙ sym (
          add_pairs-append (map (λ key. (key, id)) (contract_keys ev.contract_id))
            (map (λ key. (key, id)) (topic_keys 0 (take 4 ev.topics))) bitmaps)
      ∙ ap (λ t. add_pairs t bitmaps)
          (sym (
            map-append (λ key. (key, id)) (contract_keys ev.contract_id)
              (topic_keys 0 (take 4 ev.topics))))

  add_events-pairs :
      (events : List (Event × ℕ)) (bitmaps : Bitmaps roaring)
      → add_events events bitmaps ≡ add_pairs (pairs_of events) bitmaps
  unfolding add_events pairs_of add_pairs
  add_events-pairs [] bitmaps = refl
  add_events-pairs (e ∷ events) bitmaps =
      add_events-pairs events (add_event roaring streamhash e.0 e.1 bitmaps)
      ∙ ap (add_pairs (pairs_of events)) (add_event-pairs e.0 e.1 bitmaps)
      ∙ sym (add_pairs-append (map (λ key. (key, e.1)) (keys_of e.0)) (pairs_of events) bitmaps)

  -- For any roaring bitmaps, any hash function and any events with ordinals: after `Add` of the events
  -- to a new writer, what the map has for a hash is the bitmap to which the ordinals were added, in
  -- the events' order, whose contract key or one of whose first four topic keys has that hash, and
  -- nothing if there is none.
  pub get_bitmap-add_events :
      (hk : List ℕ) (events : List (Event × ℕ))
      → get_bitmap roaring hk (add_events events [])
        ≡ bitmap_of none (ordinals hk (pairs_of events))
  unfolding get_bitmap
  get_bitmap-add_events hk events =
      ap (get_bitmap roaring hk) (add_events-pairs events [])
      ∙ get_bitmap-add_pairs hk (pairs_of events) []
