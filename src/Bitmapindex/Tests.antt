-- ===== src/Bitmapindex/Tests.antt =====
-- bitmapindex/writer.go on concrete events: bitmaps as lists of ordinals, a hash that keeps the key.
use event_analysis.Prelude.{
  ℕ, zero, suc, subst, ◌<◌, inl, inr, arith, ◌≡◌, refl, sym, ◌++◌, map, length, get_elem?, ok, ◌==◌,
  if◌then◌else◌, List, [], ◌∷◌, none, some, true,
}
use event_analysis.Event.{Event}
use event_analysis.Bitmapindex.{
  Roaring, Streamhash, rank, not_found, Bitmaps, Prepared, prepared_of, verify_and_deserialize,
  sort_keys, insert_key, compose_key, get_bitmap, add_ordinal, add_key, add_topics, add_contract,
  add_event,
}
use event_analysis.Prelude.Bytes.{same_bytes, lex_lt}
use event_analysis.Bitmapindex.Added
use event_analysis.Bitmapindex.Ranked.{IsIn, IsPerfect, prepared_of-lookups}
use event_analysis.Bitmapindex.Added.{add_events, bitmap_of, ordinals, pairs_of}

abbrev lists : Roaring
lists = record {
  Bitmap = List ℕ;
  new = [];
  add = λ bm id. id ∷ bm;
  run_optimize = λ bm. bm;
  to_bytes = λ bm. some bm;
  unmarshal = λ bytes. some bytes;
}

abbrev identity_hash : Streamhash
identity_hash = record {
  Mphf = List (List ℕ);
  pre_hash = λ key. key;
  build = λ keys. some keys;
  query = λ keys key. not_found;
}

-- Two events of one contract with a common topic.
abbrev mint : Event
mint = record {
  contract_id = some (7 ∷ []);
  topics = (1 ∷ 2 ∷ []) ∷ (3 ∷ []) ∷ [];
  tx_hash = [];
  event_type = 1;
  data_bytes = 4 ∷ [];
  ledger_closed_at = 0;
  successful = true;
  ledger_sequence = 0;
  transaction_index = 0;
  operation_index = 0;
  event_index = 0;
}

abbrev burn : Event
burn = record mint { topics = (1 ∷ 2 ∷ []) ∷ (5 ∷ []) ∷ [] }

get_bitmap-add_events_example :
    get_bitmap lists
      (1 ∷ 2 ∷ 2 ∷ [])
      (add_events lists identity_hash ((mint, 0) ∷ (burn, 1) ∷ []) [])
    ≡ bitmap_of lists identity_hash none
        (ordinals lists identity_hash (1 ∷ 2 ∷ 2 ∷ []) (pairs_of ((mint, 0) ∷ (burn, 1) ∷ [])))
get_bitmap-add_events_example =
    Added.get_bitmap-add_events lists identity_hash (1 ∷ 2 ∷ 2 ∷ []) ((mint, 0) ∷ (burn, 1) ∷ [])

-- The shared topic has both ordinals, the second topic of the first event only its own.
shared_topic :
    get_bitmap lists
      (1 ∷ 2 ∷ 2 ∷ [])
      (add_events lists identity_hash ((mint, 0) ∷ (burn, 1) ∷ []) [])
    ≡ some (1 ∷ 0 ∷ [])
unfolding get_bitmap add_events add_event add_topics add_contract add_key add_ordinal compose_key
    same_bytes
shared_topic = refl

abbrev low : List ℕ
low = 0 ∷ 2 ∷ 3 ∷ 4 ∷ []

abbrev high : List ℕ
high = 9 ∷ 2 ∷ 3 ∷ 4 ∷ 5 ∷ []

-- A perfect hash of the two keys; the greater one comes first.
abbrev two_keys : Streamhash
two_keys = record {
  Mphf = List (List ℕ);
  pre_hash = λ key. key;
  build = λ keys. some keys;
  query = λ keys key.
      if same_bytes key high then rank 0 else (if same_bytes key low then rank 1 else not_found);
}

abbrev high_low : Bitmaps lists
high_low = (high, 6 ∷ []) ∷ ((low, 8 ∷ 7 ∷ []) ∷ [])

abbrev sorted : List (List ℕ)
sorted = sort_keys (map (λ e. e.0) high_low)

each_key :
    (P : List ℕ → Type 0) → P low → P high → (hk : List ℕ) → IsIn hk (low ∷ (high ∷ [])) → P hk
unfolding IsIn
each_key P at_low at_high hk (inl e) = subst P (sym e) at_low
each_key P at_low at_high hk (inr (inl e)) = subst P (sym e) at_high
each_key P at_low at_high hk (inr (inr none_left)) = elim none_left [ ]

each_rank : (P : ℕ → Type 0) → P 0 → P 1 → (r : ℕ) → r < 2 → P r
each_rank P at_0 at_1 zero below = at_0
each_rank P at_0 at_1 (suc zero) below = at_1
each_rank P at_0 at_1 (suc (suc r)) below = absurd (omega (arith, below))

two_keys-IsPerfect : IsPerfect lists two_keys (low ∷ (high ∷ [])) (low ∷ (high ∷ [])) 2
unfolding IsIn same_bytes
two_keys-IsPerfect = record {
  slot_of = λ key. if same_bytes key high then 0 else 1;
  key_at = λ r. if r == 0 then high else low;
  answers =
      each_key
        (λ hk. two_keys.query (low ∷ (high ∷ [])) hk ≡ rank (if same_bytes hk high then 0 else 1))
        refl refl;
  bound = each_key (λ hk. (if same_bytes hk high then 0 else 1) < 2) (omega arith) (omega arith);
  key_at_slot =
      each_key (λ hk. (if (if same_bytes hk high then 0 else 1) == 0 then high else low) ≡ hk) refl
        refl;
  onto =
      each_rank (λ r. IsIn (if r == 0 then high else low) (low ∷ (high ∷ []))) (inr (inl refl))
        (inl refl);
  slot_of_key =
      each_rank (λ r. (if same_bytes (if r == 0 then high else low) high then 0 else 1) ≡ r) refl
        refl;
}

prepared_of-lookups_example :
    (prepared : List Prepared) × (r : ℕ) × (p : Prepared) × (prepared_of lists two_keys high_low
      ≡ ok (low ∷ (high ∷ []), prepared))
    × (length prepared ≡ 2)
    × (two_keys.query (low ∷ (high ∷ [])) low ≡ rank r)
    × (get_elem? prepared r ≡ some p)
    × (verify_and_deserialize lists two_keys (p.0 ++ p.1) low ≡ ok (8 ∷ 7 ∷ []))
unfolding get_bitmap sort_keys insert_key lex_lt same_bytes
prepared_of-lookups_example =
    prepared_of-lookups lists two_keys (low ∷ (high ∷ [])) high_low two_keys-IsPerfect refl
      (omega arith) (omega arith) (λ bm. bm) (λ bm. refl) (λ bm. refl) low (8 ∷ 7 ∷ []) refl
      (omega arith)
