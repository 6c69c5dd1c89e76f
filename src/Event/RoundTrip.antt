-- ===== src/Event/RoundTrip.antt =====
-- `Unmarshal` after `Marshal`.
use event_analysis.Prelude.{ℕ, ◌+◌, ◌%◌, ◌^◌, ◌≤◌, ◌<◌, ◌≡◌, refl, sym, ap, ◌∙◌}
use event_analysis.Prelude.{
  List, [], ◌∷◌, ◌++◌, length, take, drop, All, arith, none, some, Option, true, false,
  append_assoc, length-append, take-append_left, drop-append_left, drop-append_skip, drop-drop,
  le→ltb_false, le→leb, leb→le, leb, if◌then◌else◌, not, ◌==◌, bit_or, bit_and, Bool, Bool-cases,
  inl, inr, ◌⊎◌, take_all, length-take,
}
use event_analysis.Prelude.Bytes.{be_bytes, be_num, be_num-be_bytes}
use event_analysis.Event.{
  Event, contract_bytes, fixed_field, marshal_flags, marshal_topics, parse_topics, marshal, finish,
  unmarshal,
}
use event_analysis.Event.Topics.{IsTopic, parse_topics-marshal_topics}
use mathlib.Core.Option
use native.Mathlib.Nat.{mod-eq_of_lt}

-- The events that the format can hold.
pub record IsStorable (ev : Event) : Type 0 where
  pub contract : (ev.contract_id ≡ none) ⊎ (length (contract_bytes ev) ≡ 32)
  pub hash : length ev.tx_hash ≡ 32
  pub kind : ev.event_type < 256
  pub few : length ev.topics < 256
  pub topics : All IsTopic ev.topics
  pub time : ev.ledger_closed_at < 2 ^ 64
  pub size : length ev.data_bytes < 2 ^ 32

-- What comes back: the fields of the ingestion alone are zeroed.
abbrev pub stored : Event → Event
stored ev = record ev {
  ledger_sequence = 0;
  transaction_index = 0;
  operation_index = 0;
  event_index = 0;
}

-- A field of 32 bytes is written as it is.
fixed_field_whole : (bs : List ℕ) → length bs ≡ 32 → fixed_field bs ≡ bs
fixed_field_whole bs h =
    rw (le→leb 32 (length bs) (omega (arith, h))) (take_all 32 bs (omega (arith, h)))

length-fixed_field : (bs : List ℕ) → length (fixed_field bs) ≡ 32
length-fixed_field bs = elim (Bool-cases (leb 32 (length bs))) [
  | inl e ↦ rw e (omega (arith, length-take 32 bs, leb→le 32 (length bs) e))
  | inr e ↦ rw e refl
]

-- The flag byte answers both questions.
flags_lem :
    (has good : Bool)
    → let f : ℕ = if has then bit_or 0 1 else 0 in
      let g : ℕ = if good then bit_or f 2 else f in
      ((bit_and g 1 == 0) ≡ not has) × (not (bit_and g 2 == 0) ≡ good)
flags_lem true true = (refl, refl)
flags_lem true false = (refl, refl)
flags_lem false true = (refl, refl)
flags_lem false false = (refl, refl)

-- A nil contract gives no flag; one of 32 bytes comes back from its field.
contract_lem :
    (o : Option (List ℕ))
    → (o ≡ none) ⊎ (length (Option.get_or o []) ≡ 32)
    → (if not (leb 32 (length (Option.get_or o [])))
        then none
        else some (fixed_field (Option.get_or o [])))
      ≡ o
contract_lem none h = refl
contract_lem (some id) (inl h) = cc
contract_lem (some id) (inr h) =
    rw (le→leb 32 (length id) (omega (arith, h))) (ap some (take_all 32 id (omega (arith, h))))

-- The message of `ev`, whatever follows it.
module _ (ev : Event) (more : List ℕ) where
  abbrev pub whole : List ℕ
  whole = marshal [] ev ++ more

  abbrev pub cid : List ℕ
  cid = fixed_field (contract_bytes ev)

  -- The message with its parts bracketed to the right.
  abbrev pub flat : List ℕ
  flat =
      2
      ∷ ev.event_type % 256
      ∷ marshal_flags ev
      ∷ length ev.topics % 256
      ∷ (cid
          ++ (fixed_field ev.tx_hash
              ++ (be_bytes 8 (ev.ledger_closed_at % 2 ^ 64)
                  ++ (be_bytes 4 (length ev.data_bytes % 2 ^ 32)
                      ++ (marshal_topics ev.topics ++ (ev.data_bytes ++ more))))))

  pub whole-flat : whole ≡ flat
  unfolding marshal
  whole-flat = simp append_assoc

  abbrev behind_cid : List ℕ
  behind_cid =
      fixed_field ev.tx_hash
      ++ (be_bytes 8 (ev.ledger_closed_at % 2 ^ 64)
          ++ (be_bytes 4 (length ev.data_bytes % 2 ^ 32)
              ++ (marshal_topics ev.topics ++ (ev.data_bytes ++ more))))

  reads_cid : take 32 (drop 4 flat) ≡ cid
  reads_cid = take-append_left 32 cid behind_cid (length-fixed_field (contract_bytes ev))

  skip_cid : (n : ℕ) → drop (32 + n) (cid ++ behind_cid) ≡ drop n behind_cid
  skip_cid n = drop-append_skip 32 n cid behind_cid (length-fixed_field (contract_bytes ev))

  abbrev behind_hash : List ℕ
  behind_hash =
      be_bytes 8 (ev.ledger_closed_at % 2 ^ 64)
      ++ (be_bytes 4 (length ev.data_bytes % 2 ^ 32)
          ++ (marshal_topics ev.topics ++ (ev.data_bytes ++ more)))

  skip_hash : (n : ℕ) → drop (32 + (32 + n)) (cid ++ behind_cid) ≡ drop n behind_hash
  skip_hash n =
      skip_cid (32 + n)
      ∙ drop-append_skip 32 n (fixed_field ev.tx_hash) behind_hash (length-fixed_field ev.tx_hash)

  reads_topics : drop 80 flat ≡ marshal_topics ev.topics ++ (ev.data_bytes ++ more)
  reads_topics = skip_hash 12

  pub long_enough : 80 + length (marshal_topics ev.topics) + length ev.data_bytes ≤ length flat
  long_enough = omega (
    arith,
    length-append cid behind_cid,
    length-fixed_field (contract_bytes ev),
    length-append (fixed_field ev.tx_hash) behind_hash,
    length-fixed_field ev.tx_hash,
    length-append (marshal_topics ev.topics) (ev.data_bytes ++ more),
    length-append ev.data_bytes more,
  )

  reads_data :
      take (length ev.data_bytes) (drop (80 + length (marshal_topics ev.topics)) flat)
      ≡ ev.data_bytes
  reads_data =
      ap (take (length ev.data_bytes)) (
        sym (drop-drop 80 (length (marshal_topics ev.topics)) flat)
        ∙ ap (drop (length (marshal_topics ev.topics))) reads_topics
        ∙ drop-append_left (length (marshal_topics ev.topics)) (marshal_topics ev.topics)
            (ev.data_bytes ++ more) refl)
      ∙ take-append_left (length ev.data_bytes) ev.data_bytes more refl

  flags : (bit_and (marshal_flags ev) 1 == 0) ≡ not (leb 32 (length (contract_bytes ev)))
  unfolding marshal_flags
  flags = (flags_lem (leb 32 (length (contract_bytes ev))) ev.successful).0

  flags' : not (bit_and (marshal_flags ev) 2 == 0) ≡ ev.successful
  unfolding marshal_flags
  flags' = (flags_lem (leb 32 (length (contract_bytes ev))) ev.successful).1

  module _ (fit : IsStorable ev) where
    reads_hash : take 32 (drop 36 flat) ≡ ev.tx_hash
    reads_hash =
        ap (take 32) (skip_cid 0)
        ∙ take-append_left 32 (fixed_field ev.tx_hash) behind_hash (length-fixed_field ev.tx_hash)
        ∙ fixed_field_whole ev.tx_hash fit.hash

    reads_time : be_num (take 8 (drop 68 flat)) ≡ ev.ledger_closed_at
    reads_time =
        ap (λ t. be_num (take 8 t)) (skip_hash 0)
        ∙ be_num-be_bytes 8 (ev.ledger_closed_at % 2 ^ 64) (omega arith)
        ∙ mod-eq_of_lt fit.time

    reads_size : be_num (take 4 (drop 76 flat)) ≡ length ev.data_bytes
    reads_size =
        ap (λ t. be_num (take 4 t)) (skip_hash 8)
        ∙ be_num-be_bytes 4 (length ev.data_bytes % 2 ^ 32) (omega arith)
        ∙ mod-eq_of_lt fit.size

    parses :
        parse_topics flat (length ev.topics % 256) 0 80 []
        ≡ record { read = ev.topics; off = 80 + length (marshal_topics ev.topics); failure = none }
    parses =
        ap (λ n. parse_topics flat n 0 80 []) (mod-eq_of_lt fit.few)
        ∙ parse_topics-marshal_topics flat ev.topics (ev.data_bytes ++ more) 0 80 [] fit.topics
            reads_topics

    reads_contract :
        (if bit_and (marshal_flags ev) 1 == 0 then none else some (take 32 (drop 4 flat)))
        ≡ ev.contract_id
    reads_contract = rw (flags, reads_cid) (contract_lem ev.contract_id fit.contract)

    pub unmarshal-flat : (old : Event) → unmarshal flat old ≡ (stored ev, none)
    unfolding unmarshal finish
    unmarshal-flat old =
        rw
          (
            le→ltb_false (length flat) 80 (omega (arith, long_enough)),
            reads_contract,
            reads_hash,
            reads_time,
            reads_size,
            flags',
            parses,
            le→ltb_false (length flat)
                (80 + length (marshal_topics ev.topics) + length ev.data_bytes) long_enough,
            reads_data,
            mod-eq_of_lt fit.kind,
          )
          refl

-- For an event whose contract id is nil or of 32 bytes, whose hash has 32 bytes, whose type fits a
-- byte, with fewer than 256 topics of less than 2^16 bytes, a time of 64 bits and data of less than
-- 2^32 bytes: `Unmarshal` of its `Marshal`, with any bytes behind it and into any event, gives the
-- event with its ingestion fields zeroed, and no error.
pub unmarshal-marshal :
    (ev old : Event) (more : List ℕ)
    → IsStorable ev
    → unmarshal (marshal [] ev ++ more) old ≡ (stored ev, none)
unmarshal-marshal ev old more fit =
    ap (λ t. unmarshal t old) (whole-flat ev more) ∙ unmarshal-flat ev more fit old
