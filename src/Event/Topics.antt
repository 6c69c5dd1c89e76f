-- ===== src/Event/Topics.antt =====
-- The topic table: what the loop of `Unmarshal` reads back of what the loop of `Marshal` wrote.
use event_analysis.Prelude.{ℕ, suc, ◌+◌, ◌%◌, ◌^◌, ◌<◌, ◌≡◌, refl, sym, ap, ◌∙◌}
use event_analysis.Prelude.{
  List, [], ◌∷◌, ◌++◌, length, take, drop, All, arith, none, append_assoc, append-nil,
  length-append, length-drop, take-append_left, drop-append_left, drop-drop, le→ltb_false,
}
use event_analysis.Prelude.Bytes.{be_bytes, be_num, be_num-be_bytes}
use event_analysis.Event.{marshal_topics, parse_topics}
use native.Mathlib.Nat.{mod-eq_of_lt, add-zero}

abbrev pub IsTopic : List ℕ → Type 0
IsTopic topic = length topic < 2 ^ 16

module _ (bs topic rest : List ℕ) (off : ℕ) (fits : IsTopic topic)
    (here : drop off bs ≡ be_bytes 2 (length topic % 2 ^ 16) ++ (topic ++ rest)) where
  topic_len : be_num (take 2 (drop off bs)) ≡ length topic
  topic_len =
      ap (λ t. be_num (take 2 t)) here
      ∙ be_num-be_bytes 2 (length topic % 2 ^ 16) (omega arith)
      ∙ mod-eq_of_lt fits

  room : off + 2 + length topic + length rest ≡ length bs
  room = omega (arith, length-drop off bs, ap length here, length-append topic rest)

  behind_len : drop (off + 2) bs ≡ topic ++ rest
  behind_len = sym (drop-drop off 2 bs) ∙ ap (drop 2) here

  topic_bytes : take (length topic) (drop (off + 2) bs) ≡ topic
  topic_bytes =
      ap (take (length topic)) behind_len ∙ take-append_left (length topic) topic rest refl

  behind : drop (off + (2 + length topic)) bs ≡ rest
  behind =
      ap (λ n. drop n bs) (omega arith)
      ∙ sym (drop-drop (off + 2) (length topic) bs)
      ∙ ap (drop (length topic)) behind_len
      ∙ drop-append_left (length topic) topic rest refl

  -- One round of the loop.
  parse_topics-suc :
      (left i : ℕ) (read : List (List ℕ))
      → parse_topics bs (suc left) i off read
        ≡ parse_topics bs left (i + 1) (off + (2 + length topic)) (read ++ (topic ∷ []))
  unfolding parse_topics
  parse_topics-suc left i read =
      rw
        (
          topic_len,
          le→ltb_false (length bs) (off + 2) (omega (arith, room)),
          le→ltb_false (length bs) (off + 2 + length topic) (omega (arith, room)),
          topic_bytes,
        )
        refl

-- Where the table starts at `off`, the loop reads all its topics and stops behind them.
pub parse_topics-marshal_topics :
    (bs : List ℕ) (topics : List (List ℕ)) (rest : List ℕ) (i off : ℕ) (read : List (List ℕ))
    → All IsTopic topics
    → drop off bs ≡ marshal_topics topics ++ rest
    → parse_topics bs (length topics) i off read
      ≡ record { read = read ++ topics; off = off + length (marshal_topics topics); failure = none }
unfolding marshal_topics
parse_topics-marshal_topics bs [] rest i off read fit here =
    unfold parse_topics in rw (append-nil read, add-zero off) refl
parse_topics-marshal_topics bs (topic ∷ topics) rest i off read fit here =
    parse_topics-suc bs topic (marshal_topics topics ++ rest) off fit.0 here' (length topics) i read
    ∙ parse_topics-marshal_topics bs topics rest (i + 1) (off + (2 + length topic))
        (read ++ (topic ∷ [])) fit.1
        (behind bs topic (marshal_topics topics ++ rest) off fit.0 here')
    ∙ rw (append_assoc read (topic ∷ []) topics, end) refl
  where
    here' :
        drop off bs
        ≡ be_bytes 2 (length topic % 2 ^ 16) ++ (topic ++ (marshal_topics topics ++ rest))
    here' =
        here
        ∙ ap (λ t. be_bytes 2 (length topic % 2 ^ 16) ++ t)
            (append_assoc topic (marshal_topics topics) rest)

    end :
        off + (2 + length topic) + length (marshal_topics topics)
        ≡ off + suc (suc (length (topic ++ marshal_topics topics)))
    end = omega (arith, length-append topic (marshal_topics topics))
