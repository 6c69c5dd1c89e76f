-- ===== src/Event/Limits.antt =====
-- event/event.go: events that the format cannot hold, those with 256 topics or more.
use event_analysis.Prelude.{ℕ, zero, suc, ◌+◌, ◌%◌, ◌≤◌, ◌≡◌, ◌≢◌, refl, sym, ap, ◌∙◌}
use event_analysis.Prelude.{
  List, [], ◌∷◌, ◌++◌, length, take, drop, arith, length-append, le→ltb_false, eq→==,
}
use event_analysis.Event.{Event, Parsed, parse_topics, marshal, finish, unmarshal, byte_at}
use event_analysis.Prelude.Bytes.{be_num}
use event_analysis.Event.RoundTrip.{whole-flat, flat, long_enough}

-- The loop adds at most one topic a round.
parse_topics_few :
    (bs : List ℕ) (left i off : ℕ) (read : List (List ℕ))
    → length (parse_topics bs left i off read).read ≤ length read + left
unfolding parse_topics
parse_topics_few bs zero i off read = omega arith
parse_topics_few bs (suc left) i off read =
    let t_len = be_num (take 2 (drop off bs)) in
    let topic = take t_len (drop (off + 2) bs) in
    ground (
      arith,
      parse_topics_few bs left (i + 1) (off + (2 + t_len)) (read ++ (topic ∷ [])),
      length-append read (topic ∷ []),
    )

finish_topics :
    (bs : List ℕ) (ev : Event) (n : ℕ) (p : Parsed) → (finish bs ev n p).0.topics ≡ p.read
unfolding finish
finish_topics bs ev n p = ground arith

-- Behind a good header the topics are those that the loop read.
unmarshal_topics :
    (bs : List ℕ) (old : Event)
    → 80 ≤ length bs
    → byte_at bs 0 ≡ 2
    → (unmarshal bs old).0.topics ≡ (parse_topics bs (byte_at bs 3) 0 80 []).read
unfolding unmarshal
unmarshal_topics bs old long version =
    rw (le→ltb_false (length bs) 80 long, eq→== (byte_at bs 0) 2 version, finish_topics) refl

-- For an event with 256 topics or more, `Unmarshal` of its `Marshal`, with any bytes behind it and
-- into any event, does not give back its topics.
pub unmarshal_many_topics :
    (ev old : Event) (more : List ℕ)
    → 256 ≤ length ev.topics
    → (unmarshal (marshal [] ev ++ more) old).0.topics ≢ ev.topics
unmarshal_many_topics ev old more many same = omega (arith, many, ap length topics_read, few)
  where
    bs : List ℕ
    bs = flat ev more

    p : Parsed
    p = parse_topics bs (length ev.topics % 256) 0 80 []

    topics_read : ev.topics ≡ p.read
    topics_read =
        sym same
        ∙ ap (λ t. (unmarshal t old).0.topics) (whole-flat ev more)
        ∙ unmarshal_topics bs old (omega (arith, long_enough ev more)) refl

    few : length p.read ≤ 255
    few = omega (arith, parse_topics_few bs (length ev.topics % 256) 0 80 [])
