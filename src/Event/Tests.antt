-- ===== src/Event/Tests.antt =====
-- Runs of event/event.go on small events.
use event_analysis.Prelude.{◌≡◌, ◌≢◌, refl, inr, arith}
use event_analysis.Prelude.{[], ◌∷◌, ◌++◌, replicate, none, some, true}
use event_analysis.Event.{Event, marshal, unmarshal}
use event_analysis.Event.RoundTrip.{IsStorable, stored, unmarshal-marshal}
use event_analysis.Event.Limits.{unmarshal_many_topics}

abbrev transfer : Event
transfer = record {
  contract_id = some (replicate 32 7);
  topics = (1 ∷ 2 ∷ []) ∷ (3 ∷ []) ∷ [];
  tx_hash = replicate 32 9;
  event_type = 1;
  data_bytes = 4 ∷ 5 ∷ 6 ∷ [];
  ledger_closed_at = 1700000000;
  successful = true;
  ledger_sequence = 12;
  transaction_index = 3;
  operation_index = 4;
  event_index = 5;
}

transfer-IsStorable : IsStorable transfer
transfer-IsStorable = record {
  contract = inr refl;
  hash = refl;
  kind = omega arith;
  few = omega arith;
  topics = (omega arith, (omega arith, tt));
  time = omega arith;
  size = omega arith;
}

unmarshal-marshal_example :
    unmarshal (marshal [] transfer ++ (0 ∷ [])) transfer ≡ (stored transfer, none)
unmarshal-marshal_example = unmarshal-marshal transfer transfer (0 ∷ []) transfer-IsStorable

abbrev many : Event
many = record transfer { topics = replicate 256 [] }

unmarshal_many_topics_example : (unmarshal (marshal [] many ++ []) transfer).0.topics ≢ many.topics
unmarshal_many_topics_example = unmarshal_many_topics many transfer [] (omega arith)
