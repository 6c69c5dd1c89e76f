-- ===== src/Event.antt =====
-- event/event.go: the binary form of a contract event.
-- A nil `ContractID` is `none`; the other slices are lists, for which nil and empty are one. The time
-- is its Unix seconds and the type is its number, both as bit patterns.
pub mod Topics
pub mod RoundTrip
pub mod Limits
mod Tests
use event_analysis.Prelude.{ℕ, zero, suc, ◌+◌, ◌-◌, ◌*◌, ◌/◌, ◌%◌, ◌^◌, ◌<◌, bit_and, bit_or}
use event_analysis.Prelude.{
  List, [], ◌∷◌, ◌++◌, Option, none, some, length, get_elem?, take, drop, replicate,
}
use event_analysis.Prelude.{Bool, true, false, not, ltb, leb, ◌==◌, if◌then◌else◌}
use event_analysis.Prelude.Bytes.{be_bytes, be_num}
use mathlib.Core.Option

abbrev pub header_size : ℕ
header_size = 80

abbrev pub format_version : ℕ
format_version = 0x02

abbrev pub flag_has_contract_id : ℕ
flag_has_contract_id = 0x01

abbrev pub flag_successful : ℕ
flag_successful = 0x02

pub record Event : Type 0 where
  pub contract_id : Option (List ℕ)
  pub topics : List (List ℕ)
  pub tx_hash : List ℕ
  pub event_type : ℕ
  pub data_bytes : List ℕ
  pub ledger_closed_at : ℕ
  pub successful : Bool
  pub ledger_sequence : ℕ
  pub transaction_index : ℕ
  pub operation_index : ℕ
  pub event_index : ℕ

-- The errors of `Unmarshal`, with what their messages show.
pub data Error : Type 0 where
  too_short : ℕ → Error
  unsupported_version : ℕ → Error
  truncated_topic_length : ℕ → ℕ → Error
  truncated_topic_data : ℕ → ℕ → ℕ → Error
  truncated_data_bytes : ℕ → ℕ → ℕ → Error

-- `ev.ContractID`, a nil slice having no bytes.
abbrev pub contract_bytes : Event → List ℕ
contract_bytes ev = Option.get_or ev.contract_id []

-- A 32-byte field of the header: zero unless the slice has 32 bytes at least.
abbrev pub fixed_field : List ℕ → List ℕ
fixed_field bs = if leb 32 (length bs) then take 32 bs else replicate 32 0

pub marshal_flags : Event → ℕ
marshal_flags ev =
    let flags : ℕ =
      if leb 32 (length (contract_bytes ev)) then bit_or 0 flag_has_contract_id else 0 in
    if ev.successful then bit_or flags flag_successful else flags

pub marshal_topics : List (List ℕ) → List ℕ
marshal_topics [] = []
marshal_topics (topic ∷ topics) =
    be_bytes 2 (length topic % 2 ^ 16) ++ (topic ++ marshal_topics topics)

-- The fields in the order of their offsets; the conversions cut them to their widths.
pub marshal : List ℕ → Event → List ℕ
unfolding marshal_flags marshal_topics
marshal dst ev =
    dst
    ++ (format_version
        ∷ ev.event_type % 256
        ∷ marshal_flags ev
        ∷ length ev.topics % 256
        ∷ (fixed_field (contract_bytes ev)
            ++ (fixed_field ev.tx_hash
                ++ (be_bytes 8 (ev.ledger_closed_at % 2 ^ 64)
                    ++ (be_bytes 4 (length ev.data_bytes % 2 ^ 32)
                        ++ (marshal_topics ev.topics ++ ev.data_bytes))))))

-- `data[i]`; the length check stands before every use.
abbrev pub byte_at : List ℕ → ℕ → ℕ
byte_at bs i = Option.get_or (get_elem? bs i) 0

-- The topics read so far, the offset behind them, and the error that ended the loop, if one did.
pub record Parsed : Type 0 where
  pub read : List (List ℕ)
  pub off : ℕ
  pub failure : Option Error

-- `for i := range topicCount`, with `left` rounds to go.
pub parse_topics : List ℕ → ℕ → ℕ → ℕ → List (List ℕ) → Parsed
parse_topics bs zero i off read = record { read = read; off = off; failure = none }
parse_topics bs (suc left) i off read =
    let t_len = be_num (take 2 (drop off bs)) in
    let rest =
      parse_topics bs left (i + 1) (off + (2 + t_len))
        (read ++ (take t_len (drop (off + 2) bs) ∷ [])) in
    if ltb (length bs) (off + 2)
    then record { read = read; off = off; failure = some (truncated_topic_length i off) }
    else if ltb (length bs) (off + 2 + t_len)
    then record { read = read; off = off; failure = some (truncated_topic_data i off t_len) }
    else rest

-- What stands behind the topics: the data bytes, then the fields that are not stored.
finish : List ℕ → Event → ℕ → Parsed → Event × Option Error
finish bs ev data_len p = elim p.failure [
  | some e ↦ (record ev { topics = p.read }, some e)
  | none ↦
      if ltb (length bs) (p.off + data_len)
      then (record ev { topics = p.read }, some (truncated_data_bytes p.off data_len (length bs)))
      else (
        record ev {
          topics = p.read;
          data_bytes = take data_len (drop p.off bs);
          ledger_sequence = 0;
          transaction_index = 0;
          operation_index = 0;
          event_index = 0;
        },
        none,
      )
]

-- The event as it is left, on an error too, and the error.
pub unmarshal : List ℕ → Event → Event × Option Error
unmarshal bs ev =
    if ltb (length bs) header_size
    then (ev, some (too_short (length bs)))
    else if not (byte_at bs 0 == format_version)
    then (ev, some (unsupported_version (byte_at bs 0)))
    else let flags = byte_at bs 2 in
      let ev' = record ev {
        event_type = byte_at bs 1;
        contract_id =
            if bit_and flags flag_has_contract_id == 0 then none else some (take 32 (drop 4 bs));
        tx_hash = take 32 (drop 36 bs);
        ledger_closed_at = be_num (take 8 (drop 68 bs));
        successful = not (bit_and flags flag_successful == 0);
      } in
      finish bs ev' (be_num (take 4 (drop 76 bs))) (parse_topics bs (byte_at bs 3) 0 header_size [])
