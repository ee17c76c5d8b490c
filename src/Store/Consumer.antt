-- ===== src/Store/Consumer.antt =====
-- crates/zetmq-store/src/consumer.rs: the durable consumers, by stream and name.
pub mod Pending
pub mod Stuck
use zet_mq.Prelude.{
  ℕ, ◌+◌, Bool, true, false, List, [], ◌∷◌, ◌++◌, ◌&&◌, not, Option, none, some, if◌then◌else◌, ltb,
  leb, max,
}
use zet_mq.Text.{Str}
use zet_mq.Map
use zet_mq.Map.{Map, nat_key, str_key, size}
use zet_mq.Store.Word.{add64}
use zet_mq.Store.Stream.{StoredMessage, StreamInfo}
use zet_mq.Store.Memory.{
  MemoryStore, Result, ok, err, StoreError, stream_not_found, consumer_already_exists, stream_info,
  read_message,
}

pub data DeliverPolicy : Type 0 where
  all last new_only : DeliverPolicy
  by_start_sequence : ℕ → DeliverPolicy

pub data AckPolicy : Type 0 where
  no_ack explicit all_before : AckPolicy

pub record ConsumerConfig : Type 0 where
  pub durable_name : Str
  pub stream : Str
  pub filter_subject : Option Str
  pub deliver_policy : DeliverPolicy
  pub ack_policy : AckPolicy
  pub max_ack_pending : ℕ

pub record ConsumerState : Type 0 where
  pub next_sequence : ℕ
  pub pending_ack_count : ℕ
  pub pending_acks : Map ℕ ℕ
  pub delivered_count : ℕ
  pub acked_count : ℕ

pub record Consumer : Type 0 where
  pub config : ConsumerConfig
  pub state : ConsumerState

abbrev pub start_seq : DeliverPolicy → ℕ → ℕ
start_seq all stream_last_seq = 1
start_seq last stream_last_seq = max stream_last_seq 1
start_seq new_only stream_last_seq = add64 stream_last_seq 1
start_seq (by_start_sequence sequence) stream_last_seq = sequence

unfoldable pub new : ConsumerConfig → ℕ → Consumer
new config stream_last_seq = record {
  config = config;
  state = record {
    next_sequence = start_seq config.deliver_policy stream_last_seq;
    pending_ack_count = 0;
    pending_acks = Map.empty;
    delivered_count = 0;
    acked_count = 0;
  };
}

unfoldable pub record_delivery : Consumer → ℕ → ℕ → Consumer
record_delivery c now sequence = record c {
  state = record c.state {
    pending_acks = Map.insert sequence now c.state.pending_acks;
    pending_ack_count = add64 c.state.pending_ack_count 1;
    delivered_count = add64 c.state.delivered_count 1;
    next_sequence = add64 sequence 1;
  };
}

unfoldable pub ack : Consumer → ℕ → Bool × Consumer
ack c sequence = elim (Map.get sequence c.state.pending_acks) [
  | none ↦ (false, c)
  | some time ↦
      let pending_acks' = Map.remove sequence c.state.pending_acks in
      (
        true,
        record c {
          state = record c.state {
            pending_acks = pending_acks';
            pending_ack_count = size pending_acks';
            acked_count = add64 c.state.acked_count 1;
          };
        },
      )
]

unfoldable pub is_backpressured : Consumer → Bool
is_backpressured c =
    ltb 0 c.config.max_ack_pending && leb c.config.max_ack_pending c.state.pending_ack_count

abbrev pub Consumers : Type 0
Consumers = Map Str Consumer

-- `format!("{stream}:{name}")`
abbrev pub consumer_key : Str → Str → Str
consumer_key stream name = stream ++ 58 ∷ name

-- `consumer {name} on stream {stream}` and `consumer {name}`, in UTF-8.
abbrev consumer_text : Str → Str
consumer_text name = (99 ∷ 111 ∷ 110 ∷ 115 ∷ 117 ∷ 109 ∷ 101 ∷ 114 ∷ 32 ∷ []) ++ name

abbrev on_stream_text : Str → Str → Str
on_stream_text name stream =
    consumer_text name
    ++ (32 ∷ 111 ∷ 110 ∷ 32 ∷ 115 ∷ 116 ∷ 114 ∷ 101 ∷ 97 ∷ 109 ∷ 32 ∷ [])
    ++ stream

unfoldable pub create_consumer : MemoryStore → Consumers → ConsumerConfig → Result Unit × Consumers
create_consumer store consumers config = elim (stream_info store config.stream) [
  | err e ↦ (err e, consumers)
  | ok info ↦
      let key = consumer_key config.stream config.durable_name in
      elim (Map.get key consumers) [
        | some c ↦ (
          err (consumer_already_exists (on_stream_text config.durable_name config.stream)),
          consumers,
        )
        | none ↦ (ok tt, Map.insert key (new config info.state.last_seq) consumers)
      ]
]

unfoldable pub delete_consumer : Consumers → Str → Str → Result Unit × Consumers
delete_consumer consumers stream name = (ok tt, Map.remove (consumer_key stream name) consumers)

unfoldable pub get_consumer : Consumers → Str → Str → Result Unit
get_consumer consumers stream name = elim (Map.get (consumer_key stream name) consumers) [
  | some c ↦ ok tt
  | none ↦ err (stream_not_found (on_stream_text name stream))
]

-- `read_message(..).await.ok()`: an error is no message.
unfoldable pub handed : Consumer → ℕ → Result StoredMessage → Option StoredMessage × Consumer
unfolding record_delivery
handed c now (err e) = (none, c)
handed c now (ok msg) = (some msg, record_delivery c now c.state.next_sequence)

-- What a consumer is handed next, and what it then has recorded.
unfoldable pub poll : MemoryStore → Str → ℕ → Consumer → Option StoredMessage × Consumer
unfolding is_backpressured handed
poll store stream now c =
    if is_backpressured c
    then (none, c)
    else handed c now (read_message store stream c.state.next_sequence)

unfoldable pub next_for_consumer :
    MemoryStore → Consumers → Str → Str → ℕ → Result (Option StoredMessage) × Consumers
unfolding poll
next_for_consumer store consumers stream name now =
    let key = consumer_key stream name in
    elim (Map.get key consumers) [
      | none ↦ (err (stream_not_found (consumer_text name)), consumers)
      | some c ↦ let (msg, c') = poll store stream now c in (ok msg, Map.insert key c' consumers)
    ]

unfoldable pub ack_message : Consumers → Str → Str → ℕ → Bool × Consumers
unfolding ack
ack_message consumers stream name sequence =
    let key = consumer_key stream name in
    elim (Map.get key consumers) [
      | none ↦ (false, consumers)
      | some c ↦ let (valid, c') = ack c sequence in (valid, Map.insert key c' consumers)
    ]
