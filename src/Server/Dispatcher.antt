-- ===== src/Server/Dispatcher.antt =====
-- crates/zetmq-server/src/runtime/dispatcher.rs. A task that is spawned for the store is put on a
-- list, and runs as a step of its own.
use zet_mq.Prelude.{
  ℕ, zero, suc, ◌+◌, ◌/◌, ◌%◌, ◌++◌, List, [], ◌∷◌, Option, none, some, if◌then◌else◌, ltb,
  is_empty, be_bytes,
}
use zet_mq.Text.{Str, from_utf8}
use zet_mq.Map
use zet_mq.Map.{Map, nat_key}
use zet_mq.Core.Subject
use zet_mq.Core.Subject.{Subject}
use zet_mq.Core.Pattern
use zet_mq.Core.Pattern.{SubjectPattern}
use zet_mq.Core.QueueGroup
use zet_mq.Core.Delivery.{Bytes, PublishItem}
use zet_mq.Core.Broker
use zet_mq.Core.Broker.{BrokerCore, parse_subject, publish_with_str}
use zet_mq.Core.Broker.Batch.{publish_batch}
use zet_mq.Store.Stream
use zet_mq.Store.Stream.{StreamConfig, StreamInfo, default_config}
use zet_mq.Store.Memory
use zet_mq.Protocol.Frame
use zet_mq.Protocol.Frame.{Frame}
use zet_mq.Protocol.FrameType
use zet_mq.Protocol.StreamInfo.{StreamInfoResponse, encode_payload}
use zet_mq.Protocol.Command.{
  BrokerCommand, PublishCommand, SubscribeCommand, connect, publish, subscribe, unsubscribe, ping,
  create_stream, delete_stream, ack, nack,
}
use zet_mq.Server.StoreManager
use zet_mq.Server.StoreManager.{StoreManager}
use zet_mq.Server.Outbound.{
  OutboundFrame, raw, Host, channel_delivery, error_frame, create_stream_error, delete_stream_error,
}

-- `SubConsumerMap`: the stream and the consumer of a subscription.
abbrev pub SubConsumerMap : Type 0
SubConsumerMap = Map ℕ (Str × Str)

abbrev pub insert : SubConsumerMap → ℕ → Str → Str → SubConsumerMap
insert m sub_id stream consumer = Map.insert sub_id (stream, consumer) m

abbrev pub remove : SubConsumerMap → ℕ → SubConsumerMap
remove m sub_id = Map.remove sub_id m

abbrev pub get : SubConsumerMap → ℕ → Option (Str × Str)
get m sub_id = Map.get sub_id m

-- A number below 2^64 in decimal: at most 20 digits.
unfoldable pub digits : ℕ → ℕ → Str
digits zero n = []
digits (suc fuel) n =
    let front = digits fuel (n / 10) in
    if ltb n 10 then (b'0' + n) ∷ [] else front ++ ((b'0' + n % 10) ∷ [])

-- `conn-{}-sub-{}`
abbrev pub consumer_name : ℕ → ℕ → Str
consumer_name conn_id sub_id =
    (b'c' ∷ b'o' ∷ b'n' ∷ b'n' ∷ b'-' ∷ [])
    ++ (digits 20 conn_id ++ ((b'-' ∷ b's' ∷ b'u' ∷ b'b' ∷ b'-' ∷ []) ++ digits 20 sub_id))

-- `default`
abbrev pub default_consumer : Str
default_consumer = b'd' ∷ b'e' ∷ b'f' ∷ b'a' ∷ b'u' ∷ b'l' ∷ b't' ∷ []

-- A spawned store operation of a connection.
pub data Task : Type 0 where
  create : ℕ → Str → StreamConfig → Task
  delete : ℕ → Str → Task
  acknowledge : Str → Str → ℕ → Task

-- What all sessions share, and the tasks that have not run.
pub record World (C : Type 0) : Type 0 where
  pub broker : BrokerCore
  pub channels : C
  pub store : StoreManager
  pub tasks : List Task

abbrev pub or_default : Option (Str × Str) → Str
or_default none = default_consumer
or_default (some (stream, consumer)) = consumer

abbrev pub response_of : StreamInfo → StreamInfoResponse
response_of info = record {
  name = info.name;
  messages = info.state.messages;
  bytes = info.state.bytes;
  first_seq = info.state.first_seq;
  last_seq = info.state.last_seq;
  max_msgs = info.config.max_msgs;
  max_bytes = info.config.max_bytes;
  max_age_secs = info.config.max_age_secs;
}

abbrev pub group_of : Option Str → Option Str
group_of none = none
group_of (some q) = elim (QueueGroup.new q) [ Subject.ok name ↦ some name | Subject.err e ↦ none ]

abbrev pub ok_of : Subject.Result Subject → Option Subject
ok_of (Subject.ok s) = some s
ok_of (Subject.err e) = none

-- The reply subject, where it is one.
unfoldable pub reply_subject : BrokerCore → Option Bytes → Option Subject × BrokerCore
reply_subject b none = (none, b)
reply_subject b (some reply_bytes) = elim (from_utf8 reply_bytes) [
  | none ↦ (none, b)
  | some reply_to ↦ let (r, b') = parse_subject b reply_to in (ok_of r, b')
]

-- One command of a batch; what is no subject is left out.
unfoldable pub item_of : BrokerCore → PublishCommand → Option PublishItem × BrokerCore
unfolding reply_subject
item_of b p = elim (from_utf8 p.subject) [
  | none ↦ (none, b)
  | some subject_str ↦
      let (parsed, b') = parse_subject b subject_str in
      elim parsed [
        | Subject.err e ↦ (none, b')
        | Subject.ok subject ↦
            let (reply_to, b'') = reply_subject b' p.reply_to in
            (
              some (record {
                subject = subject;
                payload = p.payload;
                reply_to = reply_to;
                headers = p.headers;
              }),
              b'',
            )
      ]
]

abbrev pub cons_item : Option PublishItem → List PublishItem → List PublishItem
cons_item none items = items
cons_item (some item) items = item ∷ items

unfoldable pub items_of : BrokerCore → List PublishCommand → List PublishItem × BrokerCore
unfolding item_of
items_of b [] = ([], b)
items_of b (p ∷ ps) =
    let (item, b') = item_of b p in let (items, b'') = items_of b' ps in (cons_item item items, b'')

module _ (H : Host) where
  open H use {Channels, try_send, iterate}

  -- `let _ = outbound.try_send(frame)`
  abbrev pub emit : ℕ → OutboundFrame → World Channels → World Channels
  emit conn_id frame w = record w { channels = (try_send w.channels conn_id frame).1 }

  abbrev pub on_broker : (BrokerCore → BrokerCore) → World Channels → World Channels
  on_broker f w = record w { broker = f w.broker }

  abbrev pub spawn : Task → World Channels → World Channels
  spawn task w = record w { tasks = w.tasks ++ (task ∷ []) }

  abbrev pub with_state : BrokerCore × Channels → World Channels → World Channels
  with_state (b, c) w = record w { broker = b; channels = c }

  unfoldable pub dispatch_publish_batch : List PublishCommand → World Channels → World Channels
  unfolding items_of
  dispatch_publish_batch publishes w =
      let (items, b) = items_of w.broker publishes in
      if is_empty publishes
      then w
      else with_state (publish_batch (channel_delivery H) iterate items (b, w.channels)) w

  unfoldable pub dispatch_publish : PublishCommand → World Channels → World Channels
  unfolding reply_subject
  dispatch_publish p w = elim (from_utf8 p.subject) [
    | none ↦ w
    | some subject_str ↦
        let (reply_to, b) = reply_subject w.broker p.reply_to in
        with_state
          (publish_with_str (channel_delivery H) subject_str p.payload reply_to p.headers
            (b, w.channels))
          w
  ]

  -- A frame that carries the id of a subscription.
  abbrev pub id_frame : FrameType.FrameType → ℕ → ℕ → OutboundFrame
  id_frame ft correlation_id sub_id =
      raw (Frame.with_payload (Frame.new ft correlation_id) (be_bytes 8 sub_id))

  unfoldable pub dispatch_subscribe :
      ℕ → SubscribeCommand → ℕ → SubConsumerMap × World Channels → SubConsumerMap × World Channels
  dispatch_subscribe conn_id s correlation_id (m, w) = elim (Pattern.parse s.subject_pattern) [
    | Subject.err e ↦ (m, w)
    | Subject.ok pattern ↦
        let (sub_id, b) =
          Broker.subscribe w.broker conn_id pattern (group_of s.queue_group) conn_id in
        (
          insert m sub_id s.subject_pattern (consumer_name conn_id sub_id),
          emit conn_id (id_frame FrameType.suback correlation_id sub_id) (record w { broker = b }),
        )
  ]

  unfoldable pub dispatch :
      ℕ → BrokerCommand → ℕ → SubConsumerMap × World Channels → SubConsumerMap × World Channels
  unfolding dispatch_publish dispatch_subscribe
  dispatch conn_id (publish p) correlation_id (m, w) = (m, dispatch_publish p w)
  dispatch conn_id (subscribe s) correlation_id (m, w) =
      dispatch_subscribe conn_id s correlation_id (m, w)
  dispatch conn_id (unsubscribe sub_id) correlation_id (m, w) = (
    remove m sub_id,
    emit conn_id (id_frame FrameType.unsuback correlation_id sub_id)
        (on_broker (λ b. Broker.unsubscribe b conn_id sub_id) w),
  )
  dispatch conn_id (create_stream c) correlation_id (m, w) =
      let config =
        Stream.with_max_age_secs
          (Stream.with_max_bytes (Stream.with_max_msgs default_config c.max_msgs) c.max_bytes)
          c.max_age_secs in
      (m, spawn (create conn_id c.name config) w)
  dispatch conn_id (delete_stream c) correlation_id (m, w) = (m, spawn (delete conn_id c.name) w)
  dispatch conn_id (ack c) correlation_id (m, w) =
      (m, spawn (acknowledge c.stream (or_default (get m correlation_id)) c.sequence) w)
  dispatch conn_id (nack c) correlation_id (m, w) = (m, w)
  dispatch conn_id (connect c) correlation_id (m, w) = (m, w)
  dispatch conn_id ping correlation_id (m, w) = (m, w)

  abbrev pub created : Memory.Result StreamInfo → OutboundFrame
  created (Memory.ok info) =
      raw
        (Frame.with_payload (Frame.new FrameType.stream_info 0) (encode_payload (response_of info)))
  created (Memory.err e) = error_frame H 0 (create_stream_error e)

  abbrev pub deleted : Memory.Result Unit → OutboundFrame
  deleted (Memory.ok _) = raw (Frame.new FrameType.stream_info 0)
  deleted (Memory.err e) = error_frame H 0 (delete_stream_error e)

  -- A spawned task runs to its end.
  unfoldable pub run_task : Task → World Channels → World Channels
  run_task (create conn_id name config) w =
      let (result, store') = StoreManager.create_stream w.store name config in
      emit conn_id (created result) (record w { store = store' })
  run_task (delete conn_id name) w =
      let (result, store') = StoreManager.delete_stream w.store name in
      emit conn_id (deleted result) (record w { store = store' })
  run_task (acknowledge stream consumer sequence) w = record w {
    store = (StoreManager.ack w.store stream consumer sequence).1;
  }
