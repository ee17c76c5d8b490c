-- ===== src/Server/StoreManager.antt =====
-- crates/zetmq-server/src/store.rs: the streams and the consumers of the server.
use zet_mq.Prelude.{ℕ, Bool, List, Option}
use zet_mq.Text.{Str}
use zet_mq.Map
use zet_mq.Core.Delivery.{Bytes}
use zet_mq.Store.Stream.{Stream, StreamConfig, StreamInfo}
use zet_mq.Store.Memory
use zet_mq.Store.Memory.{MemoryStore, Result}
use zet_mq.Store.Consumer
use zet_mq.Store.Consumer.{Consumers, ConsumerConfig}

pub record StoreManager : Type 0 where
  pub store : MemoryStore
  pub consumers : Consumers

unfoldable pub new : StoreManager
new = record { store = Map.empty; consumers = Map.empty }

unfoldable pub create_stream : StoreManager → Str → StreamConfig → Result StreamInfo × StoreManager
create_stream m name config =
    let (result, store') = Memory.create_stream m.store name config in
    (result, record m { store = store' })

unfoldable pub delete_stream : StoreManager → Str → Result Unit × StoreManager
delete_stream m name =
    let (result, store') = Memory.delete_stream m.store name in
    (result, record m { store = store' })

abbrev pub stream_info : StoreManager → Str → Result StreamInfo
stream_info m name = Memory.stream_info m.store name

abbrev pub list_streams :
    (List (Str × Stream) → List (Str × Stream)) → StoreManager → List StreamInfo
list_streams iterate m = Memory.list_streams iterate m.store

unfoldable pub store_message :
    StoreManager
    → ℕ
    → ℕ
    → Str
    → Str
    → Option Str
    → Bytes
    → Option (List (Str × Str))
    → Result ℕ × StoreManager
store_message m timestamp now stream_name subject reply_to payload headers =
    let (result, store') =
      Memory.store_message m.store timestamp now stream_name subject reply_to payload headers in
    (result, record m { store = store' })

unfoldable pub create_consumer : StoreManager → ConsumerConfig → Result Unit × StoreManager
create_consumer m config =
    let (result, consumers') = Consumer.create_consumer m.store m.consumers config in
    (result, record m { consumers = consumers' })

unfoldable pub ack : StoreManager → Str → Str → ℕ → Bool × StoreManager
ack m stream consumer sequence =
    let (valid, consumers') = Consumer.ack_message m.consumers stream consumer sequence in
    (valid, record m { consumers = consumers' })
