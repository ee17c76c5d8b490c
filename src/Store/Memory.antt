-- ===== src/Store/Memory.antt =====
-- crates/zetmq-store/src/memory.rs and error.rs: the streams by name. Each call holds the lock of
-- the map, and is one step on it.
use zet_mq.Prelude.{ℕ, List, map, Option, none, some}
use zet_mq.Text.{Str}
use zet_mq.Map
use zet_mq.Map.{Map, str_key}
use zet_mq.Core.Delivery.{Bytes}
use zet_mq.Store.Stream
use zet_mq.Store.Stream.{Stream, StreamConfig, StreamInfo, StoredMessage, default_config, info}

-- An error of the operating system and one of the serializer are known by their text.
pub data StoreError : Type 0 where
  stream_not_found stream_already_exists consumer_already_exists : Str → StoreError
  invalid_offset : ℕ → ℕ → StoreError
  closed : StoreError
  io serialization : Str → StoreError

pub data Result (A : Type 0) : Type 0 where
  ok : A → Result A
  err : StoreError → Result A

abbrev pub MemoryStore : Type 0
MemoryStore = Map Str Stream

unfoldable pub create_stream : MemoryStore → Str → StreamConfig → Result StreamInfo × MemoryStore
create_stream streams name config = elim (Map.get name streams) [
  | some s ↦ (err (stream_already_exists name), streams)
  | none ↦ let stream = Stream.new name config in (ok (info stream), Map.insert name stream streams)
]

unfoldable pub delete_stream : MemoryStore → Str → Result Unit × MemoryStore
delete_stream streams name = (ok tt, Map.remove name streams)

unfoldable pub stream_info : MemoryStore → Str → Result StreamInfo
stream_info streams name = elim (Map.get name streams) [
  | some s ↦ ok (info s)
  | none ↦ err (stream_not_found name)
]

-- `iterate` is the order in which the hash map hands out its entries.
unfoldable pub list_streams :
    (List (Str × Stream) → List (Str × Stream)) → MemoryStore → List StreamInfo
list_streams iterate streams =
    map (λ (entry : Str × Stream). info entry.1) (iterate streams.entries)

abbrev pub or_stream : Str → Option Stream → Stream
or_stream name none = Stream.new name default_config
or_stream name (some s) = s

-- A stream that is missing is made.
unfoldable pub store_message :
    MemoryStore
    → ℕ
    → ℕ
    → Str
    → Str
    → Option Str
    → Bytes
    → Option (List (Str × Str))
    → Result ℕ × MemoryStore
store_message streams timestamp now stream_name subject reply_to payload headers =
    let stream = or_stream stream_name (Map.get stream_name streams) in
    let (seq, stream') = Stream.store stream timestamp now subject reply_to payload headers in
    (ok seq, Map.insert stream_name stream' streams)

abbrev found_message : Stream → ℕ → Option StoredMessage → Result StoredMessage
found_message s sequence (some msg) = ok msg
found_message s sequence none = err (invalid_offset sequence s.state.last_seq)

unfoldable pub read_message : MemoryStore → Str → ℕ → Result StoredMessage
read_message streams stream_name sequence = elim (Map.get stream_name streams) [
  | none ↦ err (stream_not_found stream_name)
  | some s ↦ found_message s sequence (Stream.read s sequence)
]

unfoldable pub read_range : MemoryStore → Str → ℕ → ℕ → Result (List StoredMessage)
read_range streams stream_name start end_seq = elim (Map.get stream_name streams) [
  | none ↦ err (stream_not_found stream_name)
  | some s ↦ ok (Stream.read_range s start end_seq)
]
