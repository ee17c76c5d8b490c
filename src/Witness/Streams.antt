-- ===== src/Witness/Streams.antt =====
-- A stream and a consumer on concrete messages.
use zet_mq.Prelude.{
  ℕ, ◌+◌, ◌-◌, ◌*◌, ◌≡◌, ◌⊎◌, ◌≤◌, ◌<◌, refl, false, not, List, [], ◌∷◌, none, some, arith,
  if◌then◌else◌, ◌==◌, ltb, length, retain, All, is_some, str_eq,
}
use zet_mq.Text.{Str}
use zet_mq.Map
use zet_mq.Map.{str_key, nat_key, get-insert}
use zet_mq.Store.Stream
use zet_mq.Store.Stream.{
  Stream, StoredMessage, StreamConfig, Deque, store, stored, read, apply_retention, default_config,
}
use zet_mq.Store.Stream.Log.{IsStream, new-IsStream, store-IsStream, read-store}
use zet_mq.Store.Stream.Retention.{retention-bounds, retention-age, store-lost}
use zet_mq.Store.Memory.{MemoryStore}
use zet_mq.Store.Consumer
use zet_mq.Store.Consumer.{Consumer, ConsumerConfig, poll, ack, all, explicit}
use zet_mq.Store.Consumer.Pending.{IsConsumer, new-IsConsumer, poll-IsConsumer, ack_once}
use zet_mq.Store.Consumer.Stuck.{Event, publish, ask, answers, answers-none}

-- "s", and a stream of this name that keeps one message.
abbrev name : Str
name = 115 ∷ []

abbrev one_kept : StreamConfig
one_kept = record { max_msgs = 1; max_bytes = 0; max_age_secs = 0 }

abbrev empty_stream : Stream
empty_stream = Stream.new name one_kept

empty_good : IsStream empty_stream
empty_good = new-IsStream name one_kept

room : empty_stream.state.last_seq + 2 < 18446744073709551616
unfolding Stream.new
room = omega arith

-- One message, and then another, which takes the place of the first.
abbrev stream_one : Stream
stream_one = (store empty_stream 10 11 (97 ∷ []) none (1 ∷ []) none).1

abbrev stream_two : Stream
stream_two = (store stream_one 20 21 (97 ∷ []) none (2 ∷ []) none).1

one_good : IsStream stream_one
one_good = (store-IsStream empty_stream empty_good room 10 11 (97 ∷ []) none (1 ∷ []) none).0

store-IsStream_example :
    IsStream stream_one
    × ((store empty_stream 10 11 (97 ∷ []) none (1 ∷ []) none).0 ≡ empty_stream.state.last_seq + 1)
    × (stream_one.state.last_seq ≡ empty_stream.state.last_seq + 1)
store-IsStream_example =
    store-IsStream empty_stream empty_good room 10 11 (97 ∷ []) none (1 ∷ []) none

room_one : stream_one.state.last_seq + 2 < 18446744073709551616
unfolding store Stream.new
room_one = omega arith

two_good : IsStream stream_two
two_good = (store-IsStream stream_one one_good room_one 20 21 (97 ∷ []) none (2 ∷ []) none).0

read-store_example : read stream_two 2 ≡ (
    if ltb 2 stream_two.state.first_seq
    then none
    else if 2 == (store stream_one 20 21 (97 ∷ []) none (2 ∷ []) none).0
    then some (stored stream_one 20 (97 ∷ []) none (2 ∷ []) none)
    else read stream_one 2)
read-store_example = read-store stream_one one_good room_one 20 21 (97 ∷ []) none (2 ∷ []) none 2

abbrev kept : Deque
kept = (stream_two.messages, stream_two.state)

retention-bounds_example :
    (0 < one_kept.max_msgs → length (apply_retention one_kept 30 kept).0 ≤ one_kept.max_msgs)
    × (0 < one_kept.max_bytes
        → (length (apply_retention one_kept 30 kept).0 ≤ 1)
          ⊎ ((apply_retention one_kept 30 kept).1.bytes ≤ one_kept.max_bytes))
    × (one_kept.max_msgs ≡ 0
        → one_kept.max_bytes ≡ 0
        → one_kept.max_age_secs ≡ 0
        → apply_retention one_kept 30 kept ≡ kept)
retention-bounds_example = retention-bounds one_kept 30 kept

abbrev aged : StreamConfig
aged = record { max_msgs = 0; max_bytes = 0; max_age_secs = 1 }

abbrev message_at : ℕ → StoredMessage
message_at time = record {
  sequence = 1;
  timestamp = time;
  subject = 97 ∷ [];
  reply_to = none;
  payload = [];
  headers = none;
}

abbrev two_times : Deque
two_times = (
  message_at 100 ∷ message_at 4500 ∷ [],
  record { messages = 2; bytes = 0; first_seq = 1; last_seq = 2 },
)

retention-age_example :
    (apply_retention aged 5000 two_times).0
    ≡ retain (λ (m : StoredMessage). not (ltb m.timestamp (5000 - 1 * 1000))) two_times.0
retention-age_example =
    retention-age aged 5000 two_times (omega arith) refl refl (omega arith) (omega arith)
      (omega arith, (omega arith, tt))

-- The limit of 2 seconds reaches back before the epoch at the time 11.
abbrev long_lived : Stream
long_lived = Stream.new name (record { max_msgs = 0; max_bytes = 0; max_age_secs = 2 })

nothing_yet : All (λ (m : StoredMessage). m.timestamp ≤ 11) long_lived.messages
unfolding Stream.new
nothing_yet = tt

limit_ahead :
    (11 < long_lived.config.max_age_secs * 1000)
    × (long_lived.config.max_age_secs * 1000 < 18446744073709551616)
unfolding Stream.new
limit_ahead = (omega arith, omega arith)

store-lost_example : (store long_lived 10 11 (97 ∷ []) none (1 ∷ []) none).1.messages ≡ []
store-lost_example =
    store-lost long_lived 10 11 (97 ∷ []) none (1 ∷ []) none limit_ahead.0 limit_ahead.1
      (omega arith) nothing_yet

-- A consumer of all messages.
abbrev config_all : ConsumerConfig
config_all = record {
  durable_name = 119 ∷ [];
  stream = name;
  filter_subject = none;
  deliver_policy = all;
  ack_policy = explicit;
  max_ack_pending = 0;
}

abbrev reader : Consumer
reader = Consumer.new config_all 0

abbrev store_of : Stream → MemoryStore
store_of s = Map.insert name s Map.empty

found_of : (s : Stream) → Map.get name (store_of s) ≡ some s
unfolding Map.get Map.insert Map.empty str_eq
found_of s = refl

few :
    (reader.state.next_sequence + 1 < 18446744073709551616)
    × (reader.state.pending_ack_count + 1 < 18446744073709551616)
unfolding Consumer.new
few = (omega arith, omega arith)

poll-IsConsumer_example : IsConsumer (poll (store_of stream_one) name 40 reader).1
poll-IsConsumer_example =
    poll-IsConsumer reader (new-IsConsumer config_all 0) 40 (store_of stream_one) name few.0 few.1

ack_once_example :
    ((ack reader 1).0 ≡ is_some (Map.get 1 reader.state.pending_acks))
    × ((ack (ack reader 1).1 1).0 ≡ false)
ack_once_example = ack_once reader 1

-- The reader waits for the first message, which is gone.
gone : reader.state.next_sequence < stream_two.state.first_seq
unfolding store Stream.new Consumer.new
gone = omega arith

left_over : stream_two.state.last_seq + 2 + 2 < 18446744073709551616
unfolding store Stream.new
left_over = omega arith

abbrev events : List Event
events = publish 50 51 (97 ∷ []) none (3 ∷ []) none ∷ ask 60 ∷ []

answers-none_example :
    All (λ answer. answer ≡ none) (answers name events (store_of stream_two) reader)
answers-none_example =
    answers-none name events
      (record { found = found_of stream_two; kept = two_good; behind = gone }) left_over
