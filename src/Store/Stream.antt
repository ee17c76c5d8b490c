-- ===== src/Store/Stream.antt =====
-- crates/zetmq-store/src/stream.rs: one stream, its reads and its retention. The time is an argument
-- of each call that asks the clock.
pub mod Deque
pub mod Log
pub mod Retention
use zet_mq.Prelude.{
  ℕ, suc, ◌+◌, ◌-◌, Bool, List, [], ◌∷◌, ◌++◌, Option, none, some, if◌then◌else◌, ltb, ◌==◌, ◌&&◌,
  ◌||◌, length, get_elem?, take, drop, min, max,
}
use zet_mq.Text.{Str}
use zet_mq.Core.Delivery.{Bytes}
use zet_mq.Store.Word.{add64, sub64, mul64}

pub record StreamConfig : Type 0 where
  pub max_msgs : ℕ
  pub max_bytes : ℕ
  pub max_age_secs : ℕ

-- The derived default: no limits.
abbrev pub default_config : StreamConfig
default_config = record { max_msgs = 0; max_bytes = 0; max_age_secs = 0 }

abbrev pub with_max_msgs : StreamConfig → ℕ → StreamConfig
with_max_msgs config n = record config { max_msgs = n }

abbrev pub with_max_bytes : StreamConfig → ℕ → StreamConfig
with_max_bytes config n = record config { max_bytes = n }

abbrev pub with_max_age_secs : StreamConfig → ℕ → StreamConfig
with_max_age_secs config secs = record config { max_age_secs = secs }

pub record StoredMessage : Type 0 where
  pub sequence : ℕ
  pub timestamp : ℕ
  pub subject : Str
  pub reply_to : Option Str
  pub payload : Bytes
  pub headers : Option (List (Str × Str))

pub record StreamState : Type 0 where
  pub messages : ℕ
  pub bytes : ℕ
  pub first_seq : ℕ
  pub last_seq : ℕ

pub record StreamInfo : Type 0 where
  pub name : Str
  pub config : StreamConfig
  pub state : StreamState

pub record Stream : Type 0 where
  pub name : Str
  pub config : StreamConfig
  pub state : StreamState
  pub messages : List StoredMessage

unfoldable pub new : Str → StreamConfig → Stream
new name config = record {
  name = name;
  config = config;
  state = record { messages = 0; bytes = 0; first_seq = 1; last_seq = 0 };
  messages = [];
}

abbrev pub info : Stream → StreamInfo
info s = record { name = s.name; config = s.config; state = s.state }

-- The messages and the counters, which the retention changes.
abbrev pub Deque : Type 0
Deque = List StoredMessage × StreamState

unfoldable pub remove_front : Deque → Deque
remove_front ([], st) = ([], st)
remove_front (msg ∷ msgs, st) = (
  msgs,
  record st {
    bytes = sub64 st.bytes (length msg.payload);
    messages = sub64 st.messages 1;
    first_seq = add64 st.first_seq 1;
  },
)

-- The three loops, each on the messages that are left.
unfoldable pub drop_aged : ℕ → List StoredMessage → StreamState → Deque
unfolding remove_front
drop_aged cutoff [] st = ([], st)
drop_aged cutoff (front ∷ msgs) st =
    let rest = drop_aged cutoff msgs (remove_front (front ∷ msgs, st)).1 in
    if ltb front.timestamp cutoff then rest else (front ∷ msgs, st)

unfoldable pub drop_excess : ℕ → List StoredMessage → StreamState → Deque
unfolding remove_front
drop_excess max_msgs [] st = ([], st)
drop_excess max_msgs (front ∷ msgs) st =
    let rest = drop_excess max_msgs msgs (remove_front (front ∷ msgs, st)).1 in
    if ltb max_msgs (length (front ∷ msgs)) then rest else (front ∷ msgs, st)

unfoldable pub drop_heavy : ℕ → List StoredMessage → StreamState → Deque
unfolding remove_front
drop_heavy max_bytes [] st = ([], st)
drop_heavy max_bytes (front ∷ msgs) st =
    let rest = drop_heavy max_bytes msgs (remove_front (front ∷ msgs, st)).1 in
    if ltb max_bytes st.bytes && ltb 1 (length (front ∷ msgs)) then rest else (front ∷ msgs, st)

-- Messages of less than this time are too old: `now - (max_age_secs * 1000)`.
abbrev pub cutoff_of : StreamConfig → ℕ → ℕ
cutoff_of config now = sub64 now (mul64 config.max_age_secs 1000)

abbrev pub by_age : StreamConfig → ℕ → Deque → Deque
by_age config now (msgs, st) =
    if ltb 0 config.max_age_secs then drop_aged (cutoff_of config now) msgs st else (msgs, st)

abbrev pub by_count : StreamConfig → Deque → Deque
by_count config (msgs, st) =
    if ltb 0 config.max_msgs then drop_excess config.max_msgs msgs st else (msgs, st)

abbrev pub by_bytes : StreamConfig → Deque → Deque
by_bytes config (msgs, st) =
    if ltb 0 config.max_bytes then drop_heavy config.max_bytes msgs st else (msgs, st)

unfoldable pub apply_retention : StreamConfig → ℕ → Deque → Deque
unfolding drop_aged drop_excess drop_heavy
apply_retention config now d = by_bytes config (by_count config (by_age config now d))

abbrev pub stored :
    Stream → ℕ → Str → Option Str → Bytes → Option (List (Str × Str)) → StoredMessage
stored s timestamp subject reply_to payload headers = record {
  sequence = add64 s.state.last_seq 1;
  timestamp = timestamp;
  subject = subject;
  reply_to = reply_to;
  payload = payload;
  headers = headers;
}

-- The message is put at the back.
abbrev pub push_back : Stream → StoredMessage → Deque
push_back s msg = (
  s.messages ++ msg ∷ [],
  record s.state {
    last_seq = msg.sequence;
    messages = add64 s.state.messages 1;
    bytes = add64 s.state.bytes (length msg.payload);
  },
)

-- `timestamp` is the time of the message, and `now` that of the retention, just after it.
unfoldable pub store :
    Stream → ℕ → ℕ → Str → Option Str → Bytes → Option (List (Str × Str)) → ℕ × Stream
unfolding apply_retention
store s timestamp now subject reply_to payload headers =
    let msg = stored s timestamp subject reply_to payload headers in
    let d = apply_retention s.config now (push_back s msg) in
    (msg.sequence, record s { messages = d.0; state = d.1 })

unfoldable pub read : Stream → ℕ → Option StoredMessage
read s sequence =
    if ltb sequence s.state.first_seq || ltb s.state.last_seq sequence
    then none
    else get_elem? s.messages (sub64 sequence s.state.first_seq)

unfoldable pub read_range : Stream → ℕ → ℕ → List StoredMessage
read_range s start end_seq =
    let lo = max start s.state.first_seq in
    let hi = min end_seq s.state.last_seq in
    if ltb hi lo
    then []
    else take (add64 (sub64 hi lo) 1) (drop (sub64 lo s.state.first_seq) s.messages)
