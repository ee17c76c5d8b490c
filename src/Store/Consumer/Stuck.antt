-- ===== src/Store/Consumer/Stuck.antt =====
-- A consumer of crates/zetmq-store/src/consumer.rs whose next message the retention has taken away.
use zet_mq.Prelude.{
  ℕ, ◌+◌, ◌≡◌, ◌<◌, refl, ap, ◌∙◌, List, [], ◌∷◌, Option, none, some, arith, Bool-cases,
  Option-cases, inl, inr, length, All, str_eq_refl,
}
use zet_mq.Text.{Str}
use zet_mq.Map
use zet_mq.Map.{Map, nat_key, str_key, get-insert}
use zet_mq.Core.Metrics.{u64_mod}
use zet_mq.Core.Delivery.{Bytes}
use zet_mq.Store.Stream
use zet_mq.Store.Stream.{Stream, StoredMessage}
use zet_mq.Store.Stream.Log.{IsStream, read-number, store-IsStream, store-first_seq-le}
use zet_mq.Store.Memory.{MemoryStore, read_message, store_message, or_stream}
use zet_mq.Store.Consumer.{Consumer, ack, is_backpressured, poll, handed}

-- What happens to a stream and to one of its consumers: a message is stored, the consumer polls, or
-- it acknowledges a number.
pub data Event : Type 0 where
  publish : ℕ → ℕ → Str → Option Str → Bytes → Option (List (Str × Str)) → Event
  ask : ℕ → Event
  acknowledge : ℕ → Event

-- The answers to the polls of a run.
unfoldable pub answers : Str → List Event → MemoryStore → Consumer → List (Option StoredMessage)
unfolding poll ack store_message
answers stream [] store c = []
answers stream (publish timestamp now subject reply_to payload headers ∷ events) store c =
    answers stream events
      (store_message store timestamp now stream subject reply_to payload headers).1 c
answers stream (ask now ∷ events) store c =
    let (msg, c') = poll store stream now c in msg ∷ answers stream events store c'
answers stream (acknowledge sequence ∷ events) store c =
    answers stream events store (ack c sequence).1

ack-next_sequence : (c : Consumer) (q : ℕ) → (ack c q).1.state.next_sequence ≡ c.state.next_sequence
unfolding ack
ack-next_sequence c q = elim (Option-cases (Map.get q c.state.pending_acks)) [
  | inl missing ↦ rw (missing, ack) refl
  | inr (time, found) ↦ rw (found, ack) refl
]

module _ (stream : Str) where
  -- The next message of the consumer lies before the first one that is kept.
  pub record IsBehind (store : MemoryStore) (c : Consumer) (s : Stream) : Type 0 where
    pub found : Map.get stream store ≡ some s
    pub kept : IsStream s
    pub behind : c.state.next_sequence < s.state.first_seq

  poll-behind :
      {store : MemoryStore} {c : Consumer} {s : Stream} (now : ℕ)
      → IsBehind store c s
      → poll store stream now c ≡ (none, c)
  unfolding poll handed read_message
  poll-behind {store} {c} {s} now h =
      let gone = (read-number s h.kept c.state.next_sequence).1 (inl h.behind) in
      elim (Bool-cases (is_backpressured c)) [
        | inl full ↦ rw (full, poll) refl
        | inr ready ↦ rw (ready, poll, h.found, read_message, gone) refl
      ]

  get-store_message :
      (store : MemoryStore) (s : Stream)
      → Map.get stream store ≡ some s
      → (timestamp now : ℕ) (subject : Str) (reply_to : Option Str) (payload : Bytes)
        (headers : Option (List (Str × Str)))
      → Map.get stream (store_message store timestamp now stream subject reply_to payload headers).1
        ≡ some (Stream.store s timestamp now subject reply_to payload headers).1
  unfolding store_message
  get-store_message store s found timestamp now subject reply_to payload headers =
      get-insert stream stream _ store ∙ rw (str_eq_refl stream, ap (or_stream stream) found) refl

  -- Let the next number of a consumer lie below the first number that its stream keeps, and let the
  -- stream satisfy its invariant. In every run of stores, polls and acknowledgements, for which
  -- numbers are left, no poll hands the consumer a message.
  pub answers-none :
      (events : List Event) {store : MemoryStore} {c : Consumer} {s : Stream}
      → IsBehind store c s
      → s.state.last_seq + length events + 2 < u64_mod
      → All (λ answer. answer ≡ none) (answers stream events store c)
  unfolding answers
  answers-none [] h room = tt
  answers-none (publish timestamp now subject reply_to payload headers ∷ events) {store} {c} {s} h
        room =
      let room' : s.state.last_seq + 2 < u64_mod = omega arith in
      let (good, number, last) =
        store-IsStream s h.kept room' timestamp now subject reply_to payload headers in
      let later =
        store-first_seq-le s h.kept room' timestamp now subject reply_to payload headers in
      answers-none events
        (record {
          found = get-store_message store s h.found timestamp now subject reply_to payload headers;
          kept = good;
          behind = omega (arith, h.behind, later);
        })
        (omega (arith, room, last))
  answers-none (ask now ∷ events) {store} {c} {s} h room =
      rw (poll-behind now h) (refl, answers-none events h (omega arith))
  answers-none (acknowledge q ∷ events) {store} {c} {s} h room =
      answers-none events
        (record {
          found = h.found;
          kept = h.kept;
          behind = omega (arith, h.behind, ack-next_sequence c q);
        })
        (omega arith)
