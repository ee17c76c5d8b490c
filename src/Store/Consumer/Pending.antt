-- ===== src/Store/Consumer/Pending.antt =====
-- The pending acknowledgements of a consumer of crates/zetmq-store/src/consumer.rs, and the order in
-- which it is handed the messages.
use zet_mq.Prelude.{
  ℕ, is_some, ◌+◌, ◌≡◌, ◌≤◌, ◌<◌, refl, false, List, [], ◌∷◌, Option, none, some, arith, ==_refl,
  Bool-cases, Option-cases, inl, inr,
}
use zet_mq.Text.{Str}
use zet_mq.Map
use zet_mq.Map.{
  Map, nat_key, str_key, size, size-insert, size-remove-le, get-insert, get-remove, get-empty,
}
use zet_mq.Core.Metrics.{u64_mod}
use zet_mq.Store.Stream.{Stream, StoredMessage}
use zet_mq.Store.Stream.Log.{IsStream, read-number}
use zet_mq.Store.Memory.{MemoryStore, Result, ok, err, read_message}
use zet_mq.Store.Consumer.{
  Consumer, ConsumerConfig, new, record_delivery, ack, is_backpressured, poll, handed,
}

-- The count is that of the pending numbers, which lie below the next one, and no more are pending
-- than the limit allows.
pub record IsConsumer (c : Consumer) : Type 0 where
  pub counted : c.state.pending_ack_count ≡ size c.state.pending_acks
  pub ahead : (q : ℕ) → c.state.next_sequence ≤ q → Map.get q c.state.pending_acks ≡ none
  pub limited : 0 < c.config.max_ack_pending → c.state.pending_ack_count ≤ c.config.max_ack_pending

pub new-IsConsumer : (config : ConsumerConfig) (last : ℕ) → IsConsumer (new config last)
unfolding new Map.empty
new-IsConsumer config last = record {
  counted = refl;
  ahead = λ q h. get-empty {V = ℕ} q;
  limited = λ h. omega arith;
}

-- An acknowledgement keeps the invariant.
pub ack-IsConsumer : (c : Consumer) (q : ℕ) → IsConsumer c → IsConsumer (ack c q).1
unfolding ack
ack-IsConsumer c q h = elim (Option-cases (Map.get q c.state.pending_acks)) [
  | inl missing ↦ rw (missing, ack) h
  | inr (time, found) ↦
      rw (found, ack)
        (record {
          counted = refl;
          ahead = λ p le. ground (arith, get-remove q p c.state.pending_acks, h.ahead p le);
          limited = λ limit.
              ground (arith, size-remove-le q c.state.pending_acks, h.counted, h.limited limit);
        })
]

-- `ack` accepts a number exactly if it is pending, and refuses it when it is acknowledged again.
pub ack_once :
    (c : Consumer) (q : ℕ)
    → ((ack c q).0 ≡ is_some (Map.get q c.state.pending_acks)) × ((ack (ack c q).1 q).0 ≡ false)
unfolding ack
ack_once c q = elim (Option-cases (Map.get q c.state.pending_acks)) [
  | inl missing ↦ rw (missing, ack) (refl, rw (missing, ack) refl)
  | inr (time, found) ↦
      let gone : Map.get q (Map.remove q c.state.pending_acks) ≡ none =
        ground (arith, get-remove q q c.state.pending_acks, ==_refl q) in
      rw (found, ack) (refl, rw (gone, ack) refl)
]

module _ (c : Consumer) (h : IsConsumer c) (now : ℕ) where
  record_delivery-IsConsumer :
      c.state.next_sequence + 1 < u64_mod
      → c.state.pending_ack_count + 1 < u64_mod
      → is_backpressured c ≡ false
      → IsConsumer (record_delivery c now c.state.next_sequence)
  unfolding record_delivery is_backpressured
  record_delivery-IsConsumer room few ready =
      let fresh = h.ahead c.state.next_sequence (omega arith) in
      record {
        counted = ground (
          arith,
          size-insert c.state.next_sequence now c.state.pending_acks,
          fresh,
          h.counted,
          few,
        );
        ahead = λ q le.
            ground
              (arith, room, get-insert c.state.next_sequence q now c.state.pending_acks, h.ahead q);
        limited = λ limit. ground (arith, ready, few);
      }

  handed-IsConsumer :
      (r : Result StoredMessage)
      → c.state.next_sequence + 1 < u64_mod
      → c.state.pending_ack_count + 1 < u64_mod
      → is_backpressured c ≡ false
      → IsConsumer (handed c now r).1
  unfolding handed
  handed-IsConsumer (err e) room few ready = h
  handed-IsConsumer (ok msg) room few ready = record_delivery-IsConsumer room few ready

  -- A poll keeps the invariant of a consumer whose next number and pending count can still be
  -- counted on: the count is that of the pending numbers, these lie below the next number, and no
  -- more are pending than the limit allows.
  pub poll-IsConsumer :
      (store : MemoryStore) (stream : Str)
      → c.state.next_sequence + 1 < u64_mod
      → c.state.pending_ack_count + 1 < u64_mod
      → IsConsumer (poll store stream now c).1
  unfolding poll
  poll-IsConsumer store stream room few = elim (Bool-cases (is_backpressured c)) [
    | inl full ↦ rw (full, poll) h
    | inr ready ↦
        rw (ready, poll)
          (handed-IsConsumer (read_message store stream c.state.next_sequence) room few ready)
  ]

-- The answers to a number of polls, at the times `now`, of a stream that does not change.
unfoldable pub polls : MemoryStore → Str → List ℕ → Consumer → List (Option StoredMessage)
unfolding poll
polls store stream [] c = []
polls store stream (now ∷ nows) c =
    let (msg, c') = poll store stream now c in msg ∷ polls store stream nows c'

abbrev pub IsNumber : ℕ → Option StoredMessage → Type 0
IsNumber q none = ⊥
IsNumber q (some msg) = msg.sequence ≡ q

-- The answers are messages with the numbers from `first` on.
abbrev pub IsInOrder : ℕ → List (Option StoredMessage) → Type 0
IsInOrder first [] = Unit
IsInOrder first (answer ∷ answers) = IsNumber first answer × IsInOrder (first + 1) answers

module _ (store : MemoryStore) (stream : Str) (s : Stream) (found : Map.get stream store ≡ some s)
    (good : IsStream s) where
  -- A message that is kept is read from the store by its number.
  pub read_message-kept :
      (q : ℕ)
      → s.state.first_seq ≤ q
      → q ≤ s.state.last_seq
      → (msg : StoredMessage) × (read_message store stream q ≡ ok msg) × (msg.sequence ≡ q)
  unfolding read_message
  read_message-kept q lo hi =
      let (msg, at, number) = (read-number s good q).0 lo hi in
      (msg, rw (found, read_message, at) refl, number)
