-- ===== src/Core/Broker/Runs.antt =====
-- Runs of the broker of crates/zetmq-core/src/broker/core.rs: subscriptions, removals and publishes
-- in any order.
use zet_mq.Prelude.{
  ℕ, ◌+◌, ◌%◌, ◌≡◌, ◌<◌, refl, List, [], ◌∷◌, Option, none, some, arith, All, count, Bool-cases,
  Option-cases, inl, inr, length, is_empty, get_elem?,
}
use zet_mq.Text.{Str}
use zet_mq.Map
use zet_mq.Core.Subject.{Subject}
use zet_mq.Core.Subject.Parsing.{IsSubject}
use zet_mq.Core.Pattern.{SubjectPattern}
use zet_mq.Core.Pattern.Parsing.{IsPattern}
use zet_mq.Core.Engine
use zet_mq.Core.Registry
use zet_mq.Core.Registry.{Subscription, QueueGroupKey}
use zet_mq.Core.Registry.Live.{count-match_subject_live, is_match}
use zet_mq.Core.Metrics
use zet_mq.Core.Metrics.{u64_mod}
use zet_mq.Core.Delivery.{Message, DeliveryHandle, DeliveryStatus, delivered, channel_full, failed}
use zet_mq.Core.Broker.{
  BrokerCore, State, Gathered, group_key, new, count_in, subscribe, unsubscribe, remove_connection,
  publish, deliver_matches, deliver_queue_group, deliver_to_subscriber, send, send_each, gather_one,
  gather_each, handle_delivery_status, delivery_of, same_group, flush_group, nothing_gathered,
}
use zet_mq.Core.Broker.Invariant.{
  IsBroker, Same, Same-IsBroker, Same-trans, new-IsBroker, subscribe-IsBroker, unsubscribe-IsBroker,
  remove_connection-IsBroker, subscribe-next_sub_id, unsubscribe-next_sub_id,
  remove_connection-next_sub_id,
}

pub Same-refl : (b : BrokerCore) → Same b b
unfolding Same
Same-refl b = (refl, refl, refl, refl, refl)

module _ (D : DeliveryHandle) where
  open D use {Channels, deliver}

  status-Same : (st : DeliveryStatus) (b : BrokerCore) → Same b (handle_delivery_status D st b)
  unfolding Same Metrics.add_delivered Metrics.add_dropped
  status-Same delivered b = (refl, refl, refl, refl, refl)
  status-Same channel_full b = (refl, refl, refl, refl, refl)
  status-Same (failed e) b = (refl, refl, refl, refl, refl)

  send-Same :
      (id : ℕ) (sub : Subscription) (m : Message) (s : State D) → Same s.0 (send D (id, sub) m s).0
  unfolding send
  send-Same id sub m s = status-Same (deliver s.1 sub.delivery (delivery_of sub id m)).0 s.0

  deliver_to-Same :
      (id : ℕ) (m : Message) (s : State D) → Same s.0 (deliver_to_subscriber D id m s).0
  unfolding deliver_to_subscriber
  deliver_to-Same id m s = elim (Option-cases (Registry.get s.0.registry id)) [
    | inl missing ↦ rw (missing, deliver_to_subscriber) (Same-refl s.0)
    | inr (sub, found) ↦ rw (found, deliver_to_subscriber) (send-Same id sub m s)
  ]

  deliver_queue_group-Same :
      (key : QueueGroupKey) (ids : List ℕ) (m : Message) (s : State D)
      → Same s.0 (deliver_queue_group D key ids m s).0
  unfolding deliver_queue_group
  deliver_queue_group-Same key ids m s = elim (Bool-cases (is_empty ids)) [
    | inl none_matched ↦ rw (none_matched, deliver_queue_group) (Same-refl s.0)
    | inr matched ↦ elim (Option-cases (Map.get key s.0.queue_groups)) [
      | inl missing ↦ rw (matched, deliver_queue_group, missing) (Same-refl s.0)
      | inr (g, found) ↦ elim (Bool-cases (is_empty g.members)) [
        | inl empty ↦ rw (matched, deliver_queue_group, found, empty) (Same-refl s.0)
        | inr full ↦
            let b' : BrokerCore = record s.0 {
              queue_groups =
                  Map.insert key (record g { current_index = (g.current_index + 1) % u64_mod })
                    s.0.queue_groups;
            } in
            elim (Option-cases (get_elem? g.members (g.current_index % length g.members))) [
              | inl beyond ↦
                  rw (matched, deliver_queue_group, found, full, beyond)
                    (unfold Same in (refl, refl, refl, refl, refl))
              | inr (id, at) ↦
                  rw (matched, deliver_queue_group, found, full, at)
                    (Same-trans s.0 b' _ (unfold Same in (refl, refl, refl, refl, refl))
                      (deliver_to-Same id m (b', s.1)))
            ]
      ]
    ]
  ]

  send_each-Same :
      (ts : List (ℕ × Subscription)) (m : Message) (s : State D) → Same s.0 (send_each D ts m s).0
  unfolding send_each
  send_each-Same [] m s = Same-refl s.0
  send_each-Same ((id, sub) ∷ ts) m s =
      Same-trans s.0 (send D (id, sub) m s).0 _ (send-Same id sub m s)
        (send_each-Same ts m (send D (id, sub) m s))

  flush_group-Same : (g : Gathered) (m : Message) (s : State D) → Same s.0 (flush_group D g m s).0
  flush_group-Same g m s = flushed g.last_queue_group_key
    where
      flushed :
          (last : Option QueueGroupKey)
          → Same s.0
              (elim last as (λ _. State D) [
                | none ↦ s
                | some key ↦ deliver_queue_group D key g.queue_group_members m s
              ]).0
      flushed none = Same-refl s.0
      flushed (some key) = deliver_queue_group-Same key g.queue_group_members m s

  gather_one-Same :
      (id : ℕ) (m : Message) (g : Gathered) (s : State D) → Same s.0 (gather_one D id m (g, s)).1.0
  unfolding gather_one
  gather_one-Same id m g s = elim (Option-cases (Registry.get s.0.registry id)) [
    | inl missing ↦ rw (missing, gather_one) (Same-refl s.0)
    | inr (sub, found) ↦ elim (Option-cases sub.queue_group_key) [
      | inl alone ↦ rw (found, gather_one, alone) (Same-refl s.0)
      | inr (key, grouped) ↦ elim (Bool-cases (same_group D g.last_queue_group_key key)) [
        | inl same ↦ rw (found, gather_one, grouped, same) (Same-refl s.0)
        | inr other ↦ rw (found, gather_one, grouped, other) (flush_group-Same g m s)
      ]
    ]
  ]

  gather_each-Same :
      (ids : List ℕ) (m : Message) (g : Gathered) (s : State D)
      → Same s.0 (gather_each D ids m (g, s)).1.0
  unfolding gather_each
  gather_each-Same [] m g s = Same-refl s.0
  gather_each-Same (id ∷ ids) m g s =
      let next = gather_one D id m (g, s) in
      Same-trans s.0 next.1.0 _ (gather_one-Same id m g s) (gather_each-Same ids m next.0 next.1)

  pub deliver_matches-Same :
      (m : Message) (ids : List ℕ) (s : State D) → Same s.0 (deliver_matches D m ids s).0
  unfolding deliver_matches
  deliver_matches-Same m ids s =
      let gathered = gather_each D ids m (nothing_gathered, s) in
      let flushed = flush_group D gathered.0 m gathered.1 in
      Same-trans s.0 gathered.1.0 _ (gather_each-Same ids m nothing_gathered s) (
        Same-trans gathered.1.0 flushed.0 _ (flush_group-Same gathered.0 m gathered.1)
          (send_each-Same gathered.0.fanout_deliveries m flushed))

  pub count_published-Same :
      (n : ℕ) (b : BrokerCore) → Same b (count_in (Metrics.inc_published_by n) b)
  unfolding Same Metrics.inc_published_by
  count_published-Same n b = (refl, refl, refl, refl, refl)

  pub publish-Same : (m : Message) (s : State D) → Same s.0 (publish D m s).0
  unfolding publish
  publish-Same m (b, c) =
      let b' = count_in (Metrics.inc_published_by 1) b in
      Same-trans b b' _ (count_published-Same 1 b)
        (deliver_matches-Same m (Engine.match_subject b'.router m.subject) (b', c))

-- A call of the broker by a connection.
pub data Call : Type 0 where
  subscribes : ℕ → SubjectPattern → Option Str → ℕ → Call
  unsubscribes : ℕ → ℕ → Call
  disconnects : ℕ → Call
  publishes : Message → Call

unfoldable pub call : (D : DeliveryHandle) → Call → State D → State D
call D (subscribes c pattern group delivery) (b, ch) =
    ((subscribe b c pattern group delivery).1, ch)
call D (unsubscribes c id) (b, ch) = (unsubscribe b c id, ch)
call D (disconnects c) (b, ch) = (remove_connection b c, ch)
call D (publishes m) s = publish D m s

unfoldable pub run : (D : DeliveryHandle) → List Call → State D → State D
unfolding call
run D [] s = s
run D (k ∷ calls) s = run D calls (call D k s)

-- A call subscribes to parsed patterns only.
abbrev pub IsCall : Call → Type 0
IsCall (subscribes c pattern group delivery) = IsPattern pattern
IsCall (unsubscribes c id) = Unit
IsCall (disconnects c) = Unit
IsCall (publishes m) = Unit

module _ (D : DeliveryHandle) where
  publish-next_sub_id :
      (m : Message) (s : State D) → (publish D m s).0.next_sub_id ≡ s.0.next_sub_id
  publish-next_sub_id m s = let same = publish-Same D m s in (unfold Same in same.1)

  run-IsBroker :
      (calls : List Call) (s : State D)
      → All IsCall calls
      → s.0.next_sub_id + length calls < u64_mod
      → IsBroker s.0
      → IsBroker (run D calls s).0
  unfolding run
  run-IsBroker [] s good room h = h
  run-IsBroker (subscribes c pattern group delivery ∷ calls) (b, ch) good room h =
      run-IsBroker calls ((subscribe b c pattern group delivery).1, ch) good.1
        (omega (arith, subscribe-next_sub_id b c pattern group delivery))
        (subscribe-IsBroker b c pattern group delivery good.0 (omega arith) h)
  run-IsBroker (unsubscribes c id ∷ calls) (b, ch) good room h =
      run-IsBroker calls (unsubscribe b c id, ch) good.1
        (omega (arith, unsubscribe-next_sub_id b c id)) (unsubscribe-IsBroker b c id h)
  run-IsBroker (disconnects c ∷ calls) (b, ch) good room h =
      run-IsBroker calls (remove_connection b c, ch) good.1
        (omega (arith, remove_connection-next_sub_id b c)) (remove_connection-IsBroker b c h)
  run-IsBroker (publishes m ∷ calls) s good room h =
      run-IsBroker calls (publish D m s) good.1 (omega (arith, publish-next_sub_id m s))
        (Same-IsBroker s.0 _ (publish-Same D m s) h)

  -- In every run of a new broker, through `subscribe` with parsed patterns, `unsubscribe`,
  -- `remove_connection` and `publish` in any order, with fewer calls than 2^64 less one:
  -- `match_subject` of a parsed subject returns an id once if it is that of a live subscription
  -- whose pattern matches the subject, and else not at all.
  pub count-match_subject-run :
      (calls : List Call) (c : D.Channels) (s : Subject) (a : ℕ)
      → All IsCall calls
      → 1 + length calls < u64_mod
      → IsSubject s
      → count a (Engine.match_subject (run D calls (new, c)).0.router s)
        ≡ is_match s (Registry.get (run D calls (new, c)).0.registry a)
  count-match_subject-run calls c s a good room subject =
      let h = run-IsBroker calls (new, c) good (unfold new in room) new-IsBroker in
      count-match_subject_live s a h.registered.1.routed subject
