-- ===== src/Core/Broker/Fanout.antt =====
-- Publishing of crates/zetmq-core/src/broker/core.rs to subscribers that are in no queue group.
use zet_mq.Prelude.{
  ℕ, ◌+◌, ◌%◌, ◌≡◌, refl, map, arith, length, ap, ◌∙◌, List, [], ◌∷◌, ◌++◌, append-nil,
  append_assoc, sym, Option, none, some, All, Option-cases, inl, inr,
}
use zet_mq.Core.Registry
use zet_mq.Core.Registry.{Subscription, SubscriptionRegistry}
use zet_mq.Core.Delivery.{
  Message, DeliveryMessage, DeliveryStatus, delivered, channel_full, failed, DeliveryHandle,
}
use zet_mq.Core.Metrics
use zet_mq.Core.Metrics.{u64_mod}
use zet_mq.Core.Broker.{
  BrokerCore, State, Gathered, delivery_of, handle_delivery_status, send, gather_one, gather_each,
  send_each, deliver_matches,
}

abbrev target_of : ℕ → Option Subscription → List (ℕ × Subscription)
target_of id none = []
target_of id (some sub) = (id, sub) ∷ []

-- The live subscriptions among the ids, in their order.
unfoldable pub targets : SubscriptionRegistry → List ℕ → List (ℕ × Subscription)
targets r [] = []
targets r (id ∷ ids) = target_of id (Registry.get r id) ++ targets r ids

abbrev pub IsSingle : Option Subscription → Type 0
IsSingle none = Unit
IsSingle (some sub) = sub.queue_group_key ≡ none

module _ (D : DeliveryHandle) where
  open D use {Channels, deliver}

  gather_one-single :
      (id : ℕ) (message : Message) (g : Gathered) (s : State D)
      → IsSingle (Registry.get s.0.registry id)
      → gather_one D id message (g, s) ≡ (
        record g {
          fanout_deliveries = g.fanout_deliveries ++ target_of id (Registry.get s.0.registry id);
        },
        s,
      )
  unfolding gather_one
  gather_one-single id message g s h = elim (Option-cases (Registry.get s.0.registry id)) [
    | inl missing ↦
        rw (missing, gather_one)
          (ap (λ l. (record g { fanout_deliveries = l }, s)) (sym (append-nil g.fanout_deliveries)))
    | inr (sub, found) ↦
        let single : sub.queue_group_key ≡ none = rw found at h in
        rw (found, gather_one) (simp single)
  ]

  gather-singles :
      (ids : List ℕ) (message : Message) (g : Gathered) (s : State D)
      → All (λ id. IsSingle (Registry.get s.0.registry id)) ids
      → gather_each D ids message (g, s)
        ≡ (record g { fanout_deliveries = g.fanout_deliveries ++ targets s.0.registry ids }, s)
  unfolding gather_each targets
  gather-singles [] message g s h =
      ap (λ l. (record g { fanout_deliveries = l }, s)) (sym (append-nil g.fanout_deliveries))
  gather-singles (id ∷ ids) message g s h =
      let g' : Gathered = record g {
        fanout_deliveries = g.fanout_deliveries ++ target_of id (Registry.get s.0.registry id);
      } in
      ap (gather_each D ids message) (gather_one-single id message g s h.0)
      ∙ gather-singles ids message g' s h.1
      ∙ ap (λ l. (record g { fanout_deliveries = l }, s))
          (append_assoc g.fanout_deliveries (target_of id (Registry.get s.0.registry id))
            (targets s.0.registry ids))

  -- What each of the subscriptions is to get, and over which handle.
  abbrev pub expected : Message → ℕ × Subscription → ℕ × DeliveryMessage
  expected message (id, sub) = (
    sub.delivery,
    record {
      subscription_id = id;
      connection_id = sub.connection_id;
      subject = message.subject;
      payload = message.payload;
      reply_to = message.reply_to;
      headers = message.headers;
    },
  )

  -- The channels take messages one after another, and say of each what became of it.
  unfoldable pub handed : List (ℕ × DeliveryMessage) → Channels → List DeliveryStatus × Channels
  handed [] c = ([], c)
  handed ((handle, message) ∷ more) c =
      let (status, c') = deliver c handle message in
      let (statuses, c'') = handed more c' in (status ∷ statuses, c'')

  abbrev pub is_accepted : DeliveryStatus → ℕ
  is_accepted delivered = 1
  is_accepted _ = 0

  unfoldable pub accepted : List DeliveryStatus → ℕ
  accepted [] = 0
  accepted (status ∷ statuses) = is_accepted status + accepted statuses

  -- The messages that are accepted are counted as delivered and the others as dropped, modulo
  -- 2^64, and nothing else changes.
  abbrev pub Counted : List DeliveryStatus → BrokerCore → BrokerCore → Type 0
  Counted statuses b b' =
      (b'.metrics.messages_delivered % u64_mod
        ≡ (b.metrics.messages_delivered + accepted statuses) % u64_mod)
      × ((b'.metrics.messages_dropped + accepted statuses) % u64_mod
          ≡ (b.metrics.messages_dropped + length statuses) % u64_mod)
      × (b' ≡ record b {
        metrics = record b.metrics {
          messages_delivered = b'.metrics.messages_delivered;
          messages_dropped = b'.metrics.messages_dropped;
        };
      })

  -- All that sending to some subscriptions does.
  abbrev pub Sent : Message → List (ℕ × Subscription) → State D → State D → Type 0
  Sent message subs (b, c) (b', c') =
      (c' ≡ (handed (map (expected message) subs) c).1)
      × Counted (handed (map (expected message) subs) c).0 b b'

  Counted-one :
      (status : DeliveryStatus) (statuses : List DeliveryStatus) (b b' : BrokerCore)
      → Counted statuses (handle_delivery_status D status b) b'
      → Counted (status ∷ statuses) b b'
  unfolding accepted Metrics.add_delivered Metrics.add_dropped
  Counted-one delivered statuses b b' (d, n, same) = (omega arith, omega arith, same)
  Counted-one channel_full statuses b b' (d, n, same) = (omega arith, omega arith, same)
  Counted-one (failed error) statuses b b' (d, n, same) = (omega arith, omega arith, same)

  send_each-Sent :
      (subs : List (ℕ × Subscription)) (message : Message) (s : State D)
      → Sent message subs s (send_each D subs message s)
  unfolding send_each send handed accepted
  send_each-Sent [] message s = (refl, (omega arith, omega arith, refl))
  send_each-Sent ((id, sub) ∷ subs) message (b, c) =
      let (status, c') = deliver c sub.delivery (delivery_of sub id message) in
      let b' = handle_delivery_status D status b in
      let (channels, counted) = send_each-Sent subs message (b', c') in
      (
        channels,
        Counted-one status (handed (map (expected message) subs) c').0 b
            (send_each D subs message (b', c')).0 counted,
      )

  -- Where none of the matched ids that are live is in a queue group, `deliver_matches` hands the
  -- message to the live ones among them, each time an id is matched, in the order of the matches,
  -- with the id and the connection of the subscription and over its handle. Of the broker nothing
  -- changes but two counters: modulo 2^64, the messages delivered go up by the number of these that
  -- were accepted, and the messages dropped by the number of the others.
  pub deliver_matches_fanout :
      (message : Message) (ids : List ℕ) (s : State D)
      → All (λ id. IsSingle (Registry.get s.0.registry id)) ids
      → Sent message (targets s.0.registry ids) s (deliver_matches D message ids s)
  unfolding deliver_matches
  deliver_matches_fanout message ids s h =
      rw (gather-singles ids message _ s h) (send_each-Sent (targets s.0.registry ids) message s)
