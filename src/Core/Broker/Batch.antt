-- ===== src/Core/Broker/Batch.antt =====
-- `publish_batch` of crates/zetmq-core/src/broker/core.rs. `iterate` is the order in which the hash
-- map of the pending deliveries hands out its entries.
use zet_mq.Prelude.{
  ℕ, is_some, ◌-◌, Bool, true, false, List, [], ◌∷◌, ◌++◌, ◌&&◌, not, Option, none, some, map,
  if◌then◌else◌, ◌==◌, length, is_empty, str_eq,
}
use zet_mq.Text.{Str}
use zet_mq.Map
use zet_mq.Map.{Map, nat_key}
use zet_mq.Core.Subject.{Subject}
use zet_mq.Core.Engine
use zet_mq.Core.Registry
use zet_mq.Core.Registry.{Subscription}
use zet_mq.Core.Delivery.{
  PublishItem, message_of, DeliveryMessage, DeliveryStatus, delivered, DeliveryHandle,
  deliver_batch,
}
use zet_mq.Core.Metrics
use zet_mq.Core.Broker.{BrokerCore, State, count_in, delivery_of, deliver_matches}

strs_eq : List Str → List Str → Bool
strs_eq [] [] = true
strs_eq [] (t ∷ ts) = false
strs_eq (s ∷ ss) [] = false
strs_eq (s ∷ ss) (t ∷ ts) = str_eq s t && strs_eq ss ts

-- The derived equality of subjects.
unfoldable pub subject_eq : Subject → Subject → Bool
unfolding strs_eq
subject_eq a b = str_eq a.raw b.raw && strs_eq a.tokens b.tokens

unfoldable pub all_subject : Subject → List PublishItem → Bool
unfolding subject_eq
all_subject s [] = true
all_subject s (item ∷ items) = subject_eq item.subject s && all_subject s items

-- A found subscription: its connection, and whether it is in a queue group.
abbrev pub SubInfo : Type 0
SubInfo = ℕ × Bool

unfoldable pub find_cached : ℕ → List (ℕ × SubInfo) → Option SubInfo
find_cached sub_id [] = none
find_cached sub_id ((id, info) ∷ cache) =
    let rest = find_cached sub_id cache in if id == sub_id then some info else rest

abbrev pub is_grouped : Subscription → Bool
is_grouped sub = is_some sub.queue_group_key

abbrev or_none : Option (List DeliveryMessage) → List DeliveryMessage
or_none none = []
or_none (some msgs) = msgs

pub record Routed : Type 0 where
  pub last_subject : Option Subject
  pub last_sub_ids : List ℕ
  pub sub_cache : List (ℕ × SubInfo)
  pub pending : Map ℕ (List DeliveryMessage)

abbrev pub nothing_routed : Routed
nothing_routed = record {
  last_subject = none;
  last_sub_ids = [];
  sub_cache = [];
  pending = Map.empty;
}

abbrev pub is_last : Option Subject → Subject → Bool
is_last none s = false
is_last (some last) s = subject_eq last s

module _ (D : DeliveryHandle) where
  open D use {Channels, deliver}

  -- A grouped subscription is delivered at once, any other is put off.
  abbrev pub route_found : ℕ → SubInfo → PublishItem → Routed × State D → Routed × State D
  route_found sub_id (connection_id, grouped) item (r, s) =
      let msg : DeliveryMessage = record {
        subscription_id = sub_id;
        connection_id = connection_id;
        subject = item.subject;
        payload = item.payload;
        reply_to = item.reply_to;
        headers = item.headers;
      } in
      if grouped then (r, deliver_matches D (message_of item) (sub_id ∷ []) s) else (
        record r {
          pending = Map.insert sub_id (or_none (Map.get sub_id r.pending) ++ msg ∷ []) r.pending;
        },
        s,
      )

  unfoldable pub route_one : ℕ → PublishItem → Routed × State D → Routed × State D
  unfolding find_cached
  route_one sub_id item (r, (b, c)) = elim (find_cached sub_id r.sub_cache) [
    | some info ↦ route_found sub_id info item (r, (b, c))
    | none ↦ elim (Registry.get b.registry sub_id) [
      | none ↦ (r, (b, c))
      | some sub ↦
          let info : SubInfo = (sub.connection_id, is_grouped sub) in
          route_found sub_id info item
            (record r { sub_cache = r.sub_cache ++ (sub_id, info) ∷ [] }, (b, c))
    ]
  ]

  unfoldable pub route_each : List ℕ → PublishItem → Routed × State D → Routed × State D
  unfolding route_one
  route_each [] item rs = rs
  route_each (sub_id ∷ sub_ids) item rs = route_each sub_ids item (route_one sub_id item rs)

  unfoldable pub route_item : PublishItem → Routed × State D → Routed × State D
  unfolding route_each subject_eq
  route_item item (r, (b, c)) =
      if is_last r.last_subject item.subject
      then route_each r.last_sub_ids item (r, (b, c))
      else let ids = Engine.match_subject b.router item.subject in
        route_each ids item
          (record r { last_subject = some item.subject; last_sub_ids = ids }, (b, c))

  unfoldable pub route_items : List PublishItem → Routed × State D → Routed × State D
  unfolding route_item
  route_items [] rs = rs
  route_items (item ∷ items) rs = route_items items (route_item item rs)

  abbrev pub count_batch : ℕ → ℕ → BrokerCore → BrokerCore
  count_batch accepted total =
      count_in (λ m. Metrics.add_dropped (total - accepted) (Metrics.add_delivered accepted m))

  abbrev pub accepted_one : DeliveryStatus → ℕ
  accepted_one delivered = 1
  accepted_one _ = 0

  unfoldable pub flush_one : ℕ × List DeliveryMessage → State D → State D
  flush_one (sub_id, msgs) (b, c) = elim (Registry.get b.registry sub_id) [
    | none ↦ (b, c)
    | some sub ↦ elim msgs [
      | [] ↦ (b, c)
      | msg ∷ rest ↦
          let (status, c') = deliver c sub.delivery msg in
          let (accepted, c'') = deliver_batch D c sub.delivery (msg ∷ rest) in
          if is_empty rest
          then (count_batch (accepted_one status) 1 b, c')
          else (count_batch accepted (length (msg ∷ rest)) b, c'')
    ]
  ]

  unfoldable pub flush_each : List (ℕ × List DeliveryMessage) → State D → State D
  unfolding flush_one
  flush_each [] s = s
  flush_each (p ∷ ps) s = flush_each ps (flush_one p s)

  module _ (iterate : List (ℕ × List DeliveryMessage) → List (ℕ × List DeliveryMessage)) where
    unfoldable pub publish_routed : List PublishItem → State D → State D
    unfolding route_items flush_each
    publish_routed items s =
        let (r, s') = route_items items (nothing_routed, s) in
        flush_each (iterate r.pending.entries) s'

    abbrev batch_for : ℕ → Subscription → List PublishItem → List DeliveryMessage
    batch_for sub_id sub = map (λ item. delivery_of sub sub_id (message_of item))

    -- The whole batch at once, where all items go to one subscriber that is in no queue group.
    unfoldable pub publish_batch : List PublishItem → State D → State D
    unfolding publish_routed
    publish_batch [] s = s
    publish_batch (first ∷ items) (b, c) =
        let all = first ∷ items in
        let b' = count_in (Metrics.inc_published_by (length all)) b in
        let slow = publish_routed all (b', c) in
        if b'.router.has_wildcards
        then slow
        else elim (Engine.exact_single_subscriber b'.router first.subject) [
          | none ↦ slow
          | some sub_id ↦ elim (Registry.get b'.registry sub_id) [
            | none ↦ slow
            | some sub ↦
                if not (is_grouped sub) && all_subject first.subject all
                then (let (accepted, c') =
                      deliver_batch D c sub.delivery (batch_for sub_id sub all) in
                    (count_batch accepted (length all) b', c'))
                else slow
          ]
        ]
