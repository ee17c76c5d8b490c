-- ===== src/Core/Broker/Groups.antt =====
-- Queue groups of crates/zetmq-core/src/broker/core.rs: how many messages one publish sends to a
-- group, alone and in a batch.
use zet_mq.Prelude.{
  ℕ, zero, suc, ◌+◌, ◌%◌, ◌≡◌, ◌≢◌, ◌<◌, refl, ap, ◌∙◌, true, false, List, [], ◌∷◌, ◌++◌, Option,
  none, some, arith, All, Option-cases, append-nil, append_assoc, inl, inr, length, get_elem?,
  is_empty,
}
use zet_mq.Map
use zet_mq.Map.{get-insert}
use zet_mq.Core.Registry
use zet_mq.Core.Registry.{Subscription, SubscriptionRegistry, QueueGroupKey}
use zet_mq.Core.Metrics
use zet_mq.Core.Metrics.{u64_mod}
use zet_mq.Core.Delivery.{Message, DeliveryHandle, delivered, channel_full, failed, DeliveryStatus}
use zet_mq.Core.Broker.{
  BrokerCore, State, QueueGroupState, group_key, group_eq, group_eq_iff, nothing_gathered,
  handle_delivery_status, delivery_of, gather_one, gather_each, send, deliver_matches,
  deliver_queue_group, deliver_to_subscriber,
}

-- The messages that were handed to a channel, accepted or not, by the counters.
unfoldable pub attempts : BrokerCore → ℕ
attempts b = (b.metrics.messages_delivered + b.metrics.messages_dropped) % u64_mod

abbrev pub InGroup : QueueGroupKey → Option Subscription → Type 0
InGroup key none = ⊥
InGroup key (some sub) = sub.queue_group_key ≡ some key

abbrev pub IsLive : Option Subscription → Type 0
IsLive none = ⊥
IsLive (some sub) = Unit

-- The group has members, and all of them are live.
abbrev pub IsGroup : SubscriptionRegistry → Option QueueGroupState → Type 0
IsGroup r none = ⊥
IsGroup r (some g) = (g.members ≢ []) × All (λ id. IsLive (Registry.get r id)) g.members

-- The subscriptions of the ids are live and in the group.
abbrev pub AllIn : QueueGroupKey → SubscriptionRegistry → List ℕ → Type 0
AllIn key r ids = All (λ id. InGroup key (Registry.get r id)) ids

get_elem?-live :
    {P : ℕ → Type 0} (xs : List ℕ) (i : ℕ)
    → All P xs
    → i < length xs
    → (x : ℕ) × (get_elem? xs i ≡ some x) × P x
get_elem?-live [] i h lt = elim lt [ ]
get_elem?-live (x ∷ xs) zero h lt = (x, refl, h.0)
get_elem?-live (x ∷ xs) (suc i) h lt = get_elem?-live xs i h.1 (omega arith)

nonempty : (xs : List ℕ) → xs ≢ [] → (is_empty xs ≡ false) × (0 < length xs)
nonempty [] h = elim (h refl) [ ]
nonempty (x ∷ xs) h = (refl, omega arith)

module _ (D : DeliveryHandle) where
  open D use {Channels, deliver}

  attempts-status :
      (st : DeliveryStatus) (b : BrokerCore)
      → (attempts (handle_delivery_status D st b) ≡ (attempts b + 1) % u64_mod)
        × ((handle_delivery_status D st b).registry ≡ b.registry)
        × ((handle_delivery_status D st b).queue_groups ≡ b.queue_groups)
  unfolding attempts Metrics.add_delivered Metrics.add_dropped
  attempts-status delivered b = (ground arith, refl, refl)
  attempts-status channel_full b = (ground arith, refl, refl)
  attempts-status (failed e) b = (ground arith, refl, refl)

  attempts-send :
      (id : ℕ) (sub : Subscription) (m : Message) (b : BrokerCore) (c : Channels)
      → (attempts (send D (id, sub) m (b, c)).0 ≡ (attempts b + 1) % u64_mod)
        × ((send D (id, sub) m (b, c)).0.registry ≡ b.registry)
        × ((send D (id, sub) m (b, c)).0.queue_groups ≡ b.queue_groups)
  unfolding send
  attempts-send id sub m b c = attempts-status (deliver c sub.delivery (delivery_of sub id m)).0 b

  attempts-deliver_to :
      (id : ℕ) (m : Message) (b : BrokerCore) (c : Channels)
      → IsLive (Registry.get b.registry id)
      → (attempts (deliver_to_subscriber D id m (b, c)).0 ≡ (attempts b + 1) % u64_mod)
        × ((deliver_to_subscriber D id m (b, c)).0.registry ≡ b.registry)
        × ((deliver_to_subscriber D id m (b, c)).0.queue_groups ≡ b.queue_groups)
  unfolding deliver_to_subscriber
  attempts-deliver_to id m b c live = elim (Option-cases (Registry.get b.registry id)) [
    | inl missing ↦ elim (rw missing at live) [ ]
    | inr (sub, found) ↦ rw (found, deliver_to_subscriber) (attempts-send id sub m b c)
  ]

  module _ (key : QueueGroupKey) (m : Message) where
    -- One turn of a group with live members: one attempt, and the group keeps its members.
    pub attempts-deliver_queue_group :
        (ids : List ℕ) (b : BrokerCore) (c : Channels) (g : QueueGroupState)
        → ids ≢ []
        → Map.get key b.queue_groups ≡ some g
        → IsGroup b.registry (some g)
        → (attempts (deliver_queue_group D key ids m (b, c)).0 ≡ (attempts b + 1) % u64_mod)
          × ((deliver_queue_group D key ids m (b, c)).0.registry ≡ b.registry)
          × (Map.get key (deliver_queue_group D key ids m (b, c)).0.queue_groups
              ≡ some (record g { current_index = (g.current_index + 1) % u64_mod }))
    unfolding deliver_queue_group attempts
    attempts-deliver_queue_group [] b c g some_id found live = elim (some_id refl) [ ]
    attempts-deliver_queue_group (id ∷ ids) b c g some_id found live =
        let (full, positive) = nonempty g.members live.0 in
        let (chosen, at, is_live) =
          get_elem?-live g.members (g.current_index % length g.members) live.1
            (omega (arith, positive)) in
        let g' : QueueGroupState = record g { current_index = (g.current_index + 1) % u64_mod } in
        let b' : BrokerCore = record b { queue_groups = Map.insert key g' b.queue_groups } in
        let (a, r, q) = attempts-deliver_to chosen m b' c is_live in
        rw (found, deliver_queue_group, full, at)
          (
            a,
            r,
            ap (Map.get key) q
                ∙ get-insert key key g' b.queue_groups
                ∙ ground (arith, group_eq_iff key key),
          )

    gather_one-begin :
        (id : ℕ) (s : State D)
        → InGroup key (Registry.get s.0.registry id)
        → gather_one D id m (nothing_gathered, s) ≡ (
          record {
            fanout_deliveries = [];
            queue_group_members = id ∷ [];
            last_queue_group_key = some key;
          },
          s,
        )
    unfolding gather_one
    gather_one-begin id s h = elim (Option-cases (Registry.get s.0.registry id)) [
      | inl missing ↦ elim (rw missing at h) [ ]
      | inr (sub, found) ↦
          let grouped : sub.queue_group_key ≡ some key = rw found at h in
          rw (found, gather_one) (simp grouped)
    ]

    gather_one-group :
        (id : ℕ) (members : List ℕ) (s : State D)
        → InGroup key (Registry.get s.0.registry id)
        → gather_one D id m (
          record {
            fanout_deliveries = [];
            queue_group_members = members;
            last_queue_group_key = some key;
          },
          s,
        )
          ≡ (
            record {
              fanout_deliveries = [];
              queue_group_members = members ++ id ∷ [];
              last_queue_group_key = some key;
            },
            s,
          )
    unfolding gather_one
    gather_one-group id members s h = elim (Option-cases (Registry.get s.0.registry id)) [
      | inl missing ↦ elim (rw missing at h) [ ]
      | inr (sub, found) ↦
          let grouped : sub.queue_group_key ≡ some key = rw found at h in
          let same : group_eq key key ≡ true = ground (arith, group_eq_iff key key) in
          rw (found, gather_one) (simp (grouped, same))
    ]

    gather-group :
        (ids members : List ℕ) (s : State D)
        → AllIn key s.0.registry ids
        → gather_each D ids m (
          record {
            fanout_deliveries = [];
            queue_group_members = members;
            last_queue_group_key = some key;
          },
          s,
        )
          ≡ (
            record {
              fanout_deliveries = [];
              queue_group_members = members ++ ids;
              last_queue_group_key = some key;
            },
            s,
          )
    unfolding gather_each
    gather-group [] members s h = rw (append-nil members)
    gather-group (id ∷ ids) members s h =
        ap (gather_each D ids m) (gather_one-group id members s h.0)
        ∙ gather-group ids (members ++ id ∷ []) s h.1
        ∙ rw (append_assoc members (id ∷ []) ids)

    pub deliver_matches-group :
        (ids : List ℕ) (s : State D)
        → ids ≢ []
        → AllIn key s.0.registry ids
        → deliver_matches D m ids s ≡ deliver_queue_group D key ids m s
    unfolding deliver_matches gather_each
    deliver_matches-group [] s some_id h = elim (some_id refl) [ ]
    deliver_matches-group (id ∷ ids) s some_id h =
        let gathered =
          ap (gather_each D ids m) (gather_one-begin id s h.0) ∙ gather-group ids (id ∷ []) s h.1 in
        rw gathered
