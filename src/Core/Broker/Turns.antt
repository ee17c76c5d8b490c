-- ===== src/Core/Broker/Turns.antt =====
-- How many turns of a queue group one message takes in `publish_batch` of
-- crates/zetmq-core/src/broker/core.rs, next to `publish`.
use zet_mq.Prelude.{
  ℕ, is_some, suc, ◌+◌, ◌%◌, ◌≡◌, ◌≢◌, refl, ap, ◌∙◌, sym, true, List, [], ◌∷◌, ◌++◌, subst, Option,
  none, some, arith, All, Option-cases, Bool-cases, inl, inr, length, ◌==◌,
}
use zet_mq.Map
use zet_mq.Core.Engine
use zet_mq.Core.Registry
use zet_mq.Core.Registry.{Subscription, SubscriptionRegistry, QueueGroupKey}
use zet_mq.Core.Metrics
use zet_mq.Core.Metrics.{u64_mod}
use zet_mq.Core.Delivery.{DeliveryMessage, DeliveryHandle, PublishItem, message_of}
use zet_mq.Core.Broker.{
  BrokerCore, State, QueueGroupState, group_key, count_in, deliver_queue_group, publish,
}
use zet_mq.Core.Broker.Batch.{
  Routed, nothing_routed, SubInfo, find_cached, is_grouped, route_one, route_each, route_item,
  route_items, flush_each, publish_routed, publish_batch,
}
use zet_mq.Core.Broker.Groups.{
  attempts, InGroup, IsGroup, AllIn, attempts-deliver_queue_group, deliver_matches-group,
}

abbrev AllGrouped : List (ℕ × SubInfo) → Type 0
AllGrouped cache = All (λ p. p.1.1 ≡ true) cache

abbrev IsGrouped : Option SubInfo → Type 0
IsGrouped none = Unit
IsGrouped (some info) = info.1 ≡ true

find_cached-IsGrouped :
    (id : ℕ) (cache : List (ℕ × SubInfo)) → AllGrouped cache → IsGrouped (find_cached id cache)
unfolding find_cached
find_cached-IsGrouped id [] h = tt
find_cached-IsGrouped id ((j, info) ∷ cache) h = elim (Bool-cases (j == id)) [
  | inl same ↦ rw (same, find_cached) h.0
  | inr other ↦ rw (other, find_cached) (find_cached-IsGrouped id cache h.1)
]

AllGrouped-snoc :
    (cache : List (ℕ × SubInfo)) (p : ℕ × SubInfo)
    → AllGrouped cache
    → p.1.1 ≡ true
    → AllGrouped (cache ++ p ∷ [])
AllGrouped-snoc [] p h good = (good, tt)
AllGrouped-snoc (x ∷ cache) p h good = (h.0, AllGrouped-snoc cache p h.1 good)

mod_shift : {x : ℕ} (y n : ℕ) → x ≡ (y + 1) % u64_mod → (x + n) % u64_mod ≡ (y + suc n) % u64_mod
mod_shift y n h = omega (arith, h)

module _ (D : DeliveryHandle) where
  open D use {Channels}

  module _ (key : QueueGroupKey) (item : PublishItem) where
    -- A grouped id takes a turn of its group at once, and puts nothing off.
    route_one-group :
        (id : ℕ) (r : Routed) (s : State D)
        → AllGrouped r.sub_cache
        → InGroup key (Registry.get s.0.registry id)
        → ((route_one D id item (r, s)).1 ≡ deliver_queue_group D key (id ∷ []) (message_of item) s)
          × AllGrouped (route_one D id item (r, s)).0.sub_cache
          × ((route_one D id item (r, s)).0.pending ≡ r.pending)
    unfolding route_one
    route_one-group id r s cache h =
        let turn =
          deliver_matches-group D key (message_of item) (id ∷ []) s (ground arith) (h, tt) in
        elim (Option-cases (find_cached id r.sub_cache)) [
          | inr (info, found) ↦
              let grouped : info.1 ≡ true =
                rw found at (find_cached-IsGrouped id r.sub_cache cache) in
              rw (found, route_one, grouped) (turn, cache, refl)
          | inl new ↦ elim (Option-cases (Registry.get s.0.registry id)) [
            | inl missing ↦ elim (rw missing at h) [ ]
            | inr (sub, found) ↦
                let key_of : sub.queue_group_key ≡ some key = rw found at h in
                let grouped : is_grouped sub ≡ true = ap is_some key_of in
                rw (new, route_one, found, grouped)
                  (
                    turn,
                    AllGrouped-snoc r.sub_cache (id, (sub.connection_id, true)) cache refl,
                    refl,
                  )
          ]
        ]

    module _ (iterate : List (ℕ × List DeliveryMessage) → List (ℕ × List DeliveryMessage)) where
      attempts-route_each :
          (ids : List ℕ) (r : Routed) (b : BrokerCore) (c : Channels) (g : QueueGroupState)
          → AllGrouped r.sub_cache
          → AllIn key b.registry ids
          → Map.get key b.queue_groups ≡ some g
          → IsGroup b.registry (some g)
          → (attempts (route_each D ids item (r, (b, c))).1.0 ≡ (attempts b + length ids) % u64_mod)
            × ((route_each D ids item (r, (b, c))).0.pending ≡ r.pending)
      unfolding route_each attempts
      attempts-route_each [] r b c g cache h found live = (omega arith, refl)
      attempts-route_each (id ∷ ids) r b c g cache h found live =
          let (turn, cache', kept) = route_one-group id r (b, c) cache h.0 in
          let s' = (route_one D id item (r, (b, c))).1 in
          let (a, same, left) =
            attempts-deliver_queue_group D key (message_of item) (id ∷ []) b c g (ground arith)
              found live in
          let same' : s'.0.registry ≡ b.registry = ap (λ (s : State D). s.0.registry) turn ∙ same in
          let (a', kept') =
            attempts-route_each ids (route_one D id item (r, (b, c))).0 s'.0 s'.1
              (record g { current_index = (g.current_index + 1) % u64_mod }) cache'
              (subst (λ reg. AllIn key reg ids) (sym same') h.1)
              (ap (λ (s : State D). Map.get key s.0.queue_groups) turn ∙ left)
              (subst (λ reg. IsGroup reg (some g)) (sym same') live) in
          (
            a' ∙ mod_shift (attempts b) (length ids) (ap (λ (s : State D). attempts s.0) turn ∙ a),
            kept' ∙ kept,
          )

      publish_batch-slow :
          (b : BrokerCore) (c : Channels)
          → Engine.exact_single_subscriber b.router item.subject ≡ none
          → publish_batch D iterate (item ∷ []) (b, c)
            ≡ publish_routed D iterate (item ∷ []) (count_in (Metrics.inc_published_by 1) b, c)
      unfolding publish_batch
      publish_batch-slow b c none_single = elim (Bool-cases b.router.has_wildcards) [
        | inl wild ↦ simp wild
        | inr exact ↦ rw (none_single, publish_batch) (simp exact)
      ]

      abbrev begun : BrokerCore → Routed
      begun b = record nothing_routed {
        last_subject = some item.subject;
        last_sub_ids = Engine.match_subject b.router item.subject;
      }

      publish_routed-none :
          (b : BrokerCore) (c : Channels)
          → iterate [] ≡ []
          → (route_each D
              (Engine.match_subject b.router item.subject)
              item
              (begun b, (b, c))).0.pending
            ≡ Map.empty
          → publish_routed D iterate (item ∷ []) (b, c)
            ≡ (route_each D (Engine.match_subject b.router item.subject) item (begun b, (b, c))).1
      unfolding publish_routed route_items route_item flush_each Map.empty
      publish_routed-none b c order kept =
          let s' =
            (route_each D (Engine.match_subject b.router item.subject) item (begun b, (b, c))).1 in
          ap (λ (p : Map.Map ℕ (List DeliveryMessage)). flush_each D (iterate p.entries) s') kept
          ∙ ap (λ l. flush_each D l s') order

      -- Let all ids that match an item's subject, one or more, be live members of one queue group
      -- whose members are all live, let the subject have no single exact subscriber, and let an
      -- empty map hand out no entries. Then, modulo 2^64, `publish` of the item raises the number
      -- of messages delivered or dropped by one, while `publish_batch` of this one item raises it
      -- by the number of matching ids.
      pub publish_batch-turns :
          (b : BrokerCore) (c : Channels) (g : QueueGroupState)
          → iterate [] ≡ []
          → Engine.exact_single_subscriber b.router item.subject ≡ none
          → Map.get key b.queue_groups ≡ some g
          → IsGroup b.registry (some g)
          → Engine.match_subject b.router item.subject ≢ []
          → AllIn key b.registry (Engine.match_subject b.router item.subject)
          → (attempts (publish D (message_of item) (b, c)).0 ≡ (attempts b + 1) % u64_mod)
            × (attempts (publish_batch D iterate (item ∷ []) (b, c)).0
                ≡ (attempts b + length (Engine.match_subject b.router item.subject)) % u64_mod)
      unfolding publish attempts Metrics.inc_published_by
      publish_batch-turns b c g order none_single found live some_id all_in =
          let ids = Engine.match_subject b.router item.subject in
          let b' = count_in (Metrics.inc_published_by 1) b in
          let alone = deliver_matches-group D key (message_of item) ids (b', c) some_id all_in in
          let turn =
            attempts-deliver_queue_group D key (message_of item) ids b' c g some_id found live in
          let (a, kept) = attempts-route_each ids (begun b') b' c g tt all_in found live in
          (
            ap (λ (s : State D). attempts s.0) alone ∙ turn.0,
            ap (λ (s : State D). attempts s.0)
                  (publish_batch-slow b c none_single ∙ publish_routed-none b' c order kept)
                ∙ a,
          )
