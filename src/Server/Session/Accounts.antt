-- ===== src/Server/Session/Accounts.antt =====
-- What a session of crates/zetmq-server/src/session/handler.rs does to the number of connections that
-- the broker counts, and to the number of its own subscriptions.
use zet_mq.Prelude.{
  ℕ, suc, ◌≡◌, ◌≤◌, refl, ap, Bool, true, false, List, [], ◌∷◌, ◌++◌, Option, none, some, arith,
  length, length-append, length-retain-le, ==_refl, ◌==◌, not, is_empty, Bool-cases, Option-cases,
  inl, inr, if◌then◌else◌,
}
use zet_mq.Text.{Str, from_utf8}
use zet_mq.Map
use zet_mq.Map.{nat_key, get-insert, get-update, mapped}
use zet_mq.Core.Delivery.{Bytes}
use zet_mq.Core.Pattern
use zet_mq.Core.Pattern.{SubjectPattern}
use zet_mq.Core.Trie.{others}
use zet_mq.Core.Engine.{or_default}
use zet_mq.Core.Registry
use zet_mq.Core.Registry.{Subscription, SubscriptionRegistry}
use zet_mq.Core.Metrics
use zet_mq.Core.Metrics.{u64_mod}
use zet_mq.Core.Broker
use zet_mq.Core.Broker.{BrokerCore, count_in, parse_subject}
use zet_mq.Core.Broker.Quiet.{
  Quiet, Quiet-trans, Same-Quiet, parse_subject-Quiet, publish_with_str-Quiet, publish_batch-Same,
  Parsed-cases,
}
use zet_mq.Core.Broker.Invariant.{Same, left-Same}
use zet_mq.Protocol.Command.{
  BrokerCommand, SubscribeCommand, PublishCommand, publish, subscribe, unsubscribe,
}
use zet_mq.Server.Outbound.{Host, channel_delivery}
use zet_mq.Server.Dispatcher.{
  World, SubConsumerMap, reply_subject, item_of, items_of, dispatch, dispatch_publish,
  dispatch_subscribe, dispatch_publish_batch, group_of,
}

Quiet-refl : (b : BrokerCore) → Quiet b b
unfolding Quiet
Quiet-refl b = (refl, refl, refl)

reply_subject-Quiet : (b : BrokerCore) (reply : Option Bytes) → Quiet b (reply_subject b reply).1
unfolding reply_subject
reply_subject-Quiet b none = Quiet-refl b
reply_subject-Quiet b (some bytes) = elim (Option-cases (from_utf8 bytes)) [
  | inl bad ↦ rw (bad, reply_subject) (Quiet-refl b)
  | inr (text, good) ↦ rw (good, reply_subject) (parse_subject-Quiet b text)
]

item_of-Quiet : (b : BrokerCore) (p : PublishCommand) → Quiet b (item_of b p).1
unfolding item_of
item_of-Quiet b p = elim (Option-cases (from_utf8 p.subject)) [
  | inl bad ↦ rw (bad, item_of) (Quiet-refl b)
  | inr (text, good) ↦ elim (Parsed-cases (parse_subject b text).0) [
    | inr (e, why) ↦ rw (good, item_of, why) (parse_subject-Quiet b text)
    | inl (subject, parsed) ↦
        rw (good, item_of, parsed)
          (Quiet-trans b (parse_subject b text).1 _ (parse_subject-Quiet b text)
            (reply_subject-Quiet (parse_subject b text).1 p.reply_to))
  ]
]

items_of-Quiet : (b : BrokerCore) (ps : List PublishCommand) → Quiet b (items_of b ps).1
unfolding items_of
items_of-Quiet b [] = Quiet-refl b
items_of-Quiet b (p ∷ ps) =
    Quiet-trans b (item_of b p).1 _ (item_of-Quiet b p) (items_of-Quiet (item_of b p).1 ps)

module _ (H : Host) where
  open H use {Channels}

  pub dispatch_publish-Quiet :
      (p : PublishCommand) (w : World Channels) → Quiet w.broker (dispatch_publish H p w).broker
  unfolding dispatch_publish
  dispatch_publish-Quiet p w = elim (Option-cases (from_utf8 p.subject)) [
    | inl bad ↦ rw (bad, dispatch_publish) (Quiet-refl w.broker)
    | inr (text, good) ↦
        let (reply, b) = reply_subject w.broker p.reply_to in
        rw (good, dispatch_publish)
          (Quiet-trans w.broker b _ (reply_subject-Quiet w.broker p.reply_to) (
            publish_with_str-Quiet (channel_delivery H) text p.payload reply p.headers
              (b, w.channels)))
  ]

  pub dispatch_publish_batch-Quiet :
      (ps : List PublishCommand) (w : World Channels)
      → Quiet w.broker (dispatch_publish_batch H ps w).broker
  unfolding dispatch_publish_batch
  dispatch_publish_batch-Quiet ps w = elim (Bool-cases (is_empty ps)) [
    | inl nothing ↦ rw nothing (Quiet-refl w.broker)
    | inr something ↦
        let (items, b) = items_of w.broker ps in
        rw something (
          Quiet-trans w.broker b _ (items_of-Quiet w.broker ps) (
            Same-Quiet b _
              (publish_batch-Same (channel_delivery H) H.iterate items (b, w.channels))))
  ]

abbrev pub held : BrokerCore → ℕ → ℕ
held b conn_id = Registry.count_for_connection b.registry conn_id

held-add :
    (r : SubscriptionRegistry) (sub : Subscription)
    → Registry.count_for_connection (Registry.add r sub) sub.connection_id
      ≤ suc (Registry.count_for_connection r sub.connection_id)
unfolding Registry.add
held-add r sub =
    rw
      (
        get-insert sub.connection_id sub.connection_id
            (Registry.get_by_connection r sub.connection_id ++ (sub.id ∷ [])) r.by_connection,
        ==_refl sub.connection_id,
      )
      (omega (arith, length-append (Registry.get_by_connection r sub.connection_id) (sub.id ∷ [])))

held-remove :
    (r : SubscriptionRegistry) (id c : ℕ)
    → Registry.count_for_connection (Registry.remove r id).0 c ≤ Registry.count_for_connection r c
unfolding Registry.remove Registry.unroute
held-remove r id c = elim (Option-cases (Registry.get r id)) [
  | inl missing ↦ rw (missing, Registry.remove) (omega arith)
  | inr (sub, found) ↦
      rw (found, Registry.remove, get-update (others id) sub.connection_id c r.by_connection)
        (shorter (sub.connection_id == c) (Map.get c r.by_connection))
]
  where
    shorter :
        (b : Bool) (o : Option (List ℕ))
        → length (or_default (if b then mapped (others id) o else o)) ≤ length (or_default o)
    shorter true none = omega arith
    shorter true (some ids) = length-retain-le (λ x. not (x == id)) ids
    shorter false o = omega arith

pub subscribe-held :
    (b : BrokerCore) (c : ℕ) (p : SubjectPattern) (g : Option Str)
    → held (Broker.subscribe b c p g c).1 c ≤ suc (held b c)
unfolding Broker.subscribe
subscribe-held b c p none = held-add b.registry _
subscribe-held b c p (some name) = held-add b.registry _

pub unsubscribe-held : (b : BrokerCore) (c id : ℕ) → held (Broker.unsubscribe b c id) c ≤ held b c
unfolding Broker.unsubscribe Same
unsubscribe-held b c id =
    let removed = record b { registry = (Registry.remove b.registry id).0 } in
    let same = left-Same (Registry.remove b.registry id).1 id removed in
    rw same.0 (held-remove b.registry id c)

-- The connections counted now and ever.
abbrev pub Level : BrokerCore → BrokerCore → Type 0
Level b b' =
    (b'.metrics.active_connections ≡ b.metrics.active_connections)
    × (b'.metrics.total_connections ≡ b.metrics.total_connections)

pub Quiet-Level : (b b' : BrokerCore) → Quiet b b' → Level b b'
unfolding Quiet
Quiet-Level b b' (r, a, t) = (a, t)

pub Quiet-held : (b b' : BrokerCore) (c : ℕ) → Quiet b b' → held b' c ≡ held b c
unfolding Quiet
Quiet-held b b' c (r, a, t) = ap (λ r. Registry.count_for_connection r c) r

subscribe-Level :
    (b : BrokerCore) (c : ℕ) (p : SubjectPattern) (g : Option Str)
    → Level b (Broker.subscribe b c p g c).1
unfolding Broker.subscribe Metrics.inc_subscriptions
subscribe-Level b c p none = (refl, refl)
subscribe-Level b c p (some name) = (refl, refl)

unsubscribe-Level : (b : BrokerCore) (c id : ℕ) → Level b (Broker.unsubscribe b c id)
unfolding Broker.unsubscribe Same
unsubscribe-Level b c id =
    let removed = record b { registry = (Registry.remove b.registry id).0 } in
    let same = left-Same (Registry.remove b.registry id).1 id removed in (same.3, same.4)

module _ (H : Host) where
  open H use {Channels}

  dispatch_subscribe-Level :
      (c : ℕ) (s : SubscribeCommand) (n : ℕ) (m : SubConsumerMap) (w : World Channels)
      → Level w.broker (dispatch_subscribe H c s n (m, w)).1.broker
  unfolding dispatch_subscribe
  dispatch_subscribe-Level c s n m w = elim (Parsed-cases (Pattern.parse s.subject_pattern)) [
    | inr (e, bad) ↦ rw (bad, dispatch_subscribe) (refl, refl)
    | inl (pattern, good) ↦
        rw (good, dispatch_subscribe) (subscribe-Level w.broker c pattern (group_of s.queue_group))
  ]

  pub dispatch-Level :
      (c : ℕ) (cmd : BrokerCommand) (n : ℕ) (m : SubConsumerMap) (w : World Channels)
      → Level w.broker (dispatch H c cmd n (m, w)).1.broker
  unfolding dispatch
  dispatch-Level c (publish p) n m w = Quiet-Level w.broker _ (dispatch_publish-Quiet H p w)
  dispatch-Level c (subscribe s) n m w = dispatch_subscribe-Level c s n m w
  dispatch-Level c (unsubscribe id) n m w = unsubscribe-Level w.broker c id
  dispatch-Level c _ n m w = (refl, refl)

  dispatch_subscribe-held :
      (c : ℕ) (s : SubscribeCommand) (n : ℕ) (m : SubConsumerMap) (w : World Channels)
      → held (dispatch_subscribe H c s n (m, w)).1.broker c ≤ suc (held w.broker c)
  unfolding dispatch_subscribe
  dispatch_subscribe-held c s n m w = elim (Parsed-cases (Pattern.parse s.subject_pattern)) [
    | inr (e, bad) ↦ rw (bad, dispatch_subscribe) (omega arith)
    | inl (pattern, good) ↦
        rw (good, dispatch_subscribe) (subscribe-held w.broker c pattern (group_of s.queue_group))
  ]

  -- Only a SUB command adds a subscription, and one at most.
  abbrev pub adds : BrokerCommand → ℕ → ℕ
  adds (subscribe s) n = suc n
  adds _ n = n

  pub dispatch-held :
      (c : ℕ) (cmd : BrokerCommand) (n : ℕ) (m : SubConsumerMap) (w : World Channels)
      → held (dispatch H c cmd n (m, w)).1.broker c ≤ adds cmd (held w.broker c)
  unfolding dispatch
  dispatch-held c (publish p) n m w =
      omega (arith, Quiet-held w.broker _ c (dispatch_publish-Quiet H p w))
  dispatch-held c (subscribe s) n m w = dispatch_subscribe-held c s n m w
  dispatch-held c (unsubscribe id) n m w = unsubscribe-held w.broker c id
  dispatch-held c _ n m w = omega arith
