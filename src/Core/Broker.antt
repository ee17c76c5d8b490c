-- ===== src/Core/Broker.antt =====
-- crates/zetmq-core/src/broker/core.rs: the state, subscriptions and single publishes. Each call is
-- one step on the broker and the channels of all connections.
pub mod Batch
pub mod Fanout
pub mod Groups
pub mod Turns
pub mod Invariant
pub mod Runs
pub mod Quiet
use zet_mq.Prelude.{
  ℕ, zero, suc, ◌+◌, ◌-◌, ◌%◌, ◌≡◌, ◌↔◌, Bool, true, false, List, [], ◌∷◌, ◌++◌, ◌&&◌, not, Option,
  none, some, map, arith, if◌then◌else◌, ◌==◌, ltb, length, is_empty, get_elem?, any, retain,
  str_eq, str_eq_iff,
}
use zet_mq.Text.{Str}
use zet_mq.Map
use zet_mq.Map.{Map, Key, nat_key, str_key}
use zet_mq.Core.Subject
use zet_mq.Core.Subject.{Subject, Result, ok, err}
use zet_mq.Core.Pattern.{SubjectPattern}
use zet_mq.Core.Trie.{others}
use zet_mq.Core.Engine
use zet_mq.Core.Registry
use zet_mq.Core.Registry.{SubscriptionRegistry, Subscription, QueueGroupKey}
use zet_mq.Core.Delivery.{
  Bytes, HeaderMap, Message, DeliveryMessage, DeliveryStatus, delivered, channel_full, failed,
  DeliveryHandle,
}
use zet_mq.Core.Metrics
use zet_mq.Core.Metrics.{CoreMetrics, u64_mod}

abbrev pub group_eq : QueueGroupKey → QueueGroupKey → Bool
group_eq (p, g) (q, h) = str_eq p q && str_eq g h

pub group_eq_iff : (a b : QueueGroupKey) → (group_eq a b ≡ true) ↔ (a ≡ b)
group_eq_iff (p, g) (q, h) = ground (arith, str_eq_iff p q, str_eq_iff g h)

instance abbrev pub group_key : Key QueueGroupKey
group_key = record { eq = group_eq; eq_iff = group_eq_iff }

pub record QueueGroupState : Type 0 where
  pub members : List ℕ
  pub current_index : ℕ

pub record BrokerCore : Type 0 where
  pub registry : SubscriptionRegistry
  pub open registry use {router}
  pub metrics : CoreMetrics
  pub next_sub_id : ℕ
  pub queue_groups : Map QueueGroupKey QueueGroupState
  pub subject_cache : Map Str Subject

unfoldable pub new : BrokerCore
new = record {
  registry = Registry.new;
  metrics = Metrics.new;
  next_sub_id = 1;
  queue_groups = Map.empty;
  subject_cache = Map.empty;
}

abbrev pub count_in : (CoreMetrics → CoreMetrics) → BrokerCore → BrokerCore
count_in f b = record b { metrics = f b.metrics }

abbrev pub cached : Str → Result Subject → BrokerCore → BrokerCore
cached input (ok subj) b = record b { subject_cache = Map.insert input subj b.subject_cache }
cached input (err e) b = b

-- A cached text is not parsed again; an error is not cached.
unfoldable pub parse_subject : BrokerCore → Str → Result Subject × BrokerCore
parse_subject b input = elim (Map.get input b.subject_cache) [
  | some subj ↦ (ok subj, b)
  | none ↦ (Subject.parse input, cached input (Subject.parse input) b)
]

abbrev empty_group : QueueGroupState
empty_group = record { members = []; current_index = 0 }

abbrev or_group : Option QueueGroupState → QueueGroupState
or_group none = empty_group
or_group (some g) = g

-- `entry(key).or_insert_with(..).members.push(sub_id)`
abbrev pub join_group : Option QueueGroupKey → ℕ → BrokerCore → BrokerCore
join_group none sub_id b = b
join_group (some key) sub_id b =
    let g = or_group (Map.get key b.queue_groups) in
    record b {
      queue_groups =
          Map.insert key (record g { members = g.members ++ sub_id ∷ [] }) b.queue_groups;
    }

unfoldable pub subscribe : BrokerCore → ℕ → SubjectPattern → Option Str → ℕ → ℕ × BrokerCore
subscribe b connection_id pattern queue_group delivery =
    let sub_id = b.next_sub_id in
    let key = key_of queue_group in
    let sub : Subscription = record {
      id = sub_id;
      connection_id = connection_id;
      pattern = pattern;
      queue_group = queue_group;
      queue_group_key = key;
      delivery = delivery;
    } in
    let joined = join_group key sub_id (record b { next_sub_id = (sub_id + 1) % u64_mod }) in
    (
      sub_id,
      count_in Metrics.inc_subscriptions
          (record joined { registry = Registry.add joined.registry sub }),
    )
  where
    key_of : Option Str → Option QueueGroupKey
    key_of none = none
    key_of (some name) = some (pattern.raw, name)

abbrev pub leave_group : Option QueueGroupKey → ℕ → BrokerCore → BrokerCore
leave_group none sub_id b = b
leave_group (some key) sub_id b = record b {
  queue_groups =
      Map.update (λ g. record g { members = others sub_id g.members }) key b.queue_groups;
}

abbrev pub left : Option Subscription → ℕ → BrokerCore → BrokerCore
left none sub_id b = b
left (some sub) sub_id b =
    count_in Metrics.dec_subscriptions (leave_group sub.queue_group_key sub_id b)

-- The connection is not looked at.
unfoldable pub unsubscribe : BrokerCore → ℕ → ℕ → BrokerCore
unsubscribe b connection_id sub_id =
    let (registry', removed) = Registry.remove b.registry sub_id in
    left removed sub_id (record b { registry = registry' })

-- The members that left a group; an empty group goes.
abbrev pub shrink_group : List ℕ → Option QueueGroupKey → BrokerCore → BrokerCore
shrink_group removed_ids none b = b
shrink_group removed_ids (some key) b = elim (Map.get key b.queue_groups) [
  | none ↦ b
  | some g ↦
      let members' = retain (λ id. not (any (λ x. x == id) removed_ids)) g.members in
      record b {
        queue_groups =
            if is_empty members'
            then Map.remove key b.queue_groups
            else Map.insert key (record g { members = members' }) b.queue_groups;
      }
]

unfoldable pub shrink_groups : List ℕ → List Subscription → BrokerCore → BrokerCore
shrink_groups removed_ids [] b = b
shrink_groups removed_ids (sub ∷ subs) b =
    shrink_groups removed_ids subs (shrink_group removed_ids sub.queue_group_key b)

unfoldable pub dec_each : List Subscription → CoreMetrics → CoreMetrics
dec_each [] m = m
dec_each (sub ∷ subs) m = dec_each subs (Metrics.dec_subscriptions m)

unfoldable pub remove_connection : BrokerCore → ℕ → BrokerCore
remove_connection b connection_id =
    let (registry', removed) = Registry.remove_all_for_connection b.registry connection_id in
    let removed_ids = map (λ (sub : Subscription). sub.id) removed in
    let b' = shrink_groups removed_ids removed (record b { registry = registry' }) in
    count_in (λ m. Metrics.dec_active_connections (dec_each removed m)) b'

abbrev pub delivery_of : Subscription → ℕ → Message → DeliveryMessage
delivery_of sub sub_id message = record {
  subscription_id = sub_id;
  connection_id = sub.connection_id;
  subject = message.subject;
  payload = message.payload;
  reply_to = message.reply_to;
  headers = message.headers;
}

-- What the loop of `deliver_matches` has gathered.
pub record Gathered : Type 0 where
  pub fanout_deliveries : List (ℕ × Subscription)
  pub queue_group_members : List ℕ
  pub last_queue_group_key : Option QueueGroupKey

abbrev pub nothing_gathered : Gathered
nothing_gathered = record {
  fanout_deliveries = [];
  queue_group_members = [];
  last_queue_group_key = none;
}

module _ (D : DeliveryHandle) where
  open D use {Channels, deliver}

  abbrev pub State : Type 0
  State = BrokerCore × Channels

  -- `inc_delivered`, or `inc_dropped` for a full channel and for a failure.
  abbrev pub handle_delivery_status : DeliveryStatus → BrokerCore → BrokerCore
  handle_delivery_status delivered b = count_in (Metrics.add_delivered 1) b
  handle_delivery_status channel_full b = count_in (Metrics.add_dropped 1) b
  handle_delivery_status (failed error) b = count_in (Metrics.add_dropped 1) b

  unfoldable pub send : ℕ × Subscription → Message → State → State
  send (sub_id, sub) message (b, c) =
      let (status, c') = deliver c sub.delivery (delivery_of sub sub_id message) in
      (handle_delivery_status status b, c')

  unfoldable pub deliver_to_subscriber : ℕ → Message → State → State
  unfolding send
  deliver_to_subscriber sub_id message (b, c) = elim (Registry.get b.registry sub_id) [
    | none ↦ (b, c)
    | some sub ↦ send (sub_id, sub) message (b, c)
  ]

  -- The index is counted on whether or not the member is still there.
  unfoldable pub deliver_queue_group : QueueGroupKey → List ℕ → Message → State → State
  unfolding deliver_to_subscriber
  deliver_queue_group key members message (b, c) =
      if is_empty members then (b, c) else elim (Map.get key b.queue_groups) [
        | none ↦ (b, c)
        | some g ↦
            if is_empty g.members
            then (b, c)
            else let b' : BrokerCore = record b {
              queue_groups =
                  Map.insert key (record g { current_index = (g.current_index + 1) % u64_mod })
                    b.queue_groups;
            } in
              elim (get_elem? g.members (g.current_index % length g.members)) [
                | none ↦ (b', c)
                | some chosen_id ↦ deliver_to_subscriber chosen_id message (b', c)
              ]
      ]

  abbrev flush_group : Gathered → Message → State → State
  flush_group g message s = elim g.last_queue_group_key [
    | none ↦ s
    | some key ↦ deliver_queue_group key g.queue_group_members message s
  ]

  abbrev pub same_group : Option QueueGroupKey → QueueGroupKey → Bool
  same_group none key = false
  same_group (some k) key = group_eq k key

  -- One id of the loop: a group whose turn has passed is delivered when the next one begins.
  unfoldable pub gather_one : ℕ → Message → Gathered × State → Gathered × State
  unfolding deliver_queue_group
  gather_one sub_id message (g, (b, c)) = elim (Registry.get b.registry sub_id) [
    | none ↦ (g, (b, c))
    | some sub ↦ elim sub.queue_group_key [
      | none ↦ (record g { fanout_deliveries = g.fanout_deliveries ++ (sub_id, sub) ∷ [] }, (b, c))
      | some key ↦
          if same_group g.last_queue_group_key key
          then (record g { queue_group_members = g.queue_group_members ++ sub_id ∷ [] }, (b, c))
          else (
            record g { queue_group_members = sub_id ∷ []; last_queue_group_key = some key },
            flush_group g message (b, c),
          )
    ]
  ]

  unfoldable pub gather_each : List ℕ → Message → Gathered × State → Gathered × State
  unfolding gather_one
  gather_each [] message gs = gs
  gather_each (sub_id ∷ sub_ids) message gs =
      gather_each sub_ids message (gather_one sub_id message gs)

  unfoldable pub send_each : List (ℕ × Subscription) → Message → State → State
  unfolding send
  send_each [] message s = s
  send_each (target ∷ targets) message s = send_each targets message (send target message s)

  unfoldable pub deliver_matches : Message → List ℕ → State → State
  unfolding gather_each send_each
  deliver_matches message sub_ids s =
      let (g, s') = gather_each sub_ids message (nothing_gathered, s) in
      send_each g.fanout_deliveries message (flush_group g message s')

  unfoldable pub publish : Message → State → State
  unfolding deliver_matches
  publish message (b, c) =
      let b' = count_in (Metrics.inc_published_by 1) b in
      deliver_matches message (Engine.match_subject b'.router message.subject) (b', c)

  -- The text is not trimmed before the exact subscribers are looked up.
  unfoldable pub publish_with_str : Str → Bytes → Option Subject → Option HeaderMap → State → State
  unfolding deliver_matches
  publish_with_str subject_str payload reply_to headers (b, c) =
      let b' = count_in (Metrics.inc_published_by 1) b in
      let (exact_matches, needs_wildcard_parse) = Engine.match_subject_str b'.router subject_str in
      if is_empty exact_matches && not needs_wildcard_parse
      then (b', c)
      else let (parsed, b'') = parse_subject b' subject_str in
        elim parsed [
          | err e ↦ (b'', c)
          | ok subject ↦
              let sub_ids =
                if needs_wildcard_parse
                then exact_matches ++ Engine.match_wildcards b''.router subject
                else exact_matches in
              let message : Message = record {
                id = 0;
                subject = subject;
                payload = payload;
                headers = headers;
                reply_to = reply_to;
                timestamp_ns = 0;
              } in
              deliver_matches message sub_ids (b'', c)
        ]
