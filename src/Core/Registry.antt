-- ===== src/Core/Registry.antt =====
-- crates/zetmq-core/src/subscription/{mod,registry}.rs. A delivery handle is the number of its
-- connection's channel. Each method is one step.
pub mod Live
pub mod Removal
use zet_mq.Prelude.{
  ℕ, zero, suc, Bool, true, false, List, [], ◌∷◌, ◌++◌, Option, none, some, length,
}
use zet_mq.Text.{Str}
use zet_mq.Map
use zet_mq.Map.{Map, nat_key}
use zet_mq.Core.Pattern.{SubjectPattern}
use zet_mq.Core.Trie.{others}
use zet_mq.Core.Engine
use zet_mq.Core.Engine.{RoutingEngine, or_default}

-- A queue group is told by the text of the pattern and its name. Keys are interned when a
-- subscription is made, and the live subscriptions of a group share one allocation, so that the
-- source's `Arc::ptr_eq` of two keys is their equality.
abbrev pub QueueGroupKey : Type 0
QueueGroupKey = Str × Str

pub record Subscription : Type 0 where
  pub id : ℕ
  pub connection_id : ℕ
  pub pattern : SubjectPattern
  pub queue_group : Option Str
  pub queue_group_key : Option QueueGroupKey
  pub delivery : ℕ

pub record SubscriptionRegistry : Type 0 where
  pub subscriptions : Map ℕ Subscription
  pub by_connection : Map ℕ (List ℕ)
  pub router : RoutingEngine

unfoldable pub new : SubscriptionRegistry
new = record { subscriptions = Map.empty; by_connection = Map.empty; router = Engine.new }

-- `get` and `get_ref`
abbrev pub get : SubscriptionRegistry → ℕ → Option Subscription
get r sub_id = Map.get sub_id r.subscriptions

abbrev pub get_by_connection : SubscriptionRegistry → ℕ → List ℕ
get_by_connection r connection_id = or_default (Map.get connection_id r.by_connection)

abbrev pub count_for_connection : SubscriptionRegistry → ℕ → ℕ
count_for_connection r connection_id = length (get_by_connection r connection_id)

-- `add`, with the subscription that it builds from its arguments.
unfoldable pub add : SubscriptionRegistry → Subscription → SubscriptionRegistry
add r sub = record {
  subscriptions = Map.insert sub.id sub r.subscriptions;
  by_connection =
      Map.insert sub.connection_id (get_by_connection r sub.connection_id ++ sub.id ∷ [])
        r.by_connection;
  router = Engine.insert r.router sub.pattern sub.id;
}

-- A subscription out of the map and out of the router.
unfoldable pub unroute : SubscriptionRegistry → ℕ → Subscription → SubscriptionRegistry
unroute r sub_id sub = record r {
  subscriptions = Map.remove sub_id r.subscriptions;
  router = Engine.remove r.router sub.pattern sub_id;
}

unfoldable pub remove : SubscriptionRegistry → ℕ → SubscriptionRegistry × Option Subscription
unfolding unroute
remove r sub_id = elim (get r sub_id) [
  | none ↦ (r, none)
  | some sub ↦ (
    record (unroute r sub_id sub) {
      by_connection = Map.update (others sub_id) sub.connection_id r.by_connection;
    },
    some sub,
  )
]

-- The loop over the ids of a connection.
unfoldable pub remove_each :
    List ℕ → SubscriptionRegistry → SubscriptionRegistry × List Subscription
unfolding unroute
remove_each [] r = (r, [])
remove_each (sub_id ∷ sub_ids) r = elim (get r sub_id) [
  | none ↦ remove_each sub_ids r
  | some sub ↦ let (r', removed) = remove_each sub_ids (unroute r sub_id sub) in (r', sub ∷ removed)
]

unfoldable pub remove_all_for_connection :
    SubscriptionRegistry → ℕ → SubscriptionRegistry × List Subscription
unfolding remove_each
remove_all_for_connection r connection_id =
    remove_each (get_by_connection r connection_id)
      (record r { by_connection = Map.remove connection_id r.by_connection })
