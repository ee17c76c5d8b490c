-- ===== src/Core/Registry/Removal.antt =====
-- `remove_all_for_connection` of crates/zetmq-core/src/subscription/registry.rs takes the
-- subscriptions of one connection, and no others.
use zet_mq.Prelude.{
  ℕ, ◌≡◌, refl, List, [], ◌∷◌, none, some, arith, if◌then◌else◌, ◌==◌, count, Option-cases, inl,
  inr,
}
use zet_mq.Map
use zet_mq.Map.{nat_key, get-remove}
use zet_mq.Core.Engine.Table
use zet_mq.Core.Engine.Table.{Table}
use zet_mq.Core.Registry.{
  SubscriptionRegistry, get, get_by_connection, unroute, remove_each, remove_all_for_connection,
}
use zet_mq.Core.Registry.Live.{IsRouted, IsRegistry, unroute-IsRouted, owns}

-- The routing table behind the loop.
unfoldable pub table_each : List ℕ → SubscriptionRegistry → Table → Table
table_each [] r t = t
table_each (id ∷ ids) r t = elim (get r id) [
  | none ↦ table_each ids r t
  | some sub ↦ table_each ids (unroute r id sub) (Table.drop_entry t sub.pattern id)
]

pub remove_each-IsRouted :
    (ids : List ℕ) (r : SubscriptionRegistry) (t : Table)
    → IsRouted r t
    → IsRouted (remove_each ids r).0 (table_each ids r t)
unfolding remove_each table_each
remove_each-IsRouted [] r t h = h
remove_each-IsRouted (id ∷ ids) r t h = elim (Option-cases (get r id)) [
  | inl missing ↦ rw (missing, remove_each, table_each) (remove_each-IsRouted ids r t h)
  | inr (sub, found) ↦
      rw (found, remove_each, table_each)
        (remove_each-IsRouted ids (unroute r id sub) (Table.drop_entry t sub.pattern id)
          (unroute-IsRouted id found h))
]

get-remove_each :
    (ids : List ℕ) (r : SubscriptionRegistry) (a : ℕ)
    → get (remove_each ids r).0 a ≡ (if count a ids == 0 then get r a else none)
unfolding remove_each unroute count
get-remove_each [] r a = refl
get-remove_each (id ∷ ids) r a = elim (Option-cases (get r id)) [
  | inl missing ↦ ground (arith, missing, get-remove_each ids r a)
  | inr (sub, found) ↦
      ground
        (arith, found, get-remove_each ids (unroute r id sub) a, get-remove id a r.subscriptions)
]

by_connection-remove_each :
    (ids : List ℕ) (r : SubscriptionRegistry) (c : ℕ)
    → get_by_connection (remove_each ids r).0 c ≡ get_by_connection r c
unfolding remove_each unroute
by_connection-remove_each [] r c = refl
by_connection-remove_each (id ∷ ids) r c = elim (Option-cases (get r id)) [
  | inl missing ↦ ground (arith, missing, by_connection-remove_each ids r c)
  | inr (sub, found) ↦ ground (arith, found, by_connection-remove_each ids (unroute r id sub) c)
]

count_nil : (a : ℕ) → count a [] ≡ 0
unfolding count
count_nil a = refl

module _ {r : SubscriptionRegistry} {t : Table} (c : ℕ) (h : IsRegistry r t) where
  abbrev ids : List ℕ
  ids = get_by_connection r c

  abbrev unlisted : SubscriptionRegistry
  unlisted = record r { by_connection = Map.remove c r.by_connection }

  -- In a registry that satisfies its invariant, `remove_all_for_connection` takes away each
  -- subscription of the connection, and leaves every other as it was.
  pub get-remove_all :
      (a : ℕ)
      → get (remove_all_for_connection r c).0 a ≡ (if owns c (get r a) == 0 then get r a else none)
  unfolding remove_all_for_connection
  get-remove_all a = rw (get-remove_each ids unlisted a, h.owned c a)

  pub remove_all-IsRegistry :
      IsRegistry (remove_all_for_connection r c).0 (table_each ids unlisted t)
  unfolding remove_all_for_connection
  remove_all-IsRegistry = record {
    routed = remove_each-IsRouted ids unlisted t (record {
      routes = h.routed.routes;
      live = h.routed.live;
      registered = h.routed.registered;
    });
    owned = owned_left;
  }
    where
      owned_left :
          (d a : ℕ)
          → count a (get_by_connection (remove_each ids unlisted).0 d)
            ≡ owns d (get (remove_each ids unlisted).0 a)
      owned_left d a =
          rw (by_connection-remove_each ids unlisted d, get-remove_each ids unlisted a, h.owned c a)
            (ground (arith, get-remove c d r.by_connection, h.owned d a, count_nil a))
