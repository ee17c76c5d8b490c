-- ===== src/Core/Broker/Invariant.antt =====
-- The invariant of the broker of crates/zetmq-core/src/broker/core.rs: the registry keeps its own,
-- the ids to come are free, and the cache holds what the parser returns.
use zet_mq.Prelude.{
  ℕ, ◌+◌, ◌%◌, ◌≡◌, ◌≤◌, ◌<◌, refl, ap, ◌∙◌, sym, subst, List, [], ◌∷◌, map, Option, none, some,
  arith, Option-cases, inl, inr, str_eq_iff,
}
use zet_mq.Text.{Str}
use zet_mq.Map
use zet_mq.Map.{Map, nat_key, str_key, get-insert, get-remove, get-empty}
use zet_mq.Core.Subject
use zet_mq.Core.Subject.{Subject, Result, ok, err}
use zet_mq.Core.Pattern.{SubjectPattern}
use zet_mq.Core.Pattern.Parsing.{IsPattern}
use zet_mq.Core.Engine.Table
use zet_mq.Core.Engine.Table.{Table}
use zet_mq.Core.Registry
use zet_mq.Core.Registry.{SubscriptionRegistry, Subscription, QueueGroupKey}
use zet_mq.Core.Registry.Live.{IsRegistry, new-IsRegistry, add-IsRegistry, remove-IsRegistry}
use zet_mq.Core.Registry.Removal.{get-remove_all, remove_all-IsRegistry}
use zet_mq.Core.Metrics
use zet_mq.Core.Metrics.{u64_mod}
use zet_mq.Core.Broker.{
  BrokerCore, group_key, new, cached, parse_subject, subscribe, unsubscribe, left, leave_group,
  shrink_group, shrink_groups, remove_connection,
}

pub record IsBroker (b : BrokerCore) : Type 0 where
  pub registered : (t : Table) × IsRegistry b.registry t
  pub fresh : (a : ℕ) → b.next_sub_id ≤ a → Registry.get b.registry a ≡ none
  pub coherent :
      (text : Str) (s : Subject) → Map.get text b.subject_cache ≡ some s → Subject.parse text ≡ ok s

pub new-IsBroker : IsBroker new
unfolding new Registry.new
new-IsBroker = record {
  registered = ([], new-IsRegistry);
  fresh = λ a h. get-empty {V = Subscription} a;
  coherent = λ text s h. elim (none_some (sym (get-empty {V = Subject} text) ∙ h)) [ ];
}
  where
    none_some : {s : Subject} → none ≡ some s → ⊥
    none_some h = ground arith

-- What the invariant reads is the same in both states.
unfoldable pub Same : BrokerCore → BrokerCore → Type 0
Same b b' =
    (b'.registry ≡ b.registry)
    × (b'.next_sub_id ≡ b.next_sub_id)
    × (b'.subject_cache ≡ b.subject_cache)
    × (b'.metrics.active_connections ≡ b.metrics.active_connections)
    × (b'.metrics.total_connections ≡ b.metrics.total_connections)

pub Same-IsBroker : (b b' : BrokerCore) → Same b b' → IsBroker b → IsBroker b'
unfolding Same
Same-IsBroker b b' (r, n, c, _, _) h = record {
  registered = (h.registered.0, subst (λ r. IsRegistry r h.registered.0) (sym r) h.registered.1);
  fresh = λ a le. ap (λ r. Registry.get r a) r ∙ h.fresh a (omega (arith, n));
  coherent = λ text s at. h.coherent text s (ap (Map.get text) (sym c) ∙ at);
}

-- A subscription under the next id has been added, and the next id has moved on.
added-IsBroker :
    (b b' : BrokerCore) (sub : Subscription)
    → IsPattern sub.pattern
    → sub.id ≡ b.next_sub_id
    → b'.registry ≡ Registry.add b.registry sub
    → b'.next_sub_id ≡ b.next_sub_id + 1
    → b'.subject_cache ≡ b.subject_cache
    → IsBroker b
    → IsBroker b'
unfolding Registry.add
added-IsBroker b b' sub good own r n c h = record {
  registered = (
    Table.add h.registered.0 sub.pattern sub.id,
    subst (λ r. IsRegistry r (Table.add h.registered.0 sub.pattern sub.id)) (sym r)
        (add-IsRegistry sub (h.fresh sub.id (omega (arith, own))) good h.registered.1),
  );
  fresh = λ a le.
      ap (λ r. Registry.get r a) r
      ∙ get-insert sub.id a sub b.registry.subscriptions
      ∙ ground (arith, h.fresh a, own, n);
  coherent = λ text s at. h.coherent text s (ap (Map.get text) (sym c) ∙ at);
}

-- The invariant holds behind `subscribe` with a parsed pattern, while ids are left.
pub subscribe-IsBroker :
    (b : BrokerCore) (c : ℕ) (pattern : SubjectPattern) (group : Option Str) (delivery : ℕ)
    → IsPattern pattern
    → b.next_sub_id + 1 < u64_mod
    → IsBroker b
    → IsBroker (subscribe b c pattern group delivery).1
unfolding subscribe
subscribe-IsBroker b c pattern none delivery good room h =
    added-IsBroker b _ _ good refl refl (omega (arith, room)) refl h
subscribe-IsBroker b c pattern (some name) delivery good room h =
    added-IsBroker b _ _ good refl refl (omega (arith, room)) refl h

leave_group-Same :
    (key : Option QueueGroupKey) (id : ℕ) (b : BrokerCore) → Same b (leave_group key id b)
unfolding Same
leave_group-Same none id b = (refl, refl, refl, refl, refl)
leave_group-Same (some key) id b = (refl, refl, refl, refl, refl)

pub left-Same : (o : Option Subscription) (id : ℕ) (b : BrokerCore) → Same b (left o id b)
unfolding Same Metrics.dec_subscriptions
left-Same none id b = (refl, refl, refl, refl, refl)
left-Same (some sub) id b = leave_group-Same sub.queue_group_key id b

get-removed :
    (r : SubscriptionRegistry) (id a : ℕ)
    → Registry.get r a ≡ none
    → Registry.get (Registry.remove r id).0 a ≡ none
unfolding Registry.remove Registry.unroute
get-removed r id a free = elim (Option-cases (Registry.get r id)) [
  | inl missing ↦ rw (missing, Registry.remove) free
  | inr (sub, found) ↦
      rw (found, Registry.remove) (get-remove id a r.subscriptions ∙ ground (arith, free))
]

-- The invariant holds behind `unsubscribe`, whatever the id and the connection are.
pub unsubscribe-IsBroker : (b : BrokerCore) (c id : ℕ) → IsBroker b → IsBroker (unsubscribe b c id)
unfolding unsubscribe
unsubscribe-IsBroker b c id h =
    let removed = record b { registry = (Registry.remove b.registry id).0 } in
    let gone : IsBroker removed = record {
      registered = (_, remove-IsRegistry id h.registered.1);
      fresh = λ a le. get-removed b.registry id a (h.fresh a le);
      coherent = h.coherent;
    } in
    Same-IsBroker removed _ (left-Same (Registry.remove b.registry id).1 id removed) gone

shrink_group-Same :
    (ids : List ℕ) (key : Option QueueGroupKey) (b : BrokerCore) → Same b (shrink_group ids key b)
unfolding Same
shrink_group-Same ids none b = (refl, refl, refl, refl, refl)
shrink_group-Same ids (some key) b = elim (Option-cases (Map.get key b.queue_groups)) [
  | inl missing ↦ rw (missing, shrink_group) (refl, refl, refl, refl, refl)
  | inr (g, found) ↦ rw (found, shrink_group) (refl, refl, refl, refl, refl)
]

pub Same-trans : (b b' b'' : BrokerCore) → Same b b' → Same b' b'' → Same b b''
unfolding Same
Same-trans b b' b'' (r, n, c, a, t) (r', n', c', a', t') = (r' ∙ r, n' ∙ n, c' ∙ c, a' ∙ a, t' ∙ t)

pub shrink_groups-Same :
    (ids : List ℕ) (subs : List Subscription) (b : BrokerCore) → Same b (shrink_groups ids subs b)
unfolding shrink_groups
shrink_groups-Same ids [] b = unfold Same in (refl, refl, refl, refl, refl)
shrink_groups-Same ids (sub ∷ subs) b =
    let b' = shrink_group ids sub.queue_group_key b in
    Same-trans b b' (shrink_groups ids subs b') (shrink_group-Same ids sub.queue_group_key b)
      (shrink_groups-Same ids subs b')

-- The invariant holds behind `remove_connection`.
pub remove_connection-IsBroker :
    (b : BrokerCore) (c : ℕ) → IsBroker b → IsBroker (remove_connection b c)
unfolding remove_connection
remove_connection-IsBroker b c h =
    let result = Registry.remove_all_for_connection b.registry c in
    let removed = record b { registry = result.0 } in
    let gone : IsBroker removed = record {
      registered = (_, remove_all-IsRegistry c h.registered.1);
      fresh = λ a le. get-remove_all c h.registered.1 a ∙ ground (arith, h.fresh a le);
      coherent = h.coherent;
    } in
    let ids = map (λ (sub : Subscription). sub.id) result.1 in
    let shrunk : IsBroker (shrink_groups ids result.1 removed) =
      Same-IsBroker removed (shrink_groups ids result.1 removed)
        (shrink_groups-Same ids result.1 removed) gone in
    record { registered = shrunk.registered; fresh = shrunk.fresh; coherent = shrunk.coherent }

-- In a broker that satisfies its invariant, by which the registry keeps its own, the ids to come
-- are free and each cached text has the subject that the parser returns for it, `parse_subject`
-- returns what `Subject::parse` returns, and keeps the invariant.
pub parse_subject-IsBroker :
    (b : BrokerCore) (text : Str)
    → IsBroker b
    → ((parse_subject b text).0 ≡ Subject.parse text) × IsBroker (parse_subject b text).1
unfolding parse_subject
parse_subject-IsBroker b text h = elim (Option-cases (Map.get text b.subject_cache)) [
  | inr (s, found) ↦ rw (found, parse_subject) (sym (h.coherent text s found), h)
  | inl missing ↦ rw (missing, parse_subject) (refl, cached-IsBroker (Subject.parse text) refl)
]
  where
    cached-IsBroker : (r : Result Subject) → Subject.parse text ≡ r → IsBroker (cached text r b)
    cached-IsBroker (err e) parsed = h
    cached-IsBroker (ok s) parsed = record {
      registered = h.registered;
      fresh = h.fresh;
      coherent = λ other s' at. ground (
        arith,
        parsed,
        get-insert text other s b.subject_cache,
        str_eq_iff text other,
        h.coherent other s',
      );
    }

pub subscribe-next_sub_id :
    (b : BrokerCore) (c : ℕ) (pattern : SubjectPattern) (group : Option Str) (delivery : ℕ)
    → (subscribe b c pattern group delivery).1.next_sub_id ≡ (b.next_sub_id + 1) % u64_mod
unfolding subscribe
subscribe-next_sub_id b c pattern none delivery = refl
subscribe-next_sub_id b c pattern (some name) delivery = refl

pub unsubscribe-next_sub_id :
    (b : BrokerCore) (c id : ℕ) → (unsubscribe b c id).next_sub_id ≡ b.next_sub_id
unfolding unsubscribe
unsubscribe-next_sub_id b c id =
    let removed = record b { registry = (Registry.remove b.registry id).0 } in
    let same = left-Same (Registry.remove b.registry id).1 id removed in (unfold Same in same.1)

pub remove_connection-next_sub_id :
    (b : BrokerCore) (c : ℕ) → (remove_connection b c).next_sub_id ≡ b.next_sub_id
unfolding remove_connection
remove_connection-next_sub_id b c =
    let result = Registry.remove_all_for_connection b.registry c in
    let removed = record b { registry = result.0 } in
    let ids = map (λ (sub : Subscription). sub.id) result.1 in
    let same = shrink_groups-Same ids result.1 removed in (unfold Same in same.1)
