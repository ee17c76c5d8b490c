-- ===== src/Core/Registry/Live.antt =====
-- The invariant of the registry: its two maps and its router tell of the same subscriptions.
use zet_mq.Prelude.{
  ℕ, suc, ◌≡◌, refl, false, List, [], ◌∷◌, ◌++◌, Option, none, some, arith, if◌then◌else◌, ◌==◌,
  count, count-append, retain, not, Bool-cases, Option-cases, inl, inr, str_eq, str_eq_refl,
  append-nil, ◌∙◌, ap,
}
use zet_mq.Map.{nat_key, get-insert, get-remove, get-update, get-empty}
use zet_mq.Core.Subject.{Subject}
use zet_mq.Core.Subject.Parsing.{IsSubject}
use zet_mq.Core.Pattern.{SubjectPattern, matches}
use zet_mq.Core.Pattern.Parsing.{IsPattern}
use zet_mq.Core.Engine.{match_subject}
use zet_mq.Core.Engine.Table.{Table, matching}
use zet_mq.Core.Engine.Table
use zet_mq.Core.Engine.Routing.{Implements, new-Implements, insert-Implements, remove-Implements}
use zet_mq.Core.Engine.Matching.{count-match_subject}
use zet_mq.Core.Trie.{others}
use zet_mq.Core.Registry.{
  Subscription, SubscriptionRegistry, new, get, get_by_connection, add, unroute, remove,
}

-- The patterns under which an id stands in the routing table.
unfoldable pub patterns_of : ℕ → Table → List SubjectPattern
patterns_of a [] = []
patterns_of a ((p, id) ∷ t) = let rest = patterns_of a t in if a == id then p ∷ rest else rest

abbrev pub live_patterns : Option Subscription → List SubjectPattern
live_patterns none = []
live_patterns (some sub) = sub.pattern ∷ []

abbrev pub owns : ℕ → Option Subscription → ℕ
owns connection_id none = 0
owns connection_id (some sub) = if sub.connection_id == connection_id then 1 else 0

-- A subscription stands under its own id, with a parsed pattern.
abbrev pub IsRegistered : ℕ → Option Subscription → Type 0
IsRegistered a none = Unit
IsRegistered a (some sub) = (sub.id ≡ a) × IsPattern sub.pattern

-- `t` is the routing table that the router implements.
pub record IsRouted (r : SubscriptionRegistry) (t : Table) : Type 0 where
  pub routes : Implements r.router t
  -- A live id stands in the table once, under its pattern, and no other id does.
  pub live : (a : ℕ) → patterns_of a t ≡ live_patterns (get r a)
  pub registered : (a : ℕ) → IsRegistered a (get r a)

pub record IsRegistry (r : SubscriptionRegistry) (t : Table) : Type 0 where
  pub routed : IsRouted r t
  -- The list of a connection holds the ids of its subscriptions, each once.
  pub owned : (c a : ℕ) → count a (get_by_connection r c) ≡ owns c (get r a)

pub new-IsRegistry : IsRegistry new []
unfolding new patterns_of count
new-IsRegistry = record {
  routed = record {
    routes = new-Implements;
    live = λ a. rw (get-empty {V = Subscription} a);
    registered = λ a. rw (get-empty {V = Subscription} a) tt;
  };
  owned = λ c a. rw (get-empty {V = List ℕ} c, get-empty {V = Subscription} a);
}

patterns_of-add :
    (a : ℕ) (t : Table) (p : SubjectPattern) (id : ℕ)
    → patterns_of a (Table.add t p id) ≡ patterns_of a t ++ (if a == id then p ∷ [] else [])
unfolding patterns_of
patterns_of-add a [] p id = ground arith
patterns_of-add a (x ∷ t) p id = ground (arith, patterns_of-add a t p id)

patterns_of-drop_ne :
    (a : ℕ) (t : Table) (p : SubjectPattern) (id : ℕ)
    → (a == id) ≡ false
    → patterns_of a (Table.drop_entry t p id) ≡ patterns_of a t
unfolding patterns_of
patterns_of-drop_ne a [] p id h = refl
patterns_of-drop_ne a ((q, j) ∷ t) p id h = ground (arith, patterns_of-drop_ne a t p id h)

patterns_of-drop_self :
    (t : Table) (p : SubjectPattern) (id : ℕ)
    → patterns_of id (Table.drop_entry t p id)
      ≡ retain (λ q. not (str_eq q.raw p.raw)) (patterns_of id t)
unfolding patterns_of
patterns_of-drop_self [] p id = refl
patterns_of-drop_self ((q, j) ∷ t) p id = ground (arith, patterns_of-drop_self t p id)

count_single : (a x : ℕ) → count a (x ∷ []) ≡ (if a == x then 1 else 0)
unfolding count
count_single a x = ground arith

pub count-others :
    (a id : ℕ) (xs : List ℕ) → count a (others id xs) ≡ (if a == id then 0 else count a xs)
unfolding count
count-others a id [] = ground arith
count-others a id (x ∷ xs) = ground (arith, count-others a id xs)

module _ {r : SubscriptionRegistry} {t : Table} (sub : Subscription) (fresh : get r sub.id ≡ none)
    (good : IsPattern sub.pattern) where
  add-IsRouted : IsRouted r t → IsRouted (add r sub) (Table.add t sub.pattern sub.id)
  unfolding add
  add-IsRouted h = record {
    routes = insert-Implements h.routes good sub.id;
    live = λ a. ground (
      arith,
      patterns_of-add a t sub.pattern sub.id,
      h.live a,
      get-insert sub.id a sub r.subscriptions,
      append-nil (patterns_of a t),
    );
    registered = λ a.
        rw (get-insert sub.id a sub r.subscriptions) (elim (Bool-cases (sub.id == a)) [
          | inl same ↦ rw same (ground arith, good)
          | inr other ↦ rw other (h.registered a)
        ]);
  }

  -- Adding a subscription under an id that is not taken and with a parsed pattern keeps the
  -- invariant of the registry, with the subscription added to the routing table: the router
  -- implements the table, each live id stands in it once under its pattern, and the list of each
  -- connection holds the ids of its subscriptions once.
  pub add-IsRegistry : IsRegistry r t → IsRegistry (add r sub) (Table.add t sub.pattern sub.id)
  unfolding add
  add-IsRegistry h = record {
    routed = add-IsRouted h.routed;
    owned = λ c a. ground (
      arith,
      get-insert sub.id a sub r.subscriptions,
      get-insert sub.connection_id c (get_by_connection r sub.connection_id ++ sub.id ∷ [])
          r.by_connection,
      h.owned c a,
      h.owned sub.connection_id a,
      count-append a (get_by_connection r sub.connection_id) (sub.id ∷ []),
      count_single a sub.id,
    );
  }

module _ {r : SubscriptionRegistry} {t : Table} (sub_id : ℕ) {sub : Subscription}
    (found : get r sub_id ≡ some sub) where
  found-IsPattern : IsRouted r t → (sub.id ≡ sub_id) × IsPattern sub.pattern
  found-IsPattern h = rw found at (h.registered sub_id)

  pub unroute-IsRouted :
      IsRouted r t → IsRouted (unroute r sub_id sub) (Table.drop_entry t sub.pattern sub_id)
  unfolding unroute
  unroute-IsRouted h = record {
    routes = remove-Implements h.routes (found-IsPattern h).1 sub_id;
    live = λ a. elim (Bool-cases (a == sub_id)) [
      | inl same ↦ ground (
        arith,
        patterns_of-drop_self t sub.pattern sub_id,
        h.live sub_id,
        str_eq_refl sub.pattern.raw,
        get-remove sub_id a r.subscriptions,
      )
      | inr other ↦ ground (
        arith,
        patterns_of-drop_ne a t sub.pattern sub_id other,
        h.live a,
        get-remove sub_id a r.subscriptions,
      )
    ];
    registered = λ a. rw (get-remove sub_id a r.subscriptions) (elim (Bool-cases (sub_id == a)) [
      | inl same ↦ rw same tt
      | inr other ↦ rw other (h.registered a)
    ]);
  }

  remove-IsRegistry_found :
      IsRegistry r t → IsRegistry (remove r sub_id).0 (Table.drop_entry t sub.pattern sub_id)
  unfolding remove
  remove-IsRegistry_found h =
      let u = unroute-IsRouted h.routed in
      rw (found, remove)
        (record {
          routed = record { routes = u.routes; live = u.live; registered = u.registered };
          owned = λ c a. ground (
            arith,
            get-remove sub_id a r.subscriptions,
            get-update (others sub_id) sub.connection_id c r.by_connection,
            h.owned c a,
            count-others a sub_id (get_by_connection r c),
            found,
          );
        })

abbrev pub table_without : ℕ → Option Subscription → Table → Table
table_without sub_id none t = t
table_without sub_id (some sub) t = Table.drop_entry t sub.pattern sub_id

-- `remove` keeps the invariant of the registry, and drops from the routing table the entry of the
-- subscription, if the id has one.
pub remove-IsRegistry :
    {r : SubscriptionRegistry} {t : Table} (sub_id : ℕ)
    → IsRegistry r t
    → IsRegistry (remove r sub_id).0 (table_without sub_id (get r sub_id) t)
unfolding remove
remove-IsRegistry {r} {t} sub_id h = elim (Option-cases (get r sub_id)) [
  | inl missing ↦ rw (missing, remove) h
  | inr (sub, found) ↦
      rw (ap (λ o. table_without sub_id o t) found) (remove-IsRegistry_found sub_id found h)
]

abbrev pub is_match : Subject → Option Subscription → ℕ
is_match s none = 0
is_match s (some sub) = if matches sub.pattern s then 1 else 0

accepted : Subject → List SubjectPattern → ℕ
accepted s [] = 0
accepted s (p ∷ ps) = let rest = accepted s ps in if matches p s then suc rest else rest

matching-accepted :
    (a : ℕ) (s : Subject) (t : Table) → matching a s t ≡ accepted s (patterns_of a t)
unfolding matching patterns_of accepted
matching-accepted a s [] = refl
matching-accepted a s (x ∷ t) = ground (arith, matching-accepted a s t)

accepted-live :
    (s : Subject) (o : Option Subscription) → accepted s (live_patterns o) ≡ is_match s o
unfolding accepted
accepted-live s none = refl
accepted-live s (some sub) = refl

-- Let the router of a registry implement a routing table that holds each live id once, under the
-- pattern of its subscription, and no other id. Then `match_subject` of a parsed subject returns an
-- id once if it is live and its pattern matches the subject, and else not at all.
pub count-match_subject_live :
    {r : SubscriptionRegistry} {t : Table} (s : Subject) (a : ℕ)
    → IsRouted r t
    → IsSubject s
    → count a (match_subject r.router s) ≡ is_match s (get r a)
count-match_subject_live {r} {t} s a h good =
    count-match_subject h.routes good a
    ∙ matching-accepted a s t
    ∙ ap (accepted s) (h.live a)
    ∙ accepted-live s (get r a)
