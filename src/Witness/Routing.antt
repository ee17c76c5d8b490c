-- ===== src/Witness/Routing.antt =====
-- Routing and the registry on concrete subscriptions.
use zet_mq.Prelude.{
  ◌≡◌, ◌<◌, refl, true, List, [], ◌∷◌, ◌++◌, none, count, ◌==◌, if◌then◌else◌, str_eq,
}
use zet_mq.Core.Pattern.{matches, has_wildcard, has_multi, single_wildcard, literal, PatternToken}
use zet_mq.Core.Trie
use zet_mq.Core.Trie.{default, insert_at, remove_at, match_recursive, others}
use zet_mq.Core.Trie.Matching.{match_recursive-gather, covers, gather}
use zet_mq.Core.Engine
use zet_mq.Core.Engine.{RoutingEngine}
use zet_mq.Core.Engine.Table
use zet_mq.Core.Engine.Table.{Table, matching}
use zet_mq.Core.Engine.Routing.{Implements, new-Implements, insert-Implements, remove-Implements}
use zet_mq.Core.Engine.Matching.{
  Operation, inserts, removes, run, table, match_subject-run, subject-literals,
}
use zet_mq.Core.Engine.Race.{Steps, both_start, both_done, insert_lost}
use zet_mq.Core.Registry
use zet_mq.Core.Registry.{SubscriptionRegistry}
use zet_mq.Core.Registry.Live.{
  IsRegistry, new-IsRegistry, add-IsRegistry, count-match_subject_live, is_match, owns,
}
use zet_mq.Core.Registry.Removal.{get-remove_all}
use zet_mq.Map
use zet_mq.Map.{nat_key}
use zet_mq.Witness.Data.{
  subject_ab, pattern_ab, pattern_star, good_ab, good_pattern_ab, good_star, subscribed,
}

-- Two subscriptions, one of which is removed again.
abbrev calls : List Operation
calls = inserts pattern_ab 1 ∷ inserts pattern_star 2 ∷ removes pattern_ab 1 ∷ []

match_subject-run_example :
    count 2 (Engine.match_subject (run Engine.new calls) subject_ab)
    ≡ matching 2 subject_ab (table [] calls)
match_subject-run_example =
    match_subject-run calls subject_ab 2 (good_pattern_ab, (good_star, (good_pattern_ab, tt)))
      good_ab

abbrev engine_star : RoutingEngine
engine_star = Engine.insert Engine.new pattern_star 1

abbrev table_star : Table
table_star = Table.add [] pattern_star 1

good_engine : Implements engine_star table_star
good_engine = insert-Implements new-Implements good_star 1

remove-Implements_example :
    Implements
      (Engine.remove engine_star pattern_star 1)
      (Table.drop_entry table_star pattern_star 1)
remove-Implements_example = remove-Implements good_engine good_star 1

last_one :
    Trie.is_empty_trie (Engine.remove_from_trie engine_star pattern_star 1).wildcard_trie ≡ true
unfolding Trie.is_empty_trie Engine.remove_from_trie Engine.insert Trie.insert Trie.remove
    Engine.new Trie.insert_at Trie.subs_at has_multi has_wildcard str_eq
last_one = refl

star_matches : matches pattern_star subject_ab ≡ true
unfolding matches str_eq
star_matches = refl

star_wild : has_wildcard pattern_star.tokens ≡ true
unfolding has_wildcard
star_wild = refl

insert_lost_example :
    (e' : RoutingEngine) × Steps
      (both_start engine_star pattern_star 1 pattern_star 2)
      (both_done e')
    × (count 2 (Engine.match_subject e' subject_ab)
        < matching 2 subject_ab
            (Table.add (Table.drop_entry table_star pattern_star 1) pattern_star 2))
insert_lost_example =
    insert_lost good_engine good_star good_star star_wild star_wild 1 2 good_ab last_one
      star_matches

abbrev tokens_star : List PatternToken
tokens_star = literal (97 ∷ []) ∷ single_wildcard ∷ []

match_recursive-gather_example :
    match_recursive engine_star.wildcard_trie.root ((97 ∷ []) ∷ (98 ∷ []) ∷ []) []
    ≡ [] ++ gather (covers ((97 ∷ []) ∷ (98 ∷ []) ∷ [])) engine_star.wildcard_trie.root
match_recursive-gather_example =
    match_recursive-gather engine_star.wildcard_trie.root ((97 ∷ []) ∷ (98 ∷ []) ∷ []) []
      (subject-literals good_ab)

nothing_registered : Registry.get Registry.new 1 ≡ none
unfolding Registry.new
nothing_registered = Map.get-empty 1

-- The subscription 1 of the connection 5.
abbrev registry_one : SubscriptionRegistry
registry_one = Registry.add Registry.new (subscribed 1 5)

registry_one-IsRegistry : IsRegistry registry_one table_star
registry_one-IsRegistry =
    add-IsRegistry (subscribed 1 5) nothing_registered good_star new-IsRegistry

count-match_subject_live_example :
    count 1 (Engine.match_subject registry_one.router subject_ab)
    ≡ is_match subject_ab (Registry.get registry_one 1)
count-match_subject_live_example =
    count-match_subject_live subject_ab 1 registry_one-IsRegistry.routed good_ab

get-remove_all_example :
    Registry.get (Registry.remove_all_for_connection registry_one 5).0 1
    ≡ (if owns 5 (Registry.get registry_one 1) == 0 then Registry.get registry_one 1 else none)
get-remove_all_example = get-remove_all 5 registry_one-IsRegistry 1
