-- ===== src/Witness/Brokers.antt =====
-- The broker on concrete subscriptions.
use zet_mq.Prelude.{
  ◌+◌, ◌%◌, ◌≡◌, ◌≢◌, refl, List, [], ◌∷◌, none, some, arith, All, length, count, str_eq,
}
use zet_mq.Map
use zet_mq.Map.{nat_key, str_key}
use zet_mq.Core.Engine
use zet_mq.Core.Pattern.{has_wildcard}
use zet_mq.Core.Registry
use zet_mq.Core.Metrics.{u64_mod}
use zet_mq.Core.Delivery.{message_of}
use zet_mq.Core.Broker
use zet_mq.Core.Broker.{BrokerCore, State, QueueGroupState, group_key, deliver_matches, publish}
use zet_mq.Core.Broker.Batch.{publish_batch}
use zet_mq.Core.Broker.Fanout.{IsSingle, targets, Sent, deliver_matches_fanout}
use zet_mq.Core.Broker.Groups.{attempts, IsGroup, AllIn}
use zet_mq.Core.Broker.Turns.{publish_batch-turns}
use zet_mq.Core.Subject
use zet_mq.Core.Registry.Live.{is_match}
use zet_mq.Core.Broker.Invariant.{IsBroker, new-IsBroker, parse_subject-IsBroker}
use zet_mq.Core.Broker.Runs.{Call, subscribes, publishes, disconnects, run, count-match_subject-run}
use zet_mq.Witness.Data.{
  text_ab, good_ab, good_star, subject_ab, pattern_ab, pattern_star, mailbox, item_ab, group_g,
}

-- Two members of the group "g" on "a.b", of the connections 5 and 6.
abbrev broker_group : BrokerCore
broker_group =
    (Broker.subscribe (Broker.subscribe Broker.new 5 pattern_ab (some (103 ∷ [])) 0).1 6 pattern_ab
      (some (103 ∷ [])) 0).1

abbrev members_two : QueueGroupState
members_two = record { members = 1 ∷ 2 ∷ []; current_index = 0 }

no_single : Engine.exact_single_subscriber broker_group.router subject_ab ≡ none
unfolding Engine.exact_single_subscriber Engine.match_subject Map.get Broker.subscribe Registry.add
    Engine.insert has_wildcard Map.insert Broker.new Registry.new Engine.new Map.empty str_eq
no_single = refl

group_found : Map.get group_g broker_group.queue_groups ≡ some members_two
unfolding Map.get Broker.subscribe Registry.add Map.insert Broker.new Registry.new Map.empty str_eq
group_found = refl

members_two-IsGroup : IsGroup broker_group.registry (some members_two)
unfolding Map.get Broker.subscribe Registry.add Map.insert Broker.new Registry.new Map.empty str_eq
members_two-IsGroup = (ground arith, (tt, (tt, tt)))

some_match : Engine.match_subject broker_group.router subject_ab ≢ []
unfolding Engine.exact_single_subscriber Engine.match_subject Map.get Broker.subscribe Registry.add
    Engine.insert has_wildcard Map.insert Broker.new Registry.new Engine.new Map.empty str_eq
some_match = ground arith

match_subject-AllIn :
    AllIn group_g broker_group.registry (Engine.match_subject broker_group.router subject_ab)
unfolding Engine.exact_single_subscriber Engine.match_subject Map.get Broker.subscribe Registry.add
    Engine.insert has_wildcard Map.insert Broker.new Registry.new Engine.new Map.empty str_eq
match_subject-AllIn = (refl, (refl, tt))

publish_batch-turns_example :
    (attempts (publish mailbox (message_of item_ab) (broker_group, [])).0
      ≡ (attempts broker_group + 1) % u64_mod)
    × (attempts (publish_batch mailbox (λ entries. entries) (item_ab ∷ []) (broker_group, [])).0
        ≡ (attempts broker_group + length (Engine.match_subject broker_group.router subject_ab))
          % u64_mod)
publish_batch-turns_example =
    publish_batch-turns mailbox group_g item_ab (λ entries. entries) broker_group [] members_two
      refl no_single group_found members_two-IsGroup some_match match_subject-AllIn

-- One subscriber to "a.*" in no group, of the connection 5.
abbrev broker_single : BrokerCore
broker_single = (Broker.subscribe Broker.new 5 pattern_star none 0).1

single : All (λ id. IsSingle (Registry.get broker_single.registry id)) (1 ∷ 3 ∷ [])
unfolding Map.get Broker.subscribe Registry.add Map.insert Broker.new Registry.new Map.empty str_eq
single = (refl, (tt, tt))

deliver_matches_fanout_example :
    Sent mailbox
      (message_of item_ab)
      (targets broker_single.registry (1 ∷ 3 ∷ []))
      (broker_single, [])
      (deliver_matches mailbox (message_of item_ab) (1 ∷ 3 ∷ []) (broker_single, []))
deliver_matches_fanout_example =
    deliver_matches_fanout mailbox (message_of item_ab) (1 ∷ 3 ∷ []) (broker_single, []) single

-- A connection subscribes, publishes and leaves.
abbrev calls : List Call
calls = subscribes 5 pattern_star none 0 ∷ publishes (message_of item_ab) ∷ disconnects 5 ∷ []

count-match_subject-run_example :
    count 1 (Engine.match_subject (run mailbox calls (Broker.new, [])).0.router subject_ab)
    ≡ is_match subject_ab (Registry.get (run mailbox calls (Broker.new, [])).0.registry 1)
count-match_subject-run_example =
    count-match_subject-run mailbox calls [] subject_ab 1 (good_star, (tt, (tt, tt))) (omega arith)
      good_ab

parse_subject-IsBroker_example :
    ((Broker.parse_subject Broker.new text_ab).0 ≡ Subject.parse text_ab)
    × IsBroker (Broker.parse_subject Broker.new text_ab).1
parse_subject-IsBroker_example = parse_subject-IsBroker Broker.new text_ab new-IsBroker
