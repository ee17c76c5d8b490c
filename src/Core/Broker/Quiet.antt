-- ===== src/Core/Broker/Quiet.antt =====
-- What the other ways to publish of crates/zetmq-core/src/broker/core.rs leave as it was: the
-- registry, the ids to come and the connections counted.
use zet_mq.Prelude.{
  ℕ, ◌≡◌, ◌⊎◌, refl, ◌∙◌, true, false, List, [], ◌∷◌, ◌++◌, ◌&&◌, not, Option, Option-cases,
  Bool-cases, inl, inr, is_empty, length, if◌then◌else◌,
}
use zet_mq.Text.{Str}
use zet_mq.Map
use zet_mq.Map.{str_key}
use zet_mq.Core.Subject
use zet_mq.Core.Subject.{Subject}
use zet_mq.Core.Engine
use zet_mq.Core.Registry
use zet_mq.Core.Registry.{SubscriptionRegistry, Subscription}
use zet_mq.Core.Metrics
use zet_mq.Core.Delivery.{
  Bytes, HeaderMap, Message, PublishItem, message_of, DeliveryMessage, DeliveryHandle,
}
use zet_mq.Core.Broker.{BrokerCore, State, count_in, cached, parse_subject, publish_with_str}
use zet_mq.Core.Broker.Batch.{
  SubInfo, Routed, route_found, find_cached, route_one, route_each, route_item, route_items,
  flush_one, flush_each, publish_routed, publish_batch, nothing_routed, is_grouped, all_subject,
  is_last, count_batch,
}
use zet_mq.Core.Broker.Invariant.{Same, Same-trans}
use zet_mq.Core.Broker.Runs.{Same-refl, deliver_matches-Same, count_published-Same}

-- To split on what a parser of the core finds.
pub Parsed-cases {ℓ} :
    {A : Type ℓ} (r : Subject.Result A)
    → ((a : A) × (r ≡ Subject.ok a)) ⊎ ((e : Subject.CoreError) × (r ≡ Subject.err e))
Parsed-cases (Subject.ok a) = inl (a, refl)
Parsed-cases (Subject.err e) = inr (e, refl)

-- As `Same`, but the cache may grow.
unfoldable pub Quiet : BrokerCore → BrokerCore → Type 0
Quiet b b' =
    (b'.registry ≡ b.registry)
    × (b'.metrics.active_connections ≡ b.metrics.active_connections)
    × (b'.metrics.total_connections ≡ b.metrics.total_connections)

pub Quiet-trans : (b b' b'' : BrokerCore) → Quiet b b' → Quiet b' b'' → Quiet b b''
unfolding Quiet
Quiet-trans b b' b'' (r, a, t) (r', a', t') = (r' ∙ r, a' ∙ a, t' ∙ t)

pub Same-Quiet : (b b' : BrokerCore) → Same b b' → Quiet b b'
unfolding Same Quiet
Same-Quiet b b' (r, n, c, a, t) = (r, a, t)

pub parse_subject-Quiet : (b : BrokerCore) (text : Str) → Quiet b (parse_subject b text).1
unfolding parse_subject Quiet
parse_subject-Quiet b text = elim (Option-cases (Map.get text b.subject_cache)) [
  | inr (s, found) ↦ rw (found, parse_subject) (refl, refl, refl)
  | inl missing ↦ rw (missing, parse_subject) (cached_quiet (Subject.parse text))
]
  where
    cached_quiet : (r : Subject.Result Subject) → Quiet b (cached text r b)
    cached_quiet (Subject.ok s) = (refl, refl, refl)
    cached_quiet (Subject.err e) = (refl, refl, refl)

module _ (D : DeliveryHandle) where
  open D use {Channels, deliver}

  pub publish_with_str-Quiet :
      (text : Str) (payload : Bytes) (reply : Option Subject) (headers : Option HeaderMap)
      (s : State D)
      → Quiet s.0 (publish_with_str D text payload reply headers s).0
  unfolding publish_with_str
  publish_with_str-Quiet text payload reply headers (b, c) =
      let b' = count_in (Metrics.inc_published_by 1) b in
      let counted : Quiet b b' = Same-Quiet b b' (count_published-Same D 1 b) in
      let (exact, wild) = Engine.match_subject_str b'.router text in
      let looked : Quiet b (parse_subject b' text).1 =
        Quiet-trans b b' _ counted (parse_subject-Quiet b' text) in
      elim (Bool-cases (is_empty exact && not wild)) [
        | inl nobody ↦ rw nobody counted
        | inr somebody ↦ elim (Parsed-cases (parse_subject b' text).0) [
          | inr (e, bad) ↦ rw (somebody, bad) looked
          | inl (subject, good) ↦
              let message : Message = record {
                id = 0;
                subject = subject;
                payload = payload;
                headers = headers;
                reply_to = reply;
                timestamp_ns = 0;
              } in
              let ids =
                if wild
                then exact ++ Engine.match_wildcards (parse_subject b' text).1.router subject
                else exact in
              rw (somebody, good)
                (Quiet-trans b (parse_subject b' text).1 _ looked (
                  Same-Quiet (parse_subject b' text).1 _
                    (deliver_matches-Same D message ids ((parse_subject b' text).1, c))))
        ]
      ]

  route_found-Same :
      (id : ℕ) (info : SubInfo) (item : PublishItem) (r : Routed) (s : State D)
      → Same s.0 (route_found D id info item (r, s)).1.0
  route_found-Same id (conn, true) item r s = deliver_matches-Same D (message_of item) (id ∷ []) s
  route_found-Same id (conn, false) item r s = Same-refl s.0

  route_one-Same :
      (id : ℕ) (item : PublishItem) (r : Routed) (s : State D)
      → Same s.0 (route_one D id item (r, s)).1.0
  unfolding route_one
  route_one-Same id item r s = elim (Option-cases (find_cached id r.sub_cache)) [
    | inr (info, found) ↦ rw (found, route_one) (route_found-Same id info item r s)
    | inl missing ↦ elim (Option-cases (Registry.get s.0.registry id)) [
      | inl gone ↦ rw (missing, route_one, gone) (Same-refl s.0)
      | inr (sub, live) ↦ rw (missing, route_one, live) (route_found-Same id _ item _ s)
    ]
  ]

  route_each-Same :
      (ids : List ℕ) (item : PublishItem) (r : Routed) (s : State D)
      → Same s.0 (route_each D ids item (r, s)).1.0
  unfolding route_each
  route_each-Same [] item r s = Same-refl s.0
  route_each-Same (id ∷ ids) item r s =
      let after = route_one D id item (r, s) in
      Same-trans s.0 after.1.0 _ (route_one-Same id item r s)
        (route_each-Same ids item after.0 after.1)

  route_item-Same :
      (item : PublishItem) (r : Routed) (s : State D) → Same s.0 (route_item D item (r, s)).1.0
  unfolding route_item
  route_item-Same item r s = elim (Bool-cases (is_last r.last_subject item.subject)) [
    | inl again ↦ rw again (route_each-Same r.last_sub_ids item r s)
    | inr other ↦ rw other (route_each-Same (Engine.match_subject s.0.router item.subject) item _ s)
  ]

  route_items-Same :
      (items : List PublishItem) (r : Routed) (s : State D)
      → Same s.0 (route_items D items (r, s)).1.0
  unfolding route_items
  route_items-Same [] r s = Same-refl s.0
  route_items-Same (item ∷ items) r s =
      let after = route_item D item (r, s) in
      Same-trans s.0 after.1.0 _ (route_item-Same item r s) (route_items-Same items after.0 after.1)

  count_batch-Same : (accepted total : ℕ) (b : BrokerCore) → Same b (count_batch D accepted total b)
  unfolding Same Metrics.add_delivered Metrics.add_dropped
  count_batch-Same accepted total b = (refl, refl, refl, refl, refl)

  flush_one-Same :
      (id : ℕ) (msgs : List DeliveryMessage) (s : State D) → Same s.0 (flush_one D (id, msgs) s).0
  unfolding flush_one
  flush_one-Same id [] (b, c) = elim (Option-cases (Registry.get b.registry id)) [
    | inl gone ↦ rw (gone, flush_one) (Same-refl b)
    | inr (sub, live) ↦ rw (live, flush_one) (Same-refl b)
  ]
  flush_one-Same id (msg ∷ rest) (b, c) = elim (Option-cases (Registry.get b.registry id)) [
    | inl gone ↦ rw (gone, flush_one) (Same-refl b)
    | inr (sub, live) ↦ elim (Bool-cases (is_empty rest)) [
      | inl one ↦ rw (live, flush_one, one) (count_batch-Same _ 1 b)
      | inr more ↦ rw (live, flush_one, more) (count_batch-Same _ _ b)
    ]
  ]

  flush_each-Same :
      (ps : List (ℕ × List DeliveryMessage)) (s : State D) → Same s.0 (flush_each D ps s).0
  unfolding flush_each
  flush_each-Same [] s = Same-refl s.0
  flush_each-Same ((id, msgs) ∷ ps) s =
      Same-trans s.0 (flush_one D (id, msgs) s).0 _ (flush_one-Same id msgs s)
        (flush_each-Same ps (flush_one D (id, msgs) s))

  module _ (iterate : List (ℕ × List DeliveryMessage) → List (ℕ × List DeliveryMessage)) where
    publish_routed-Same :
        (items : List PublishItem) (s : State D) → Same s.0 (publish_routed D iterate items s).0
    unfolding publish_routed
    publish_routed-Same items s =
        let routed = route_items D items (nothing_routed, s) in
        Same-trans s.0 routed.1.0 _ (route_items-Same items nothing_routed s)
          (flush_each-Same (iterate routed.0.pending.entries) routed.1)

    pub publish_batch-Same :
        (items : List PublishItem) (s : State D) → Same s.0 (publish_batch D iterate items s).0
    unfolding publish_batch
    publish_batch-Same [] s = Same-refl s.0
    publish_batch-Same (first ∷ items) (b, c) =
        let b' = count_in (Metrics.inc_published_by (length (first ∷ items))) b in
        let counted : Same b b' = count_published-Same D (length (first ∷ items)) b in
        let slow = Same-trans b b' _ counted (publish_routed-Same (first ∷ items) (b', c)) in
        elim (Bool-cases b'.router.has_wildcards) [
          | inl wild ↦ simp wild slow
          | inr tame ↦
              elim (Option-cases (Engine.exact_single_subscriber b'.router first.subject)) [
                | inl several ↦ simp tame (rw (several, publish_batch) slow)
                | inr (id, single) ↦ elim (Option-cases (Registry.get b'.registry id)) [
                  | inl gone ↦ simp tame (rw (single, publish_batch, gone) slow)
                  | inr (sub, live) ↦
                      elim (Bool-cases
                        (not (is_grouped sub) && all_subject first.subject (first ∷ items))) [
                          | inl fast ↦ simp tame (
                              rw (single, publish_batch, live, fast)
                                (Same-trans b b' _ counted (count_batch-Same _ _ b')))
                          | inr other ↦ simp tame (rw (single, publish_batch, live, other) slow)
                        ]
                ]
              ]
        ]
