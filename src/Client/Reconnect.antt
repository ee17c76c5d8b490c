-- ===== src/Client/Reconnect.antt =====
-- crates/zetmq-client/src/client.rs: the subscriptions that a client keeps by the id they had first,
-- and how they are made again behind a reconnection. What the server answers is an argument.
use zet_mq.Prelude.{ℕ, Bool, true, false, List, [], ◌∷◌, Option, none, some, if◌then◌else◌}
use zet_mq.Text.{Str}
use zet_mq.Map
use zet_mq.Map.{Map, nat_key}
use zet_mq.Client.{build_sub_frame, unsubscribe_frame}
use zet_mq.Client.Connection.{
  Receivers, Link, next_sub_id, subscribe_send, subscribe_answered, remove_subscription, send_frame,
}

pub record ActiveSubscription : Type 0 where
  pub subject : Str
  pub queue_group : Option Str
  pub server_sub_id : ℕ
  pub tx : ℕ

abbrev pub with_server_id : ℕ → ActiveSubscription → ActiveSubscription
with_server_id n active = record active { server_sub_id = n }

-- The new ids are entered one after the other.
unfoldable pub remap : List (ℕ × ℕ) → Map ℕ ActiveSubscription → Map ℕ ActiveSubscription
remap [] subscriptions = subscriptions
remap ((stable_id, server_sub_id) ∷ more) subscriptions =
    remap more (Map.update (with_server_id server_sub_id) stable_id subscriptions)

abbrev pub or_own : ℕ → Option ActiveSubscription → ℕ
or_own id none = id
or_own id (some active) = active.server_sub_id

module _ (R : Receivers) where
  pub record Client : Type 0 where
    pub conn : Link R
    pub subscriptions : Map ℕ ActiveSubscription

  -- A SUB frame is sent, and its answer registers the subscription; without an answer the connection
  -- is gone.
  unfoldable pub resubscribe : Str → Option Str → ℕ → List ℕ → Link R → Option (ℕ × List ℕ) × Link R
  resubscribe subject queue_group tx answers c =
      let (corr_id, c1) = next_sub_id R c in
      let c2 = subscribe_send R corr_id (build_sub_frame subject queue_group corr_id) tx c1 in
      elim answers [
        | [] ↦ (none, c2)
        | server_sub_id ∷ more ↦
            (some (server_sub_id, more), subscribe_answered R server_sub_id tx c2)
      ]

  abbrev pub tracked : Bool → Str → Option Str → ℕ → Option (ℕ × List ℕ) × Link R → Client → Client
  tracked track subject queue_group tx (none, c) client = record client { conn = c }
  tracked track subject queue_group tx (some (server_sub_id, more), c) client = record {
    conn = c;
    subscriptions =
        if track
        then Map.insert server_sub_id
            (record {
              subject = subject;
              queue_group = queue_group;
              server_sub_id = server_sub_id;
              tx = tx;
            })
            client.subscriptions
        else client.subscriptions;
  }

  unfoldable pub subscribe_internal : Str → Option Str → Bool → ℕ → List ℕ → Client → Client
  unfolding resubscribe
  subscribe_internal subject queue_group track tx answers client =
      tracked track subject queue_group tx (resubscribe subject queue_group tx answers client.conn)
        client

  unfoldable pub unsubscribe : ℕ → Client → Client
  unsubscribe id client =
      let server_sub_id = or_own id (Map.get id client.subscriptions) in
      record {
        conn =
            remove_subscription R server_sub_id
              (send_frame R (unsubscribe_frame server_sub_id) client.conn);
        subscriptions = Map.remove id client.subscriptions;
      }

  abbrev pub with_first : ℕ × ℕ → Option (List (ℕ × ℕ)) → Option (List (ℕ × ℕ))
  with_first x none = none
  with_first x (some xs) = some (x ∷ xs)

  -- The loop over the subscriptions: the ids before and the ids now, or none where it ends early.
  unfoldable pub replay_each :
      List (ℕ × ActiveSubscription) → List ℕ → Link R → Option (List (ℕ × ℕ)) × Link R
  unfolding resubscribe
  replay_each [] answers c = (some [], c)
  replay_each ((stable_id, active) ∷ more) answers c =
      let (answer, c') = resubscribe active.subject active.queue_group active.tx answers c in
      elim answer [
        | none ↦ (none, c')
        | some (server_sub_id, answers') ↦
            let (ids, c'') = replay_each more answers' c' in
            (with_first (stable_id, server_sub_id) ids, c'')
      ]

  abbrev pub replayed : Option (List (ℕ × ℕ)) × Link R → Client → Bool × Client
  replayed (none, c) client = (false, record client { conn = c })
  replayed (some ids, c) client =
      (true, record { conn = c; subscriptions = remap ids client.subscriptions })

  -- `iterate` is the order in which the hash map hands out its entries.
  unfoldable pub replay_subscriptions :
      (List (ℕ × ActiveSubscription) → List (ℕ × ActiveSubscription))
      → List ℕ
      → Client
      → Bool × Client
  unfolding replay_each remap
  replay_subscriptions iterate answers client =
      replayed (replay_each (iterate client.subscriptions.entries) answers client.conn) client

  -- The attempts: none where the connection could not be made, else the connection and what the
  -- server answers on it.
  unfoldable pub reconnect_once :
      (List (ℕ × ActiveSubscription) → List (ℕ × ActiveSubscription))
      → List (Option (Link R × List ℕ))
      → Client
      → Bool × Client
  unfolding replay_subscriptions
  reconnect_once iterate [] client = (false, client)
  reconnect_once iterate (attempt ∷ more) client =
      let rest = reconnect_once iterate more client in
      if client.conn.connected then (true, client) else elim attempt [
        | none ↦ rest
        | some (conn, answers) ↦
            replay_subscriptions iterate answers (record client { conn = conn })
      ]
