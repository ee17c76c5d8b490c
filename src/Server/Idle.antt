-- ===== src/Server/Idle.antt =====
-- The streams and the consumers of a server of crates/zetmq-server/src/ that runs: what the sessions,
-- the spawned tasks (runtime/dispatcher.rs) and the clean-ups do to them.
use zet_mq.Prelude.{
  ℕ, ◌≡◌, refl, ap, ◌∙◌, sym, subst, Bool, List, [], ◌∷◌, ◌++◌, some, arith, Bool-cases,
  Option-cases, inl, inr, ltb,
}
use zet_mq.Text.{Str, from_utf8}
use zet_mq.Map
use zet_mq.Map.{Map, str_key, get-insert, get-remove, get-empty}
use zet_mq.Core.Pattern
use zet_mq.Core.Broker.Quiet.{Parsed-cases}
use zet_mq.Store.Stream.{Stream}
use zet_mq.Store.Memory
use zet_mq.Store.Memory.{MemoryStore}
use zet_mq.Protocol.Command.{
  BrokerCommand, PublishCommand, SubscribeCommand, connect, publish, subscribe, unsubscribe, ping,
  create_stream, delete_stream, ack, nack,
}
use zet_mq.Server.Config.{ServerConfig}
use zet_mq.Server.Outbound.{Host}
use zet_mq.Server.EmptyStores.{AllEmpty, IsIdle, create_stream-AllEmpty, remove-AllEmpty, ack-idle}
use zet_mq.Server.StoreManager
use zet_mq.Server.StoreManager.{StoreManager}
use zet_mq.Server.Dispatcher.{
  World, Task, create, delete, acknowledge, SubConsumerMap, dispatch, dispatch_publish,
  dispatch_subscribe, dispatch_publish_batch, run_task,
}
use zet_mq.Server.Session.{Session, Both, flush_published, process_frames}
use zet_mq.Server.Session.Events.{clean_up}
use zet_mq.Server.Session.Machine.{
  Act, send, failure, flush, add_up, look_up, login, run, batch, Acts, here, next, Run, start, acts,
  cut,
}
use zet_mq.Server.Session.Rounds.{process_frames-Run}

module _ (H : Host) where
  open H use {Channels}

  run_task-IsIdle : (t : Task) (w : World Channels) → IsIdle w.store → IsIdle (run_task H t w).store
  unfolding run_task StoreManager.create_stream StoreManager.delete_stream Memory.delete_stream
  run_task-IsIdle (create conn_id name config) w (consumers, empty) =
      (consumers, create_stream-AllEmpty w.store.store name config empty)
  run_task-IsIdle (delete conn_id name) w (consumers, empty) =
      (consumers, remove-AllEmpty w.store.store name empty)
  run_task-IsIdle (acknowledge stream consumer n) w (consumers, empty) =
      subst IsIdle
        (sym (ap (λ (r : Bool × StoreManager). r.1) (ack-idle w.store stream consumer n consumers)))
        (consumers, empty)

  dispatch_publish-store :
      (p : PublishCommand) (w : World Channels) → (dispatch_publish H p w).store ≡ w.store
  unfolding dispatch_publish
  dispatch_publish-store p w = elim (Option-cases (from_utf8 p.subject)) [
    | inl bad ↦ rw (bad, dispatch_publish) refl
    | inr (text, good) ↦ rw (good, dispatch_publish) refl
  ]

  dispatch_subscribe-store :
      (c : ℕ) (s : SubscribeCommand) (n : ℕ) (m : SubConsumerMap) (w : World Channels)
      → (dispatch_subscribe H c s n (m, w)).1.store ≡ w.store
  unfolding dispatch_subscribe
  dispatch_subscribe-store c s n m w = elim (Parsed-cases (Pattern.parse s.subject_pattern)) [
    | inr (e, bad) ↦ rw (bad, dispatch_subscribe) refl
    | inl (pattern, good) ↦ rw (good, dispatch_subscribe) refl
  ]

  dispatch-store :
      (c : ℕ) (cmd : BrokerCommand) (n : ℕ) (m : SubConsumerMap) (w : World Channels)
      → (dispatch H c cmd n (m, w)).1.store ≡ w.store
  unfolding dispatch
  dispatch-store c (publish p) n m w = dispatch_publish-store p w
  dispatch-store c (subscribe s) n m w = dispatch_subscribe-store c s n m w
  dispatch-store c (unsubscribe id) n m w = refl
  dispatch-store c (create_stream x) n m w = refl
  dispatch-store c (delete_stream x) n m w = refl
  dispatch-store c (ack x) n m w = refl
  dispatch-store c (nack x) n m w = refl
  dispatch-store c (connect x) n m w = refl
  dispatch-store c ping n m w = refl

  dispatch_publish_batch-store :
      (commands : List PublishCommand) (w : World Channels)
      → (dispatch_publish_batch H commands w).store ≡ w.store
  unfolding dispatch_publish_batch
  dispatch_publish_batch-store [] w = refl
  dispatch_publish_batch-store (p ∷ ps) w = refl

module _ (H : Host) (config : ServerConfig) (conn_id : ℕ) where
  open H use {Channels}

  flush-store :
      (sw : Both H config conn_id) → (flush_published H config conn_id sw).1.store ≡ sw.1.store
  unfolding flush_published
  flush-store sw = elim (Bool-cases (ltb 0 sw.0.local_published)) [
    | inl much ↦ rw much refl
    | inr nothing ↦ rw nothing refl
  ]

  Act-store :
      {m : Bool} {a b : Both H config conn_id} → Act H config conn_id m a b → b.1.store ≡ a.1.store
  Act-store (send frame sw) = refl
  Act-store (failure sw) = refl
  Act-store (flush sw) = flush-store sw
  Act-store (add_up n s w) = refl
  Act-store (look_up text s w) = refl
  Act-store (login auth ctx s w may e) = refl
  Act-store (run cmd n (s, w) c p) = dispatch-store H conn_id cmd n s.sub_consumers w
  Act-store (batch commands s w c) = dispatch_publish_batch-store H commands w

  Acts-store :
      {m : Bool} {a b : Both H config conn_id} → Acts H config conn_id m a b → b.1.store ≡ a.1.store
  Acts-store here = refl
  Acts-store (next r act) = Act-store act ∙ Acts-store r

  Run-store :
      {m : Bool} {a b : Both H config conn_id} → Run H config conn_id m a b → b.1.store ≡ a.1.store
  Run-store start = refl
  Run-store (acts r q) = Acts-store q ∙ Run-store r
  Run-store (cut r n buf e) = Run-store r

  process_frames-store :
      (fuel : ℕ) (sw sw' : Both H config conn_id)
      → process_frames H config conn_id fuel sw ≡ some sw'
      → sw'.1.store ≡ sw.1.store
  process_frames-store fuel sw sw' e = Run-store (process_frames-Run H config conn_id fuel sw sw' e)

  clean_up-store : (sw : Both H config conn_id) → (clean_up H config conn_id sw).store ≡ sw.1.store
  unfolding clean_up
  clean_up-store sw = flush-store sw

-- A server that runs: a session of some connection goes over its frames, a session ends, the write
-- tasks take frames out of the channels, and a task that was spawned runs.
pub data Reaches (H : Host) (config : ServerConfig) (w : World H.Channels)
    : World H.Channels → Type 0 where
  start_up : Reaches H config w w
  frames :
      (conn_id fuel : ℕ) (s s' : Session) (w' w'' : World H.Channels)
      → Reaches H config w w'
      → process_frames H config conn_id fuel (s, w') ≡ some (s', w'')
      → Reaches H config w w''
  gone :
      (conn_id : ℕ) (s : Session) (w' : World H.Channels)
      → Reaches H config w w'
      → Reaches H config w (clean_up H config conn_id (s, w'))
  wrote :
      (channels : H.Channels) (w' : World H.Channels)
      → Reaches H config w w'
      → Reaches H config w (record w' { channels = channels })
  task :
      (t : Task) (before after : List Task) (w' : World H.Channels)
      → Reaches H config w w'
      → w'.tasks ≡ before ++ (t ∷ after)
      → Reaches H config w (run_task H t (record w' { tasks = before ++ after }))

Reaches-IsIdle :
    {H : Host} {config : ServerConfig} {w w' : World H.Channels}
    → Reaches H config w w'
    → IsIdle w.store
    → IsIdle w'.store
Reaches-IsIdle start_up idle = idle
Reaches-IsIdle {H} {config} (frames conn_id fuel s s' w' w'' r e) idle =
    subst IsIdle (sym (process_frames-store H config conn_id fuel (s, w') (s', w'') e))
      (Reaches-IsIdle r idle)
Reaches-IsIdle {H} {config} (gone conn_id s w' r) idle =
    subst IsIdle (sym (clean_up-store H config conn_id (s, w'))) (Reaches-IsIdle r idle)
Reaches-IsIdle (wrote channels w' r) idle = Reaches-IsIdle r idle
Reaches-IsIdle {H} (task t before after w' r e) idle =
    run_task-IsIdle H t (record w' { tasks = before ++ after }) (Reaches-IsIdle r idle)

-- In every world that a server reaches from one with new stores, by sessions that go over frames,
-- by sessions that end, by channels that are written out and by tasks that run, in any order: every
-- stream is without messages, and a task that acknowledges a message changes nothing.
pub Reaches-ack :
    (H : Host) (config : ServerConfig) (w w' : World H.Channels)
    → w.store ≡ StoreManager.new
    → Reaches H config w w'
    → AllEmpty w'.store.store
      × ((stream consumer : Str) (n : ℕ) → run_task H (acknowledge stream consumer n) w' ≡ w')
unfolding run_task StoreManager.new
Reaches-ack H config w w' fresh r =
    let idle =
      Reaches-IsIdle r
        (subst IsIdle (sym fresh) (refl, λ name s h. absurd (nothing_there name s h))) in
    (
      idle.1,
      λ stream consumer n.
          ap (λ (x : Bool × StoreManager). record w' { store = x.1 })
            (ack-idle w'.store stream consumer n idle.0),
    )
  where
    nothing_there : (name : Str) (s : Stream) → Map.get name Map.empty ≡ some s → ⊥
    nothing_there name s h = ground (arith, get-empty {V = Stream} name)
