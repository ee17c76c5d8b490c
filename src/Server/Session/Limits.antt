-- ===== src/Server/Session/Limits.antt =====
-- Runs of a session of crates/zetmq-server/src/session/handler.rs: how many subscriptions its
-- connection holds, and the connections counted.
use zet_mq.Prelude.{
  ℕ, Bool, true, false, ◌∙◌, ◌≡◌, ◌≤◌, refl, some, arith, ltb, Bool-cases, inl, inr,
}
use zet_mq.Core.Metrics
use zet_mq.Core.Metrics.{u64_mod}
use zet_mq.Core.Broker.{BrokerCore}
use zet_mq.Core.Broker.Quiet.{Quiet, Same-Quiet, parse_subject-Quiet}
use zet_mq.Core.Broker.Runs.{count_published-Same}
use zet_mq.Protocol.Command.{
  BrokerCommand, connect, publish, subscribe, unsubscribe, ping, create_stream, delete_stream, ack,
  nack,
}
use zet_mq.Server.Config.{ServerConfig}
use zet_mq.Server.Outbound.{Host, channel_delivery}
use zet_mq.Server.Session.{Both, flush_published, process_frames}
use zet_mq.Server.Session.Machine.{
  Permitted, Act, send, failure, flush, add_up, look_up, login, run, batch, Acts, here, next, Run,
  start, acts, cut,
}
use zet_mq.Server.Session.Rounds.{process_frames-Run}
use zet_mq.Server.Session.Accounts.{
  held, Level, Quiet-Level, Quiet-held, adds, dispatch-Level, dispatch-held,
  dispatch_publish_batch-Quiet,
}

module _ (H : Host) (config : ServerConfig) (conn_id : ℕ) where
  open H use {Channels}

  abbrev limit : ℕ
  limit = config.max_subscriptions_per_connection

  Permitted-held :
      (cmd : BrokerCommand) (sw : Both H config conn_id)
      → Permitted H config conn_id cmd sw
      → held sw.1.broker conn_id ≤ limit
      → adds H cmd (held sw.1.broker conn_id) ≤ limit
  Permitted-held (subscribe s) sw p h = omega (arith, p.0)
  Permitted-held (publish x) sw p h = h
  Permitted-held (unsubscribe x) sw p h = h
  Permitted-held (create_stream x) sw p h = h
  Permitted-held (delete_stream x) sw p h = h
  Permitted-held (ack x) sw p h = h
  Permitted-held (nack x) sw p h = h
  Permitted-held (connect x) sw p h = h
  Permitted-held ping sw p h = h

  flush-Quiet :
      (sw : Both H config conn_id)
      → Quiet sw.1.broker (flush_published H config conn_id sw).1.broker
  unfolding flush_published
  flush-Quiet sw = elim (Bool-cases (ltb 0 sw.0.local_published)) [
    | inl much ↦ rw much (
        Same-Quiet sw.1.broker _
          (count_published-Same (channel_delivery H) sw.0.local_published sw.1.broker))
    | inr nothing ↦ rw nothing (unfold Quiet in (refl, refl, refl))
  ]

  -- Each act keeps the limit.
  Act-held :
      {m : Bool} {a b : Both H config conn_id}
      → Act H config conn_id m a b
      → held a.1.broker conn_id ≤ limit
      → held b.1.broker conn_id ≤ limit
  Act-held (send frame sw) h = h
  Act-held (failure sw) h = h
  Act-held (flush sw) h = omega (arith, Quiet-held sw.1.broker _ conn_id (flush-Quiet sw))
  Act-held (add_up n s w) h = h
  Act-held (look_up text s w) h =
      omega (arith, Quiet-held w.broker _ conn_id (parse_subject-Quiet w.broker text))
  Act-held (login auth ctx s w may e) h = h
  Act-held (run cmd n (s, w) c p) h =
      omega (arith, dispatch-held H conn_id cmd n s.sub_consumers w, Permitted-held cmd (s, w) p h)
  Act-held (batch commands s w c) h =
      omega (arith, Quiet-held w.broker _ conn_id (dispatch_publish_batch-Quiet H commands w))

  Acts-held :
      {m : Bool} {a b : Both H config conn_id}
      → Acts H config conn_id m a b
      → held a.1.broker conn_id ≤ limit
      → held b.1.broker conn_id ≤ limit
  Acts-held here h = h
  Acts-held (next r act) h = Act-held act (Acts-held r h)

  Run-held :
      {m : Bool} {a b : Both H config conn_id}
      → Run H config conn_id m a b
      → held a.1.broker conn_id ≤ limit
      → held b.1.broker conn_id ≤ limit
  Run-held start h = h
  Run-held (acts r q) h = Acts-held q (Run-held r h)
  Run-held (cut r n buf e) h = Run-held r h

  -- If the connection of a session holds no more subscriptions than
  -- `max_subscriptions_per_connection`, it holds no more behind the loop over the frames, whatever
  -- the bytes in its read buffer are.
  pub process_frames-held :
      (fuel : ℕ) (sw sw' : Both H config conn_id)
      → process_frames H config conn_id fuel sw ≡ some sw'
      → held sw.1.broker conn_id ≤ config.max_subscriptions_per_connection
      → held sw'.1.broker conn_id ≤ config.max_subscriptions_per_connection
  process_frames-held fuel sw sw' e h =
      Run-held (process_frames-Run H config conn_id fuel sw sw' e) h

  -- The counters of connections stay where the session does not log in.
  Act-Level :
      {a b : Both H config conn_id} → Act H config conn_id false a b → Level a.1.broker b.1.broker
  unfolding Metrics.inc_protocol_errors
  Act-Level (send frame sw) = (refl, refl)
  Act-Level (failure sw) = (refl, refl)
  Act-Level (flush sw) = Quiet-Level sw.1.broker _ (flush-Quiet sw)
  Act-Level (add_up n s w) = (refl, refl)
  Act-Level (look_up text s w) = Quiet-Level w.broker _ (parse_subject-Quiet w.broker text)
  Act-Level (login auth ctx s w may e) = absurd (not_may may)
    where
      not_may : false ≡ true → ⊥
      not_may h = ground arith
  Act-Level (run cmd n (s, w) c p) = dispatch-Level H conn_id cmd n s.sub_consumers w
  Act-Level (batch commands s w c) =
      Quiet-Level w.broker _ (dispatch_publish_batch-Quiet H commands w)

  pub Level-trans : (b b' b'' : BrokerCore) → Level b b' → Level b' b'' → Level b b''
  Level-trans b b' b'' (a, t) (a', t') = (a' ∙ a, t' ∙ t)

  pub Acts-Level :
      {a b : Both H config conn_id} → Acts H config conn_id false a b → Level a.1.broker b.1.broker
  Acts-Level here = (refl, refl)
  Acts-Level {a} {b} (next {sw'} r act) =
      Level-trans a.1.broker sw'.1.broker b.1.broker (Acts-Level r) (Act-Level act)

  pub Run-Level :
      {a b : Both H config conn_id} → Run H config conn_id false a b → Level a.1.broker b.1.broker
  Run-Level start = (refl, refl)
  Run-Level {a} {b} (acts {sw'} r q) =
      Level-trans a.1.broker sw'.1.broker b.1.broker (Run-Level r) (Acts-Level q)
  Run-Level (cut r n buf e) = Run-Level r
