-- ===== src/Server/Session/Machine.antt =====
-- A session of crates/zetmq-server/src/session/handler.rs as a transition system: what it may do to
-- its own state and to what all sessions share.
use zet_mq.Prelude.{
  ℕ, drop, drop-length, length, sym, ◌≡◌, ◌<◌, refl, Bool, true, false, List, [], Option, none,
  some, arith, leb, Bool-cases, Option-cases, inl, inr,
}
use zet_mq.Text.{Str, from_utf8}
use zet_mq.Core.Delivery.{Bytes}
use zet_mq.Core.Subject
use zet_mq.Core.Pattern
use zet_mq.Core.Pattern.{SubjectPattern}
use zet_mq.Core.Registry
use zet_mq.Core.Metrics
use zet_mq.Core.Broker.{count_in, parse_subject}
use zet_mq.Core.Broker.Quiet.{Parsed-cases}
use zet_mq.Protocol.Error.{Result, ok, err}
use zet_mq.Protocol.Frame.{Frame, decode_from}
use zet_mq.Protocol.Frame.Consumed.{decode_from-Behind}
use zet_mq.Store.Word.{add64}
use zet_mq.Protocol.Payload.{AuthInfo}
use zet_mq.Protocol.Command.{
  BrokerCommand, SubscribeCommand, PublishCommand, from_frame, connect, publish, subscribe,
  unsubscribe, ping, create_stream, delete_stream, ack, nack,
}
use zet_mq.Server.Config.{ServerConfig}
use zet_mq.Server.Auth.{AuthContext, can_subscribe, can_publish}
use zet_mq.Server.Login.{Login, accepted, refused, validate_auth}
use zet_mq.Server.Outbound.{OutboundFrame, Host}
use zet_mq.Server.Dispatcher.{World, on_broker, dispatch_publish_batch}
use zet_mq.Server.Session.{
  Session, Both, reply, count_error, flush_published, run_dispatch, is_connected, connected,
  guarded, guarded_subscribe, guarded_publish, if_connected, handle, on_login, on_frame, on_decoded,
  slow_path,
}
use zet_mq.Server.Session.Progress.{Result-cases}

abbrev pub is_other : BrokerCommand → Bool
is_other (connect cmd) = false
is_other ping = false
is_other _ = true

false-true : false ≡ true → ⊥
false-true h = ground arith

module _ (H : Host) (config : ServerConfig) (conn_id : ℕ) where
  open H use {Channels}

  -- What has been checked before a command is dispatched.
  abbrev pub Permitted : BrokerCommand → Both H config conn_id → Type 0
  Permitted (subscribe cmd) (s, w) =
      (Registry.count_for_connection w.broker.registry conn_id
        < config.max_subscriptions_per_connection)
      × ((pattern : SubjectPattern)
          → Pattern.parse cmd.subject_pattern ≡ Subject.ok pattern
          → can_subscribe s.auth_ctx pattern ≡ true)
  Permitted (connect cmd) sw = ⊥
  Permitted ping sw = ⊥
  Permitted _ sw = Unit

  -- One act, with or without the one that logs the session in.
  pub data Act (may_log_in : Bool) : Both H config conn_id → Both H config conn_id → Type 0 where
    send :
        (frame : OutboundFrame) (sw : Both H config conn_id)
        → Act may_log_in sw (reply H config conn_id frame sw)
    failure : (sw : Both H config conn_id) → Act may_log_in sw (count_error H config conn_id sw)
    flush : (sw : Both H config conn_id) → Act may_log_in sw (flush_published H config conn_id sw)
    add_up :
        (n : ℕ) (s : Session) (w : World Channels)
        → Act may_log_in (s, w) (record s { local_published = add64 s.local_published n }, w)
    look_up :
        (text : Str) (s : Session) (w : World Channels)
        → Act may_log_in (s, w) (s, record w { broker = (parse_subject w.broker text).1 })
    login :
        (auth : AuthInfo) (ctx : AuthContext) (s : Session) (w : World Channels)
        → may_log_in ≡ true
        → validate_auth auth config.auth ≡ accepted ctx
        → Act may_log_in
            (s, w)
            (
              record s { auth_ctx = ctx; state = connected },
              on_broker H (count_in Metrics.inc_active_connections) w,
            )
    run :
        (cmd : BrokerCommand) (correlation_id : ℕ) (sw : Both H config conn_id)
        → is_connected sw.0.state ≡ true
        → Permitted cmd sw
        → Act may_log_in sw (run_dispatch H config conn_id cmd correlation_id sw)
    batch :
        (commands : List PublishCommand) (s : Session) (w : World Channels)
        → is_connected s.state ≡ true
        → Act may_log_in (s, w) (s, dispatch_publish_batch H commands w)

  pub data Acts (may_log_in : Bool) (sw : Both H config conn_id)
      : Both H config conn_id → Type 0 where
    here : Acts may_log_in sw sw
    next :
        {sw' sw'' : Both H config conn_id}
        → Acts may_log_in sw sw'
        → Act may_log_in sw' sw''
        → Acts may_log_in sw sw''

  pub Acts-trans : {m : Bool} {a b c : Both H config conn_id} → Acts m a b → Acts m b c → Acts m a c
  Acts-trans r here = r
  Acts-trans r (next q a) = next (Acts-trans r q) a

  run-Acts :
      {m : Bool} (cmd : BrokerCommand) (n : ℕ) (sw : Both H config conn_id)
      → is_connected sw.0.state ≡ true
      → Permitted cmd sw
      → Acts m sw (run_dispatch H config conn_id cmd n sw)
  run-Acts cmd n sw c p = next here (run cmd n sw c p)

  guarded_subscribe-Acts :
      {m : Bool} (cmd : SubscribeCommand) (n : ℕ) (sw : Both H config conn_id)
      → is_connected sw.0.state ≡ true
      → Acts m sw (guarded_subscribe H config conn_id cmd n sw)
  unfolding guarded_subscribe
  guarded_subscribe-Acts cmd n sw c =
      elim (Bool-cases (
        leb config.max_subscriptions_per_connection
          (Registry.count_for_connection sw.1.broker.registry conn_id))) [
            | inl full ↦ rw full (next here (send _ sw))
            | inr room ↦
                let below : Registry.count_for_connection sw.1.broker.registry conn_id
                    < config.max_subscriptions_per_connection =
                  ground arith in
                elim (Parsed-cases (Pattern.parse cmd.subject_pattern)) [
                  | inr (e, bad) ↦
                      rw (room, bad)
                        (run-Acts (subscribe cmd) n sw c
                          (below, λ pattern h. absurd (ok_err bad h)))
                  | inl (pattern, good) ↦ elim (Bool-cases (can_subscribe sw.0.auth_ctx pattern)) [
                    | inl may ↦
                        rw (room, good, may)
                          (run-Acts (subscribe cmd) n sw c (below, λ p h. only good h may))
                    | inr may_not ↦ rw (room, good, may_not) (next here (send _ sw))
                  ]
                ]
          ]
    where
      ok_err :
          {r : Subject.Result SubjectPattern} {e : Subject.CoreError} {p : SubjectPattern}
          → r ≡ Subject.err e
          → r ≡ Subject.ok p
          → ⊥
      ok_err a b = ground arith

      only :
          {r : Subject.Result SubjectPattern} {p q : SubjectPattern}
          → r ≡ Subject.ok p
          → r ≡ Subject.ok q
          → can_subscribe sw.0.auth_ctx p ≡ true
          → can_subscribe sw.0.auth_ctx q ≡ true
      only a b may = ground arith

  guarded_publish-Acts :
      {m : Bool} (cmd : PublishCommand) (n : ℕ) (sw : Both H config conn_id)
      → is_connected sw.0.state ≡ true
      → Acts m sw (guarded_publish H config conn_id cmd n sw)
  unfolding guarded_publish
  guarded_publish-Acts cmd n sw c = elim (Option-cases (from_utf8 cmd.subject)) [
    | inl bad ↦ rw (bad, guarded_publish) (run-Acts (publish cmd) n sw c tt)
    | inr (text, good) ↦
        let s = sw.0 in
        let w = sw.1 in
        let w' = record w { broker = (parse_subject w.broker text).1 } in
        let looked : Acts _ sw (s, w') = next here (look_up text s w) in
        elim (Parsed-cases (parse_subject sw.1.broker text).0) [
          | inr (e, bad) ↦
              rw (good, guarded_publish, bad)
                (Acts-trans looked (run-Acts (publish cmd) n (s, w') c tt))
          | inl (subject, parsed) ↦ elim (Bool-cases (can_publish sw.0.auth_ctx subject)) [
            | inl may ↦
                rw (good, guarded_publish, parsed, may)
                  (Acts-trans looked (run-Acts (publish cmd) n (s, w') c tt))
            | inr may_not ↦
                rw (good, guarded_publish, parsed, may_not) (next looked (send _ (s, w')))
          ]
        ]
  ]

  guarded-Acts :
      {m : Bool} (cmd : BrokerCommand) (n : ℕ) (sw : Both H config conn_id)
      → is_other cmd ≡ true
      → is_connected sw.0.state ≡ true
      → Acts m sw (guarded H config conn_id cmd n sw)
  unfolding guarded
  guarded-Acts (subscribe cmd) n sw o c = guarded_subscribe-Acts cmd n sw c
  guarded-Acts (publish cmd) n sw o c = guarded_publish-Acts cmd n sw c
  guarded-Acts (unsubscribe id) n sw o c = run-Acts _ n sw c tt
  guarded-Acts (create_stream cmd) n sw o c = run-Acts _ n sw c tt
  guarded-Acts (delete_stream cmd) n sw o c = run-Acts _ n sw c tt
  guarded-Acts (ack cmd) n sw o c = run-Acts _ n sw c tt
  guarded-Acts (nack cmd) n sw o c = run-Acts _ n sw c tt
  guarded-Acts (connect cmd) n sw o c = absurd (false-true o)
  guarded-Acts ping n sw o c = absurd (false-true o)

  pub if_connected-Acts :
      {m : Bool} (cmd : BrokerCommand) (n : ℕ) (sw : Both H config conn_id)
      → is_other cmd ≡ true
      → Acts m sw (if_connected H config conn_id cmd n sw).1
  if_connected-Acts cmd n sw o = elim (Bool-cases (is_connected sw.0.state)) [
    | inl c ↦ rw c (guarded-Acts cmd n sw o c)
    | inr c ↦ rw c here
  ]

  pub handle-Acts :
      (cmd : BrokerCommand) (n : ℕ) (sw : Both H config conn_id)
      → Acts true sw (handle H config conn_id cmd n sw).1
  unfolding handle
  handle-Acts (connect cmd) n sw = on_login-Acts (validate_auth cmd.auth config.auth) refl
    where
      on_login-Acts :
          (l : Login)
          → validate_auth cmd.auth config.auth ≡ l
          → Acts true sw (on_login H config conn_id n l sw).1
      on_login-Acts (accepted ctx) e =
          next (next here (login cmd.auth ctx sw.0 sw.1 refl e)) (send _ _)
      on_login-Acts (refused why) e = next here (send _ sw)
  handle-Acts ping n sw = next here (send _ sw)
  handle-Acts (subscribe cmd) n sw = if_connected-Acts (subscribe cmd) n sw refl
  handle-Acts (publish cmd) n sw = if_connected-Acts (publish cmd) n sw refl
  handle-Acts (unsubscribe id) n sw = if_connected-Acts (unsubscribe id) n sw refl
  handle-Acts (create_stream cmd) n sw = if_connected-Acts (create_stream cmd) n sw refl
  handle-Acts (delete_stream cmd) n sw = if_connected-Acts (delete_stream cmd) n sw refl
  handle-Acts (ack cmd) n sw = if_connected-Acts (ack cmd) n sw refl
  handle-Acts (nack cmd) n sw = if_connected-Acts (nack cmd) n sw refl

  pub on_frame-Acts :
      (frame : Frame) (sw : Both H config conn_id)
      → Acts true sw (on_frame H config conn_id frame sw).1
  unfolding on_frame
  on_frame-Acts frame sw = elim (Result-cases (from_frame frame)) [
    | inl (cmd, good) ↦ rw (good, on_frame) (handle-Acts cmd frame.header.correlation_id sw)
    | inr (e, bad) ↦ rw (bad, on_frame) (next (next here (failure sw)) (send _ _))
  ]

  -- Acts, and bytes taken off the front of the read buffer.
  pub data Run (may_log_in : Bool) (sw : Both H config conn_id)
      : Both H config conn_id → Type 0 where
    start : Run may_log_in sw sw
    acts :
        {sw' sw'' : Both H config conn_id}
        → Run may_log_in sw sw'
        → Acts may_log_in sw' sw''
        → Run may_log_in sw sw''
    cut :
        {sw' : Both H config conn_id}
        → Run may_log_in sw sw'
        → (n : ℕ) (buf : Bytes) → buf ≡ drop n sw'.0.read_buf
        → Run may_log_in sw (record sw'.0 { read_buf = buf }, sw'.1)

  pub Run-trans : {m : Bool} {a b c : Both H config conn_id} → Run m a b → Run m b c → Run m a c
  Run-trans r start = r
  Run-trans r (acts q a) = acts (Run-trans r q) a
  Run-trans r (cut q n buf e) = cut (Run-trans r q) n buf e

  -- The buffer is emptied.
  pub emptied :
      {m : Bool} {a b : Both H config conn_id}
      → Run m a b
      → Run m a (record b.0 { read_buf = [] }, b.1)
  emptied {b} r = cut r (length b.0.read_buf) [] (sym (drop-length b.0.read_buf))

  pub slow_path-Run : (sw : Both H config conn_id) → Run true sw (slow_path H config conn_id sw).1
  unfolding slow_path
  slow_path-Run sw = decoded_Run (decode_from sw.0.read_buf config.max_frame_size).0
    where
      cut_first :
          Run true sw
            (record sw.0 { read_buf = (decode_from sw.0.read_buf config.max_frame_size).1 }, sw.1)
      cut_first =
          let (n, e) = decode_from-Behind sw.0.read_buf config.max_frame_size in cut start n _ e

      decoded_Run :
          (r : Result (Option Frame))
          → Run true sw
              (on_decoded H config conn_id r (
                record sw.0 { read_buf = (decode_from sw.0.read_buf config.max_frame_size).1 },
                sw.1,
              )).1
      decoded_Run (ok (some frame)) = acts cut_first (on_frame-Acts frame _)
      decoded_Run (ok none) = acts cut_first (next here (flush _))
      decoded_Run (err e) =
          acts (emptied (acts cut_first (next (next here (flush _)) (failure _))))
            (next here (send _ _))
