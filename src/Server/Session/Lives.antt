-- ===== src/Server/Session/Lives.antt =====
-- Whole connections of crates/zetmq-server/src/session/handler.rs, from the first event to the
-- clean-up, and the counters of connections.
use zet_mq.Prelude.{
  ℕ, zero, suc, ◌+◌, ◌-◌, ◌%◌, ◌≡◌, refl, ◌∙◌, sym, subst, true, false, List, [], ◌∷◌, map, Option,
  none, some, arith, ltb, length, Bool-cases, inl, inr,
}
use zet_mq.Core.Registry
use zet_mq.Core.Registry.{Subscription}
use zet_mq.Core.Metrics
use zet_mq.Core.Metrics.{CoreMetrics, u64_mod}
use zet_mq.Core.Broker.{BrokerCore, remove_connection, dec_each, shrink_groups}
use zet_mq.Core.Broker.Invariant.{Same, shrink_groups-Same}
use zet_mq.Protocol.Error.{Result, ok, err}
use zet_mq.Protocol.Frame
use zet_mq.Protocol.Frame.{Frame, decode_from}
use zet_mq.Protocol.FrameType
use zet_mq.Protocol.Command.{
  BrokerCommand, from_frame, connect, publish, subscribe, unsubscribe, ping, create_stream,
  delete_stream, ack, nack,
}
use zet_mq.Server.Config.{ServerConfig}
use zet_mq.Server.Login.{Login, accepted, refused, validate_auth}
use zet_mq.Server.Outbound.{Host, raw}
use zet_mq.Server.Dispatcher.{World}
use zet_mq.Server.Session.{
  Both, reply, is_connected, count_error, flush_published, on_login, if_connected, handle, on_frame,
  on_decoded, fast_path, slow_path, process_one, process_frames,
}
use zet_mq.Server.Session.Layout.{next_frame_is_pub}
use zet_mq.Server.Session.Events.{
  Event, received, end_of_input, tick, shut_down, Served, going, over, secs, process_all, on_event,
  clean_up, serve,
}
use zet_mq.Server.Session.Logins.{
  login_logins, command_logins, parsed_logins, decoded_logins, round_logins, frames_logins,
  all_logins, event_logins, logins,
}
use zet_mq.Server.Session.Machine.{Acts, failure, flush, here, next, is_other, if_connected-Acts}
use zet_mq.Server.Session.Progress.{Result-cases}
use zet_mq.Server.Session.Batches.{fast_path-Run}
use zet_mq.Server.Session.Rounds.{Flow-cases, going_on, coming_to_end, process_frames-total}
use zet_mq.Server.Session.Accounts.{Level}
use zet_mq.Server.Session.Limits.{Acts-Level, Run-Level}

dec_each-Level :
    (subs : List Subscription) (m : CoreMetrics)
    → ((dec_each subs m).active_connections ≡ m.active_connections)
      × ((dec_each subs m).total_connections ≡ m.total_connections)
unfolding dec_each Metrics.dec_subscriptions
dec_each-Level [] m = (refl, refl)
dec_each-Level (sub ∷ subs) m = dec_each-Level subs (Metrics.dec_subscriptions m)

-- Modulo 2^64, the gauge of active connections and the number of all connections have gone up.
abbrev pub UpBy : ℕ → BrokerCore → BrokerCore → Type 0
UpBy n b b' =
    (b'.metrics.active_connections % u64_mod ≡ (b.metrics.active_connections + n) % u64_mod)
    × (b'.metrics.total_connections % u64_mod ≡ (b.metrics.total_connections + n) % u64_mod)

-- The number of all connections has gone up, and the gauge by one less.
abbrev pub UpByLessOne : ℕ → BrokerCore → BrokerCore → Type 0
UpByLessOne n b b' =
    ((b'.metrics.active_connections + 1) % u64_mod ≡ (b.metrics.active_connections + n) % u64_mod)
    × (b'.metrics.total_connections % u64_mod ≡ (b.metrics.total_connections + n) % u64_mod)

Level-UpBy : (b b' : BrokerCore) → Level b b' → UpBy 0 b b'
Level-UpBy b b' (a, t) = (omega arith, omega arith)

UpBy-trans : (m n : ℕ) (b b' b'' : BrokerCore) → UpBy m b b' → UpBy n b' b'' → UpBy (m + n) b b''
UpBy-trans m n b b' b'' (a, t) (a', t') = (omega arith, omega arith)

UpBy-left :
    (m n : ℕ) (b b' b'' : BrokerCore)
    → UpBy m b b'
    → UpByLessOne n b' b''
    → UpByLessOne (m + n) b b''
UpBy-left m n b b' b'' (a, t) (a', t') = (omega arith, omega arith)

-- The clean-up of the broker takes one from the gauge, whether or not the connection was counted.
remove_connection-UpByLessOne : (b : BrokerCore) (c : ℕ) → UpByLessOne 0 b (remove_connection b c)
unfolding remove_connection Metrics.dec_active_connections Same
remove_connection-UpByLessOne b c =
    let (registry', removed) = Registry.remove_all_for_connection b.registry c in
    let ids = map (λ (sub : Subscription). sub.id) removed in
    let shrunk = shrink_groups ids removed (record b { registry = registry' }) in
    let same = shrink_groups-Same ids removed (record b { registry = registry' }) in
    let (a, t) = dec_each-Level removed shrunk.metrics in
    (omega (arith, same.3, same.4, a, t), omega (arith, same.3, same.4, a, t))

module _ (H : Host) (config : ServerConfig) (conn_id : ℕ) where
  open H use {Channels}

  without_login :
      (sw sw' : Both H config conn_id)
      → Acts H config conn_id false sw sw'
      → UpBy 0 sw.1.broker sw'.1.broker
  without_login sw sw' r = Level-UpBy sw.1.broker sw'.1.broker (Acts-Level H config conn_id r)

  if_connected-UpBy :
      (cmd : BrokerCommand) (n : ℕ) (sw : Both H config conn_id)
      → is_other cmd ≡ true
      → UpBy 0 sw.1.broker (if_connected H config conn_id cmd n sw).1.1.broker
  if_connected-UpBy cmd n sw o =
      without_login sw (if_connected H config conn_id cmd n sw).1
        (if_connected-Acts H config conn_id cmd n sw o)

  handle-UpBy :
      (cmd : BrokerCommand) (n : ℕ) (sw : Both H config conn_id)
      → UpBy
          (command_logins H config conn_id cmd)
          sw.1.broker
          (handle H config conn_id cmd n sw).1.1.broker
  unfolding handle Metrics.inc_active_connections
  handle-UpBy (connect cmd) n sw = on_login-UpBy (validate_auth cmd.auth config.auth)
    where
      on_login-UpBy :
          (l : Login)
          → UpBy (login_logins l) sw.1.broker (on_login H config conn_id n l sw).1.1.broker
      on_login-UpBy (accepted ctx) = (omega arith, omega arith)
      on_login-UpBy (refused why) = (omega arith, omega arith)
  handle-UpBy ping n sw = (omega arith, omega arith)
  handle-UpBy (subscribe x) n sw = if_connected-UpBy (subscribe x) n sw refl
  handle-UpBy (publish x) n sw = if_connected-UpBy (publish x) n sw refl
  handle-UpBy (unsubscribe x) n sw = if_connected-UpBy (unsubscribe x) n sw refl
  handle-UpBy (create_stream x) n sw = if_connected-UpBy (create_stream x) n sw refl
  handle-UpBy (delete_stream x) n sw = if_connected-UpBy (delete_stream x) n sw refl
  handle-UpBy (ack x) n sw = if_connected-UpBy (ack x) n sw refl
  handle-UpBy (nack x) n sw = if_connected-UpBy (nack x) n sw refl

  on_frame-UpBy :
      (frame : Frame) (sw : Both H config conn_id)
      → UpBy
          (parsed_logins H config conn_id (from_frame frame))
          sw.1.broker
          (on_frame H config conn_id frame sw).1.1.broker
  unfolding on_frame Metrics.inc_protocol_errors
  on_frame-UpBy frame sw = elim (Result-cases (from_frame frame)) [
    | inl (cmd, good) ↦ rw (good, on_frame) (handle-UpBy cmd frame.header.correlation_id sw)
    | inr (e, bad) ↦ rw (bad, on_frame) (omega arith, omega arith)
  ]

  on_decoded-UpBy :
      (r : Result (Option Frame)) (sw : Both H config conn_id)
      → UpBy
          (decoded_logins H config conn_id r)
          sw.1.broker
          (on_decoded H config conn_id r sw).1.1.broker
  on_decoded-UpBy (ok (some frame)) sw = on_frame-UpBy frame sw
  on_decoded-UpBy (ok none) sw = without_login sw _ (next here (flush sw))
  on_decoded-UpBy (err e) sw =
      without_login sw (count_error H config conn_id (flush_published H config conn_id sw))
        (next (next here (flush sw)) (failure _))

  slow_path-UpBy :
      (sw : Both H config conn_id)
      → UpBy
          (decoded_logins H config conn_id (decode_from sw.0.read_buf config.max_frame_size).0)
          sw.1.broker
          (slow_path H config conn_id sw).1.1.broker
  unfolding slow_path
  slow_path-UpBy sw =
      on_decoded-UpBy (decode_from sw.0.read_buf config.max_frame_size).0
        (record sw.0 { read_buf = (decode_from sw.0.read_buf config.max_frame_size).1 }, sw.1)

  process_one-UpBy :
      (sw : Both H config conn_id)
      → UpBy
          (round_logins H config conn_id sw)
          sw.1.broker
          (process_one H config conn_id sw).1.1.broker
  unfolding process_one round_logins
  process_one-UpBy sw = elim (Bool-cases (is_connected sw.0.state)) [
    | inr c ↦ rw c (slow_path-UpBy sw)
    | inl c ↦ elim (Bool-cases (next_frame_is_pub sw.0.read_buf)) [
      | inr other ↦ rw (c, other) (slow_path-UpBy sw)
      | inl is_pub ↦
          rw (c, is_pub)
            (Level-UpBy sw.1.broker (fast_path H config conn_id sw).1.1.broker
              (Run-Level H config conn_id (fast_path-Run H config conn_id sw c)))
    ]
  ]

  process_frames-UpBy :
      (fuel : ℕ) (sw sw' : Both H config conn_id)
      → process_frames H config conn_id fuel sw ≡ some sw'
      → UpBy (frames_logins H config conn_id fuel sw) sw.1.broker sw'.1.broker
  unfolding process_frames frames_logins
  process_frames-UpBy zero sw sw' h = absurd (none_some h)
    where
      none_some : none ≡ some sw' → ⊥
      none_some h = ground arith
  process_frames-UpBy (suc fuel) sw sw' h =
      let now = round_logins H config conn_id sw in
      let one = process_one-UpBy sw in
      elim (Flow-cases H config conn_id (process_one H config conn_id sw).0) [
        | inl on ↦
            let rest =
              process_frames-UpBy fuel (process_one H config conn_id sw).1 sw'
                (sym (going_on H config conn_id fuel sw on) ∙ h) in
            rw (on, frames_logins)
              (UpBy-trans now
                (frames_logins H config conn_id fuel (process_one H config conn_id sw).1)
                sw.1.broker (process_one H config conn_id sw).1.1.broker sw'.1.broker one rest)
        | inr stop ↦
            let last : UpBy now sw.1.broker sw'.1.broker =
              subst (λ x. UpBy now sw.1.broker x.1.broker)
                (some_inj (sym (coming_to_end H config conn_id fuel sw stop) ∙ h)) one in
            rw (stop, frames_logins) (omega (arith, last.0), omega (arith, last.1))
      ]
    where
      some_inj : {a b : Both H config conn_id} → some a ≡ some b → a ≡ b
      some_inj h = cc

  process_all-UpBy :
      (sw : Both H config conn_id)
      → UpBy (all_logins H config conn_id sw) sw.1.broker (process_all H config conn_id sw).1.broker
  unfolding process_all
  process_all-UpBy sw =
      let (sw', e) =
        process_frames-total H config conn_id (suc (length sw.0.read_buf)) sw (omega arith) in
      rw e (process_frames-UpBy (suc (length sw.0.read_buf)) sw sw' e)

  -- The session that an event leads to, ended or not.
  abbrev behind : Served (Both H config conn_id) → Both H config conn_id
  behind (going sw) = sw
  behind (over sw) = sw

  on_event-UpBy :
      (e : Event) (sw : Both H config conn_id)
      → UpBy
          (event_logins H config conn_id e sw)
          sw.1.broker
          (behind (on_event H config conn_id e sw)).1.broker
  unfolding on_event event_logins
  on_event-UpBy (received now bytes) sw = process_all-UpBy _
  on_event-UpBy end_of_input sw = (omega arith, omega arith)
  on_event-UpBy (tick now) sw = elim (Bool-cases (is_connected sw.0.state)) [
    | inr idle ↦ rw idle (omega arith, omega arith)
    | inl c ↦
        elim (Bool-cases (ltb (secs config.heartbeat_timeout_secs) (now - sw.0.last_activity))) [
          | inl late ↦ rw (c, late) (omega arith, omega arith)
          | inr in_time ↦
              elim (Bool-cases
                (ltb (secs config.heartbeat_interval_secs) (now - sw.0.last_activity))) [
                  | inl quiet ↦
                      rw (c, in_time, quiet)
                        (process_all-UpBy
                          (reply H config conn_id (raw (Frame.new FrameType.ping 0)) sw))
                  | inr busy ↦ rw (c, in_time, busy) (process_all-UpBy sw)
                ]
        ]
  ]
  on_event-UpBy (shut_down bytes) sw = elim (Bool-cases (is_connected sw.0.state)) [
    | inr idle ↦ rw idle (omega arith, omega arith)
    | inl c ↦ rw c (omega arith, omega arith)
  ]

  clean_up-UpByLessOne :
      (sw : Both H config conn_id) → UpByLessOne 0 sw.1.broker (clean_up H config conn_id sw).broker
  unfolding clean_up
  clean_up-UpByLessOne sw =
      let flushed = flush_published H config conn_id sw in
      UpBy-left 0 0 sw.1.broker flushed.1.broker (remove_connection flushed.1.broker conn_id)
        (without_login sw flushed (next here (flush sw)))
        (remove_connection-UpByLessOne flushed.1.broker conn_id)

  -- Over the life of a connection, from any session on and whatever events it meets,
  -- `total_connections` goes up by the number of logins in that time, that is, of the CONNECT
  -- frames that it handles and whose credentials `validate_auth` accepts, and the gauge
  -- `active_connections` goes up by one less than that, both modulo 2^64. So a connection without a
  -- login takes one from the gauge that it never added, and each login beyond the first leaves one
  -- that is never taken back.
  pub serve-gauge :
      (es : List Event) (sw : Both H config conn_id)
      → UpByLessOne
          (logins H config conn_id es sw)
          sw.1.broker
          (serve H config conn_id es sw).broker
  unfolding serve logins
  serve-gauge [] sw = clean_up-UpByLessOne sw
  serve-gauge (e ∷ es) sw =
      led (serve-gauge es) (on_event H config conn_id e sw) (on_event-UpBy e sw)
    where
      led :
          ((sw' : Both H config conn_id)
            → UpByLessOne
                (logins H config conn_id es sw')
                sw'.1.broker
                (serve H config conn_id es sw').broker)
          → (x : Served (Both H config conn_id))
          → UpBy (event_logins H config conn_id e sw) sw.1.broker (behind x).1.broker
          → UpByLessOne
              (event_logins H config conn_id e sw
                + elim x as (λ _. ℕ) [ going sw' ↦ logins H config conn_id es sw' | over sw' ↦ 0 ])
              sw.1.broker
              (elim x as (λ _. World Channels) [
                | going sw' ↦ serve H config conn_id es sw'
                | over sw' ↦ clean_up H config conn_id sw'
              ]).broker
      led ih (going sw') r =
          UpBy-left (event_logins H config conn_id e sw) (logins H config conn_id es sw')
            sw.1.broker sw'.1.broker (serve H config conn_id es sw').broker r (ih sw')
      led ih (over sw') r =
          UpBy-left (event_logins H config conn_id e sw) 0 sw.1.broker sw'.1.broker
            (clean_up H config conn_id sw').broker r (clean_up-UpByLessOne sw')
