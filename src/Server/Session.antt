-- ===== src/Server/Session.antt =====
-- crates/zetmq-server/src/session/handler.rs and state.rs: one connection, from its first byte to
-- the clean-up. A round of the outer loop is a step on an event; the writes go to a channel.
pub mod Layout
pub mod Publishing
pub mod Events
pub mod Progress
pub mod Fronts
pub mod Logins
pub mod Machine
pub mod Batches
pub mod Shrinking
pub mod Rounds
pub mod Accounts
pub mod Limits
pub mod Lives
pub mod BeforeLogin
pub mod Payloads
pub mod Paths
use zet_mq.Prelude.{
  ℕ, zero, suc, ◌+◌, Bool, true, false, List, [], ◌∷◌, ◌++◌, ◌&&◌, not, Option, none, some,
  if◌then◌else◌, ltb, leb, length,
}
use zet_mq.Text.{Str, from_utf8}
use zet_mq.Map
use zet_mq.Core.Subject
use zet_mq.Core.Pattern
use zet_mq.Core.Delivery.{Bytes}
use zet_mq.Core.Registry
use zet_mq.Core.Metrics
use zet_mq.Core.Broker
use zet_mq.Core.Broker.{BrokerCore, count_in, parse_subject}
use zet_mq.Store.Word.{add64}
use zet_mq.Protocol.Error.{ProtocolError, Result, ok, err}
use zet_mq.Protocol.Frame
use zet_mq.Protocol.Frame.{Frame, decode_from}
use zet_mq.Protocol.FrameType
use zet_mq.Protocol.Payload.{ConnectCommand}
use zet_mq.Protocol.Command.{
  BrokerCommand, SubscribeCommand, PublishCommand, from_frame, connect, publish, subscribe, ping,
}
use zet_mq.Server.Config.{ServerConfig}
use zet_mq.Server.Auth.{AuthContext, unrestricted, can_subscribe, can_publish}
use zet_mq.Server.Login.{Login, accepted, refused, validate_auth}
use zet_mq.Server.Outbound.{
  OutboundFrame, raw, Host, error_frame, Notice, publish_denied, subscribe_denied,
  max_subscriptions_exceeded, auth_failed, decode_error, protocol_error,
}
use zet_mq.Server.Dispatcher.{World, SubConsumerMap, emit, on_broker, dispatch}
use zet_mq.Server.Session.Layout.{next_frame_is_pub}
use zet_mq.Server.Session.Publishing.{dispatch_publish_batch_from_read_buf}

-- `Closed` is never entered.
pub data SessionState : Type 0 where
  new_session connected draining closed : SessionState

abbrev pub is_connected : SessionState → Bool
is_connected connected = true
is_connected _ = false

pub record Session : Type 0 where
  pub state : SessionState
  pub auth_ctx : AuthContext
  pub read_buf : Bytes
  pub local_published : ℕ
  pub last_activity : ℕ
  pub sub_consumers : SubConsumerMap

-- A session that begins at a time.
unfoldable pub new : ℕ → Session
new now = record {
  state = new_session;
  auth_ctx = unrestricted;
  read_buf = [];
  local_published = 0;
  last_activity = now;
  sub_consumers = Map.empty;
}

abbrev pub local_published_flush_threshold : ℕ
local_published_flush_threshold = 4096

-- Whether the loop over the frames goes on.
pub data Flow : Type 0 where
  continue break : Flow

module _ (H : Host) (config : ServerConfig) (conn_id : ℕ) where
  open H use {Channels}

  abbrev pub Both : Type 0
  Both = Session × World Channels

  abbrev pub reply : OutboundFrame → Both → Both
  reply frame (s, w) = (s, emit H conn_id frame w)

  abbrev pub refuse : ℕ → Notice → Both → Both
  refuse correlation_id notice = reply (error_frame H correlation_id notice)

  abbrev pub count_error : Both → Both
  count_error (s, w) = (s, on_broker H (count_in Metrics.inc_protocol_errors) w)

  -- The counter of messages published goes to the broker.
  unfoldable pub flush_published : Both → Both
  flush_published (s, w) =
      if ltb 0 s.local_published
      then (
        record s { local_published = 0 },
        on_broker H (count_in (Metrics.inc_published_by s.local_published)) w,
      )
      else (s, w)

  abbrev pub add_published : ℕ → Both → Both
  add_published n (s, w) =
      let s' = record s { local_published = add64 s.local_published n } in
      if leb local_published_flush_threshold s'.local_published
      then flush_published (s', w)
      else (s', w)

  abbrev pub on_batch : Result (Bool × ℕ) → Both → Flow × Both
  on_batch (ok (true, n)) sw = (continue, add_published n sw)
  on_batch (ok (false, n)) sw = (break, sw)
  on_batch (err e) (s, w) =
      (continue, refuse 0 (decode_error e) (count_error (record s { read_buf = [] }, w)))

  -- The PUB frames at the front, in a session that is connected.
  unfoldable pub fast_path : Both → Flow × Both
  unfolding flush_published
  fast_path (s, w) =
      let (result, (buf', w')) =
        dispatch_publish_batch_from_read_buf H conn_id s.auth_ctx config.max_frame_size
          (s.read_buf, w) in
      on_batch result (record s { read_buf = buf' }, w')

  abbrev pub on_login : ℕ → Login → Both → Flow × Both
  on_login correlation_id (accepted ctx) (s, w) = (
    continue,
    reply (raw (Frame.new FrameType.connack 0)) (
      record s { auth_ctx = ctx; state = connected },
      on_broker H (count_in Metrics.inc_active_connections) w,
    ),
  )
  on_login correlation_id (refused failure) sw =
      (break, refuse correlation_id (auth_failed failure) sw)

  abbrev pub run_dispatch : BrokerCommand → ℕ → Both → Both
  run_dispatch cmd correlation_id (s, w) =
      let (m, w') = dispatch H conn_id cmd correlation_id (s.sub_consumers, w) in
      (record s { sub_consumers = m }, w')

  -- A SUB command: the limit first, then the permission of a pattern that parses.
  unfoldable pub guarded_subscribe : SubscribeCommand → ℕ → Both → Both
  guarded_subscribe cmd correlation_id (s, w) =
      if leb config.max_subscriptions_per_connection
        (Registry.count_for_connection w.broker.registry conn_id)
      then refuse correlation_id
          (max_subscriptions_exceeded config.max_subscriptions_per_connection) (s, w)
      else elim (Pattern.parse cmd.subject_pattern) [
        | Subject.err e ↦ run_dispatch (subscribe cmd) correlation_id (s, w)
        | Subject.ok pattern ↦
            if can_subscribe s.auth_ctx pattern
            then run_dispatch (subscribe cmd) correlation_id (s, w)
            else refuse correlation_id subscribe_denied (s, w)
      ]

  -- A PUB command: what is no subject passes the check, and is dropped by the dispatcher.
  unfoldable pub guarded_publish : PublishCommand → ℕ → Both → Both
  guarded_publish cmd correlation_id (s, w) = elim (from_utf8 cmd.subject) [
    | none ↦ run_dispatch (publish cmd) correlation_id (s, w)
    | some subject_str ↦
        let (parsed, b) = parse_subject w.broker subject_str in
        let w' = record w { broker = b } in
        elim parsed [
          | Subject.err e ↦ run_dispatch (publish cmd) correlation_id (s, w')
          | Subject.ok subject ↦
              if can_publish s.auth_ctx subject
              then run_dispatch (publish cmd) correlation_id (s, w')
              else refuse correlation_id publish_denied (s, w')
        ]
  ]

  unfoldable pub guarded : BrokerCommand → ℕ → Both → Both
  unfolding guarded_subscribe guarded_publish
  guarded (subscribe cmd) correlation_id sw = guarded_subscribe cmd correlation_id sw
  guarded (publish cmd) correlation_id sw = guarded_publish cmd correlation_id sw
  guarded cmd correlation_id sw = run_dispatch cmd correlation_id sw

  abbrev pub if_connected : BrokerCommand → ℕ → Both → Flow × Both
  if_connected cmd correlation_id (s, w) =
      (continue, if is_connected s.state then guarded cmd correlation_id (s, w) else (s, w))

  unfoldable pub handle : BrokerCommand → ℕ → Both → Flow × Both
  unfolding guarded
  handle (connect cmd) correlation_id sw =
      on_login correlation_id (validate_auth cmd.auth config.auth) sw
  handle ping correlation_id sw = (continue, reply (raw (Frame.new FrameType.pong 0)) sw)
  handle cmd correlation_id sw = if_connected cmd correlation_id sw

  unfoldable pub on_frame : Frame → Both → Flow × Both
  unfolding handle
  on_frame frame sw = elim (from_frame frame) [
    | ok cmd ↦ handle cmd frame.header.correlation_id sw
    | err e ↦ (continue, refuse 0 (protocol_error e) (count_error sw))
  ]

  abbrev pub on_decoded : Result (Option Frame) → Both → Flow × Both
  on_decoded (ok (some frame)) sw = on_frame frame sw
  on_decoded (ok none) sw = (break, flush_published sw)
  on_decoded (err e) sw =
      let (s, w) = count_error (flush_published sw) in
      (continue, refuse 0 (decode_error e) (record s { read_buf = [] }, w))

  unfoldable pub slow_path : Both → Flow × Both
  unfolding on_frame flush_published
  slow_path (s, w) =
      let (decoded, buf') = decode_from s.read_buf config.max_frame_size in
      on_decoded decoded (record s { read_buf = buf' }, w)

  -- One round of the loop over the frames.
  unfoldable pub process_one : Both → Flow × Both
  unfolding fast_path slow_path
  process_one (s, w) =
      if is_connected s.state && next_frame_is_pub s.read_buf
      then fast_path (s, w)
      else slow_path (s, w)

  -- The loop, on fuel: `none` means that the fuel ran out.
  unfoldable pub process_frames : ℕ → Both → Option Both
  process_frames zero sw = none
  process_frames (suc fuel) sw =
      let (flow, sw') = process_one sw in
      elim flow [ continue ↦ process_frames fuel sw' | break ↦ some sw' ]
