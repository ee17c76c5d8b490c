-- ===== src/Server/Session/Logins.antt =====
-- The CONNECT frames that a session of crates/zetmq-server/src/session/handler.rs accepts, counted
-- from the frames that it meets.
use zet_mq.Prelude.{
  ℕ, zero, suc, ◌+◌, ◌-◌, List, [], ◌∷◌, ◌++◌, ◌&&◌, Option, some, if◌then◌else◌, ltb, length,
}
use zet_mq.Protocol.Error.{Result, ok, err}
use zet_mq.Protocol.Frame
use zet_mq.Protocol.Frame.{Frame, decode_from}
use zet_mq.Protocol.FrameType
use zet_mq.Protocol.Command.{BrokerCommand, from_frame, connect}
use zet_mq.Server.Config.{ServerConfig}
use zet_mq.Server.Login.{Login, accepted, refused, validate_auth}
use zet_mq.Server.Outbound.{Host, raw}
use zet_mq.Server.Session.{Both, continue, break, reply, is_connected, process_one}
use zet_mq.Server.Session.Layout.{next_frame_is_pub}
use zet_mq.Server.Session.Events.{Event, received, tick, going, over, secs, on_event}

abbrev pub login_logins : Login → ℕ
login_logins (accepted ctx) = 1
login_logins (refused why) = 0

module _ (H : Host) (config : ServerConfig) (conn_id : ℕ) where
  open H use {Channels}

  -- A CONNECT command whose credentials are accepted is one login.
  abbrev pub command_logins : BrokerCommand → ℕ
  command_logins (connect cmd) = login_logins (validate_auth cmd.auth config.auth)
  command_logins _ = 0

  abbrev pub parsed_logins : Result BrokerCommand → ℕ
  parsed_logins (ok cmd) = command_logins cmd
  parsed_logins (err e) = 0

  abbrev pub decoded_logins : Result (Option Frame) → ℕ
  decoded_logins (ok (some frame)) = parsed_logins (from_frame frame)
  decoded_logins _ = 0

  -- A round either takes a batch of PUB frames, or one frame.
  unfoldable pub round_logins : Both H config conn_id → ℕ
  round_logins (s, w) =
      if is_connected s.state && next_frame_is_pub s.read_buf
      then 0
      else decoded_logins (decode_from s.read_buf config.max_frame_size).0

  unfoldable pub frames_logins : ℕ → Both H config conn_id → ℕ
  frames_logins zero sw = 0
  frames_logins (suc fuel) sw = round_logins sw + elim (process_one H config conn_id sw).0 [
    | continue ↦ frames_logins fuel (process_one H config conn_id sw).1
    | break ↦ 0
  ]

  abbrev pub all_logins : Both H config conn_id → ℕ
  all_logins (s, w) = frames_logins (suc (length s.read_buf)) (s, w)

  -- The frames are gone over when bytes are received and on a tick in time.
  unfoldable pub event_logins : Event → Both H config conn_id → ℕ
  event_logins (received now bytes) (s, w) =
      all_logins (record s { last_activity = now; read_buf = s.read_buf ++ bytes }, w)
  event_logins (tick now) (s, w) =
      let elapsed = now - s.last_activity in
      if is_connected s.state
      then (if ltb (secs config.heartbeat_timeout_secs) elapsed
          then 0
          else all_logins (
              if ltb (secs config.heartbeat_interval_secs) elapsed
              then reply H config conn_id (raw (Frame.new FrameType.ping 0)) (s, w)
              else (s, w)))
      else 0
  event_logins _ sw = 0

  -- The logins in the life of a connection.
  unfoldable pub logins : List Event → Both H config conn_id → ℕ
  logins [] sw = 0
  logins (e ∷ es) sw =
      event_logins e sw
      + elim (on_event H config conn_id e sw) [ going sw' ↦ logins es sw' | over sw' ↦ 0 ]
