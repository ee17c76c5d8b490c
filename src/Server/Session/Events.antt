-- ===== src/Server/Session/Events.antt =====
-- The outer loop of `handle_connection` in crates/zetmq-server/src/session/handler.rs: what wakes it,
-- and the clean-up behind it. Times are in nanoseconds.
use zet_mq.Prelude.{
  ℕ, suc, ◌-◌, ◌*◌, ◌++◌, List, [], ◌∷◌, Option, none, some, if◌then◌else◌, ltb, length,
}
use zet_mq.Core.Delivery.{Bytes}
use zet_mq.Core.Broker.{remove_connection}
use zet_mq.Protocol.Frame
use zet_mq.Protocol.FrameType
use zet_mq.Server.Config.{ServerConfig}
use zet_mq.Server.Outbound.{raw, Host}
use zet_mq.Server.Dispatcher.{World, on_broker}
use zet_mq.Server.Session.{draining, is_connected, Both, reply, flush_published, process_frames}

-- A read that brought bytes, the end of the input or a failed read, a tick of the heartbeat, and the
-- shutdown of the server, with the bytes that a last read brings.
pub data Event : Type 0 where
  received : ℕ → Bytes → Event
  end_of_input : Event
  tick : ℕ → Event
  shut_down : Bytes → Event

abbrev pub secs : ℕ → ℕ
secs n = n * 1000000000

-- Whether the connection is still served.
pub data Served (A : Type 0) : Type 0 where
  going over : A → Served A

module _ (H : Host) (config : ServerConfig) (conn_id : ℕ) where
  open H use {Channels}

  abbrev pub finished :
      Both H config conn_id → Option (Both H config conn_id) → Both H config conn_id
  finished sw none = sw
  finished sw (some sw') = sw'

  -- The frames that are there; each round takes bytes away, so that one round more than there are
  -- bytes is fuel enough.
  unfoldable pub process_all : Both H config conn_id → Both H config conn_id
  process_all (s, w) =
      finished (s, w) (process_frames H config conn_id (suc (length s.read_buf)) (s, w))

  abbrev pub on_tick : ℕ → Both H config conn_id → Served (Both H config conn_id)
  on_tick now (s, w) =
      let elapsed = now - s.last_activity in
      if is_connected s.state
      then (if ltb (secs config.heartbeat_timeout_secs) elapsed
          then over (s, w)
          else going (
              process_all (
                if ltb (secs config.heartbeat_interval_secs) elapsed
                then reply H config conn_id (raw (Frame.new FrameType.ping 0)) (s, w)
                else (s, w))))
      else going (s, w)

  -- The bytes of the last read are not looked at.
  abbrev pub on_shut_down : Bytes → Both H config conn_id → Both H config conn_id
  on_shut_down bytes (s, w) =
      if is_connected s.state
      then reply H config conn_id (raw (Frame.new FrameType.drain 0))
          (record s { state = draining; read_buf = s.read_buf ++ bytes }, w)
      else (s, w)

  unfoldable pub on_event : Event → Both H config conn_id → Served (Both H config conn_id)
  unfolding process_all
  on_event (received now bytes) (s, w) =
      going (process_all (record s { last_activity = now; read_buf = s.read_buf ++ bytes }, w))
  on_event end_of_input sw = over sw
  on_event (tick now) sw = on_tick now sw
  on_event (shut_down bytes) sw = over (on_shut_down bytes sw)

  -- The clean-up: the counter goes to the broker, and the connection's subscriptions go.
  unfoldable pub clean_up : Both H config conn_id → World Channels
  unfolding flush_published
  clean_up sw =
      let (s, w) = flush_published H config conn_id sw in
      on_broker H (λ b. remove_connection b conn_id) w

  -- A connection on its events; when these end, so does the input.
  unfoldable pub serve : List Event → Both H config conn_id → World Channels
  unfolding on_event clean_up
  serve [] sw = clean_up sw
  serve (e ∷ es) sw = elim (on_event e sw) [ going sw' ↦ serve es sw' | over sw' ↦ clean_up sw' ]
