-- ===== src/Witness/Sessions.antt =====
-- Sessions on concrete input.
use zet_mq.Prelude.{
  ℕ, ◌≡◌, ◌≤◌, refl, true, List, [], ◌∷◌, ◌++◌, none, some, arith, be_value, str_eq,
}
use zet_mq.Map
use zet_mq.Core.Delivery.{Bytes}
use zet_mq.Core.Broker
use zet_mq.Core.Registry
use zet_mq.Protocol.Error.{ok}
use zet_mq.Protocol.Header
use zet_mq.Protocol.Frame
use zet_mq.Protocol.Frame.{Frame, decode_from}
use zet_mq.Protocol.FrameType
use zet_mq.Protocol.FrameType.{as_u8, from_u8}
use zet_mq.Protocol.Command.{PublishCommand, from_frame, publish, of_type, connect_of}
use zet_mq.Server.Auth.{unrestricted}
use zet_mq.Server.Login.{validate_auth}
use zet_mq.Server.Config.{default_config}
use zet_mq.Witness.Data.{outbox, empty_world}
use zet_mq.Server.Outbound.{raw}
use zet_mq.Text.{Str, from_utf8_lossy}
use zet_mq.Protocol.Payload.{decode_create}
use zet_mq.Server.Dispatcher.{World, Task, create, acknowledge, run_task, dispatch}
use zet_mq.Server.EmptyStores.{AllEmpty}
use zet_mq.Server.Idle.{Reaches, start_up, frames, task, Reaches-ack}
use zet_mq.Server.Session
use zet_mq.Server.Session.{
  connected, Both, Session, process_frames, process_one, slow_path, fast_path, on_frame, handle,
  flush_published, guarded,
}
use zet_mq.Server.Session.Layout.{
  next_frame_is_pub, PubFrameLayout, peek_pub_frame_layout, decode_frame_bytes,
  parse_publish_payload,
}
use zet_mq.Server.Session.Paths.{fast_path_agrees}
use zet_mq.Server.Session.BeforeLogin.{is_new, Untouched, process_frames-new}
use zet_mq.Server.Session.Rounds.{process_frames-total}
use zet_mq.Server.Session.Accounts.{held}
use zet_mq.Server.Session.Limits.{process_frames-held}
use zet_mq.Server.Session.Lives.{UpByLessOne, serve-gauge}
use zet_mq.Server.Session.Logins.{logins, event_logins, frames_logins, round_logins}
use zet_mq.Server.Session.Events.{Event, received, end_of_input, serve, on_event}

-- A new session with bytes in its buffer.
abbrev reading : Bytes → Both outbox default_config 7
reading bytes = (record (Session.new 0) { read_buf = bytes }, empty_world)

-- A PING frame.
abbrev ping_frame : Bytes
ping_frame =
    90 ∷ 77 ∷ 1 ∷ 16 ∷ 0 ∷ 0 ∷ 0 ∷ 0 ∷ 0 ∷ 0 ∷ 0 ∷ 0 ∷ 0 ∷ 3 ∷ 0 ∷ 0 ∷ 0 ∷ 0 ∷ 0 ∷ 0 ∷ 0 ∷ 0 ∷ []

-- A CONNECT frame without credentials.
abbrev connect_bytes : Bytes
connect_bytes =
    90 ∷ 77 ∷ 1 ∷ 1 ∷ 0 ∷ 0 ∷ 0 ∷ 0 ∷ 0 ∷ 0 ∷ 0 ∷ 0 ∷ 0 ∷ 1 ∷ 0 ∷ 0 ∷ 0 ∷ 0 ∷ 0 ∷ 0 ∷ 0 ∷ 0 ∷ []

-- A SUB frame for "a.*".
abbrev sub_bytes : Bytes
sub_bytes =
    90 ∷ 77 ∷ 1 ∷ 48 ∷ 0 ∷ 0 ∷ 0 ∷ 0 ∷ 0 ∷ 0 ∷ 0 ∷ 0 ∷ 0 ∷ 2 ∷ 0 ∷ 0 ∷ 0 ∷ 0 ∷ 0 ∷ 0 ∷ 0 ∷ 4 ∷ 3
    ∷ 97 ∷ 46 ∷ 42 ∷ []

-- A PUB frame with the byte 1 for "a.b".
abbrev pub_bytes : Bytes
pub_bytes =
    90 ∷ 77 ∷ 1 ∷ 32 ∷ 0 ∷ 0 ∷ 0 ∷ 0 ∷ 0 ∷ 0 ∷ 0 ∷ 0 ∷ 0 ∷ 4 ∷ 0 ∷ 0 ∷ 0 ∷ 0 ∷ 0 ∷ 0 ∷ 0 ∷ 8 ∷ 0 ∷ 3
    ∷ 97 ∷ 46 ∷ 98 ∷ 0 ∷ 0 ∷ 1 ∷ []

-- A login, a subscription, a message for it and a PING.
abbrev busy_bytes : Bytes
busy_bytes = connect_bytes ++ (sub_bytes ++ (pub_bytes ++ ping_frame))

-- The session behind these frames.
ended :
    (sw' : Both outbox default_config 7) × (process_frames outbox default_config 7 105
        (reading busy_bytes)
      ≡ some sw')
unfolding Session.new
ended = process_frames-total outbox default_config 7 105 (reading busy_bytes) (omega arith)

process_frames-total_busy :
    (sw' : Both outbox default_config 7) × (process_frames outbox default_config 7 105
        (reading busy_bytes)
      ≡ some sw')
unfolding Session.new
process_frames-total_busy =
    process_frames-total outbox default_config 7 105 (reading busy_bytes) (omega arith)

process_frames-held_busy : held ended.0.1.broker 7 ≤ 1024
unfolding Broker.new Registry.new Map.get Map.empty
process_frames-held_busy =
    process_frames-held outbox default_config 7 105 (reading busy_bytes) ended.0 ended.1
      (none_held 7)
  where
    none_held : (n : ℕ) → held Broker.new n ≤ 1024
    none_held n = omega arith

-- A session that has answered a PING.
abbrev pinged : Both outbox default_config 7
pinged =
    (Session.new 0, record empty_world { channels = (7, raw (Frame.new FrameType.pong 0)) ∷ [] })

answered : process_frames outbox default_config 7 23 (reading ping_frame) ≡ some pinged
unfolding process_frames process_one slow_path fast_path on_frame handle flush_published
    Frame.decode_from Header.decode Header.get_u from_u8 as_u8 be_value from_frame of_type
    Session.new
answered = refl

process_frames-new_ping :
    (is_new (reading ping_frame).0.state ≡ true)
    × Untouched outbox default_config 7 (reading ping_frame).1 pinged.1
unfolding Session.new
process_frames-new_ping =
    process_frames-new outbox default_config 7 23 (reading ping_frame) pinged answered refl

-- Two logins and the end of the input.
abbrev visit : List Event
visit = received 1 connect_bytes ∷ received 2 connect_bytes ∷ end_of_input ∷ []

serve-gauge_visit :
    UpByLessOne 2 Broker.new (serve outbox default_config 7 visit (reading [])).broker
unfolding logins event_logins frames_logins round_logins on_event process_one process_frames
    slow_path fast_path on_frame handle flush_published next_frame_is_pub Frame.decode_from
    Header.decode Header.get_u from_u8 as_u8 be_value from_frame of_type connect_of validate_auth
    unrestricted str_eq Session.new
serve-gauge_visit = serve-gauge outbox default_config 7 visit (reading [])

-- The layout of the PUB frame, and its command.
abbrev pub_layout : PubFrameLayout
pub_layout = record {
  correlation_id = 4;
  header_start = 22;
  header_end = 22;
  payload_start = 22;
  payload_end = 30;
  total = 30;
}

abbrev pub_command : PublishCommand
pub_command = record {
  subject = 97 ∷ 46 ∷ 98 ∷ [];
  payload = 1 ∷ [];
  reply_to = none;
  headers = none;
}

found : peek_pub_frame_layout pub_bytes 100 ≡ ok (some pub_layout)
unfolding peek_pub_frame_layout as_u8 be_value
found = refl

cut_out : decode_frame_bytes pub_bytes pub_layout ≡ ok pub_command
unfolding decode_frame_bytes parse_publish_payload be_value
cut_out = refl

fast_path_agrees_pub :
    (frame : Frame) × (decode_from pub_bytes 100 ≡ (ok (some frame), []))
    × (from_frame frame ≡ ok (publish pub_command))
    × (frame.header.correlation_id ≡ 4)
fast_path_agrees_pub = fast_path_agrees pub_bytes 100 pub_layout pub_command found cut_out

-- A CREATE frame for the stream "a", without limits.
abbrev create_bytes : Bytes
create_bytes =
    90 ∷ 77 ∷ 1 ∷ 96 ∷ 0 ∷ 0 ∷ 0 ∷ 0 ∷ 0 ∷ 0 ∷ 0 ∷ 0 ∷ 0 ∷ 5 ∷ 0 ∷ 0 ∷ 0 ∷ 0 ∷ 0 ∷ 0 ∷ 0 ∷ 26 ∷ 1
    ∷ 97 ∷ 0 ∷ 0 ∷ 0 ∷ 0 ∷ 0 ∷ 0 ∷ 0 ∷ 0 ∷ 0 ∷ 0 ∷ 0 ∷ 0 ∷ 0 ∷ 0 ∷ 0 ∷ 0 ∷ 0 ∷ 0 ∷ 0 ∷ 0 ∷ 0 ∷ 0 ∷ 0
    ∷ 0 ∷ []

abbrev connected_reading : Session
connected_reading = record (Session.new 0) { state = connected; read_buf = create_bytes }

abbrev create_task : Task
create_task = create 7 (97 ∷ []) (record { max_msgs = 0; max_bytes = 0; max_age_secs = 0 })

-- The task is spawned.
abbrev spawned : World outbox.Channels
spawned = record empty_world { tasks = create_task ∷ [] }

created :
    process_frames outbox default_config 7 50 (connected_reading, empty_world)
    ≡ some (record connected_reading { read_buf = [] }, spawned)
unfolding process_frames process_one slow_path fast_path on_frame handle guarded flush_published
    Frame.decode_from Header.decode Header.get_u from_u8 as_u8 be_value from_frame of_type
    decode_create next_frame_is_pub dispatch from_utf8_lossy Session.new
created = refl

-- The server in which the task has run.
abbrev with_stream : World outbox.Channels
with_stream = run_task outbox create_task (record spawned { tasks = [] })

reached : Reaches outbox default_config empty_world with_stream
reached =
    task create_task [] [] spawned
      (frames 7 50 connected_reading (record connected_reading { read_buf = [] }) empty_world
        spawned start_up created)
      refl

Reaches-ack_example :
    AllEmpty with_stream.store.store
    × ((stream consumer : Str) (n : ℕ)
        → run_task outbox (acknowledge stream consumer n) with_stream ≡ with_stream)
Reaches-ack_example = Reaches-ack outbox default_config empty_world with_stream refl reached
