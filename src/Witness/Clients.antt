-- ===== src/Witness/Clients.antt =====
-- Clients on concrete input.
use zet_mq.Prelude.{
  ℕ, zero, suc, ◌≡◌, refl, ap, true, false, List, [], ◌∷◌, ◌++◌, none, some, arith, length,
}
use zet_mq.Map
use zet_mq.Map.{nat_key}
use zet_mq.Core.Delivery.{Bytes, DeliveryMessage}
use zet_mq.Protocol.Error.{ok}
use zet_mq.Protocol.Frame
use zet_mq.Protocol.Frame.{Frame, decode_from}
use zet_mq.Protocol.FrameType
use zet_mq.Server.Outbound.{encode_msg}
use zet_mq.Client.Connection.{Message, Receivers, Link, reading, on_frame, received, read_task}
use zet_mq.Client.Messages.{IsSendable, received_of, on_frame-encode_msg}
use zet_mq.Client.Stalled.{joined, read_task-encode_msg}
use zet_mq.Client.Flushes.{flushed_again, flush-late}
use zet_mq.Client.{unsubscribe_frame}
use zet_mq.Client.Reconnect.{
  ActiveSubscription, with_server_id, Client, unsubscribe, replay_subscriptions,
}
use zet_mq.Client.Replay.{replay-unsubscribe}
use zet_mq.Server.Config.{default_config}
use zet_mq.Server.Outbound.{raw}
use zet_mq.Server.Session
use zet_mq.Server.Session.{continue}
use zet_mq.Witness.Data.{subject_ab, outbox, empty_world}

-- Channels that keep what they get.
abbrev receivers : Receivers
receivers = record {
  Channels = List (ℕ × Message);
  send = λ c tx message. (true, c ++ ((tx, message) ∷ []));
}

-- A connection with a subscription 3, whose channel is 5.
abbrev connection : Link receivers
connection = record {
  state = record {
    subscriptions = record { entries = (3, 5) ∷ [] };
    pending_subs = Map.empty;
    pending_flush = Map.empty;
  };
  sub_counter = 1;
  connected = true;
  read_buf = [];
  channels = [];
  written = [];
  answers = [];
  flushed = [];
}

-- A message for "a.b", with the reply subject "a.b".
abbrev message : Bytes → DeliveryMessage
message payload = record {
  subscription_id = 3;
  connection_id = 7;
  subject = subject_ab;
  payload = payload;
  reply_to = some subject_ab;
  headers = none;
}

sendable : IsSendable (message (1 ∷ []))
sendable = record {
  headers = refl;
  subject = omega arith;
  reply_to = (omega arith, omega arith);
  subscription_id = omega arith;
  size = omega arith;
}

on_frame-encode_msg_example :
    (frame : Frame) × (decode_from (encode_msg (λ h. h) (message (1 ∷ [])) ++ (90 ∷ [])) 2097152
      ≡ (ok (some frame), 90 ∷ []))
    × (on_frame receivers frame connection
        ≡ reading (record connection { channels = (5, received_of (message (1 ∷ []))) ∷ [] }))
unfolding Map.get
on_frame-encode_msg_example =
    on_frame-encode_msg receivers (λ h. h) (message (1 ∷ [])) (90 ∷ []) connection sendable

zeros : ℕ → Bytes
zeros zero = []
zeros (suc n) = 0 ∷ zeros n

length-zeros : (n : ℕ) → length (zeros n) ≡ n
unfolding zeros
length-zeros zero = refl
length-zeros (suc n) = ap suc (length-zeros n)

-- A message of a PUB frame that is as large as the server allows.
abbrev large : DeliveryMessage
large = message (zeros 2097120)

abbrev stalled : Link receivers
stalled = record connection { read_buf = encode_msg (λ h. h) large ++ [] }

read_task-encode_msg_example :
    (received receivers
        (2 ∷ [])
        (record stalled { read_buf = (encode_msg (λ h. h) large ++ []) ++ (1 ∷ []) })
      ≡ reading (record stalled {
        read_buf = ((encode_msg (λ h. h) large ++ []) ++ (1 ∷ [])) ++ (2 ∷ []);
      }))
    × (read_task receivers ((1 ∷ []) ∷ (2 ∷ []) ∷ []) stalled ≡ record stalled {
      read_buf = (encode_msg (λ h. h) large ++ []) ++ (1 ∷ 2 ∷ []);
      connected = false;
    })
unfolding joined
read_task-encode_msg_example =
    read_task-encode_msg receivers (λ h. h) large [] ((1 ∷ []) ∷ []) ((1 ∷ []) ∷ (2 ∷ []) ∷ [])
      (2 ∷ []) stalled refl (omega arith) (omega (arith, length-zeros 2097120))
      (omega (arith, length-zeros 2097120)) refl

flush-late_example :
    ((flushed_again receivers 1 2 10 20 connection).written
      ≡ Frame.new FrameType.ping 1 ∷ Frame.new FrameType.ping 2 ∷ [])
    × (Session.on_frame outbox default_config 7
          (Frame.new FrameType.ping 1)
          (Session.new 0, empty_world)
        ≡ (
          continue,
          (
            Session.new 0,
            record empty_world { channels = (7, raw (Frame.new FrameType.pong 0)) ∷ [] },
          ),
        ))
    × ((c' : Link receivers) × (on_frame receivers
            (Frame.new FrameType.pong 0)
            (flushed_again receivers 1 2 10 20 connection)
          ≡ reading c')
        × (c'.flushed ≡ 20 ∷ []))
flush-late_example =
    flush-late receivers outbox default_config 7 (Session.new 0, empty_world) 1 2 10 20 connection
      refl

abbrev active : ℕ → ActiveSubscription
active tx = record { subject = 97 ∷ []; queue_group = none; server_sub_id = 0; tx = tx }

-- A client with two subscriptions, which get each other's ids behind a reconnection.
abbrev client : Client receivers
client = record {
  conn = connection;
  subscriptions = record { entries = (1, active 10) ∷ (2, active 20) ∷ [] };
}

replay-unsubscribe_swapped :
    (client' : Client receivers) × (replay_subscriptions receivers (λ l. l) (2 ∷ 1 ∷ []) client
      ≡ (true, client'))
    × (Map.get 2 client'.conn.state.subscriptions ≡ some 10)
    × (Map.get 1 client'.subscriptions ≡ some (with_server_id 2 (active 10)))
    × ((unsubscribe receivers 1 client').conn.written
        ≡ client'.conn.written ++ (unsubscribe_frame 2 ∷ []))
    × (Map.get 2 (unsubscribe receivers 1 client').conn.state.subscriptions ≡ none)
unfolding Map.get
replay-unsubscribe_swapped =
    replay-unsubscribe receivers (λ l. l) 1 2 (active 10) [] ((2, active 20) ∷ []) [] (1 ∷ [])
      client refl refl tt (refl, tt) refl (omega arith) (refl, tt)
