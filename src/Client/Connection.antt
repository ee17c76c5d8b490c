-- ===== src/Client/Connection.antt =====
-- crates/zetmq-client/src/connection.rs and subscription.rs: what the read task of a client does with
-- the frames of the server. A sender of a channel or of an answer is known by a number.
use zet_mq.Prelude.{
  ℕ, zero, suc, ◌+◌, ◌%◌, ◌++◌, Bool, false, List, [], ◌∷◌, Option, none, some, if◌then◌else◌, ltb,
  leb, ◌==◌, is_empty, length, slice, drop, be_value,
}
use zet_mq.Map
use zet_mq.Map.{Map, nat_key}
use zet_mq.Core.Delivery.{Bytes, HeaderMap}
use zet_mq.Core.Metrics.{u64_mod}
use zet_mq.Protocol.Error.{
  ProtocolError, ok, err, decoding_error, msg_too_short, msg_subject_truncated,
  msg_sub_id_truncated,
}
use zet_mq.Protocol.Frame
use zet_mq.Protocol.Frame.{Frame, decode_from}
use zet_mq.Protocol.FrameType.{FrameType, from_u8}
use zet_mq.Protocol.Headers.{decode_headers}

-- A message received from a subscription.
pub record Message : Type 0 where
  pub subject : Bytes
  pub reply_to : Option Bytes
  pub headers : Option HeaderMap
  pub payload : Bytes

-- The channels to the subscribers: `send` tells whether the receiver is still there.
pub record Receivers : Type 1 where
  pub Channels : Type 0
  pub send : Channels → ℕ → Message → Bool × Channels

pub record ConnState : Type 0 where
  pub subscriptions : Map ℕ ℕ
  pub pending_subs : Map ℕ ℕ
  pub pending_flush : Map ℕ ℕ

-- A connection, with the frames that it has given to the write task, the answers to pending SUB
-- frames, and the flushes that are done.
pub record Connection (C : Type 0) : Type 0 where
  pub state : ConnState
  pub sub_counter : ℕ
  pub connected : Bool
  pub read_buf : Bytes
  pub channels : C
  pub written : List Frame
  pub answers : List (ℕ × ℕ)
  pub flushed : List ℕ

abbrev pub client_max_frame_size : ℕ
client_max_frame_size = 2097152

-- What a MSG frame holds: a subscription and a message. The slice of a reply that is not there
-- panics.
pub data Incoming : Type 0 where
  message_for : ℕ → Message → Incoming
  malformed : ProtocolError → Incoming
  out_of_range : Incoming

abbrev pub with_headers : ℕ → Bytes → Option Bytes → Bytes → Bytes → Incoming
with_headers sub_id subject reply_to payload headers =
    if is_empty headers
    then message_for sub_id
        (record { subject = subject; reply_to = reply_to; headers = none; payload = payload })
    else elim (decode_headers headers) [
      | err e ↦ malformed e
      | ok map ↦
          message_for sub_id (record {
            subject = subject;
            reply_to = reply_to;
            headers = some map;
            payload = payload;
          })
    ]

-- The part of `dispatch_msg` that decodes.
unfoldable pub decode_msg : Frame → Incoming
decode_msg frame =
    let payload = frame.payload in
    let subj_len = be_value (slice 0 2 payload) in
    let subject = slice 2 (2 + subj_len) payload in
    let offset = 2 + subj_len + 2 in
    let reply_len = be_value (slice (2 + subj_len) (4 + subj_len) payload) in
    let reply_to =
      if ltb 0 reply_len then some (slice offset (offset + reply_len) payload) else none in
    let data_offset = offset + reply_len in
    let sub_id = be_value (slice data_offset (data_offset + 8) payload) in
    if ltb (length payload) 2
    then malformed (decoding_error msg_too_short)
    else if ltb (length payload) offset
    then malformed (decoding_error msg_subject_truncated)
    else if ltb (length payload) data_offset
    then out_of_range
    else if ltb (length payload) (data_offset + 8)
    then malformed (decoding_error msg_sub_id_truncated)
    else with_headers sub_id subject reply_to (drop (data_offset + 8) payload) frame.headers

-- The smallest key.
unfoldable pub min_key : List (ℕ × ℕ) → Option ℕ
min_key [] = none
min_key ((k, v) ∷ rest) = elim (min_key rest) [
  | none ↦ some k
  | some least ↦ some (if ltb k least then k else least)
]

-- Whether the read task goes on, or ends by a panic.
pub data Reading (A : Type 0) : Type 0 where
  reading panicked : A → Reading A

module _ (R : Receivers) where
  open R use {Channels, send}

  abbrev pub Link : Type 0
  Link = Connection Channels

  unfoldable pub next_sub_id : Link → ℕ × Link
  next_sub_id c = (c.sub_counter, record c { sub_counter = (c.sub_counter + 1) % u64_mod })

  abbrev pub to_subscriber : ℕ → Option ℕ → Message → Link → Link
  to_subscriber sub_id none message c = c
  to_subscriber sub_id (some tx) message c =
      let (alive, channels') = send c.channels tx message in
      if alive then record c { channels = channels' } else record c {
        channels = channels';
        state = record c.state { subscriptions = Map.remove sub_id c.state.subscriptions };
      }

  unfoldable pub dispatch_msg : Frame → Link → Reading Link
  dispatch_msg frame c = elim (decode_msg frame) [
    | message_for sub_id message ↦
        reading (to_subscriber sub_id (Map.get sub_id c.state.subscriptions) message c)
    | malformed e ↦ reading c
    | out_of_range ↦ panicked c
  ]

  abbrev pub complete : ℕ → Option ℕ → Link → Link
  complete id none c = c
  complete id (some tx) c = record c {
    state = record c.state { pending_flush = Map.remove id c.state.pending_flush };
    flushed = c.flushed ++ (tx ∷ []);
  }

  abbrev pub finish : Option ℕ → Link → Link
  finish none c = c
  finish (some id) c = complete id (Map.get id c.state.pending_flush) c

  unfoldable pub resolve_flush : ℕ → Link → Link
  unfolding min_key
  resolve_flush corr_id c =
      finish (if corr_id == 0 then min_key c.state.pending_flush.entries else some corr_id) c

  unfoldable pub on_suback : Frame → Link → Link
  on_suback frame c =
      let corr_id = frame.header.correlation_id in
      if leb 8 (length frame.payload)
      then elim (Map.get corr_id c.state.pending_subs) [
        | none ↦ c
        | some tx ↦ record c {
          state = record c.state { pending_subs = Map.remove corr_id c.state.pending_subs };
          answers = c.answers ++ ((tx, be_value (slice 0 8 frame.payload)) ∷ []);
        }
      ]
      else c

  abbrev pub on_type : FrameType → Frame → Link → Reading Link
  on_type FrameType.msg frame c = dispatch_msg frame c
  on_type FrameType.suback frame c = reading (on_suback frame c)
  on_type FrameType.ping frame c =
      reading (record c { written = c.written ++ (Frame.new FrameType.pong 0 ∷ []) })
  on_type FrameType.pong frame c = reading (resolve_flush frame.header.correlation_id c)
  on_type _ frame c = reading c

  unfoldable pub on_frame : Frame → Link → Reading Link
  unfolding dispatch_msg on_suback resolve_flush
  on_frame frame c = elim (from_u8 frame.header.frame_type) [
    | err e ↦ reading c
    | ok ft ↦ on_type ft frame c
  ]

  -- The loop over the frames that are there, on fuel: `none` means that the fuel ran out. It stops at
  -- an error as it does where no frame is complete.
  unfoldable pub read_frames : ℕ → Link → Option (Reading Link)
  unfolding on_frame
  read_frames zero c = none
  read_frames (suc fuel) c =
      let (decoded, buf') = decode_from c.read_buf client_max_frame_size in
      let c' = record c { read_buf = buf' } in
      elim decoded [
        | err e ↦ some (reading c')
        | ok none ↦ some (reading c')
        | ok (some frame) ↦ elim (on_frame frame c') [
          | reading c'' ↦ read_frames fuel c''
          | panicked c'' ↦ some (panicked c'')
        ]
      ]

  abbrev pub or_here : Link → Option (Reading Link) → Reading Link
  or_here c none = reading c
  or_here c (some r) = r

  -- A read: each frame takes bytes away, so that one round more than there are bytes is fuel enough.
  unfoldable pub received : Bytes → Link → Reading Link
  unfolding read_frames
  received bytes c =
      let c' = record c { read_buf = c.read_buf ++ bytes } in
      or_here c' (read_frames (suc (length c'.read_buf)) c')

  -- The read task on the reads to come. A panic ends it without a word to `connected`.
  unfoldable pub read_task : List Bytes → Link → Link
  unfolding received
  read_task [] c = record c { connected = false }
  read_task (bytes ∷ more) c = elim (received bytes c) [
    | reading c' ↦ read_task more c'
    | panicked c' ↦ c'
  ]

  -- `subscribe_send`, before the frame is sent and behind the answer.
  unfoldable pub subscribe_send : ℕ → Frame → ℕ → Link → Link
  subscribe_send corr_id frame tx c = record c {
    state = record c.state { pending_subs = Map.insert corr_id tx c.state.pending_subs };
    written = c.written ++ (frame ∷ []);
  }

  unfoldable pub subscribe_answered : ℕ → ℕ → Link → Link
  subscribe_answered server_sub_id tx c = record c {
    state = record c.state { subscriptions = Map.insert server_sub_id tx c.state.subscriptions };
  }

  unfoldable pub remove_subscription : ℕ → Link → Link
  remove_subscription id c = record c {
    state = record c.state { subscriptions = Map.remove id c.state.subscriptions };
  }

  unfoldable pub send_frame : Frame → Link → Link
  send_frame frame c = record c { written = c.written ++ (frame ∷ []) }

  -- `flush`, before the frame is sent and where the answer does not come in time.
  unfoldable pub flush : ℕ → ℕ → Link → Link
  unfolding send_frame
  flush corr_id tx c = send_frame (Frame.new FrameType.ping corr_id) (record c {
    state = record c.state { pending_flush = Map.insert corr_id tx c.state.pending_flush };
  })

  unfoldable pub flush_timed_out : ℕ → Link → Link
  flush_timed_out corr_id c = record c {
    state = record c.state { pending_flush = Map.remove corr_id c.state.pending_flush };
  }
