-- ===== src/Protocol/Command.antt =====
-- crates/zetmq-protocol/src/command/mod.rs: the command that a frame carries.
use zet_mq.Prelude.{
  ℕ, ◌+◌, ◌&&◌, Option, none, some, if◌then◌else◌, ltb, leb, is_empty, length, get_or, drop, slice,
  be_value,
}
use zet_mq.Text.{Str, from_utf8_lossy}
use zet_mq.Core.Delivery.{Bytes, HeaderMap}
use zet_mq.Protocol.Error.{
  Result, ok, err, decoding_error, pub_too_short, pub_subject_truncated, sub_empty,
  sub_pattern_truncated, unsub_too_short, unexpected_frame_type, invalid_auth,
}
use zet_mq.Protocol.FrameType.{FrameType, from_u8}
use zet_mq.Protocol.Frame.{Frame}
use zet_mq.Protocol.Headers.{decode_headers}
use zet_mq.Protocol.Payload.{
  Decoded, decoded, invalid, ConnectCommand, new_connect, decode_auth, CreateStreamCommand,
  DeleteStreamCommand, AckCommand, decode_create, decode_delete, decode_ack,
}

pub record PublishCommand : Type 0 where
  pub subject : Bytes
  pub payload : Bytes
  pub reply_to : Option Bytes
  pub headers : Option HeaderMap

pub record SubscribeCommand : Type 0 where
  pub subject_pattern : Str
  pub queue_group : Option Str

pub data BrokerCommand : Type 0 where
  connect : ConnectCommand → BrokerCommand
  publish : PublishCommand → BrokerCommand
  subscribe : SubscribeCommand → BrokerCommand
  unsubscribe : ℕ → BrokerCommand
  ping : BrokerCommand
  create_stream : CreateStreamCommand → BrokerCommand
  delete_stream : DeleteStreamCommand → BrokerCommand
  ack nack : AckCommand → BrokerCommand

unfoldable pub connect_of : Frame → Result BrokerCommand
connect_of frame =
    let cmd = new_connect frame.header.version in
    if is_empty frame.payload
    then ok (connect cmd)
    else elim (decode_auth (get_or frame.payload 0 0) (drop 1 frame.payload)) [
      | decoded auth ↦ ok (connect (record cmd { auth = auth }))
      | invalid e ↦ err (decoding_error (invalid_auth e))
    ]

-- The reply, where there is one, and the start of the data behind the subject.
unfoldable pub reply_of : Bytes → Option Bytes × ℕ
reply_of rest =
    let reply_len = be_value (slice 0 2 rest) in
    if leb 2 (length rest)
    then (if leb (2 + reply_len) (length rest) && ltb 0 reply_len
        then (some (slice 2 (2 + reply_len) rest), 2 + reply_len)
        else (none, 2))
    else (none, 0)

abbrev pub with_headers : Bytes → Bytes → Option Bytes → Bytes → Result BrokerCommand
with_headers subject payload reply_to headers =
    if is_empty headers
    then ok (
        publish
          (record { subject = subject; payload = payload; reply_to = reply_to; headers = none }))
    else elim (decode_headers headers) [
      | err e ↦ err e
      | ok map ↦ ok (
          publish (record {
            subject = subject;
            payload = payload;
            reply_to = reply_to;
            headers = some map;
          }))
    ]

unfoldable pub publish_of : Frame → Result BrokerCommand
publish_of frame =
    let subj_len = be_value (slice 0 2 frame.payload) in
    let (reply_to, data_start) = reply_of (drop (2 + subj_len) frame.payload) in
    if ltb (length frame.payload) 2
    then err (decoding_error pub_too_short)
    else if ltb (length frame.payload) (2 + subj_len)
    then err (decoding_error pub_subject_truncated)
    else with_headers (slice 2 (2 + subj_len) frame.payload)
        (drop (2 + subj_len + data_start) frame.payload) reply_to frame.headers

unfoldable pub subscribe_of : Frame → Result BrokerCommand
subscribe_of frame =
    let payload = frame.payload in
    let pattern_len = get_or payload 0 0 in
    let qg_len = get_or payload (1 + pattern_len) 0 in
    let queue_group : Option Str =
      if ltb (1 + pattern_len + 1) (length payload)
      then (if leb (2 + pattern_len + qg_len) (length payload) && ltb 0 qg_len
          then some (from_utf8_lossy (slice (2 + pattern_len) (2 + pattern_len + qg_len) payload))
          else none)
      else none in
    if is_empty payload
    then err (decoding_error sub_empty)
    else if ltb (length payload) (1 + pattern_len)
    then err (decoding_error sub_pattern_truncated)
    else ok (
        subscribe (record {
          subject_pattern = from_utf8_lossy (slice 1 (1 + pattern_len) payload);
          queue_group = queue_group;
        }))

unfoldable pub unsubscribe_of : Frame → Result BrokerCommand
unsubscribe_of frame =
    if ltb (length frame.payload) 8
    then err (decoding_error unsub_too_short)
    else ok (unsubscribe (be_value (slice 0 8 frame.payload)))

abbrev pub command_of : {A : Type 0} → (A → BrokerCommand) → Decoded A → Result BrokerCommand
command_of f (decoded cmd) = ok (f cmd)
command_of f (invalid e) = err (decoding_error e)

unfoldable pub of_type : FrameType → Frame → Result BrokerCommand
unfolding publish_of
of_type FrameType.connect frame = connect_of frame
of_type FrameType.pub_frame frame = publish_of frame
of_type FrameType.sub frame = subscribe_of frame
of_type FrameType.unsub frame = unsubscribe_of frame
of_type FrameType.ping frame = ok ping
of_type FrameType.create_stream frame = command_of create_stream (decode_create frame.payload)
of_type FrameType.delete_stream frame = command_of delete_stream (decode_delete frame.payload)
of_type FrameType.ack frame = command_of ack (decode_ack frame.payload)
of_type FrameType.nack frame = command_of nack (decode_ack frame.payload)
of_type _ frame = err (decoding_error (unexpected_frame_type frame.header.frame_type))

unfoldable pub from_frame : Frame → Result BrokerCommand
unfolding of_type
from_frame frame = elim (from_u8 frame.header.frame_type) [
  | err e ↦ err e
  | ok ft ↦ of_type ft frame
]
