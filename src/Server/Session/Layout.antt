-- ===== src/Server/Session/Layout.antt =====
-- crates/zetmq-server/src/session/handler.rs: a PUB frame found in the read buffer without a copy.
use zet_mq.Prelude.{
  ℕ, ◌+◌, Bool, ◌&&◌, Option, none, some, if◌then◌else◌, ◌==◌, ltb, leb, is_empty, length, get_or,
  take, drop, slice, be_value,
}
use zet_mq.Core.Delivery.{Bytes}
use zet_mq.Protocol.Error.{
  Result, ok, err, frame_too_large, invalid_magic, unsupported_version, unknown_frame_type,
  decoding_error, pub_too_short, pub_subject_truncated, pub_reply_missing, pub_reply_truncated,
  current_version,
}
use zet_mq.Protocol.Header.{frame_header_size, zetmq_magic}
use zet_mq.Protocol.FrameType.{as_u8, pub_frame}
use zet_mq.Protocol.Headers.{decode_headers}
use zet_mq.Protocol.Command.{PublishCommand}

pub record PubFrameLayout : Type 0 where
  pub correlation_id : ℕ
  pub header_start : ℕ
  pub header_end : ℕ
  pub payload_start : ℕ
  pub payload_end : ℕ
  pub total : ℕ

-- A range is its start and its end.
pub record PublishPayloadLayout : Type 0 where
  pub subject : ℕ × ℕ
  pub reply_to : Option (ℕ × ℕ)
  pub payload : ℕ × ℕ

abbrev pub range : ℕ × ℕ → Bytes → Bytes
range (start, stop) bytes = slice start stop bytes

unfoldable pub next_frame_is_pub : Bytes → Bool
unfolding as_u8
next_frame_is_pub buf = leb frame_header_size (length buf) && get_or buf 3 0 == as_u8 pub_frame

unfoldable pub peek_pub_frame_layout : Bytes → ℕ → Result (Option PubFrameLayout)
unfolding as_u8
peek_pub_frame_layout buf max_frame_size =
    let header_len = be_value (slice 14 18 buf) in
    let payload_len = be_value (slice 18 22 buf) in
    let total = frame_header_size + header_len + payload_len in
    let magic = be_value (slice 0 2 buf) in
    let version = get_or buf 2 0 in
    if ltb (length buf) frame_header_size
    then ok none
    else if ltb max_frame_size total
    then err (frame_too_large total max_frame_size)
    else if ltb (length buf) total
    then ok none
    else if magic == zetmq_magic
    then (if version == current_version
        then (if get_or buf 3 0 == as_u8 pub_frame
            then ok (
                some (record {
                  correlation_id = be_value (slice 6 14 buf);
                  header_start = frame_header_size;
                  header_end = frame_header_size + header_len;
                  payload_start = frame_header_size + header_len;
                  payload_end = frame_header_size + header_len + payload_len;
                  total = total;
                }))
            else err (unknown_frame_type (get_or buf 3 0)))
        else err (unsupported_version version))
    else err (invalid_magic zetmq_magic magic)

unfoldable pub peek_pub_frame_total : Bytes → ℕ → Result (Option ℕ)
unfolding as_u8
peek_pub_frame_total buf max_frame_size =
    let header_len = be_value (slice 14 18 buf) in
    let payload_len = be_value (slice 18 22 buf) in
    let total = frame_header_size + header_len + payload_len in
    let magic = be_value (slice 0 2 buf) in
    let version = get_or buf 2 0 in
    if ltb (length buf) frame_header_size
    then ok none
    else if ltb max_frame_size total
    then err (frame_too_large total max_frame_size)
    else if ltb (length buf) total
    then ok none
    else if magic == zetmq_magic
    then (if version == current_version
        then (if get_or buf 3 0 == as_u8 pub_frame
            then ok (some total)
            else err (unknown_frame_type (get_or buf 3 0)))
        else err (unsupported_version version))
    else err (invalid_magic zetmq_magic magic)

unfoldable pub parse_publish_payload : Bytes → Result PublishPayloadLayout
parse_publish_payload payload =
    let subject_len = be_value (slice 0 2 payload) in
    let subject_end = 2 + subject_len in
    let reply_len = be_value (slice subject_end (subject_end + 2) payload) in
    let reply_start = subject_end + 2 in
    let reply_end = reply_start + reply_len in
    if ltb (length payload) 2
    then err (decoding_error pub_too_short)
    else if ltb (length payload) subject_end
    then err (decoding_error pub_subject_truncated)
    else if ltb (length payload) (subject_end + 2)
    then err (decoding_error pub_reply_missing)
    else if ltb (length payload) reply_end
    then err (decoding_error pub_reply_truncated)
    else ok (record {
      subject = (2, subject_end);
      reply_to = if ltb 0 reply_len then some (reply_start, reply_end) else none;
      payload = (reply_end, length payload);
    })

abbrev pub range_of : Option (ℕ × ℕ) → Bytes → Option Bytes
range_of none bytes = none
range_of (some r) bytes = some (range r bytes)

-- The command that a layout cuts from the payload, with the headers of the frame.
abbrev pub command_at : Bytes → Bytes → PublishPayloadLayout → Result PublishCommand
command_at header_bytes payload_bytes layout =
    if is_empty header_bytes
    then ok (record {
      subject = range layout.subject payload_bytes;
      payload = range layout.payload payload_bytes;
      reply_to = range_of layout.reply_to payload_bytes;
      headers = none;
    })
    else elim (decode_headers header_bytes) [
      | err e ↦ err e
      | ok map ↦ ok (record {
        subject = range layout.subject payload_bytes;
        payload = range layout.payload payload_bytes;
        reply_to = range_of layout.reply_to payload_bytes;
        headers = some map;
      })
    ]

unfoldable pub decode_frame_bytes : Bytes → PubFrameLayout → Result PublishCommand
unfolding parse_publish_payload
decode_frame_bytes frame_bytes layout =
    let header_bytes = slice layout.header_start layout.header_end frame_bytes in
    let payload_bytes = slice layout.payload_start layout.payload_end frame_bytes in
    elim (parse_publish_payload payload_bytes) [
      | err e ↦ err e
      | ok payload_layout ↦ command_at header_bytes payload_bytes payload_layout
    ]

abbrev pub with_id : ℕ → Result PublishCommand → Result (PublishCommand × ℕ)
with_id n (ok command) = ok (command, n)
with_id n (err e) = err e

-- The frame is out of the buffer also where it is refused.
unfoldable pub decode_publish_command_from_buf :
    Bytes → PubFrameLayout → Result (PublishCommand × ℕ) × Bytes
unfolding decode_frame_bytes
decode_publish_command_from_buf read_buf layout = (
  with_id layout.correlation_id (decode_frame_bytes (take layout.total read_buf) layout),
  drop layout.total read_buf,
)
