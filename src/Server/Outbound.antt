-- ===== src/Server/Outbound.antt =====
-- What a session of crates/zetmq-server/src/session/handler.rs sends, and its encoding.
use zet_mq.Prelude.{
  ℕ, ◌+◌, ◌++◌, ◌%◌, Bool, true, false, List, Option, none, some, length, be_bytes,
}
use zet_mq.Text.{Str}
use zet_mq.Core.Subject.{Subject}
use zet_mq.Core.Delivery.{
  Bytes, HeaderMap, DeliveryMessage, DeliveryStatus, delivered, channel_full, DeliveryHandle,
}
use zet_mq.Store.Memory.{StoreError}
use zet_mq.Protocol.Error.{ProtocolError}
use zet_mq.Protocol.Header
use zet_mq.Protocol.Header.{FrameHeader}
use zet_mq.Protocol.Frame
use zet_mq.Protocol.Frame.{Frame}
use zet_mq.Protocol.FrameType
use zet_mq.Protocol.Headers.{encode_headers, encoded_headers_len}
use zet_mq.Server.Login.{AuthFailure}

pub data OutboundFrame : Type 0 where
  raw : Frame → OutboundFrame
  msg : DeliveryMessage → OutboundFrame

-- The texts that error frames carry, as data.
pub data Notice : Type 0 where
  publish_denied subscribe_denied : Notice
  max_subscriptions_exceeded : ℕ → Notice
  auth_failed : AuthFailure → Notice
  decode_error protocol_error : ProtocolError → Notice
  create_stream_error delete_stream_error : StoreError → Notice

-- What the session gets from outside: the channels to the write tasks, of which `try_send` tells
-- whether it took a frame, the order in which hash maps are iterated over, and the wording of the
-- notices. A channel is known by the number of its connection.
pub record Host : Type 1 where
  pub Channels : Type 0
  pub try_send : Channels → ℕ → OutboundFrame → Bool × Channels
  pub iterate : List (ℕ × List DeliveryMessage) → List (ℕ × List DeliveryMessage)
  pub text : Notice → Bytes

abbrev pub status_of : Bool → DeliveryStatus
status_of true = delivered
status_of false = channel_full

-- `ChannelDelivery`
abbrev pub channel_delivery : Host → DeliveryHandle
channel_delivery H = record {
  Channels = H.Channels;
  deliver = λ c handle message.
      let (sent, c') = H.try_send c handle (msg message) in (status_of sent, c');
}

-- An ERROR frame with a notice.
abbrev pub error_frame : Host → ℕ → Notice → OutboundFrame
error_frame H correlation_id notice =
    raw (Frame.with_payload (Frame.new FrameType.error correlation_id) (H.text notice))

abbrev pub reply_len : Option Subject → ℕ
reply_len none = 0
reply_len (some reply) = length reply.raw

abbrev pub reply_bytes : Option Subject → Bytes
reply_bytes none = be_bytes 2 0
reply_bytes (some reply) = be_bytes 2 (length reply.raw) ++ reply.raw

module _ (iterate : List (Str × Str) → List (Str × Str)) where
  abbrev pub headers_len : Option HeaderMap → ℕ
  headers_len none = 0
  headers_len (some h) = encoded_headers_len iterate h

  abbrev pub headers_bytes : Option HeaderMap → Bytes
  headers_bytes none = List.[]
  headers_bytes (some h) = encode_headers iterate h

  -- What `encode_msg_into` puts at the end of the buffer.
  unfoldable pub encode_msg : DeliveryMessage → Bytes
  encode_msg message =
      let subj_bytes = message.subject.raw in
      let payload_len =
        2 + length subj_bytes + 2 + reply_len message.reply_to + 8 + length message.payload in
      let header : FrameHeader =
        Header.with_payload_size
          (Header.new (FrameType.as_u8 FrameType.msg) message.subscription_id)
          (headers_len message.headers % 4294967296) (payload_len % 4294967296) in
      Header.encode header
      ++ (headers_bytes message.headers
          ++ (be_bytes 2 (length subj_bytes)
              ++ (subj_bytes
                  ++ (reply_bytes message.reply_to
                      ++ (be_bytes 8 message.subscription_id ++ message.payload)))))

  unfoldable pub encode_outbound : OutboundFrame → Bytes
  unfolding encode_msg
  encode_outbound (raw frame) = Frame.encode frame
  encode_outbound (msg message) = encode_msg message
