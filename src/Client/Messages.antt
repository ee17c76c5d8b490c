-- ===== src/Client/Messages.antt =====
-- A message that the server of crates/zetmq-server/src/session/handler.rs encodes, in the read task of
-- a client (crates/zetmq-client/src/connection.rs).
use zet_mq.Prelude.{
  ℕ, ◌+◌, ◌-◌, ◌%◌, ◌≡◌, ◌≤◌, ◌<◌, refl, ap, ◌∙◌, sym, true, false, List, [], ◌++◌, append_assoc,
  Option, none, some, arith, if◌then◌else◌, ltb, length, length-append, take, drop, slice,
  drop-drop, be_bytes, be_value, length-be_bytes,
}
use zet_mq.Text.{Str}
use zet_mq.Map
use zet_mq.Map.{nat_key}
use zet_mq.Core.Delivery.{Bytes, DeliveryMessage}
use zet_mq.Core.Subject.{Subject}
use zet_mq.Protocol.Error.{ok}
use zet_mq.Protocol.Header
use zet_mq.Protocol.Frame
use zet_mq.Protocol.Frame.{Frame, decode_from}
use zet_mq.Protocol.Frame.RoundTrip.{IsFrame, decode_from-encode}
use zet_mq.Protocol.FrameType
use zet_mq.Protocol.FrameType.{from_u8, as_u8, from-as_u8}
use zet_mq.Protocol.Payload.RoundTrip.{number_at, cut_take, cut_drop}
use zet_mq.Server.Outbound.{reply_len, reply_bytes, encode_msg}
use zet_mq.Client.Connection.{
  Message, Receivers, Link, message_for, decode_msg, client_max_frame_size, reading, dispatch_msg,
  to_subscriber, on_frame,
}

-- The raw text of a reply subject is not empty, and its length fits two bytes.
abbrev pub IsReplySubject : Option Subject → Type 0
IsReplySubject none = Unit
IsReplySubject (some reply) = (0 < length reply.raw) × (length reply.raw < 65536)

-- A message without headers whose parts fit their widths, in a frame that the client accepts.
pub record IsSendable (m : DeliveryMessage) : Type 0 where
  pub headers : m.headers ≡ none
  pub subject : length m.subject.raw < 65536
  pub reply_to : IsReplySubject m.reply_to
  pub subscription_id : m.subscription_id < 18446744073709551616
  pub size :
      34 + length m.subject.raw + reply_len m.reply_to + length m.payload ≤ client_max_frame_size

abbrev pub raw_of : Option Subject → Option Bytes
raw_of none = none
raw_of (some reply) = some reply.raw

-- The message as the subscriber gets it.
abbrev pub received_of : DeliveryMessage → Message
received_of m = record {
  subject = m.subject.raw;
  reply_to = raw_of m.reply_to;
  headers = none;
  payload = m.payload;
}

-- The payload of the frame of a message.
abbrev pub msg_payload : DeliveryMessage → Bytes
msg_payload m =
    be_bytes 2 (length m.subject.raw)
    ++ (m.subject.raw ++ (reply_bytes m.reply_to ++ (be_bytes 8 m.subscription_id ++ m.payload)))

abbrev pub msg_frame : DeliveryMessage → Frame
msg_frame m = record {
  header =
      Header.with_payload_size (Header.new (as_u8 FrameType.msg) m.subscription_id) (0 % 4294967296)
        ((2 + length m.subject.raw + 2 + reply_len m.reply_to + 8 + length m.payload) % 4294967296);
  headers = [];
  payload = msg_payload m;
}

length-reply_bytes : (r : Option Subject) → length (reply_bytes r) ≡ 2 + reply_len r
length-reply_bytes none = length-be_bytes 2 0
length-reply_bytes (some reply) = omega (
  arith,
  length-append (be_bytes 2 (length reply.raw)) reply.raw,
  length-be_bytes 2 (length reply.raw),
)

length-msg_payload :
    (m : DeliveryMessage)
    → length (msg_payload m) ≡ 12 + length m.subject.raw + reply_len m.reply_to + length m.payload
length-msg_payload m =
    let b3 = be_bytes 8 m.subscription_id ++ m.payload in
    let b2 = reply_bytes m.reply_to ++ b3 in
    omega (
      arith,
      length-append (be_bytes 2 (length m.subject.raw)) (m.subject.raw ++ b2),
      length-append m.subject.raw b2,
      length-append (reply_bytes m.reply_to) b3,
      length-append (be_bytes 8 m.subscription_id) m.payload,
      length-be_bytes 2 (length m.subject.raw),
      length-reply_bytes m.reply_to,
      length-be_bytes 8 m.subscription_id,
    )

-- What stands behind the subject: the reply with its length, and what follows it.
reply_at :
    (r : Option Subject) (width : ℕ) (rest : Bytes)
    → IsReplySubject r
    → width ≡ 2
    → (be_value (take width (reply_bytes r ++ rest)) ≡ reply_len r)
      × ((if ltb 0 (reply_len r)
            then some (take (reply_len r) (drop 2 (reply_bytes r ++ rest)))
            else none)
          ≡ raw_of r)
reply_at none width rest good e = (number_at 2 0 width rest e (omega arith), refl)
reply_at (some reply) width rest (filled, short) e =
    let head = be_bytes 2 (length reply.raw) in
    let shape = append_assoc head reply.raw rest in
    let some_bytes : ltb 0 (length reply.raw) ≡ true = ground (arith, filled) in
    let text : take (length reply.raw) (drop 2 ((head ++ reply.raw) ++ rest)) ≡ reply.raw =
      ap (λ (b : Bytes). take (length reply.raw) (drop 2 b)) shape
      ∙ ap (take (length reply.raw))
          (cut_drop 2 head (reply.raw ++ rest) (sym (length-be_bytes 2 (length reply.raw))))
      ∙ cut_take (length reply.raw) reply.raw rest refl in
    (
      ap (λ (b : Bytes). be_value (take width b)) shape
          ∙ number_at 2 (length reply.raw) width (reply.raw ++ rest) e (omega (arith, short)),
      rw (some_bytes, text) refl,
    )

slice_from : (i j k : ℕ) (xs ys : Bytes) → drop i xs ≡ ys → j - i ≡ k → slice i j xs ≡ take k ys
slice_from i j k xs ys e n = ap (λ b. take (j - i) b) e ∙ ap (λ w. take w ys) n

decode_msg-msg_frame :
    (m : DeliveryMessage)
    → IsSendable m
    → decode_msg (msg_frame m) ≡ message_for m.subscription_id (received_of m)
unfolding decode_msg
decode_msg-msg_frame m good =
    let s = m.subject.raw in
    let sl = length s in
    let rl = reply_len m.reply_to in
    let b3 = be_bytes 8 m.subscription_id ++ m.payload in
    let b2 = reply_bytes m.reply_to ++ b3 in
    let head = be_bytes 2 sl in
    let p = msg_payload m in
    let total = length-msg_payload m in
    let len = number_at 2 sl 2 (s ++ b2) refl (omega (arith, good.subject)) in
    let subject : slice 2 (2 + sl) p ≡ s =
      slice_from 2 (2 + sl) sl p (s ++ b2) (cut_drop 2 head (s ++ b2) (sym (length-be_bytes 2 sl)))
        (omega arith)
      ∙ cut_take sl s b2 refl in
    let behind : drop (2 + sl) p ≡ b2 =
      ap (drop (2 + sl)) (sym (append_assoc head s b2))
      ∙ cut_drop (2 + sl) (head ++ s) b2
          (omega (arith, length-append head s, length-be_bytes 2 sl)) in
    let (rlen, reply) = reply_at m.reply_to (4 + sl - (2 + sl)) b3 good.reply_to (omega arith) in
    let rlen' : be_value (slice (2 + sl) (4 + sl) p) ≡ rl =
      ap (λ b. be_value (take (4 + sl - (2 + sl)) b)) behind ∙ rlen in
    let at_reply : drop (2 + sl + 2) p ≡ drop 2 b2 =
      sym (drop-drop 2 (2 + sl) p) ∙ ap (drop 2) behind in
    let text : slice (2 + sl + 2) (2 + sl + 2 + rl) p ≡ take rl (drop 2 b2) =
      slice_from (2 + sl + 2) (2 + sl + 2 + rl) rl p (drop 2 b2) at_reply (omega arith) in
    let at_id : drop (2 + sl + 2 + rl) p ≡ b3 =
      ap (λ k. drop k p) (omega arith)
      ∙ sym (drop-drop (2 + rl) (2 + sl) p)
      ∙ ap (drop (2 + rl)) behind
      ∙ cut_drop (2 + rl) (reply_bytes m.reply_to) b3 (sym (length-reply_bytes m.reply_to)) in
    let id : be_value (slice (2 + sl + 2 + rl) (2 + sl + 2 + rl + 8) p) ≡ m.subscription_id =
      ap be_value (slice_from (2 + sl + 2 + rl) (2 + sl + 2 + rl + 8) 8 p b3 at_id (omega arith))
      ∙ number_at 8 m.subscription_id 8 m.payload refl (omega (arith, good.subscription_id)) in
    let body : drop (2 + sl + 2 + rl + 8) p ≡ m.payload =
      sym (drop-drop 8 (2 + sl + 2 + rl) p)
      ∙ ap (drop 8) at_id
      ∙ cut_drop 8 (be_bytes 8 m.subscription_id) m.payload
          (sym (length-be_bytes 8 m.subscription_id)) in
    let t1 : ltb (length p) 2 ≡ false = ground (arith, total) in
    let t2 : ltb (length p) (2 + sl + 2) ≡ false = ground (arith, total) in
    let t3 : ltb (length p) (2 + sl + 2 + rl) ≡ false = ground (arith, total) in
    let t4 : ltb (length p) (2 + sl + 2 + rl + 8) ≡ false = ground (arith, total) in
    rw (len, rlen', t1, t2, t3, t4, subject, text, reply, id, body) refl

-- The bytes that the server sends are the encoding of that frame.
pub encode_msg-encode :
    (iterate : List (Str × Str) → List (Str × Str)) (m : DeliveryMessage)
    → m.headers ≡ none
    → encode_msg iterate m ≡ Frame.encode (msg_frame m)
unfolding encode_msg Frame.encode
encode_msg-encode iterate m none_there = rw none_there refl

msg_frame-IsFrame : (m : DeliveryMessage) → IsSendable m → IsFrame (msg_frame m)
unfolding Header.new as_u8
msg_frame-IsFrame m good = record {
  header = record {
    magic = refl;
    version = refl;
    frame_type = omega arith;
    flags = omega arith;
    correlation_id = good.subscription_id;
    header_len = omega arith;
    payload_len = omega arith;
  };
  header_len = omega arith;
  payload_len = omega (arith, length-msg_payload m, good.size);
}

-- A message that the server sends to a client, without headers, with parts that fit their widths
-- and in a frame of at most 2 MiB, is read by the client, and whatever follows it is left in the
-- buffer. If its subscription is registered, it is handed to the subscriber with the subject, the
-- reply and the payload that the broker delivered; if it is not, it is dropped.
pub on_frame-encode_msg :
    (R : Receivers) (iterate : List (Str × Str) → List (Str × Str)) (m : DeliveryMessage)
    (rest : Bytes) (c : Link R)
    → IsSendable m
    → (frame : Frame) × (decode_from (encode_msg iterate m ++ rest) client_max_frame_size
        ≡ (ok (some frame), rest))
      × (on_frame R frame c
          ≡ reading (
              to_subscriber R m.subscription_id
                (Map.get m.subscription_id c.state.subscriptions)
                (received_of m)
                c))
unfolding on_frame dispatch_msg Header.new
on_frame-encode_msg R iterate m rest c good =
    let whole = msg_frame-IsFrame m good in
    let fits : 22
          + 0 % 4294967296
          + (2 + length m.subject.raw + 2 + reply_len m.reply_to + 8 + length m.payload)
            % 4294967296
        ≤ client_max_frame_size =
      omega (arith, length-msg_payload m, good.size) in
    (
      msg_frame m,
      ap (λ b. decode_from (b ++ rest) client_max_frame_size)
            (encode_msg-encode iterate m good.headers)
          ∙ decode_from-encode (msg_frame m) whole client_max_frame_size fits rest,
      rw (on_frame, from-as_u8 FrameType.msg, dispatch_msg, decode_msg-msg_frame m good) refl,
    )
