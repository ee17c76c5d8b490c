-- ===== src/Client/Stalled.antt =====
-- Where the read task of crates/zetmq-client/src/connection.rs meets a frame above its limit, such as
-- a message that the server relays.
use zet_mq.Prelude.{
  ◌+◌, ◌≡◌, ◌≤◌, ◌<◌, refl, ap, ◌∙◌, sym, false, List, [], ◌∷◌, ◌++◌, append_assoc, append-nil,
  Option, none, arith, length,
}
use zet_mq.Text.{Str}
use zet_mq.Core.Delivery.{Bytes, DeliveryMessage}
use zet_mq.Protocol.Error.{Result, err, frame_too_large}
use zet_mq.Protocol.Header
use zet_mq.Protocol.Header.{FrameHeader, total_frame_size}
use zet_mq.Protocol.Header.RoundTrip.{IsHeader}
use zet_mq.Protocol.Frame
use zet_mq.Protocol.Frame.{Frame, decode_from}
use zet_mq.Protocol.Frame.RoundTrip.{decode_from-too_large}
use zet_mq.Protocol.FrameType.{as_u8}
use zet_mq.Server.Outbound.{reply_len, encode_msg}
use zet_mq.Client.Connection.{
  Receivers, Link, client_max_frame_size, reading, read_frames, received, read_task,
}
use zet_mq.Client.Messages.{msg_frame, msg_payload, encode_msg-encode}

-- All bytes of some reads.
unfoldable pub joined : List Bytes → Bytes
joined [] = []
joined (bytes ∷ more) = bytes ++ joined more

module _ (R : Receivers) (h : FrameHeader) (good : IsHeader h)
    (large : client_max_frame_size < total_frame_size h) where
  received-large :
      (rest bytes : Bytes) (c : Link R)
      → c.read_buf ≡ Header.encode h ++ rest
      → received R bytes c ≡ reading (record c { read_buf = c.read_buf ++ bytes })
  unfolding received read_frames
  received-large rest bytes c front =
      let buf : c.read_buf ++ bytes ≡ Header.encode h ++ (rest ++ bytes) =
        ap (λ b. b ++ bytes) front ∙ append_assoc (Header.encode h) rest bytes in
      let refused = decode_from-too_large h (rest ++ bytes) client_max_frame_size good large in
      let refused' : decode_from (c.read_buf ++ bytes) client_max_frame_size ≡ (
        err (frame_too_large (total_frame_size h) client_max_frame_size),
        c.read_buf ++ bytes,
      ) =
        ap (λ b. decode_from b client_max_frame_size) buf
        ∙ refused
        ∙ ap (λ (b : Bytes). (err (frame_too_large (total_frame_size h) client_max_frame_size), b))
            (sym buf) in
      rw (received, read_frames, refused')
        (ap (λ (r : Result (Option Frame) × Bytes). reading (record c { read_buf = r.1 })) refused')

  read_task-large :
      (reads : List Bytes) (rest : Bytes) (c : Link R)
      → c.read_buf ≡ Header.encode h ++ rest
      → read_task R reads c ≡ record c { read_buf = c.read_buf ++ joined reads; connected = false }
  unfolding read_task joined
  read_task-large [] rest c front =
      ap (λ b. record c { read_buf = b; connected = false }) (sym (append-nil c.read_buf))
  read_task-large (bytes ∷ more) rest c front =
      let c' = record c { read_buf = c.read_buf ++ bytes } in
      let next =
        read_task-large more (rest ++ bytes) c'
          (ap (λ b. b ++ bytes) front ∙ append_assoc (Header.encode h) rest bytes) in
      rw (received-large rest bytes c front, read_task)
        (next
          ∙ ap (λ b. record c { read_buf = b; connected = false })
              (append_assoc c.read_buf bytes (joined more)))

-- Let a message without headers come from a PUB frame of at most 2 MiB, as the server takes by
-- default, and let its MSG frame, which is eight bytes longer, be above 2 MiB. Once it stands at
-- the front of a client's read buffer, the client handles no frame any more: behind all that was
-- read before, the next bytes read are put into the buffer, and nothing else about the client
-- changes, not even whether it counts as connected; when the reads end, all of their bytes are in
-- the buffer, and the client counts as not connected.
pub read_task-encode_msg :
    (R : Receivers) (iterate : List (Str × Str) → List (Str × Str)) (m : DeliveryMessage)
    (rest : Bytes) (earlier reads : List Bytes) (bytes : Bytes) (c : Link R)
    → m.headers ≡ none
    → m.subscription_id < 18446744073709551616
    → 26 + length m.subject.raw + reply_len m.reply_to + length m.payload ≤ 2097152
    → 2097152 < 34 + length m.subject.raw + reply_len m.reply_to + length m.payload
    → c.read_buf ≡ encode_msg iterate m ++ rest
    → (received R bytes (record c { read_buf = c.read_buf ++ joined earlier })
        ≡ reading (record c { read_buf = (c.read_buf ++ joined earlier) ++ bytes }))
      × (read_task R reads c
          ≡ record c { read_buf = c.read_buf ++ joined reads; connected = false })
unfolding Header.new as_u8 Frame.encode
read_task-encode_msg R iterate m rest earlier reads bytes c plain id small over front =
    let h = (msg_frame m).header in
    let good : IsHeader h = record {
      magic = refl;
      version = refl;
      frame_type = omega arith;
      flags = omega arith;
      correlation_id = id;
      header_len = omega arith;
      payload_len = omega arith;
    } in
    let shape =
      front
      ∙ ap (λ b. b ++ rest) (encode_msg-encode iterate m plain)
      ∙ append_assoc (Header.encode h) (msg_payload m) rest in
    let behind =
      ap (λ b. b ++ joined earlier) shape
      ∙ append_assoc (Header.encode h) (msg_payload m ++ rest) (joined earlier) in
    (
      received-large R h good (omega arith) ((msg_payload m ++ rest) ++ joined earlier) bytes
          (record c { read_buf = c.read_buf ++ joined earlier }) behind,
      read_task-large R h good (omega arith) reads (msg_payload m ++ rest) c shape,
    )
