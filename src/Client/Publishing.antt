-- ===== src/Client/Publishing.antt =====
-- `from_frame` of crates/zetmq-protocol/src/command/mod.rs on the PUB frames of the client.
use zet_mq.Prelude.{
  ◌+◌, ◌-◌, ◌≡◌, ◌<◌, refl, ap, ◌∙◌, sym, true, false, List, ◌++◌, append_assoc, arith, ltb, leb,
  length, length-append, take, drop, slice, be_bytes, length-be_bytes, Option, none, some,
}
use zet_mq.Text.{Str}
use zet_mq.Core.Delivery.{Bytes}
use zet_mq.Protocol.Error.{ok}
use zet_mq.Protocol.Header
use zet_mq.Protocol.Frame
use zet_mq.Protocol.Frame.{Frame}
use zet_mq.Protocol.FrameType.{from_u8, as_u8}
use zet_mq.Protocol.Payload.RoundTrip.{number_at, cut_take, cut_drop}
use zet_mq.Protocol.Command.{publish, publish_of, reply_of, of_type, from_frame}
use zet_mq.Client.{publish_frame, reply_bytes}

-- A reply subject is not empty, and its length fits two bytes.
abbrev pub IsReply : Option Str → Type 0
IsReply none = Unit
IsReply (some reply) = (0 < length reply) × (length reply < 65536)

reply_of-reply_bytes :
    (reply : Option Str) (payload : Bytes)
    → IsReply reply
    → reply_of (reply_bytes reply ++ payload) ≡ (reply, length (reply_bytes reply))
unfolding reply_of
reply_of-reply_bytes none payload _ =
    let size = length-be_bytes 2 0 in
    let bytes = be_bytes 2 0 ++ payload in
    let len = number_at 2 0 2 payload refl (omega arith) in
    let enough : leb 2 (length bytes) ≡ true =
      ground (arith, length-append (be_bytes 2 0) payload, size) in
    let whole : leb 2 (length bytes) ≡ true = enough in rw (len, enough, size) refl
reply_of-reply_bytes (some reply) payload (filled, short) =
    let head = be_bytes 2 (length reply) in
    let size = length-be_bytes 2 (length reply) in
    let bytes = head ++ (reply ++ payload) in
    let total = length-append head (reply ++ payload) in
    let total_behind = length-append reply payload in
    let len = number_at 2 (length reply) 2 (reply ++ payload) refl (omega (arith, short)) in
    let enough : leb 2 (length bytes) ≡ true = ground (arith, total, size) in
    let whole : leb (2 + length reply) (length bytes) ≡ true =
      ground (arith, total, total_behind, size) in
    let some_bytes : ltb 0 (length reply) ≡ true = ground (arith, filled) in
    let text : slice 2 (2 + length reply) bytes ≡ reply =
      ap (take (2 + length reply - 2)) (cut_drop 2 head (reply ++ payload) (sym size))
      ∙ cut_take (2 + length reply - 2) reply payload (omega arith) in
    let front : length (head ++ reply) ≡ 2 + length reply =
      length-append head reply ∙ ap (λ k. k + length reply) size in
    rw (append_assoc head reply payload, len, enough, whole, some_bytes, text, front) refl

-- Without headers, and for a subject shorter than 65536 bytes and a reply subject that is absent or
-- not empty and shorter than 65536 bytes, `from_frame` reads the PUB frame of the client as a
-- publish command with that subject, reply and payload.
pub from_frame-publish_frame :
    (iterate : List (Str × Str) → List (Str × Str)) (subject : Str) (reply : Option Str)
    (payload : Bytes)
    → length subject < 65536
    → IsReply reply
    → from_frame (publish_frame iterate subject reply payload none)
      ≡ ok (
          publish
            (record { subject = subject; payload = payload; reply_to = reply; headers = none }))
unfolding from_frame of_type from_u8 as_u8 publish_of publish_frame Frame.new Frame.with_payload
    Header.new
from_frame-publish_frame iterate subject reply payload short good =
    let head = be_bytes 2 (length subject) in
    let size = length-be_bytes 2 (length subject) in
    let rest = reply_bytes reply ++ payload in
    let bytes = head ++ (subject ++ rest) in
    let total = length-append head (subject ++ rest) in
    let total_behind = length-append subject rest in
    let len = number_at 2 (length subject) 2 (subject ++ rest) refl (omega (arith, short)) in
    let enough : ltb (length bytes) 2 ≡ false = ground (arith, total, size) in
    let whole : ltb (length bytes) (2 + length subject) ≡ false =
      ground (arith, total, total_behind, size) in
    let text : slice 2 (2 + length subject) bytes ≡ subject =
      ap (take (2 + length subject - 2)) (cut_drop 2 head (subject ++ rest) (sym size))
      ∙ cut_take (2 + length subject - 2) subject rest (omega arith) in
    let behind : drop (2 + length subject) bytes ≡ rest =
      ap (drop (2 + length subject)) (sym (append_assoc head subject rest))
      ∙ cut_drop (2 + length subject) (head ++ subject) rest
          (omega (arith, length-append head subject, size)) in
    let body : drop (2 + length subject + length (reply_bytes reply)) bytes ≡ payload =
      ap (drop (2 + length subject + length (reply_bytes reply))) (
        sym (append_assoc head subject rest)
        ∙ sym (append_assoc (head ++ subject) (reply_bytes reply) payload))
      ∙ cut_drop (2 + length subject + length (reply_bytes reply))
          ((head ++ subject) ++ reply_bytes reply) payload
          (omega (
            arith,
            length-append (head ++ subject) (reply_bytes reply),
            length-append head subject,
            size,
          )) in
    rw (len, behind, reply_of-reply_bytes reply payload good, enough, whole, text, body) refl
