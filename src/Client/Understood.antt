-- ===== src/Client/Understood.antt =====
-- `from_frame` of crates/zetmq-protocol/src/command/mod.rs on the frames of the client.
use zet_mq.Prelude.{
  ℕ, suc, ◌+◌, ◌-◌, ◌≡◌, ◌<◌, refl, ap, ◌∙◌, sym, true, false, [], ◌∷◌, ◌++◌, append_assoc,
  append-nil, arith, ltb, leb, length, length-append, get_or, take, drop, slice, be_bytes, be_value,
  length-be_bytes, Option, none, some,
}
use zet_mq.Text.{Str, from_utf8_lossy}
use zet_mq.Text.Utf8.{from_utf8_lossy-utf8}
use zet_mq.Core.Delivery.{Bytes}
use zet_mq.Protocol.Error.{ok, current_version}
use zet_mq.Protocol.Header
use zet_mq.Protocol.Frame
use zet_mq.Protocol.Frame.{Frame}
use zet_mq.Protocol.FrameType.{from_u8, as_u8}
use zet_mq.Protocol.Payload.{AuthInfo, ConnectCommand}
use zet_mq.Protocol.Payload.RoundTrip.{IsName, named, head_byte, number_at, cut_take, cut_drop}
use zet_mq.Protocol.Command.{
  subscribe, subscribe_of, unsubscribe, unsubscribe_of, of_type, from_frame,
}
use zet_mq.Client.{build_sub_frame, unsubscribe_frame}

abbrev pub read_back : AuthInfo → ConnectCommand
read_back auth = record { client_name = none; protocol_version = current_version; auth = auth }

one_more : (n : ℕ) → 1 + n ≡ suc n
one_more n = omega arith

get_or_behind : (xs ys : Bytes) (y : ℕ) → get_or (xs ++ (y ∷ ys)) (length xs) 0 ≡ y
get_or_behind [] ys y = refl
get_or_behind (x ∷ xs) ys y = get_or_behind xs ys y

byte_behind : (n : ℕ) (xs ys : Bytes) (y : ℕ) → get_or (n ∷ (xs ++ (y ∷ ys))) (1 + length xs) 0 ≡ y
byte_behind n xs ys y =
    ap (λ k. get_or (n ∷ (xs ++ (y ∷ ys))) k 0) (one_more (length xs)) ∙ get_or_behind xs ys y

drop_behind : (n : ℕ) (xs ys : Bytes) (y : ℕ) → drop (2 + length xs) (n ∷ (xs ++ (y ∷ ys))) ≡ ys
drop_behind n xs ys y =
    ap (λ k. drop k (n ∷ (xs ++ (y ∷ ys)))) (two_more (length xs))
    ∙ ap (drop (suc (length xs))) (sym (append_assoc xs (y ∷ []) ys))
    ∙ cut_drop (suc (length xs)) (xs ++ (y ∷ [])) ys (omega (arith, length-append xs (y ∷ [])))
  where
    two_more : (n : ℕ) → 2 + n ≡ suc (suc n)
    two_more n = omega arith

-- A queue group is a name that is not empty.
abbrev pub IsGroup : Option Str → Type 0
IsGroup none = Unit
IsGroup (some group) = IsName group × (0 < length group)

-- For a pattern that is UTF-8 and shorter than 256 bytes, and a queue group that is absent or a
-- text of that kind that is not empty, `from_frame` reads the SUB frame of the client as a
-- subscription to that pattern in that group.
pub from_frame-build_sub_frame :
    (subject : Str) (group : Option Str) (n : ℕ)
    → IsName subject
    → IsGroup group
    → from_frame (build_sub_frame subject group n)
      ≡ ok (subscribe (record { subject_pattern = subject; queue_group = group }))
unfolding from_frame of_type from_u8 as_u8 subscribe_of build_sub_frame Frame.new Frame.with_payload
    Header.new
from_frame-build_sub_frame subject none n good _ =
    let payload = length subject ∷ (subject ++ []) in
    let (name, behind) = named subject [] good in
    let size = length-append subject [] in
    let long : ltb (length payload) (1 + length subject) ≡ false = ground (arith, size) in
    let alone : ltb (1 + length subject + 1) (length payload) ≡ false = ground (arith, size) in
    rw (head_byte (length subject) (subject ++ []) good.1, long, alone, name) refl
from_frame-build_sub_frame subject (some group) n good (known, filled) =
    let payload = length subject ∷ (subject ++ (length group ∷ group)) in
    let (name, behind) = named subject (length group ∷ group) good in
    let size = length-append subject (length group ∷ group) in
    let long : ltb (length payload) (1 + length subject) ≡ false = ground (arith, size) in
    let more : ltb (1 + length subject + 1) (length payload) ≡ true =
      ground (arith, size, filled) in
    let whole : leb (2 + length subject + length group) (length payload) ≡ true =
      ground (arith, size) in
    let some_bytes : ltb 0 (length group) ≡ true = ground (arith, filled) in
    let text : from_utf8_lossy
          (slice (2 + length subject) (2 + length subject + length group) payload)
        ≡ group =
      ap (λ l. from_utf8_lossy (take (2 + length subject + length group - (2 + length subject)) l))
        (drop_behind (length subject) subject group (length group) ∙ sym (append-nil group))
      ∙ ap from_utf8_lossy (
          cut_take (2 + length subject + length group - (2 + length subject)) group []
            (omega arith))
      ∙ from_utf8_lossy-utf8 group known.0 in
    rw
      (
        head_byte (length group) group known.1,
        head_byte (length subject) (subject ++ (length group ∷ group)) good.1,
        long,
        more,
        byte_behind (length subject) subject group (length group),
        whole,
        some_bytes,
        name,
        text,
      )
      refl

-- The server reads an UNSUB frame as the client wrote it.
pub from_frame-unsubscribe_frame :
    (id : ℕ) → id < 18446744073709551616 → from_frame (unsubscribe_frame id) ≡ ok (unsubscribe id)
unfolding from_frame of_type from_u8 as_u8 unsubscribe_of unsubscribe_frame Frame.new
    Frame.with_payload Header.new
from_frame-unsubscribe_frame id small =
    let size = length-be_bytes 8 id in
    let long : ltb (length (be_bytes 8 id)) 8 ≡ false = ground (arith, size) in
    let number : be_value (slice 0 8 (be_bytes 8 id)) ≡ id =
      ap (λ l. be_value (take 8 l)) (sym (append-nil (be_bytes 8 id)))
      ∙ number_at 8 id 8 [] refl (omega (arith, small)) in
    rw (long, number) refl
