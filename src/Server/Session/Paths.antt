-- ===== src/Server/Session/Paths.antt =====
-- The two ways to read a PUB frame in crates/zetmq-server/src/session/handler.rs: cut from the read
-- buffer, or through `Frame::decode_from` and `BrokerCommand::from_frame`.
use zet_mq.Prelude.{
  ℕ, ◌+◌, ◌≡◌, ◌≤◌, refl, ap, ◌∙◌, sym, subst, false, [], ◌∷◌, Option, some, arith, ltb, length,
  get_or, take, drop, slice, take-take, be_value, Bool-cases, inl, inr, if◌then◌else◌,
}
use zet_mq.Core.Delivery.{Bytes}
use zet_mq.Protocol.Error.{Result, ok, err, current_version}
use zet_mq.Protocol.Header
use zet_mq.Protocol.Header.{FrameHeader, frame_header_size, zetmq_magic}
use zet_mq.Protocol.Frame.{Frame, decode_from, framed}
use zet_mq.Protocol.FrameType.{from_u8, as_u8, pub_frame, from-as_u8}
use zet_mq.Protocol.Command.{PublishCommand, publish, of_type, from_frame}
use zet_mq.Server.Session.Layout.{
  PubFrameLayout, PublishPayloadLayout, command_at, peek_pub_frame_layout, parse_publish_payload,
  decode_frame_bytes,
}
use zet_mq.Server.Session.Payloads.{slice-at, publish_of-command}

-- A buffer that holds a frame header, byte by byte.
data Front : Bytes → Type 0 where
  front :
      (a b c d e f g h i j k l m n o p q r s t u v : ℕ) (rest : Bytes)
      → Front (
          a ∷ b ∷ c ∷ d ∷ e ∷ f ∷ g ∷ h ∷ i ∷ j ∷ k ∷ l ∷ m ∷ n ∷ o ∷ p ∷ q ∷ r ∷ s ∷ t ∷ u ∷ v
          ∷ rest)

view : (buf : Bytes) → 22 ≤ length buf → Front buf
view (a ∷ b ∷ c ∷ d ∷ e ∷ f ∷ g ∷ h ∷ i ∷ j ∷ k ∷ l ∷ m ∷ n ∷ o ∷ p ∷ q ∷ r ∷ s ∷ t ∷ u ∷ v ∷ rest)
      le =
    front a b c d e f g h i j k l m n o p q r s t u v rest
view _ le = absurd (omega arith)

byte_value : (b : ℕ) → be_value (b ∷ []) ≡ b
unfolding be_value
byte_value b = omega arith

-- The header that `decode` reads from the first bytes of the buffer.
abbrev header_of : Bytes → FrameHeader
header_of buf = record {
  magic = be_value (slice 0 2 buf);
  version = get_or buf 2 0;
  frame_type = get_or buf 3 0;
  flags = be_value (slice 4 6 buf);
  correlation_id = be_value (slice 6 14 buf);
  header_len = be_value (slice 14 18 buf);
  payload_len = be_value (slice 18 22 buf);
}

-- A complete header is read from its own bytes.
decode_header :
    (buf : Bytes)
    → 22 ≤ length buf
    → be_value (slice 0 2 buf) ≡ zetmq_magic
    → get_or buf 2 0 ≡ current_version
    → Header.decode (take 22 buf) ≡ ok (header_of buf, [])
unfolding Header.decode Header.get_u
decode_header buf le magic version = viewed buf (view buf le) magic version
  where
    viewed :
        (buf : Bytes)
        → Front buf
        → be_value (slice 0 2 buf) ≡ zetmq_magic
        → get_or buf 2 0 ≡ current_version
        → Header.decode (take 22 buf) ≡ ok (header_of buf, [])
    viewed _ (front a b c d e f g h i j k l m n o p q r s t u v rest) magic version =
        rw (magic, version, byte_value current_version, byte_value d) refl

cut-if : (i n : ℕ) (xs : Bytes) → (if ltb 0 n then slice i (i + n) xs else []) ≡ slice i (i + n) xs
cut-if i n xs = elim (Bool-cases (ltb 0 n)) [
  | inl filled ↦ rw filled refl
  | inr empty ↦ rw empty (sym (slice-at i (i + n) 0 xs (ground arith)))
]

-- The layout of the frame at the front of the buffer.
abbrev layout_of : Bytes → PubFrameLayout
layout_of buf =
    let hl = be_value (slice 14 18 buf) in
    let pl = be_value (slice 18 22 buf) in
    record {
      correlation_id = be_value (slice 6 14 buf);
      header_start = 22;
      header_end = 22 + hl;
      payload_start = 22 + hl;
      payload_end = 22 + hl + pl;
      total = 22 + hl + pl;
    }

-- What a layout in the buffer says of the buffer.
peeked :
    (buf : Bytes) (max_frame_size : ℕ) (layout : PubFrameLayout)
    → peek_pub_frame_layout buf max_frame_size ≡ ok (some layout)
    → let total = 22 + be_value (slice 14 18 buf) + be_value (slice 18 22 buf) in
      (22 ≤ length buf)
      × (total ≤ max_frame_size)
      × (total ≤ length buf)
      × (be_value (slice 0 2 buf) ≡ zetmq_magic)
      × (get_or buf 2 0 ≡ current_version)
      × (get_or buf 3 0 ≡ as_u8 pub_frame)
      × (layout_of buf ≡ layout)
unfolding peek_pub_frame_layout
peeked buf max_frame_size layout h = (
  ground arith,
  ground arith,
  ground arith,
  ground arith,
  ground arith,
  ground arith,
  ground arith,
)

-- The frame at the places of a layout.
abbrev frame_at : Bytes → PubFrameLayout → Frame
frame_at buf layout =
    let frame_bytes = take layout.total buf in
    record {
      header = header_of buf;
      headers = slice layout.header_start layout.header_end frame_bytes;
      payload = slice layout.payload_start layout.payload_end frame_bytes;
    }

decode_from-whole :
    (buf : Bytes) (max_frame_size : ℕ)
    → let total = 22 + be_value (slice 14 18 buf) + be_value (slice 18 22 buf) in
      22 ≤ length buf
      → total ≤ max_frame_size
      → total ≤ length buf
      → be_value (slice 0 2 buf) ≡ zetmq_magic
      → get_or buf 2 0 ≡ current_version
      → decode_from buf max_frame_size ≡ (ok (some (frame_at buf (layout_of buf))), drop total buf)
unfolding decode_from
decode_from-whole buf max_frame_size le small there magic version =
    let hl = be_value (slice 14 18 buf) in
    let pl = be_value (slice 18 22 buf) in
    let total = 22 + hl + pl in
    let t1 : ltb (length buf) 22 ≡ false = ground arith in
    let t2 : ltb max_frame_size total ≡ false = ground arith in
    let t3 : ltb (length buf) total ≡ false = ground arith in
    let header =
      ap Header.decode (take-take 22 total buf (omega arith))
      ∙ decode_header buf le magic version in
    let bytes = take total buf in
    let made : Bytes → Bytes → Result (Option Frame) × Bytes = λ headers payload. (
      ok (some (record { header = header_of buf; headers = headers; payload = payload })),
      drop total buf,
    ) in
    rw (t1, t2, t3)
      (ap (λ (r : Result (FrameHeader × Bytes)). (framed hl pl bytes r, drop total buf)) header
        ∙ ap
            (λ (hs : Bytes).
              made hs (if ltb 0 pl then slice (22 + hl) (22 + hl + pl) bytes else []))
            (cut-if 22 hl bytes)
        ∙ ap (made (slice 22 (22 + hl) bytes)) (cut-if (22 + hl) pl bytes))

decode_from-peeked :
    (buf : Bytes) (max_frame_size : ℕ) (layout : PubFrameLayout)
    → peek_pub_frame_layout buf max_frame_size ≡ ok (some layout)
    → decode_from buf max_frame_size ≡ (ok (some (frame_at buf layout)), drop layout.total buf)
decode_from-peeked buf max_frame_size layout h =
    let (le, small, there, magic, version, _, shape) = peeked buf max_frame_size layout h in
    subst
      (λ (l : PubFrameLayout).
        decode_from buf max_frame_size ≡ (ok (some (frame_at buf l)), drop l.total buf))
      shape (decode_from-whole buf max_frame_size le small there magic version)

-- A command that is cut comes from a payload whose layout was found.
cut_layout :
    (hb p : Bytes) (r : Result PublishPayloadLayout) (c : PublishCommand)
    → elim r [ err e ↦ err e | ok payload_layout ↦ command_at hb p payload_layout ] ≡ ok c
    → (l : PublishPayloadLayout) × (r ≡ ok l) × (command_at hb p l ≡ ok c)
cut_layout hb p (ok l) c cut = (l, refl, cut)
cut_layout hb p (err e) c cut = absurd (ground arith)

-- Let a PUB frame stand at the front of the buffer, and let the path that makes no copy cut a
-- command out of it. Then `decode_from` reads a frame from the same bytes and leaves the same rest,
-- and `from_frame` makes the same command of it, under the same correlation id.
pub fast_path_agrees :
    (buf : Bytes) (max_frame_size : ℕ) (layout : PubFrameLayout) (c : PublishCommand)
    → peek_pub_frame_layout buf max_frame_size ≡ ok (some layout)
    → decode_frame_bytes (take layout.total buf) layout ≡ ok c
    → (frame : Frame) × (decode_from buf max_frame_size ≡ (ok (some frame), drop layout.total buf))
      × (from_frame frame ≡ ok (publish c))
      × (frame.header.correlation_id ≡ layout.correlation_id)
unfolding decode_frame_bytes from_frame of_type
fast_path_agrees buf max_frame_size layout c found cut =
    let (le, small, there, magic, version, kind, shape) = peeked buf max_frame_size layout found in
    let frame = frame_at buf layout in
    let (l, parsed, made) =
      cut_layout frame.headers frame.payload (parse_publish_payload frame.payload) c cut in
    let read = publish_of-command frame l c parsed made in
    let typed : from_u8 (get_or buf 3 0) ≡ ok pub_frame = ap from_u8 kind ∙ from-as_u8 pub_frame in
    (
      frame,
      decode_from-peeked buf max_frame_size layout found,
      rw (from_frame, typed) read,
      ap (λ (l : PubFrameLayout). l.correlation_id) shape,
    )
