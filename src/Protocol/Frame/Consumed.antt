-- ===== src/Protocol/Frame/Consumed.antt =====
-- What `Frame::decode_from` of crates/zetmq-protocol/src/frame/frame.rs takes out of its buffer.
use zet_mq.Prelude.{
  ℕ, Bool-cases, inl, inr, ltb, ap, ◌∙◌, drop, drop-drop, refl, ◌+◌, ◌≡◌, ◌<◌, some, arith, length,
  length-drop, slice, be_value,
}
use zet_mq.Core.Delivery.{Bytes}
use zet_mq.Protocol.Error.{ProtocolError, ok, err}
use zet_mq.Protocol.Frame.{Frame, decode_from}

pub decode_shorter :
    (buf : Bytes) (max : ℕ) (frame : Frame)
    → (decode_from buf max).0 ≡ ok (some frame)
    → length (decode_from buf max).1 < length buf
unfolding decode_from
decode_shorter buf max frame h =
    ground (arith, length-drop (22 + be_value (slice 14 18 buf) + be_value (slice 18 22 buf)) buf)

pub decode_fits :
    (buf : Bytes) (max : ℕ) (e : ProtocolError) → (decode_from buf max).0 ≡ err e → 0 < length buf
unfolding decode_from
decode_fits buf max e h = ground arith

-- What is left of a buffer when bytes are taken off its front.
abbrev pub Behind : Bytes → Bytes → Type 0
Behind buf left = (n : ℕ) × (left ≡ drop n buf)

pub Behind-trans : (a b c : Bytes) → Behind a b → Behind b c → Behind a c
Behind-trans a b c (m, p) (n, q) = (m + n, q ∙ ap (drop n) p ∙ drop-drop n m a)

pub decode_from-Behind : (buf : Bytes) (max : ℕ) → Behind buf (decode_from buf max).1
unfolding decode_from
decode_from-Behind buf max =
    let total = 22 + be_value (slice 14 18 buf) + be_value (slice 18 22 buf) in
    elim (Bool-cases (ltb (length buf) 22)) [
      | inl short ↦ rw (short, decode_from) (0, refl)
      | inr header ↦ elim (Bool-cases (ltb max total)) [
        | inl large ↦ rw (header, large, decode_from) (0, refl)
        | inr fits ↦ elim (Bool-cases (ltb (length buf) total)) [
          | inl partial ↦ rw (header, fits, partial, decode_from) (0, refl)
          | inr whole ↦ rw (header, fits, whole, decode_from) (total, refl)
        ]
      ]
    ]
