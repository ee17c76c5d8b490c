-- ===== src/Server/Session/Payloads.antt =====
-- The payload of a PUB frame in crates/zetmq-server/src/session/handler.rs, and the same payload as
-- `BrokerCommand::from_frame` of crates/zetmq-protocol/src/command/mod.rs reads it.
use zet_mq.Prelude.{
  ℕ, ◌+◌, ◌-◌, ◌≡◌, ◌≤◌, refl, ap, ◌∙◌, sym, subst, true, false, Option, none, some, arith, ltb,
  leb, length, length-drop, take, drop, slice, take-all, drop-drop, be_value, Bool-cases, inl, inr,
  if◌then◌else◌,
}
use zet_mq.Core.Delivery.{Bytes}
use zet_mq.Protocol.Error.{ok}
use zet_mq.Protocol.Frame.{Frame}
use zet_mq.Protocol.Command.{PublishCommand, publish, publish_of, reply_of, with_headers}
use zet_mq.Server.Session.Layout.{
  PublishPayloadLayout, range, range_of, command_at, parse_publish_payload,
}

pub slice-at : (i j k : ℕ) (xs : Bytes) → j - i ≡ k → slice i j xs ≡ take k (drop i xs)
slice-at i j k xs e = ap (λ n. take n (drop i xs)) e

-- The layout that `parse_publish_payload` returns, and that it is within the payload.
parsed_layout :
    (p : Bytes) (layout : PublishPayloadLayout)
    → parse_publish_payload p ≡ ok layout
    → let sl = be_value (slice 0 2 p) in
      let rl = be_value (slice (2 + sl) (2 + sl + 2) p) in
      (2 + sl + 2 + rl ≤ length p)
      × (layout ≡ record {
        subject = (2, 2 + sl);
        reply_to = if ltb 0 rl then some (2 + sl + 2, 2 + sl + 2 + rl) else none;
        payload = (2 + sl + 2 + rl, length p);
      })
unfolding parse_publish_payload
parsed_layout p layout h = (ground arith, ground arith)

-- What `from_frame` reads of the reply behind the subject.
reply_of-parsed :
    (p : Bytes)
    → let sl = be_value (slice 0 2 p) in
      let rl = be_value (slice (2 + sl) (2 + sl + 2) p) in
      2 + sl + 2 + rl ≤ length p
      → reply_of (drop (2 + sl) p)
        ≡ (range_of (if ltb 0 rl then some (2 + sl + 2, 2 + sl + 2 + rl) else none) p, 2 + rl)
unfolding reply_of
reply_of-parsed p fits =
    let sl = be_value (slice 0 2 p) in
    let rl = be_value (slice (2 + sl) (2 + sl + 2) p) in
    let rest = drop (2 + sl) p in
    let size = length-drop (2 + sl) p in
    let len : be_value (slice 0 2 rest) ≡ rl =
      ap be_value (sym (slice-at (2 + sl) (2 + sl + 2) 2 p (omega arith))) in
    let enough : leb 2 (length rest) ≡ true = ground (arith, size) in
    let whole : leb (2 + rl) (length rest) ≡ true = ground (arith, size) in
    elim (Bool-cases (ltb 0 rl)) [
      | inr empty ↦
          let zero_len : rl ≡ 0 = ground arith in
          rw (len, enough, whole, empty) (pair_eq none 2 (2 + rl) (omega arith))
      | inl filled ↦
          let text : slice 2 (2 + rl) rest ≡ slice (2 + sl + 2) (2 + sl + 2 + rl) p =
            slice-at 2 (2 + rl) rl rest (omega arith)
            ∙ ap (take rl) (drop-drop 2 (2 + sl) p)
            ∙ sym (slice-at (2 + sl + 2) (2 + sl + 2 + rl) rl p (omega arith)) in
          rw (len, enough, whole, filled, text) refl
    ]
  where
    pair_eq : (o : Option Bytes) (m n : ℕ) → m ≡ n → ◌≡◌ {A = Option Bytes × ℕ} (o, m) (o, n)
    pair_eq o m n e = ap (λ (k : ℕ). (o, k)) e

with_headers-command :
    (hb p : Bytes) (layout : PublishPayloadLayout) (c : PublishCommand)
    → command_at hb p layout ≡ ok c
    → with_headers (range layout.subject p) (range layout.payload p) (range_of layout.reply_to p) hb
      ≡ ok (publish c)
with_headers-command hb p layout c cut = ground arith

-- A payload from which a command is cut is read as that command.
pub publish_of-command :
    (frame : Frame) (layout : PublishPayloadLayout) (c : PublishCommand)
    → parse_publish_payload frame.payload ≡ ok layout
    → command_at frame.headers frame.payload layout ≡ ok c
    → publish_of frame ≡ ok (publish c)
unfolding publish_of
publish_of-command frame layout c parsed cut =
    let p = frame.payload in
    let sl = be_value (slice 0 2 p) in
    let rl = be_value (slice (2 + sl) (2 + sl + 2) p) in
    let (fits, shape) = parsed_layout p layout parsed in
    let reply = reply_of-parsed p fits in
    let enough : ltb (length p) 2 ≡ false = ground arith in
    let whole : ltb (length p) (2 + sl) ≡ false = ground arith in
    let body : drop (2 + sl + (2 + rl)) p ≡ slice (2 + sl + 2 + rl) (length p) p =
      ap (λ k. drop k p) (omega arith)
      ∙ sym (
          ap (λ k. take k (drop (2 + sl + 2 + rl) p)) (sym (length-drop (2 + sl + 2 + rl) p))
          ∙ take-all (drop (2 + sl + 2 + rl) p)) in
    let got = with_headers-command frame.headers p layout c cut in
    let subject = slice 2 (2 + sl) p in
    rw (enough, whole)
      (ap (λ (x : Option Bytes × ℕ). with_headers subject (drop (2 + sl + x.1) p) x.0 frame.headers)
          reply
        ∙ ap
            (λ (b : Bytes).
              with_headers subject b
                (range_of (if ltb 0 rl then some (2 + sl + 2, 2 + sl + 2 + rl) else none) p)
                frame.headers)
            body
        ∙ subst
            (λ (l : PublishPayloadLayout).
              with_headers (range l.subject p) (range l.payload p) (range_of l.reply_to p)
                frame.headers
              ≡ ok (publish c))
            shape got)
