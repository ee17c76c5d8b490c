-- ===== src/Client/Finishing.antt =====
-- The loop over the frames in the read task of crates/zetmq-client/src/connection.rs.
use zet_mq.Prelude.{
  ℕ, zero, suc, ◌≡◌, ◌<◌, refl, ap, ◌∙◌, sym, Bool, true, false, Option, none, some, arith, length,
  inl, inr, if◌then◌else◌,
}
use zet_mq.Map
use zet_mq.Map.{nat_key}
use zet_mq.Core.Delivery.{Bytes}
use zet_mq.Protocol.Error.{ProtocolError, Result, ok, err}
use zet_mq.Protocol.Frame.{Frame, decode_from}
use zet_mq.Protocol.Frame.Consumed.{decode_shorter}
use zet_mq.Server.Session.Progress.{peek_cases}
use zet_mq.Protocol.FrameType.{FrameType, from_u8}
use zet_mq.Client.Connection.{
  Message, Receivers, Link, Incoming, message_for, malformed, out_of_range, decode_msg,
  client_max_frame_size, Reading, reading, panicked, dispatch_msg, to_subscriber, on_suback,
  complete, finish, resolve_flush, on_type, on_frame, read_frames,
}

module _ (R : Receivers) where
  -- The bytes that are still to be read.
  abbrev left : Reading (Link R) → Bytes
  left (reading c) = c.read_buf
  left (panicked c) = c.read_buf

  to_subscriber-read_buf :
      (id : ℕ) (o : Option ℕ) (m : Message) (c : Link R)
      → (to_subscriber R id o m c).read_buf ≡ c.read_buf
  to_subscriber-read_buf id none m c = refl
  to_subscriber-read_buf id (some tx) m c = alive (R.send c.channels tx m).0
    where
      alive :
          (b : Bool)
          → (if b then record c { channels = (R.send c.channels tx m).1 } else record c {
            channels = (R.send c.channels tx m).1;
            state = record c.state { subscriptions = Map.remove id c.state.subscriptions };
          }).read_buf
            ≡ c.read_buf
      alive true = refl
      alive false = refl

  dispatch_msg-left : (frame : Frame) (c : Link R) → left (dispatch_msg R frame c) ≡ c.read_buf
  unfolding dispatch_msg
  dispatch_msg-left frame c = of_incoming (decode_msg frame)
    where
      of_incoming :
          (i : Incoming)
          → left (elim i as (λ _. Reading (Link R)) [
            | message_for sub_id message ↦
                reading (to_subscriber R sub_id (Map.get sub_id c.state.subscriptions) message c)
            | malformed e ↦ reading c
            | out_of_range ↦ panicked c
          ])
            ≡ c.read_buf
      of_incoming (message_for id m) =
          to_subscriber-read_buf id (Map.get id c.state.subscriptions) m c
      of_incoming (malformed e) = refl
      of_incoming out_of_range = refl

  finish-read_buf : (o : Option ℕ) (c : Link R) → (finish R o c).read_buf ≡ c.read_buf
  finish-read_buf none c = refl
  finish-read_buf (some id) c = completed (Map.get id c.state.pending_flush)
    where
      completed : (o : Option ℕ) → (complete R id o c).read_buf ≡ c.read_buf
      completed none = refl
      completed (some tx) = refl

  on_suback-read_buf : (frame : Frame) (c : Link R) → (on_suback R frame c).read_buf ≡ c.read_buf
  unfolding on_suback
  on_suback-read_buf frame c = ground arith

  resolve_flush-read_buf : (n : ℕ) (c : Link R) → (resolve_flush R n c).read_buf ≡ c.read_buf
  unfolding resolve_flush
  resolve_flush-read_buf n c = finish-read_buf _ c

  on_type-left :
      (t : FrameType) (frame : Frame) (c : Link R) → left (on_type R t frame c) ≡ c.read_buf
  on_type-left FrameType.msg frame c = dispatch_msg-left frame c
  on_type-left FrameType.suback frame c = on_suback-read_buf frame c
  on_type-left FrameType.ping frame c = refl
  on_type-left FrameType.pong frame c = resolve_flush-read_buf frame.header.correlation_id c
  on_type-left _ frame c = refl

  on_frame-left : (frame : Frame) (c : Link R) → left (on_frame R frame c) ≡ c.read_buf
  unfolding on_frame
  on_frame-left frame c = of_type (from_u8 frame.header.frame_type)
    where
      of_type :
          (t : Result FrameType)
          → left (elim t as (λ _. Reading (Link R)) [
            | err e ↦ reading c
            | ok ft ↦ on_type R ft frame c
          ])
            ≡ c.read_buf
      of_type (ok ft) = on_type-left ft frame c
      of_type (err e) = refl

  -- What is behind a frame.
  abbrev on_read : ℕ → Reading (Link R) → Option (Reading (Link R))
  on_read fuel (reading c) = read_frames R fuel c
  on_read fuel (panicked c) = some (panicked c)

  abbrev behind : Link R → Link R
  behind c = record c { read_buf = (decode_from c.read_buf client_max_frame_size).1 }

  read_frames-frame :
      (fuel : ℕ) (c : Link R) (frame : Frame)
      → (decode_from c.read_buf client_max_frame_size).0 ≡ ok (some frame)
      → read_frames R (suc fuel) c ≡ on_read fuel (on_frame R frame (behind c))
  unfolding read_frames
  read_frames-frame fuel c frame e = rw (read_frames, e) (split (on_frame R frame (behind c)))
    where
      split :
          (r : Reading (Link R))
          → (elim r as (λ _. Option (Reading (Link R))) [
            | reading c ↦ read_frames R fuel c
            | panicked c ↦ some (panicked c)
          ])
            ≡ on_read fuel r
      split (reading c) = refl
      split (panicked c) = refl

  read_frames-end :
      (fuel : ℕ) (c : Link R)
      → ((frame : Frame) → (decode_from c.read_buf client_max_frame_size).0 ≡ ok (some frame) → ⊥)
      → read_frames R (suc fuel) c ≡ some (reading (behind c))
  unfolding read_frames
  read_frames-end fuel c ends = elim (peek_cases (decode_from c.read_buf client_max_frame_size).0) [
    | inl nothing ↦ rw (read_frames, nothing) refl
    | inr (inl (frame, e)) ↦ absurd (ends frame e)
    | inr (inr (why, e)) ↦ rw (read_frames, e) refl
  ]

  -- With one round more than there are bytes, the loop comes to its end.
  pub read_frames-total :
      (fuel : ℕ) (c : Link R)
      → length c.read_buf < fuel
      → (r : Reading (Link R)) × (read_frames R fuel c ≡ some r)
  read_frames-total zero c enough = absurd (omega arith)
  read_frames-total (suc fuel) c enough =
      elim (peek_cases (decode_from c.read_buf client_max_frame_size).0) [
        | inl nothing ↦
            (reading (behind c), read_frames-end fuel c (λ frame e. none_frame (sym nothing ∙ e)))
        | inr (inr (why, bad)) ↦
            (reading (behind c), read_frames-end fuel c (λ frame e. err_frame (sym bad ∙ e)))
        | inr (inl (frame, e)) ↦
            let (r, more) = going (read_frames-total fuel) (on_frame R frame (behind c)) (
              omega (
                arith,
                ap length (on_frame-left frame (behind c)),
                decode_shorter c.read_buf client_max_frame_size frame e,
              )) in
            (r, read_frames-frame fuel c frame e ∙ more)
      ]
    where
      none_frame : {frame : Frame} → ◌≡◌ {A = Result (Option Frame)} (ok none) (ok (some frame)) → ⊥
      none_frame h = ground arith

      err_frame :
          {why : ProtocolError} {frame : Frame}
          → ◌≡◌ {A = Result (Option Frame)} (err why) (ok (some frame))
          → ⊥
      err_frame h = ground arith

      going :
          ((c : Link R)
            → length c.read_buf < fuel
            → (r : Reading (Link R)) × (read_frames R fuel c ≡ some r))
          → (r : Reading (Link R)) → length (left r) < fuel
          → (r' : Reading (Link R)) × (on_read fuel r ≡ some r')
      going ih (reading c) le = ih c le
      going ih (panicked c) le = (panicked c, refl)
