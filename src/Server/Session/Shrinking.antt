-- ===== src/Server/Session/Shrinking.antt =====
-- The read buffer behind a round of the loop over the frames in
-- crates/zetmq-server/src/session/handler.rs.
use zet_mq.Prelude.{
  ℕ, ◌≡◌, ◌<◌, refl, ◌∙◌, Bool, true, false, Option, none, some, ltb, length, Bool-cases, inl, inr,
}
use zet_mq.Core.Delivery.{Bytes}
use zet_mq.Protocol.Error.{Result, ok, err}
use zet_mq.Protocol.Frame.{Frame, decode_from}
use zet_mq.Server.Config.{ServerConfig}
use zet_mq.Server.Outbound.{Host}
use zet_mq.Server.Dispatcher.{World}
use zet_mq.Server.Session.{
  Both, on_frame, Flow, continue, break, is_connected, flush_published, on_batch, on_decoded,
  slow_path, fast_path, process_one,
}
use zet_mq.Server.Session.Layout.{next_frame_is_pub}
use zet_mq.Server.Session.Publishing.{dispatch_publish_batch_from_read_buf}
use zet_mq.Server.Session.Progress.{Shorter, dispatch_batch-Shorter, pub_frame_fits}
use zet_mq.Server.Session.Machine.{
  Acts, here, next, send, failure, flush, add_up, look_up, batch, on_frame-Acts, Act, login, run,
}
use zet_mq.Server.Session.Batches.{add_published-Acts}
use zet_mq.Protocol.Frame.Consumed.{decode_shorter, decode_fits}

module _ (H : Host) (config : ServerConfig) (conn_id : ℕ) where
  open H use {Channels}

  -- The acts of a session leave its buffer.
  Act-read_buf :
      {m : Bool} {a b : Both H config conn_id}
      → Act H config conn_id m a b
      → b.0.read_buf ≡ a.0.read_buf
  unfolding flush_published
  Act-read_buf (send frame sw) = refl
  Act-read_buf (failure sw) = refl
  Act-read_buf (flush (s, w)) = elim (Bool-cases (ltb 0 s.local_published)) [
    | inl some_published ↦ rw some_published refl
    | inr none_published ↦ rw none_published refl
  ]
  Act-read_buf (add_up n s w) = refl
  Act-read_buf (look_up text s w) = refl
  Act-read_buf (login auth ctx s w may e) = refl
  Act-read_buf (run cmd n sw c p) = refl
  Act-read_buf (batch commands s w c) = refl

  Acts-read_buf :
      {m : Bool} {a b : Both H config conn_id}
      → Acts H config conn_id m a b
      → b.0.read_buf ≡ a.0.read_buf
  Acts-read_buf here = refl
  Acts-read_buf (next r a) = Act-read_buf a ∙ Acts-read_buf r

  abbrev pub Smaller : Flow × Both H config conn_id → ℕ → Type 0
  Smaller (continue, sw) n = length sw.0.read_buf < n
  Smaller (break, sw) n = Unit

  -- What goes on with the buffer as it was.
  same_buffer :
      (x : Flow × Both H config conn_id) (sw : Both H config conn_id) (n : ℕ)
      → Acts H config conn_id true sw x.1
      → length sw.0.read_buf < n
      → Smaller x n
  same_buffer (continue, sw') sw n r h = rw (Acts-read_buf r) h
  same_buffer (break, sw') sw n r h = tt

  slow_path-Smaller :
      (sw : Both H config conn_id) → Smaller (slow_path H config conn_id sw) (length sw.0.read_buf)
  unfolding slow_path
  slow_path-Smaller sw = decoded_Smaller (decode_from sw.0.read_buf config.max_frame_size).0 refl
    where
      left : Both H config conn_id
      left = (record sw.0 { read_buf = (decode_from sw.0.read_buf config.max_frame_size).1 }, sw.1)

      decoded_Smaller :
          (r : Result (Option Frame))
          → (decode_from sw.0.read_buf config.max_frame_size).0 ≡ r
          → Smaller (on_decoded H config conn_id r left) (length sw.0.read_buf)
      decoded_Smaller (ok (some frame)) e =
          same_buffer (on_frame H config conn_id frame left) left (length sw.0.read_buf)
            (on_frame-Acts H config conn_id frame left)
            (decode_shorter sw.0.read_buf config.max_frame_size frame e)
      decoded_Smaller (ok none) e = tt
      decoded_Smaller (err why) e = decode_fits sw.0.read_buf config.max_frame_size why e

  fast_path-Smaller :
      (sw : Both H config conn_id)
      → next_frame_is_pub sw.0.read_buf ≡ true
      → Smaller (fast_path H config conn_id sw) (length sw.0.read_buf)
  unfolding fast_path
  fast_path-Smaller sw is_pub =
      batch_Smaller
        (dispatch_publish_batch_from_read_buf H conn_id sw.0.auth_ctx config.max_frame_size
          (sw.0.read_buf, sw.1))
        (dispatch_batch-Shorter H conn_id sw.0.auth_ctx config.max_frame_size sw.0.read_buf sw.1)
    where
      batch_Smaller :
          (x : Result (Bool × ℕ) × (Bytes × World Channels))
          → Shorter (length sw.0.read_buf) x
          → Smaller
              (on_batch H config conn_id x.0 (record sw.0 { read_buf = x.1.0 }, x.1.1))
              (length sw.0.read_buf)
      batch_Smaller (ok (true, n), (buf, w)) h =
          same_buffer (on_batch H config conn_id (ok (true, n)) (record sw.0 { read_buf = buf }, w))
            (record sw.0 { read_buf = buf }, w) (length sw.0.read_buf)
            (add_published-Acts H config conn_id n _) h
      batch_Smaller (ok (false, n), (buf, w)) h = tt
      batch_Smaller (err e, (buf, w)) h = pub_frame_fits sw.0.read_buf is_pub

  pub process_one-Smaller :
      (sw : Both H config conn_id)
      → Smaller (process_one H config conn_id sw) (length sw.0.read_buf)
  unfolding process_one
  process_one-Smaller sw = elim (Bool-cases (is_connected sw.0.state)) [
    | inr c ↦ rw c (slow_path-Smaller sw)
    | inl c ↦ elim (Bool-cases (next_frame_is_pub sw.0.read_buf)) [
      | inr other ↦ rw (c, other) (slow_path-Smaller sw)
      | inl is_pub ↦ rw (c, is_pub) (fast_path-Smaller sw is_pub)
    ]
  ]
