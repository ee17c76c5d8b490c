-- ===== src/Server/Session/Progress.antt =====
-- The batches of PUB frames in crates/zetmq-server/src/session/handler.rs, and what they take out
-- of the read buffer.
use zet_mq.Prelude.{
  ℕ, zero, suc, ◌+◌, ◌≡◌, ◌⊎◌, ◌≤◌, ◌<◌, refl, Bool, true, false, List, [], Option, none, some,
  arith, ltb, length, length-drop, drop, take, slice, ◌&&◌, not, Bool-cases, inl, inr,
}
use zet_mq.Core.Delivery.{Bytes}
use zet_mq.Protocol.Error.{ProtocolError, Result, ok, err}
use zet_mq.Protocol.Command.{PublishCommand}
use zet_mq.Server.Auth.{AuthContext, is_publish_unrestricted}
use zet_mq.Server.Outbound.{Host}
use zet_mq.Server.Dispatcher.{World}
use zet_mq.Server.Session.Layout.{
  PubFrameLayout, range, next_frame_is_pub, peek_pub_frame_layout, peek_pub_frame_total,
  parse_publish_payload, with_id, decode_frame_bytes, decode_publish_command_from_buf,
}
use zet_mq.Server.Session.Publishing.{
  has_active_subscriptions, router_has_wildcards, pub_batch_limit, no_sub_pub_batch_limit,
  drain_frames, drain_checked, drained, drain_publish_batch_without_subscribers, gather_commands,
  publish_allowed, told, count_allowed, add_command, dispatched,
  dispatch_publish_batch_from_read_buf,
}

total_bounds :
    (buf : Bytes) (max total : ℕ)
    → peek_pub_frame_total buf max ≡ ok (some total)
    → (0 < total) × (total ≤ length buf)
unfolding peek_pub_frame_total
total_bounds buf max total h = ground arith

layout_bounds :
    (buf : Bytes) (max : ℕ) (layout : PubFrameLayout)
    → peek_pub_frame_layout buf max ≡ ok (some layout)
    → (0 < layout.total) × (layout.total ≤ length buf)
unfolding peek_pub_frame_layout
layout_bounds buf max layout h = ground arith

pub pub_frame_fits : (buf : Bytes) → next_frame_is_pub buf ≡ true → 0 < length buf
unfolding next_frame_is_pub
pub_frame_fits buf h = ground arith

-- Each frame taken is at least a byte.
abbrev pub Taken : ℕ → Result ℕ × Bytes → Type 0
Taken bytes (ok processed, buf) = length buf + processed ≤ bytes
Taken bytes (err e, buf) = Unit

-- To split on what a peek finds.
pub peek_cases :
    {A : Type 0} (r : Result (Option A))
    → (r ≡ ok none) ⊎ (((a : A) × (r ≡ ok (some a))) ⊎ ((e : ProtocolError) × (r ≡ err e)))
peek_cases (ok none) = inl refl
peek_cases (ok (some a)) = inr (inl (a, refl))
peek_cases (err e) = inr (inr (e, refl))

pub Result-cases :
    {A : Type 0} (r : Result A) → ((a : A) × (r ≡ ok a)) ⊎ ((e : ProtocolError) × (r ≡ err e))
Result-cases (ok a) = inl (a, refl)
Result-cases (err e) = inr (e, refl)

Taken-more : (x : Result ℕ × Bytes) (m n : ℕ) → m ≤ n → Taken m x → Taken n x
Taken-more (ok processed, buf) m n le h = omega arith
Taken-more (err e, buf) m n le h = tt

drain_frames-Taken :
    (rounds processed : ℕ) (buf : Bytes) (max : ℕ)
    → Taken (length buf + processed) (drain_frames rounds processed buf max)
unfolding drain_frames
drain_frames-Taken zero processed buf max = omega arith
drain_frames-Taken (suc rounds) processed buf max = elim (Bool-cases (next_frame_is_pub buf)) [
  | inr other ↦ rw other (omega arith)
  | inl is_pub ↦ elim (peek_cases (peek_pub_frame_total buf max)) [
    | inl partial ↦ rw (is_pub, partial) (omega arith)
    | inr (inr (e, bad)) ↦ rw (is_pub, bad) tt
    | inr (inl (total, found)) ↦
        rw (is_pub, found)
          (Taken-more (drain_frames rounds (suc processed) (drop total buf) max)
            (length (drop total buf) + suc processed) (length buf + processed)
            (omega (arith, total_bounds buf max total found, length-drop total buf))
            (drain_frames-Taken rounds (suc processed) (drop total buf) max))
  ]
]

-- Where a batch is reported, bytes are gone.
abbrev pub Shorter {ℓ} : {A : Type ℓ} → ℕ → Result (Bool × ℕ) × (Bytes × A) → Type 0
Shorter bytes (ok (true, n), (buf, w)) = length buf < bytes
Shorter bytes (ok (false, n), (buf, w)) = Unit
Shorter bytes (err e, (buf, w)) = Unit

Shorter-more {ℓ} :
    {A : Type ℓ} (x : Result (Bool × ℕ) × (Bytes × A)) (m n : ℕ) → m ≤ n → Shorter m x → Shorter n x
Shorter-more (ok (true, k), (buf, w)) m n le h = omega arith
Shorter-more (ok (false, k), (buf, w)) m n le h = tt
Shorter-more (err e, (buf, w)) m n le h = tt

reported {ℓ} :
    {A : Type ℓ} (processed n bytes : ℕ) (buf : Bytes) (w : A)
    → length buf + processed ≤ bytes
    → Shorter bytes (ok (ltb 0 processed, n), (buf, w))
reported zero n bytes buf w h = tt
reported (suc processed) n bytes buf w h = ground arith

drained-Shorter {ℓ} :
    {A : Type ℓ} (x : Result ℕ × Bytes) (bytes : ℕ) (w : A)
    → Taken bytes x
    → Shorter bytes (drained x.0, (x.1, w))
drained-Shorter (ok processed, buf) bytes w h = reported processed processed bytes buf w h
drained-Shorter (err e, buf) bytes w h = tt

module _ (H : Host) where
  open H use {Channels}

  drain_checked-Shorter :
      (rounds processed published conn_id : ℕ) (ctx : AuthContext) (max : ℕ) (buf : Bytes)
      (w : World Channels)
      → Shorter
          (length buf + processed)
          (drain_checked H rounds processed published conn_id ctx max (buf, w))
  unfolding drain_checked
  drain_checked-Shorter zero processed published conn_id ctx max buf w =
      reported processed published (length buf + processed) buf w (omega arith)
  drain_checked-Shorter (suc rounds) processed published conn_id ctx max buf w =
      elim (Bool-cases (next_frame_is_pub buf)) [
        | inr other ↦
            rw other (reported processed published (length buf + processed) buf w (omega arith))
        | inl is_pub ↦ elim (peek_cases (peek_pub_frame_layout buf max)) [
          | inl partial ↦
              rw (is_pub, partial)
                (reported processed published (length buf + processed) buf w (omega arith))
          | inr (inr (e, bad)) ↦ rw (is_pub, bad) tt
          | inr (inl (layout, found)) ↦
              elim (Result-cases
                (parse_publish_payload (slice layout.payload_start layout.payload_end buf))) [
                  | inr (e, bad) ↦ rw (is_pub, found, bad) tt
                  | inl (payload, good) ↦
                      let (allowed, b) = publish_allowed w.broker ctx (
                        range payload.subject
                          (slice layout.payload_start layout.payload_end buf)) in
                      let w' =
                        told H conn_id layout.correlation_id allowed (record w { broker = b }) in
                      rw (is_pub, found, good)
                        (Shorter-more
                          (drain_checked H rounds (suc processed)
                            (count_allowed H allowed published) conn_id ctx max
                            (drop layout.total buf, w'))
                          (length (drop layout.total buf) + suc processed) (length buf + processed)
                          (omega (
                            arith,
                            layout_bounds buf max layout found,
                            length-drop layout.total buf,
                          ))
                          (drain_checked-Shorter rounds (suc processed)
                            (count_allowed H allowed published) conn_id ctx max
                            (drop layout.total buf) w'))
                ]
        ]
      ]

  -- As `Taken`, for the loop that gathers commands.
  abbrev Gathered : ℕ → Result (ℕ × List PublishCommand) × (Bytes × World Channels) → Type 0
  Gathered bytes (ok (processed, commands), (buf, w)) = length buf + processed ≤ bytes
  Gathered bytes (err e, (buf, w)) = Unit

  Gathered-more :
      (x : Result (ℕ × List PublishCommand) × (Bytes × World Channels)) (m n : ℕ)
      → m ≤ n
      → Gathered m x
      → Gathered n x
  Gathered-more (ok (k, commands), (buf, w)) m n le h = omega arith
  Gathered-more (err e, (buf, w)) m n le h = tt

  gather_commands-Gathered :
      (rounds processed : ℕ) (commands : List PublishCommand) (conn_id : ℕ) (ctx : AuthContext)
      (max : ℕ) (buf : Bytes) (w : World Channels)
      → Gathered
          (length buf + processed)
          (gather_commands H rounds processed commands conn_id ctx max (buf, w))
  unfolding gather_commands decode_publish_command_from_buf
  gather_commands-Gathered zero processed commands conn_id ctx max buf w = omega arith
  gather_commands-Gathered (suc rounds) processed commands conn_id ctx max buf w =
      elim (Bool-cases (next_frame_is_pub buf)) [
        | inr other ↦ rw other (omega arith)
        | inl is_pub ↦ elim (peek_cases (peek_pub_frame_layout buf max)) [
          | inl partial ↦ rw (is_pub, partial) (omega arith)
          | inr (inr (e, bad)) ↦ rw (is_pub, bad) tt
          | inr (inl (layout, found)) ↦
              elim (Result-cases (
                with_id layout.correlation_id
                  (decode_frame_bytes (take layout.total buf) layout))) [
                    | inr (e, bad) ↦ rw (is_pub, found, bad) tt
                    | inl ((command, n), good) ↦
                        let (allowed, b) = publish_allowed w.broker ctx command.subject in
                        let w' = told H conn_id n allowed (record w { broker = b }) in
                        rw (is_pub, found, good)
                          (Gathered-more
                            (gather_commands H rounds (suc processed)
                              (add_command H allowed command commands) conn_id ctx max
                              (drop layout.total buf, w'))
                            (length (drop layout.total buf) + suc processed)
                            (length buf + processed)
                            (omega (
                              arith,
                              layout_bounds buf max layout found,
                              length-drop layout.total buf,
                            ))
                            (gather_commands-Gathered rounds (suc processed)
                              (add_command H allowed command commands) conn_id ctx max
                              (drop layout.total buf) w'))
                  ]
        ]
      ]

  dispatched-Shorter :
      (x : Result (ℕ × List PublishCommand) × (Bytes × World Channels)) (bytes : ℕ)
      → Gathered bytes x
      → Shorter bytes ((dispatched H x.0 x.1.1).0, (x.1.0, (dispatched H x.0 x.1.1).1))
  dispatched-Shorter (ok (processed, commands), (buf, w)) bytes h =
      reported processed 0 bytes buf (dispatched H (ok (processed, commands)) w).1 h
  dispatched-Shorter (err e, (buf, w)) bytes h = tt

  -- A batch that is reported has taken bytes out of the buffer.
  pub dispatch_batch-Shorter :
      (conn_id : ℕ) (ctx : AuthContext) (max : ℕ) (buf : Bytes) (w : World Channels)
      → Shorter (length buf) (dispatch_publish_batch_from_read_buf H conn_id ctx max (buf, w))
  unfolding dispatch_publish_batch_from_read_buf drain_publish_batch_without_subscribers
  dispatch_batch-Shorter conn_id ctx max buf w =
      elim (Bool-cases
        (not (has_active_subscriptions w.broker) && not (router_has_wildcards w.broker))) [
          | inr subscribed ↦ rw subscribed (
              dispatched-Shorter (gather_commands H pub_batch_limit 0 [] conn_id ctx max (buf, w))
                (length buf)
                (Gathered-more (gather_commands H pub_batch_limit 0 [] conn_id ctx max (buf, w))
                  (length buf + 0) (length buf) (omega arith)
                  (gather_commands-Gathered pub_batch_limit 0 [] conn_id ctx max buf w)))
          | inl nobody ↦ elim (Bool-cases (is_publish_unrestricted ctx)) [
            | inl free ↦
                rw (nobody, free)
                  (drained-Shorter (drain_frames no_sub_pub_batch_limit 0 buf max) (length buf) w (
                    Taken-more (drain_frames no_sub_pub_batch_limit 0 buf max) (length buf + 0)
                      (length buf) (omega arith)
                      (drain_frames-Taken no_sub_pub_batch_limit 0 buf max)))
            | inr restricted ↦
                rw (nobody, restricted)
                  (Shorter-more
                    (drain_checked H no_sub_pub_batch_limit 0 0 conn_id ctx max (buf, w))
                    (length buf + 0) (length buf) (omega arith)
                    (drain_checked-Shorter no_sub_pub_batch_limit 0 0 conn_id ctx max buf w))
          ]
        ]
