-- ===== src/Server/Session/Fronts.antt =====
-- What the batches of PUB frames in crates/zetmq-server/src/session/handler.rs leave of the read
-- buffer.
use zet_mq.Prelude.{
  ℕ, zero, suc, refl, List, [], ◌&&◌, not, drop, take, slice, Bool-cases, inl, inr,
}
use zet_mq.Core.Delivery.{Bytes}
use zet_mq.Protocol.Frame.Consumed.{Behind, Behind-trans}
use zet_mq.Protocol.Command.{PublishCommand}
use zet_mq.Server.Auth.{AuthContext, is_publish_unrestricted}
use zet_mq.Server.Outbound.{Host}
use zet_mq.Server.Dispatcher.{World}
use zet_mq.Server.Session.Layout.{
  range, next_frame_is_pub, peek_pub_frame_layout, peek_pub_frame_total, parse_publish_payload,
  with_id, decode_frame_bytes, decode_publish_command_from_buf,
}
use zet_mq.Server.Session.Publishing.{
  publish_allowed, told, count_allowed, add_command, drain_frames, drain_checked, gather_commands,
  drain_publish_batch_without_subscribers, dispatch_publish_batch_from_read_buf,
  has_active_subscriptions, router_has_wildcards, pub_batch_limit, no_sub_pub_batch_limit,
}
use zet_mq.Server.Session.Progress.{peek_cases, Result-cases}

left_alone : (buf : Bytes) → Behind buf buf
left_alone buf = (0, refl)

after_drop : (n : ℕ) (buf left : Bytes) → Behind (drop n buf) left → Behind buf left
after_drop n buf left = Behind-trans buf (drop n buf) left (n, refl)

drain_frames-Behind :
    (rounds processed : ℕ) (buf : Bytes) (max : ℕ)
    → Behind buf (drain_frames rounds processed buf max).1
unfolding drain_frames
drain_frames-Behind zero processed buf max = left_alone buf
drain_frames-Behind (suc rounds) processed buf max = elim (Bool-cases (next_frame_is_pub buf)) [
  | inr other ↦ rw other (left_alone buf)
  | inl is_pub ↦ elim (peek_cases (peek_pub_frame_total buf max)) [
    | inl partial ↦ rw (is_pub, partial) (left_alone buf)
    | inr (inr (e, bad)) ↦ rw (is_pub, bad) (left_alone buf)
    | inr (inl (total, found)) ↦
        rw (is_pub, found)
          (after_drop total buf _ (drain_frames-Behind rounds (suc processed) (drop total buf) max))
  ]
]

module _ (H : Host) (conn_id : ℕ) (ctx : AuthContext) (max : ℕ) where
  open H use {Channels}

  drain_checked-Behind :
      (rounds processed published : ℕ) (buf : Bytes) (w : World Channels)
      → Behind buf (drain_checked H rounds processed published conn_id ctx max (buf, w)).1.0
  unfolding drain_checked
  drain_checked-Behind zero processed published buf w = left_alone buf
  drain_checked-Behind (suc rounds) processed published buf w =
      elim (Bool-cases (next_frame_is_pub buf)) [
        | inr other ↦ rw other (left_alone buf)
        | inl is_pub ↦ elim (peek_cases (peek_pub_frame_layout buf max)) [
          | inl partial ↦ rw (is_pub, partial) (left_alone buf)
          | inr (inr (e, bad)) ↦ rw (is_pub, bad) (left_alone buf)
          | inr (inl (layout, found)) ↦
              elim (Result-cases
                (parse_publish_payload (slice layout.payload_start layout.payload_end buf))) [
                  | inr (e, bad) ↦ rw (is_pub, found, bad) (left_alone buf)
                  | inl (payload, good) ↦
                      let subject =
                        range payload.subject (slice layout.payload_start layout.payload_end buf) in
                      let (allowed, b) = publish_allowed w.broker ctx subject in
                      let w' =
                        told H conn_id layout.correlation_id allowed (record w { broker = b }) in
                      rw (is_pub, found, good)
                        (after_drop layout.total buf _ (
                          drain_checked-Behind rounds (suc processed)
                            (count_allowed H allowed published) (drop layout.total buf) w'))
                ]
        ]
      ]

  gather_commands-Behind :
      (rounds processed : ℕ) (commands : List PublishCommand) (buf : Bytes) (w : World Channels)
      → Behind buf (gather_commands H rounds processed commands conn_id ctx max (buf, w)).1.0
  unfolding gather_commands decode_publish_command_from_buf
  gather_commands-Behind zero processed commands buf w = left_alone buf
  gather_commands-Behind (suc rounds) processed commands buf w =
      elim (Bool-cases (next_frame_is_pub buf)) [
        | inr other ↦ rw other (left_alone buf)
        | inl is_pub ↦ elim (peek_cases (peek_pub_frame_layout buf max)) [
          | inl partial ↦ rw (is_pub, partial) (left_alone buf)
          | inr (inr (e, bad)) ↦ rw (is_pub, bad) (left_alone buf)
          | inr (inl (layout, found)) ↦
              elim (Result-cases (
                with_id layout.correlation_id
                  (decode_frame_bytes (take layout.total buf) layout))) [
                    | inr (e, bad) ↦ rw (is_pub, found, bad) (layout.total, refl)
                    | inl ((command, n), good) ↦
                        let (allowed, b) = publish_allowed w.broker ctx command.subject in
                        let w' = told H conn_id n allowed (record w { broker = b }) in
                        rw (is_pub, found, good)
                          (after_drop layout.total buf _ (
                            gather_commands-Behind rounds (suc processed)
                              (add_command H allowed command commands) (drop layout.total buf) w'))
                  ]
        ]
      ]

  pub dispatch_batch-Behind :
      (buf : Bytes) (w : World Channels)
      → Behind buf (dispatch_publish_batch_from_read_buf H conn_id ctx max (buf, w)).1.0
  unfolding dispatch_publish_batch_from_read_buf drain_publish_batch_without_subscribers
  dispatch_batch-Behind buf w =
      elim (Bool-cases
        (not (has_active_subscriptions w.broker) && not (router_has_wildcards w.broker))) [
          | inr subscribed ↦ rw subscribed (gather_commands-Behind pub_batch_limit 0 [] buf w)
          | inl nobody ↦ elim (Bool-cases (is_publish_unrestricted ctx)) [
            | inl free ↦ rw (nobody, free) (drain_frames-Behind no_sub_pub_batch_limit 0 buf max)
            | inr restricted ↦
                rw (nobody, restricted) (drain_checked-Behind no_sub_pub_batch_limit 0 0 buf w)
          ]
        ]
