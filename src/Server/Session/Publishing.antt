-- ===== src/Server/Session/Publishing.antt =====
-- crates/zetmq-server/src/session/handler.rs: the PUB frames at the front of the read buffer.
use zet_mq.Prelude.{
  ℕ, zero, suc, Bool, true, false, List, [], ◌∷◌, ◌++◌, ◌&&◌, not, none, some, if◌then◌else◌, ltb,
  is_empty, drop, slice,
}
use zet_mq.Text.{from_utf8}
use zet_mq.Core.Subject
use zet_mq.Core.Delivery.{Bytes}
use zet_mq.Core.Broker.{BrokerCore, parse_subject}
use zet_mq.Protocol.Error.{Result, ok, err}
use zet_mq.Protocol.Command.{PublishCommand}
use zet_mq.Server.Auth.{AuthContext, is_publish_unrestricted, can_publish}
use zet_mq.Server.Outbound.{Host, error_frame, publish_denied}
use zet_mq.Server.Dispatcher.{World, emit, dispatch_publish_batch}
use zet_mq.Server.Session.Layout.{
  range, next_frame_is_pub, peek_pub_frame_layout, peek_pub_frame_total, parse_publish_payload,
  decode_publish_command_from_buf,
}

abbrev pub pub_batch_limit : ℕ
pub_batch_limit = 128

abbrev pub no_sub_pub_batch_limit : ℕ
no_sub_pub_batch_limit = 1024

-- No branch of the source returns an error. Parsing goes through the cache of the broker.
unfoldable pub publish_allowed : BrokerCore → AuthContext → Bytes → Bool × BrokerCore
publish_allowed b auth_ctx subject_bytes =
    if is_publish_unrestricted auth_ctx then (true, b) else elim (from_utf8 subject_bytes) [
      | none ↦ (false, b)
      | some subject_str ↦
          let (parsed, b') = parse_subject b subject_str in
          elim parsed [
            | Subject.err e ↦ (false, b')
            | Subject.ok subject ↦ (can_publish auth_ctx subject, b')
          ]
    ]

abbrev pub has_active_subscriptions : BrokerCore → Bool
has_active_subscriptions b = ltb 0 b.metrics.active_subscriptions

abbrev pub router_has_wildcards : BrokerCore → Bool
router_has_wildcards b = b.router.has_wildcards

-- The loop without restrictions: the rounds left, and how many frames it has taken. The frames are
-- not looked into.
unfoldable pub drain_frames : ℕ → ℕ → Bytes → ℕ → Result ℕ × Bytes
unfolding next_frame_is_pub
drain_frames zero processed buf max_frame_size = (ok processed, buf)
drain_frames (suc rounds) processed buf max_frame_size =
    if next_frame_is_pub buf
    then (elim (peek_pub_frame_total buf max_frame_size) [
      | err e ↦ (err e, buf)
      | ok none ↦ (ok processed, buf)
      | ok (some total) ↦ drain_frames rounds (suc processed) (drop total buf) max_frame_size
    ])
    else (ok processed, buf)

abbrev pub drained : Result ℕ → Result (Bool × ℕ)
drained (ok processed) = ok (ltb 0 processed, processed)
drained (err e) = err e

module _ (H : Host) where
  open H use {Channels}

  abbrev pub send_publish_denied : ℕ → ℕ → World Channels → World Channels
  send_publish_denied conn_id correlation_id w =
      emit H conn_id (error_frame H correlation_id publish_denied) w

  -- Where the subject may not be published to, the client is told.
  abbrev pub told : ℕ → ℕ → Bool → World Channels → World Channels
  told conn_id correlation_id true w = w
  told conn_id correlation_id false w = send_publish_denied conn_id correlation_id w

  abbrev pub count_allowed : Bool → ℕ → ℕ
  count_allowed true n = suc n
  count_allowed false n = n

  -- The loop with restrictions: the rounds left, the frames taken and those of them published.
  unfoldable pub drain_checked :
      ℕ
      → ℕ
      → ℕ
      → ℕ
      → AuthContext
      → ℕ
      → Bytes × World Channels
      → Result (Bool × ℕ) × (Bytes × World Channels)
  unfolding publish_allowed
  drain_checked zero processed published conn_id auth_ctx max_frame_size (buf, w) =
      (ok (ltb 0 processed, published), (buf, w))
  drain_checked (suc rounds) processed published conn_id auth_ctx max_frame_size (buf, w) =
      if next_frame_is_pub buf
      then (elim (peek_pub_frame_layout buf max_frame_size) [
        | err e ↦ (err e, (buf, w))
        | ok none ↦ (ok (ltb 0 processed, published), (buf, w))
        | ok (some layout) ↦
            let payload_bytes = slice layout.payload_start layout.payload_end buf in
            elim (parse_publish_payload payload_bytes) [
              | err e ↦ (err e, (buf, w))
              | ok payload_layout ↦
                  let (allowed, b) =
                    publish_allowed w.broker auth_ctx
                      (range payload_layout.subject payload_bytes) in
                  drain_checked rounds (suc processed) (count_allowed allowed published) conn_id
                    auth_ctx max_frame_size
                    (
                      drop layout.total buf,
                      told conn_id layout.correlation_id allowed (record w { broker = b }),
                    )
            ]
      ])
      else (ok (ltb 0 processed, published), (buf, w))

  unfoldable pub drain_publish_batch_without_subscribers :
      ℕ → AuthContext → ℕ → Bytes × World Channels → Result (Bool × ℕ) × (Bytes × World Channels)
  unfolding drain_frames drain_checked
  drain_publish_batch_without_subscribers conn_id auth_ctx max_frame_size (buf, w) =
      if is_publish_unrestricted auth_ctx
      then (let (result, buf') = drain_frames no_sub_pub_batch_limit 0 buf max_frame_size in
          (drained result, (buf', w)))
      else drain_checked no_sub_pub_batch_limit 0 0 conn_id auth_ctx max_frame_size (buf, w)

  abbrev pub add_command : Bool → PublishCommand → List PublishCommand → List PublishCommand
  add_command true command commands = commands ++ (command ∷ [])
  add_command false command commands = commands

  -- The loop that gathers commands: the rounds left, the frames taken and the commands allowed.
  unfoldable pub gather_commands :
      ℕ
      → ℕ
      → List PublishCommand
      → ℕ
      → AuthContext
      → ℕ
      → Bytes × World Channels
      → Result (ℕ × List PublishCommand) × (Bytes × World Channels)
  unfolding publish_allowed decode_publish_command_from_buf
  gather_commands zero processed commands conn_id auth_ctx max_frame_size (buf, w) =
      (ok (processed, commands), (buf, w))
  gather_commands (suc rounds) processed commands conn_id auth_ctx max_frame_size (buf, w) =
      if next_frame_is_pub buf
      then (elim (peek_pub_frame_layout buf max_frame_size) [
        | err e ↦ (err e, (buf, w))
        | ok none ↦ (ok (processed, commands), (buf, w))
        | ok (some layout) ↦
            let (decoded, buf') = decode_publish_command_from_buf buf layout in
            elim decoded [
              | err e ↦ (err e, (buf', w))
              | ok (command, correlation_id) ↦
                  let (allowed, b) = publish_allowed w.broker auth_ctx command.subject in
                  gather_commands rounds (suc processed) (add_command allowed command commands)
                    conn_id auth_ctx max_frame_size
                    (buf', told conn_id correlation_id allowed (record w { broker = b }))
            ]
      ])
      else (ok (processed, commands), (buf, w))

  -- The commands that were gathered before an error are not dispatched.
  abbrev pub dispatched :
      Result (ℕ × List PublishCommand) → World Channels → Result (Bool × ℕ) × World Channels
  dispatched (err e) w = (err e, w)
  dispatched (ok (processed, commands)) w = (
    ok (ltb 0 processed, 0),
    if is_empty commands then w else dispatch_publish_batch H commands w,
  )

  unfoldable pub dispatch_publish_batch_from_read_buf :
      ℕ → AuthContext → ℕ → Bytes × World Channels → Result (Bool × ℕ) × (Bytes × World Channels)
  unfolding drain_publish_batch_without_subscribers gather_commands
  dispatch_publish_batch_from_read_buf conn_id auth_ctx max_frame_size (buf, w) =
      if not (has_active_subscriptions w.broker) && not (router_has_wildcards w.broker)
      then drain_publish_batch_without_subscribers conn_id auth_ctx max_frame_size (buf, w)
      else let (result, (buf', w')) =
          gather_commands pub_batch_limit 0 [] conn_id auth_ctx max_frame_size (buf, w) in
        let (r, w'') = dispatched result w' in (r, (buf', w''))
