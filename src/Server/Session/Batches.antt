-- ===== src/Server/Session/Batches.antt =====
-- The PUB frames that crates/zetmq-server/src/session/handler.rs takes in a batch, and one round of
-- its loop over the frames, as transitions of a session.
use zet_mq.Prelude.{
  ℕ, zero, suc, ◌≡◌, Bool, true, false, List, [], ◌&&◌, not, leb, is_empty, drop, take, slice,
  Bool-cases, Option-cases, inl, inr,
}
use zet_mq.Text.{from_utf8}
use zet_mq.Core.Delivery.{Bytes}
use zet_mq.Core.Broker.{parse_subject}
use zet_mq.Core.Broker.Quiet.{Parsed-cases}
use zet_mq.Store.Word.{add64}
use zet_mq.Protocol.Error.{Result, ok, err}
use zet_mq.Protocol.Command.{PublishCommand}
use zet_mq.Server.Config.{ServerConfig}
use zet_mq.Server.Auth.{AuthContext, is_publish_unrestricted}
use zet_mq.Server.Outbound.{Host}
use zet_mq.Server.Dispatcher.{World}
use zet_mq.Server.Session.{
  Session, Both, is_connected, on_batch, fast_path, add_published, process_one,
  local_published_flush_threshold,
}
use zet_mq.Server.Session.Layout.{
  range, next_frame_is_pub, peek_pub_frame_layout, parse_publish_payload, with_id,
  decode_frame_bytes, decode_publish_command_from_buf,
}
use zet_mq.Server.Session.Publishing.{
  publish_allowed, told, count_allowed, add_command, drain_checked, gather_commands, dispatched,
  drain_publish_batch_without_subscribers, dispatch_publish_batch_from_read_buf,
  has_active_subscriptions, router_has_wildcards, pub_batch_limit, no_sub_pub_batch_limit,
}
use zet_mq.Server.Session.Progress.{peek_cases, Result-cases}
use zet_mq.Server.Session.Fronts.{dispatch_batch-Behind}
use zet_mq.Server.Session.Machine.{
  Acts, here, next, Acts-trans, send, failure, flush, add_up, look_up, batch, Run, start, acts, cut,
  emptied, Run-trans, slow_path-Run,
}

module _ (H : Host) (config : ServerConfig) (conn_id : ℕ) where
  open H use {Channels}

  -- The session stays, and what is shared moves on.
  abbrev Shared : Bool → Session → World Channels → World Channels → Type 0
  Shared m s w w' = Acts H config conn_id m (s, w) (s, w')

  publish_allowed-Shared :
      {m : Bool} (s : Session) (w : World Channels) (ctx : AuthContext) (subject : Bytes)
      → Shared m s w (record w { broker = (publish_allowed w.broker ctx subject).1 })
  unfolding publish_allowed
  publish_allowed-Shared s w ctx subject = elim (Bool-cases (is_publish_unrestricted ctx)) [
    | inl free ↦ rw free here
    | inr restricted ↦ elim (Option-cases (from_utf8 subject)) [
      | inl bad ↦ rw (restricted, bad, publish_allowed) here
      | inr (text, good) ↦ elim (Parsed-cases (parse_subject w.broker text).0) [
        | inl (parsed, e) ↦ rw (restricted, good, publish_allowed, e) (next here (look_up text s w))
        | inr (why, e) ↦ rw (restricted, good, publish_allowed, e) (next here (look_up text s w))
      ]
    ]
  ]

  told-Shared :
      {m : Bool} (allowed : Bool) (s : Session) (w : World Channels) (n : ℕ)
      → Shared m s w (told H conn_id n allowed w)
  told-Shared true s w n = here
  told-Shared false s w n = next here (send _ (s, w))

  drain_checked-Shared :
      {m : Bool} (rounds processed published : ℕ) (ctx : AuthContext) (max : ℕ) (buf : Bytes)
      (s : Session) (w : World Channels)
      → Shared m s w (drain_checked H rounds processed published conn_id ctx max (buf, w)).1.1
  unfolding drain_checked
  drain_checked-Shared zero processed published ctx max buf s w = here
  drain_checked-Shared (suc rounds) processed published ctx max buf s w =
      elim (Bool-cases (next_frame_is_pub buf)) [
        | inr other ↦ rw other here
        | inl is_pub ↦ elim (peek_cases (peek_pub_frame_layout buf max)) [
          | inl partial ↦ rw (is_pub, partial) here
          | inr (inr (e, bad)) ↦ rw (is_pub, bad) here
          | inr (inl (layout, found)) ↦
              elim (Result-cases
                (parse_publish_payload (slice layout.payload_start layout.payload_end buf))) [
                  | inr (e, bad) ↦ rw (is_pub, found, bad) here
                  | inl (payload, good) ↦
                      let subject =
                        range payload.subject (slice layout.payload_start layout.payload_end buf) in
                      let (allowed, b) = publish_allowed w.broker ctx subject in
                      let w' =
                        told H conn_id layout.correlation_id allowed (record w { broker = b }) in
                      rw (is_pub, found, good)
                        (Acts-trans H config conn_id (publish_allowed-Shared s w ctx subject) (
                          Acts-trans H config conn_id
                            (told-Shared allowed s (record w { broker = b }) layout.correlation_id)
                            (drain_checked-Shared rounds (suc processed)
                              (count_allowed H allowed published) ctx max (drop layout.total buf) s
                              w')))
                ]
        ]
      ]

  gather_commands-Shared :
      {m : Bool} (rounds processed : ℕ) (commands : List PublishCommand) (ctx : AuthContext)
      (max : ℕ) (buf : Bytes) (s : Session) (w : World Channels)
      → Shared m s w (gather_commands H rounds processed commands conn_id ctx max (buf, w)).1.1
  unfolding gather_commands decode_publish_command_from_buf
  gather_commands-Shared zero processed commands ctx max buf s w = here
  gather_commands-Shared (suc rounds) processed commands ctx max buf s w =
      elim (Bool-cases (next_frame_is_pub buf)) [
        | inr other ↦ rw other here
        | inl is_pub ↦ elim (peek_cases (peek_pub_frame_layout buf max)) [
          | inl partial ↦ rw (is_pub, partial) here
          | inr (inr (e, bad)) ↦ rw (is_pub, bad) here
          | inr (inl (layout, found)) ↦
              elim (Result-cases (
                with_id layout.correlation_id
                  (decode_frame_bytes (take layout.total buf) layout))) [
                    | inr (e, bad) ↦ rw (is_pub, found, bad) here
                    | inl ((command, n), good) ↦
                        let (allowed, b) = publish_allowed w.broker ctx command.subject in
                        let w' = told H conn_id n allowed (record w { broker = b }) in
                        rw (is_pub, found, good)
                          (Acts-trans H config conn_id
                            (publish_allowed-Shared s w ctx command.subject)
                            (Acts-trans H config conn_id
                              (told-Shared allowed s (record w { broker = b }) n)
                              (gather_commands-Shared rounds (suc processed)
                                (add_command H allowed command commands) ctx max
                                (drop layout.total buf) s w')))
                  ]
        ]
      ]

  dispatched-Shared :
      {m : Bool} (x : Result (ℕ × List PublishCommand)) (s : Session) (w : World Channels)
      → is_connected s.state ≡ true
      → Shared m s w (dispatched H x w).1
  dispatched-Shared (err e) s w c = here
  dispatched-Shared (ok (processed, commands)) s w c = elim (Bool-cases (is_empty commands)) [
    | inl nothing ↦ rw nothing here
    | inr some_commands ↦ rw some_commands (next here (batch commands s w c))
  ]

  dispatch_batch-Shared :
      {m : Bool} (ctx : AuthContext) (max : ℕ) (buf : Bytes) (s : Session) (w : World Channels)
      → is_connected s.state ≡ true
      → Shared m s w (dispatch_publish_batch_from_read_buf H conn_id ctx max (buf, w)).1.1
  unfolding dispatch_publish_batch_from_read_buf drain_publish_batch_without_subscribers
  dispatch_batch-Shared ctx max buf s w c =
      elim (Bool-cases
        (not (has_active_subscriptions w.broker) && not (router_has_wildcards w.broker))) [
          | inr subscribed ↦ rw subscribed (
              Acts-trans H config conn_id
                (gather_commands-Shared pub_batch_limit 0 [] ctx max buf s w)
                (dispatched-Shared
                  (gather_commands H pub_batch_limit 0 [] conn_id ctx max (buf, w)).0 s _ c))
          | inl nobody ↦ elim (Bool-cases (is_publish_unrestricted ctx)) [
            | inl free ↦ rw (nobody, free) here
            | inr restricted ↦
                rw (nobody, restricted)
                  (drain_checked-Shared no_sub_pub_batch_limit 0 0 ctx max buf s w)
          ]
        ]

  pub add_published-Acts :
      {m : Bool} (n : ℕ) (sw : Both H config conn_id)
      → Acts H config conn_id m sw (add_published H config conn_id n sw)
  add_published-Acts n sw =
      let s' = record sw.0 { local_published = add64 sw.0.local_published n } in
      let added : Acts H config conn_id _ sw (s', sw.1) = next here (add_up n sw.0 sw.1) in
      elim (Bool-cases (leb local_published_flush_threshold (add64 sw.0.local_published n))) [
        | inl much ↦ rw much (next added (flush (s', sw.1)))
        | inr little ↦ rw little added
      ]

  on_batch-Run :
      {m : Bool} (r : Result (Bool × ℕ)) (sw : Both H config conn_id)
      → Run H config conn_id m sw (on_batch H config conn_id r sw).1
  on_batch-Run (ok (true, n)) sw = acts start (add_published-Acts n sw)
  on_batch-Run (ok (false, n)) sw = start
  on_batch-Run (err e) sw =
      acts (emptied H config conn_id start) (next (next here (failure _)) (send _ _))

  pub fast_path-Run :
      {m : Bool} (sw : Both H config conn_id)
      → is_connected sw.0.state ≡ true
      → Run H config conn_id m sw (fast_path H config conn_id sw).1
  unfolding fast_path
  fast_path-Run sw c =
      let x =
        dispatch_publish_batch_from_read_buf H conn_id sw.0.auth_ctx config.max_frame_size
          (sw.0.read_buf, sw.1) in
      let (n, e) =
        dispatch_batch-Behind H conn_id sw.0.auth_ctx config.max_frame_size sw.0.read_buf sw.1 in
      let moved =
        cut
          (acts start
            (dispatch_batch-Shared sw.0.auth_ctx config.max_frame_size sw.0.read_buf sw.0 sw.1 c))
          n x.1.0 e in
      Run-trans H config conn_id moved (on_batch-Run x.0 (record sw.0 { read_buf = x.1.0 }, x.1.1))

  pub process_one-Run :
      (sw : Both H config conn_id)
      → Run H config conn_id true sw (process_one H config conn_id sw).1
  unfolding process_one
  process_one-Run sw = elim (Bool-cases (is_connected sw.0.state)) [
    | inr c ↦ rw c (slow_path-Run H config conn_id sw)
    | inl c ↦ elim (Bool-cases (next_frame_is_pub sw.0.read_buf)) [
      | inr other ↦ rw (c, other) (slow_path-Run H config conn_id sw)
      | inl is_pub ↦ rw (c, is_pub) (fast_path-Run sw c)
    ]
  ]
