-- ===== src/Server/Session/BeforeLogin.antt =====
-- What a session of crates/zetmq-server/src/session/handler.rs changes before its login.
use zet_mq.Prelude.{
  ℕ, ◌≡◌, refl, ◌∙◌, subst, Bool, true, false, some, ltb, Bool-cases, Option-cases, inl, inr,
}
use zet_mq.Text.{Str}
use zet_mq.Map
use zet_mq.Map.{str_key}
use zet_mq.Core.Subject
use zet_mq.Core.Subject.{Subject}
use zet_mq.Core.Metrics
use zet_mq.Core.Broker.{parse_subject, cached}
use zet_mq.Server.Config.{ServerConfig}
use zet_mq.Server.Outbound.{Host}
use zet_mq.Server.Dispatcher.{World}
use zet_mq.Server.Session.{
  Both, flush_published, process_frames, is_connected, SessionState, new_session, connected,
  draining, closed,
}
use zet_mq.Server.Session.Machine.{
  Act, send, failure, flush, add_up, look_up, login, run, batch, Acts, here, next, Run, start, acts,
  cut,
}
use zet_mq.Server.Session.Rounds.{process_frames-Run}

-- A session before its login.
abbrev pub is_new : SessionState → Bool
is_new new_session = true
is_new _ = false

not_new : (st : SessionState) → is_connected st ≡ true → is_new st ≡ true → ⊥
not_new new_session c n = cc
not_new connected c n = cc
not_new draining c n = cc
not_new closed c n = cc

module _ (H : Host) (config : ServerConfig) (conn_id : ℕ) where
  open H use {Channels}

  -- What only a session that is logged in changes.
  abbrev pub Untouched : World Channels → World Channels → Type 0
  Untouched w w' =
      (w'.broker.registry ≡ w.broker.registry)
      × (w'.broker.queue_groups ≡ w.broker.queue_groups)
      × (w'.store ≡ w.store)
      × (w'.tasks ≡ w.tasks)

  Untouched-trans :
      (w w' w'' : World Channels) → Untouched w w' → Untouched w' w'' → Untouched w w''
  Untouched-trans w w' w'' (r, q, s, t) (r', q', s', t') = (r' ∙ r, q' ∙ q, s' ∙ s, t' ∙ t)

  -- Back from a session that is new at the end.
  abbrev NewBefore : Both H config conn_id → Both H config conn_id → Type 0
  NewBefore a b = (is_new b.0.state ≡ true) → (is_new a.0.state ≡ true) × Untouched a.1 b.1

  flush-Untouched :
      (sw : Both H config conn_id)
      → ((flush_published H config conn_id sw).0.state ≡ sw.0.state)
        × Untouched sw.1 (flush_published H config conn_id sw).1
  unfolding flush_published
  flush-Untouched sw = elim (Bool-cases (ltb 0 sw.0.local_published)) [
    | inl much ↦ rw much (refl, (refl, refl, refl, refl))
    | inr nothing ↦ rw nothing (refl, (refl, refl, refl, refl))
  ]

  parse_subject-Untouched :
      (w : World Channels) (text : Str)
      → Untouched w (record w { broker = (parse_subject w.broker text).1 })
  unfolding parse_subject
  parse_subject-Untouched w text = elim (Option-cases (Map.get text w.broker.subject_cache)) [
    | inr (s, found) ↦ rw (found, parse_subject) (refl, refl, refl, refl)
    | inl missing ↦ rw (missing, parse_subject) (cached_same (Subject.parse text))
  ]
    where
      cached_same :
          (r : Subject.Result Subject) → Untouched w (record w { broker = cached text r w.broker })
      cached_same (Subject.ok s) = (refl, refl, refl, refl)
      cached_same (Subject.err e) = (refl, refl, refl, refl)

  Act-NewBefore :
      {m : Bool} {a b : Both H config conn_id} → Act H config conn_id m a b → NewBefore a b
  unfolding Metrics.inc_protocol_errors flush_published
  Act-NewBefore (send frame sw) n = (n, (refl, refl, refl, refl))
  Act-NewBefore (failure sw) n = (n, (refl, refl, refl, refl))
  Act-NewBefore (flush sw) n =
      let (state, same) = flush-Untouched sw in (subst (λ st. is_new st ≡ true) state n, same)
  Act-NewBefore (add_up k s w) n = (n, (refl, refl, refl, refl))
  Act-NewBefore (look_up text s w) n = (n, parse_subject-Untouched w text)
  Act-NewBefore (login auth ctx s w may e) n = absurd (not_new connected refl n)
  Act-NewBefore (run cmd k sw c p) n = absurd (not_new sw.0.state c n)
  Act-NewBefore (batch commands s w c) n = absurd (not_new s.state c n)

  NewBefore-trans : (a b c : Both H config conn_id) → NewBefore a b → NewBefore b c → NewBefore a c
  NewBefore-trans a b c p q n =
      let (nb, same') = q n in let (na, same) = p nb in (na, Untouched-trans a.1 b.1 c.1 same same')

  Acts-NewBefore :
      {m : Bool} {a b : Both H config conn_id} → Acts H config conn_id m a b → NewBefore a b
  Acts-NewBefore here n = (n, (refl, refl, refl, refl))
  Acts-NewBefore {a} {b} (next {sw'} r act) n =
      NewBefore-trans a sw' b (Acts-NewBefore r) (Act-NewBefore act) n

  Run-NewBefore :
      {m : Bool} {a b : Both H config conn_id} → Run H config conn_id m a b → NewBefore a b
  Run-NewBefore start n = (n, (refl, refl, refl, refl))
  Run-NewBefore {a} {b} (acts {sw'} r q) n =
      NewBefore-trans a sw' b (Run-NewBefore r) (Acts-NewBefore q) n
  Run-NewBefore (cut r k buf e) n = Run-NewBefore r n

  -- If a session is new behind the loop over the frames, that is, no login has been accepted, it
  -- was new before the loop, and the loop has left the registry of subscriptions, the queue groups,
  -- the streams with their consumers and the tasks as they were.
  pub process_frames-new :
      (fuel : ℕ) (sw sw' : Both H config conn_id)
      → process_frames H config conn_id fuel sw ≡ some sw'
      → is_new sw'.0.state ≡ true
      → (is_new sw.0.state ≡ true) × Untouched sw.1 sw'.1
  process_frames-new fuel sw sw' e n =
      Run-NewBefore (process_frames-Run H config conn_id fuel sw sw' e) n
