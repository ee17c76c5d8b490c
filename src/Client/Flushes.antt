-- ===== src/Client/Flushes.antt =====
-- The flushes of crates/zetmq-client/src/connection.rs: a PONG of the server names none of them.
use zet_mq.Prelude.{ℕ, ◌≡◌, refl, ap, ◌∙◌, [], ◌∷◌, ◌++◌, Option, some, append_assoc, ==_refl}
use zet_mq.Map
use zet_mq.Map.{Map, nat_key}
use zet_mq.Protocol.Header
use zet_mq.Protocol.Frame
use zet_mq.Protocol.FrameType
use zet_mq.Protocol.Command.{from_frame, of_type}
use zet_mq.Server.Config.{ServerConfig}
use zet_mq.Server.Outbound.{Host, raw}
use zet_mq.Server.Session
use zet_mq.Server.Session.{Both, continue, reply, handle}
use zet_mq.Client.Connection.{
  Receivers, Link, reading, flush, flush_timed_out, send_frame, min_key, resolve_flush, complete,
  on_frame,
}

-- Of two flushes, of which the first is given up, the second is pending.
one_pending :
    (a b first second : ℕ) (m : Map ℕ ℕ)
    → m ≡ Map.empty
    → Map.insert b second (Map.remove a (Map.insert a first m))
      ≡ record { entries = (b, second) ∷ [] }
unfolding Map.insert Map.remove Map.empty
one_pending a b first second m none_pending =
    ap (λ m. Map.insert b second (Map.remove a (Map.insert a first m))) none_pending
    ∙ rw (==_refl a) refl

module _ (R : Receivers) where
  resolved :
      (b second : ℕ) (c : Link R)
      → c.state.pending_flush ≡ record { entries = (b, second) ∷ [] }
      → (resolve_flush R 0 c).flushed ≡ c.flushed ++ (second ∷ [])
  unfolding resolve_flush min_key Map.get
  resolved b second c pending =
      let least : min_key c.state.pending_flush.entries ≡ some b =
        ap (λ (m : Map ℕ ℕ). min_key m.entries) pending in
      let there : Map.get b c.state.pending_flush ≡ some second =
        ap (Map.get b) pending ∙ rw (==_refl b) refl in
      rw (resolve_flush, least) (ap (λ (o : Option ℕ). (complete R b o c).flushed) there)

  -- A flush that has timed out, and one that has begun since.
  abbrev pub flushed_again : ℕ → ℕ → ℕ → ℕ → Link R → Link R
  flushed_again a b first second c = flush R b second (flush_timed_out R a (flush R a first c))

  -- Let no flush of a client be pending, let a flush time out and let another begin. The client has
  -- sent two PING frames; to the first, as to any, a session of the server answers with a PONG
  -- frame whose correlation id is 0, and when such a PONG comes to the client, it completes the
  -- second flush.
  pub flush-late :
      (H : Host) (config : ServerConfig) (conn_id : ℕ) (session : Both H config conn_id)
      (a b first second : ℕ) (c : Link R)
      → c.state.pending_flush ≡ Map.empty
      → ((flushed_again a b first second c).written
          ≡ c.written ++ (Frame.new FrameType.ping a ∷ Frame.new FrameType.ping b ∷ []))
        × (Session.on_frame H config conn_id (Frame.new FrameType.ping a) session
            ≡ (continue, reply H config conn_id (raw (Frame.new FrameType.pong 0)) session))
        × ((c' : Link R) × (on_frame R
                (Frame.new FrameType.pong 0)
                (flushed_again a b first second c)
              ≡ reading c')
            × (c'.flushed ≡ c.flushed ++ (second ∷ [])))
  unfolding flush flush_timed_out send_frame on_frame Map.insert Map.remove Map.empty Frame.new
      Header.new FrameType.from_u8 FrameType.as_u8 Session.on_frame handle from_frame of_type
  flush-late H config conn_id session a b first second c none_pending = (
    append_assoc c.written (Frame.new FrameType.ping a ∷ []) (Frame.new FrameType.ping b ∷ []),
    refl,
    (
      resolve_flush R 0 (flushed_again a b first second c),
      refl,
      resolved b second (flushed_again a b first second c)
          (one_pending a b first second c.state.pending_flush none_pending),
    ),
  )
