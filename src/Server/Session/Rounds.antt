-- ===== src/Server/Session/Rounds.antt =====
-- The loop over the frames in crates/zetmq-server/src/session/handler.rs.
use zet_mq.Prelude.{
  ℕ, true, zero, suc, ◌≡◌, ◌⊎◌, ◌<◌, refl, ◌∙◌, sym, subst, none, some, arith, length, inl, inr,
}
use zet_mq.Server.Config.{ServerConfig}
use zet_mq.Server.Outbound.{Host}
use zet_mq.Server.Session.{Both, Flow, continue, break, process_one, process_frames}
use zet_mq.Server.Session.Machine.{Run, Run-trans}
use zet_mq.Server.Session.Batches.{process_one-Run}
use zet_mq.Server.Session.Shrinking.{Smaller, process_one-Smaller}

module _ (H : Host) (config : ServerConfig) (conn_id : ℕ) where
  open H use {Channels}

  pub Flow-cases : (f : Flow) → (f ≡ continue) ⊎ (f ≡ break)
  Flow-cases continue = inl refl
  Flow-cases break = inr refl

  pub going_on :
      (fuel : ℕ) (sw : Both H config conn_id)
      → (process_one H config conn_id sw).0 ≡ continue
      → process_frames H config conn_id (suc fuel) sw
        ≡ process_frames H config conn_id fuel (process_one H config conn_id sw).1
  unfolding process_frames
  going_on fuel sw on = rw (on, process_frames) refl

  pub coming_to_end :
      (fuel : ℕ) (sw : Both H config conn_id)
      → (process_one H config conn_id sw).0 ≡ break
      → process_frames H config conn_id (suc fuel) sw ≡ some (process_one H config conn_id sw).1
  unfolding process_frames
  coming_to_end fuel sw over = rw (over, process_frames) refl

  pub process_frames-Run :
      (fuel : ℕ) (sw sw' : Both H config conn_id)
      → process_frames H config conn_id fuel sw ≡ some sw'
      → Run H config conn_id true sw sw'
  unfolding process_frames
  process_frames-Run zero sw sw' h = elim (none_some h) [ ]
    where
      none_some : none ≡ some sw' → ⊥
      none_some h = ground arith
  process_frames-Run (suc fuel) sw sw' h =
      let rest = process_frames-Run fuel (process_one H config conn_id sw).1 sw' in
      let one = process_one-Run H config conn_id sw in
      elim (Flow-cases (process_one H config conn_id sw).0) [
        | inl on ↦ Run-trans H config conn_id one (rest (sym (going_on fuel sw on) ∙ h))
        | inr over ↦
            subst (λ x. Run H config conn_id true sw x)
              (some_inj (sym (coming_to_end fuel sw over) ∙ h)) one
      ]
    where
      some_inj : {a b : Both H config conn_id} → some a ≡ some b → a ≡ b
      some_inj h = cc

  -- The loop over the frames in the read buffer comes to its end, with one round more than there
  -- are bytes as fuel, whatever the bytes are and whatever the channels do: each round that goes on
  -- has taken bytes out of the buffer.
  pub process_frames-total :
      (fuel : ℕ) (sw : Both H config conn_id)
      → length sw.0.read_buf < fuel
      → (sw' : Both H config conn_id) × (process_frames H config conn_id fuel sw ≡ some sw')
  process_frames-total zero sw h = absurd (omega arith)
  process_frames-total (suc fuel) sw h = elim (Flow-cases (process_one H config conn_id sw).0) [
    | inr over ↦ ((process_one H config conn_id sw).1, coming_to_end fuel sw over)
    | inl on ↦
        let (sw', e) = process_frames-total fuel (process_one H config conn_id sw).1 (
          smaller (process_one H config conn_id sw) (length sw.0.read_buf) fuel on
            (process_one-Smaller H config conn_id sw) h) in
        (sw', going_on fuel sw on ∙ e)
  ]
    where
      smaller :
          (x : Flow × Both H config conn_id) (n fuel : ℕ)
          → x.0 ≡ continue
          → Smaller H config conn_id x n
          → n < suc fuel
          → length x.1.0.read_buf < fuel
      smaller (continue, sw) n fuel e h le = omega arith
      smaller (break, sw) n fuel e h le = absurd (no_break e)
        where
          no_break : break ≡ continue → ⊥
          no_break h = ground arith
