-- ===== src/Store/Segment/Scanning.antt =====
-- One step of `rebuild_index` of crates/zetmq-store/src/segment.rs: a record is passed over, or the
-- file ends.
use zet_mq.Prelude.{
  ℕ, suc, ◌+◌, ◌≡◌, ◌<◌, refl, ap, ◌∙◌, sym, subst, Bool, true, false, List, [], ◌∷◌, ◌++◌,
  append_assoc, append-nil, Option, none, some, arith, if◌then◌else◌, ltb, length, length-append,
  length-drop, is_empty, take, drop, slice, drop-drop, be_bytes, be_value, length-be_bytes,
  be_value-be_bytes,
}
use zet_mq.Core.Delivery.{Bytes}
use zet_mq.Store.Word.{add64}
use zet_mq.Store.Segment.File.{FileApi, FileLaws}
use zet_mq.Store.Segment.{
  StoredRecord, IndexEntry, encode, reply_bytes, then_read, Reads, read_u, scan_record, scan,
}
use zet_mq.Store.Segment.Reading.{
  IsRecord, IsReply, IsAt, Gives, read_exact-part, read_u-part, cut_at, then_read-some, parts,
  parts_lem, reply_len, length-encode,
}

module _ (F : FileApi) (laws : FileLaws F) where
  open F use {Handle, content, position, seek, skip, read_exact}

  skip-part :
      (c part rest : Bytes) (n k : ℕ) (f : Handle)
      → length part ≡ k
      → IsAt F laws c n (part ++ rest) f
      → IsAt F laws c (n + k) rest (skip k f)
  skip-part c part rest n k f e h =
      let size = length-drop n c in
      let size' = ap length h.before ∙ length-append part rest in
      record {
        holds = laws.content-skip k f ∙ h.holds;
        stands = omega (arith, laws.position-skip k f, h.stands);
        before = sym (drop-drop k n c) ∙ ap (drop k) h.before ∙ (cut_at k part rest e).1;
        within = omega (arith, size, size', e, h.within);
      }

  -- The reply with its length is passed over, and one that is not there is of length 0.
  skip_reply :
      (r : StoredRecord)
      → IsRecord r
      → (c rest : Bytes) (n : ℕ) (f : Handle) → IsAt F laws c n (reply_bytes r.reply_to ++ rest) f
      → ((read_u F 2 f).0 ≡ some (reply_len F laws r.reply_to))
        × IsAt F laws c (n + 2 + reply_len F laws r.reply_to) rest (
            if ltb 0 (reply_len F laws r.reply_to)
            then skip (reply_len F laws r.reply_to) (read_u F 2 f).1
            else (read_u F 2 f).1)
  skip_reply r good c rest n f h = at_reply r.reply_to good.reply h
    where
      at_reply :
          (o : Option (List ℕ))
          → IsReply o
          → IsAt F laws c n (reply_bytes o ++ rest) f
          → ((read_u F 2 f).0 ≡ some (reply_len F laws o))
            × IsAt F laws c (n + 2 + reply_len F laws o) rest (
                if ltb 0 (reply_len F laws o)
                then skip (reply_len F laws o) (read_u F 2 f).1
                else (read_u F 2 f).1)
      at_reply none good h =
          let (len, at) = read_u-part F laws 2 0 c rest n f (omega arith) h in
          (len, subst (λ m. IsAt F laws c m rest (read_u F 2 f).1) (omega arith) at)
      at_reply (some reply) good h =
          let (len, at) =
            read_u-part F laws 2 (length reply) c (reply ++ rest) n f (omega (arith, good.2)) (
              subst (λ l. IsAt F laws c n l f) (append_assoc (be_bytes 2 (length reply)) reply rest)
                h) in
          (len, passed (ltb 0 (length reply)) refl at)
        where
          passed :
              (b : Bool)
              → ltb 0 (length reply) ≡ b
              → IsAt F laws c (n + 2) (reply ++ rest) (read_u F 2 f).1
              → IsAt F laws c
                  (n + 2 + length reply)
                  rest
                  (if b then skip (length reply) (read_u F 2 f).1 else (read_u F 2 f).1)
          passed true e at = skip-part c reply rest (n + 2) (length reply) (read_u F 2 f).1 refl at
          passed false e at = absurd (empty_reply reply good.0 e)
            where
              empty_reply :
                  (reply : List ℕ) → is_empty reply ≡ false → ltb 0 (length reply) ≡ false → ⊥
              empty_reply [] a b = ground arith
              empty_reply (x ∷ xs) a b = ground arith

  -- A record that stands at the position of the file is passed over.
  pub scan_record-encode :
      (r : StoredRecord) (c rest : Bytes) (n : ℕ) (f : Handle)
      → IsRecord r
      → IsAt F laws c n (encode r ++ rest) f
      → Gives F laws
          (scan_record F f)
          (r.timestamp, length (encode r))
          c
          (n + length (encode r))
          rest
  unfolding scan_record parts
  scan_record-encode r c rest n f good h =
      let seq = be_bytes 8 r.sequence in
      let time = be_bytes 8 r.timestamp in
      let behind =
        be_bytes 2 (length r.subject)
        ++ (r.subject
            ++ (reply_bytes r.reply_to
                ++ (be_bytes 4 (length r.payload) ++ (r.payload ++ rest)))) in
      let start =
        subst (λ l. IsAt F laws c n l f)
          (parts_lem F laws r rest ∙ sym (append_assoc seq time behind)) h in
      let width : length (seq ++ time) ≡ 16 = omega (
        arith,
        length-append seq time,
        length-be_bytes 8 r.sequence,
        length-be_bytes 8 r.timestamp,
      ) in
      let (header, at1) = read_exact-part F laws 16 c (seq ++ time) behind n f width start in
      let f1 = (read_exact 16 f).1 in
      let (len, at2) =
        read_u-part F laws 2 (length r.subject) c _ (n + 16) f1 (omega (arith, good.subject.1))
          at1 in
      let f2 = skip (length r.subject) (read_u F 2 f1).1 in
      let at3 =
        skip-part c r.subject _ (n + 16 + 2) (length r.subject) (read_u F 2 f1).1 refl at2 in
      let (rlen, at4) = skip_reply r good c _ (n + 16 + 2 + length r.subject) f2 at3 in
      let rl = reply_len F laws r.reply_to in
      let f3 = if ltb 0 rl then skip rl (read_u F 2 f2).1 else (read_u F 2 f2).1 in
      let (plen, at5) =
        read_u-part F laws 4 (length r.payload) c (r.payload ++ rest) _ f3
          (omega (arith, good.payload)) at4 in
      let f4 = skip (length r.payload) (read_u F 4 f3).1 in
      let at6 = skip-part c r.payload rest _ (length r.payload) (read_u F 4 f3).1 refl at5 in
      let timestamp : be_value (slice 8 16 (seq ++ time)) ≡ r.timestamp =
        ap (λ b. be_value (take 8 b))
          ((cut_at 8 seq time (length-be_bytes 8 r.sequence)).1 ∙ sym (append-nil time))
        ∙ ap be_value (cut_at 8 time [] (length-be_bytes 8 r.timestamp)).0
        ∙ be_value-be_bytes 8 r.timestamp (omega (arith, good.timestamp)) in
      let size : 8 + 8 + 2 + length r.subject + 2 + rl + 4 + length r.payload ≡ length (encode r) =
        omega (arith, length-encode F laws r) in
      let result : scan_record F f ≡ (
        some (
          be_value (slice 8 16 (seq ++ time)),
          8 + 8 + 2 + length r.subject + 2 + rl + 4 + length r.payload,
        ),
        f4,
      ) =
        then_read-some F laws (read_exact 16 f) (seq ++ time) _ header
        ∙ then_read-some F laws (read_u F 2 f1) (length r.subject) _ len
        ∙ then_read-some F laws (read_u F 2 f2) rl _ rlen
        ∙ then_read-some F laws (read_u F 4 f3) (length r.payload) _ plen in
      let shape : ◌≡◌ {A = Option (ℕ × ℕ)}
          (some (
            be_value (slice 8 16 (seq ++ time)),
            8 + 8 + 2 + length r.subject + 2 + rl + 4 + length r.payload,
          ))
          (some (r.timestamp, length (encode r))) =
        rw (timestamp, size) refl in
      subst
        (λ (x : Option (ℕ × ℕ) × Handle).
          Gives F laws x (r.timestamp, length (encode r)) c (n + length (encode r)) rest)
        (sym result) (shape, subst (λ m. IsAt F laws c m rest f4) (omega (arith, size)) at6)

  then_ends :
      {A B : Type 0} (r : Option A × Handle) (next : A → Reads F B)
      → r.0 ≡ none
      → then_read F r next ≡ (none, r.1)
  then_ends (none, f) next e = refl
  then_ends (some x, f) next e = absurd (some_none e)
    where
      some_none : some x ≡ none → ⊥
      some_none e = ground arith

  -- The end of the file ends the scan.
  pub scan_record-end :
      (c : Bytes) (n : ℕ) (f : Handle)
      → IsAt F laws c n [] f
      → (scan_record F f ≡ (none, (read_exact 16 f).1))
        × (content (read_exact 16 f).1 ≡ c)
        × (position (read_exact 16 f).1 ≡ length c)
        × (n ≡ length c)
  unfolding scan_record
  scan_record-end c n f h =
      let end : n ≡ length c = omega (arith, ap length h.before, length-drop n c, h.within) in
      let over : length (content f) < position f + 16 =
        omega (arith, ap length h.holds, h.stands, end) in
      let (same, stands) =
        laws.read_exact-end 16 f over (omega (arith, ap length h.holds, h.stands, end)) in
      (
        then_ends (read_exact 16 f) _ (laws.read_exact-beyond 16 f over),
        same ∙ h.holds,
        stands ∙ ap length h.holds,
        end,
      )

  pub scan-none :
      (fuel offset : ℕ) (index : List IndexEntry) (f f' : Handle)
      → scan_record F f ≡ (none, f')
      → scan F (suc fuel) offset index f ≡ some (index, offset, f')
  unfolding scan
  scan-none fuel offset index f f' e =
      rw (scan, e) (ap (λ (r : Option (ℕ × ℕ) × Handle). some (index, offset, r.1)) e)

  pub scan-some :
      (fuel offset timestamp size : ℕ) (index : List IndexEntry) (f : Handle)
      → (scan_record F f).0 ≡ some (timestamp, size)
      → scan F (suc fuel) offset index f
        ≡ scan F fuel
            (add64 offset size)
            (index ++ (record { offset = offset; timestamp = timestamp }) ∷ [])
            (scan_record F f).1
  unfolding scan
  scan-some fuel offset timestamp size index f e = rw (scan, e) refl
