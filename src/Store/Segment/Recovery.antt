-- ===== src/Store/Segment/Recovery.antt =====
-- `open` of crates/zetmq-store/src/segment.rs on a file of records: the index that it rebuilds.
use zet_mq.Prelude.{
  ℕ, zero, suc, ◌+◌, ◌-◌, ◌≡◌, ◌≤◌, ◌<◌, refl, ap, ◌∙◌, sym, subst, true, false, List, [], ◌∷◌,
  ◌++◌, append_assoc, append-nil, Option, none, some, arith, ltb, length, length-append,
  length-drop, drop, drop-drop, get_elem?, All,
}
use zet_mq.Core.Delivery.{Bytes}
use zet_mq.Core.Metrics.{u64_mod}
use zet_mq.Store.Segment.File.{FileApi, FileLaws}
use zet_mq.Store.Segment.{
  StoredRecord, IndexEntry, Segment, found, encode, read, scan_record, scan, indexed, rebuild_index,
  open_segment,
}
use zet_mq.Store.Segment.Reading.{IsRecord, IsAt, cut_at, length-encode}
use zet_mq.Store.Segment.Overwrite.{read_found}
use zet_mq.Store.Segment.Scanning.{scan_record-encode, scan_record-end, scan-none, scan-some}

-- The bytes of some records.
unfoldable pub joined : List StoredRecord → Bytes
joined [] = []
joined (r ∷ rs) = encode r ++ joined rs

-- The entries of records that stand one behind the other.
unfoldable pub entries : ℕ → List StoredRecord → List IndexEntry
entries n [] = []
entries n (r ∷ rs) =
    record { offset = n; timestamp = r.timestamp } ∷ entries (n + length (encode r)) rs

module _ (F : FileApi) (laws : FileLaws F) where
  open F use {Handle, content, position, seek, skip, read_exact}

  length-joined :
      (r : StoredRecord) (rs : List StoredRecord) → length (joined rs) < length (joined (r ∷ rs))
  unfolding joined
  length-joined r rs = omega (arith, length-append (encode r) (joined rs), length-encode F laws r)

  -- The scan of the records behind the position of the file.
  scan-joined :
      (rs : List StoredRecord) (fuel : ℕ) (c : Bytes) (n : ℕ) (index : List IndexEntry) (f : Handle)
      → All IsRecord rs
      → length c < u64_mod
      → length (joined rs) < fuel
      → IsAt F laws c n (joined rs) f
      → (f' : Handle) × (scan F fuel n index f ≡ some (index ++ entries n rs, length c, f'))
        × (content f' ≡ c)
        × (position f' ≡ length c)
  unfolding scan joined entries
  scan-joined rs zero c n index f good room enough h = absurd (omega arith)
  scan-joined [] (suc fuel) c n index f good room enough h =
      let (ends, same, stands, end) = scan_record-end F laws c n f h in
      (
        (read_exact 16 f).1,
        scan-none F laws fuel n index f (read_exact 16 f).1 ends
            ∙ shape index (append-nil index) end,
        same,
        stands,
      )
    where
      shape :
          (index : List IndexEntry)
          → index ++ [] ≡ index
          → n ≡ length c
          → ◌≡◌ {A = Option (List IndexEntry × ℕ × Handle)}
              (some (index, n, (read_exact 16 f).1))
              (some (index ++ [], length c, (read_exact 16 f).1))
      shape index e end = rw (e, end) refl
  scan-joined (r ∷ rs) (suc fuel) c n index f (one, good) room enough h =
      let (passed, at) = scan_record-encode F laws r c (joined rs) n f one h in
      let f1 = (scan_record F f).1 in
      let entry : IndexEntry = record { offset = n; timestamp = r.timestamp } in
      let (f', rest, same, stands) =
        scan-joined rs fuel c (n + length (encode r)) (index ++ entry ∷ []) f1 good room
          (omega (arith, length-joined r rs)) at in
      (
        f',
        scan-some F laws fuel n r.timestamp (length (encode r)) index f passed
            ∙ ap (λ offset. scan F fuel offset (index ++ entry ∷ []) f1) (omega (arith, at.within))
            ∙ rest
            ∙ ap (λ (is : List IndexEntry). some (is, length c, f'))
                (append_assoc index (entry ∷ []) (entries (n + length (encode r)) rs)),
        same,
        stands,
      )

  -- Where a record stands, by its place among the records.
  entry-at :
      (rs : List StoredRecord) (i : ℕ) (r : StoredRecord) (c : Bytes) (n : ℕ)
      → get_elem? rs i ≡ some r
      → drop n c ≡ joined rs
      → n ≤ length c
      → (e : IndexEntry) × (rest : Bytes) × (get_elem? (entries n rs) i ≡ some e)
        × (e.offset ≤ length c)
        × (drop e.offset c ≡ encode r ++ rest)
  unfolding joined entries
  entry-at [] i r c n there before within = absurd (none_some there)
    where
      none_some : none ≡ some r → ⊥
      none_some e = ground arith
  entry-at (q ∷ rs) zero r c n there before within = (
    record { offset = n; timestamp = q.timestamp },
    joined rs,
    refl,
    within,
    before ∙ ap (λ (x : StoredRecord). encode x ++ joined rs) (same there),
  )
    where
      same : some q ≡ some r → q ≡ r
      same e = cc
  entry-at (q ∷ rs) (suc i) r c n there before within =
      entry-at rs i r c (n + length (encode q)) there
        (sym (drop-drop (length (encode q)) n c)
          ∙ ap (drop (length (encode q))) before
          ∙ (cut_at (length (encode q)) (encode q) (joined rs) refl).1)
        (omega (arith, length-drop n c, ap length before, length-append (encode q) (joined rs)))

  length-entries : (n : ℕ) (rs : List StoredRecord) → length (entries n rs) ≡ length rs
  unfolding entries
  length-entries n [] = refl
  length-entries n (r ∷ rs) = ap suc (length-entries (n + length (encode r)) rs)

  get_elem?-IsRecord :
      (rs : List StoredRecord) (i : ℕ) (r : StoredRecord)
      → All IsRecord rs
      → get_elem? rs i ≡ some r
      → IsRecord r
  get_elem?-IsRecord [] i r good there = absurd (none_some there)
    where
      none_some : none ≡ some r → ⊥
      none_some e = ground arith
  get_elem?-IsRecord (q ∷ rs) zero r (one, good) there = subst IsRecord (same there) one
    where
      same : some q ≡ some r → q ≡ r
      same e = cc
  get_elem?-IsRecord (q ∷ rs) (suc i) r (one, good) there = get_elem?-IsRecord rs i r good there

  -- Let a file hold good records one behind the other, in fewer than 2^64 bytes. A segment that is
  -- opened on it counts the records and their bytes, stands at the end of the file, and finds the
  -- i-th of the records under the base sequence plus i. The file keeps to the laws of seeks, writes
  -- and reads.
  pub read-open_segment :
      (file : Handle) (rs : List StoredRecord) (base : ℕ)
      → content file ≡ joined rs
      → All IsRecord rs
      → length (joined rs) < u64_mod
      → (s : Segment F) × (open_segment F file true base ≡ some s)
        × (length s.index ≡ length rs)
        × (s.bytes_written ≡ length (content s.file))
        × (position s.file ≡ length (content s.file))
        × ((i : ℕ) (r : StoredRecord) → get_elem? rs i ≡ some r → (read F s (base + i)).0 ≡ found r)
  unfolding open_segment rebuild_index
  read-open_segment file rs base holds good room =
      let c = joined rs in
      let f = seek 0 file in
      let at : IsAt F laws c 0 c f = record {
        holds = laws.content-seek 0 file ∙ holds;
        stands = laws.position-seek 0 file;
        before = refl;
        within = omega arith;
      } in
      let (f', scanned, same, stands) =
        scan-joined rs (suc (length c)) c 0 [] f good room (omega arith) at in
      let blank : Segment F = record {
        file = file;
        index = [];
        base_sequence = base;
        bytes_written = 0;
      } in
      let s : Segment F = record {
        file = f';
        index = entries 0 rs;
        base_sequence = base;
        bytes_written = length c;
      } in
      (
        s,
        ap (λ (b : Bytes). indexed F blank (scan F (suc (length b)) 0 [] f)) holds
            ∙ ap (indexed F blank) scanned,
        length-entries 0 rs,
        ap length (sym same),
        stands ∙ ap length (sym same),
        λ i r there.
            let (e, rest, entry, within, here) = entry-at rs i r c 0 there refl (omega arith) in
            let from : ltb (base + i) base ≡ false = ground arith in
            let index : base + i - base ≡ i = omega arith in
            (read_found F laws s (base + i) e r rest
              (simp from (ap (get_elem? (entries 0 rs)) index ∙ entry))
              (omega (arith, within, ap length same)) (ap (drop e.offset) same ∙ here)
              (get_elem?-IsRecord rs i r good there)).0,
      )
