-- ===== src/Store/Segment/Overwrite.antt =====
-- Where `append` of crates/zetmq-store/src/segment.rs writes: at the position of the file, which a
-- read moves.
use zet_mq.Prelude.{
  ℕ, zero, suc, ◌+◌, ◌-◌, ◌%◌, ◌≡◌, ◌≤◌, ◌<◌, refl, ap, ◌∙◌, sym, false, List, [], ◌∷◌, ◌++◌,
  append-nil, Option, none, some, arith, ltb, length, length-append, length-drop, length-take,
  take-all, take, drop, drop-drop, drop-append, get_elem?,
}
use zet_mq.Text.{Str}
use zet_mq.Core.Delivery.{Bytes}
use zet_mq.Core.Metrics.{u64_mod}
use zet_mq.Store.Segment.File.{FileApi, FileLaws}
use zet_mq.Store.Segment.{
  StoredRecord, IndexEntry, Segment, cut_off, found, encode, record_of, append, read, entry_at,
  result_of, Reads, then_read, read_u, read_record,
}
use zet_mq.Store.Segment.Reading.{IsRecord, IsAt, read_record-encode}

get_elem?-last :
    (xs : List IndexEntry) (x : IndexEntry) → get_elem? (xs ++ x ∷ []) (length xs) ≡ some x
get_elem?-last [] x = refl
get_elem?-last (y ∷ xs) x = get_elem?-last xs x

drop_all : (n : ℕ) (xs : Bytes) → length xs ≤ n → drop n xs ≡ []
drop_all zero [] h = refl
drop_all zero (x ∷ xs) h = ground arith
drop_all (suc n) [] h = refl
drop_all (suc n) (x ∷ xs) h = drop_all n xs (omega arith)

module _ (F : FileApi) (laws : FileLaws F) where
  open F use {Handle, content, position, seek, write_all, read_exact}

  pub then_read-none :
      {A B : Type 0} (r : Option A × Handle) (next : A → Reads F B)
      → r.0 ≡ none
      → (then_read F r next).0 ≡ none
  then_read-none (none, f) next e = refl
  then_read-none (some x, f) next e = cc

  record_beyond : (f : Handle) → (read_exact 8 f).0 ≡ none → (read_record F f).0 ≡ none
  unfolding read_record read_u
  record_beyond f e = then_read-none _ _ (then_read-none (read_exact 8 f) _ e)

  -- The bytes written are those of the file, and a next sequence number is left.
  pub record IsSegment (s : Segment F) : Type 0 where
    pub written : s.bytes_written ≡ length (content s.file)
    pub room : s.base_sequence + length s.index < u64_mod

  module _ (s : Segment F) (h : IsSegment s) (subject : Str) (reply_to : Option Str)
      (payload : Bytes) (timestamp : ℕ) where
    abbrev new_record : StoredRecord
    new_record = record_of F s subject reply_to payload timestamp

    abbrev after : ℕ × Segment F
    after = append F s subject reply_to payload timestamp

    entry-append :
        entry_at F after.1 after.0
        ≡ some (record { offset = s.bytes_written; timestamp = timestamp })
    unfolding append
    entry-append =
        let e : IndexEntry = record { offset = s.bytes_written; timestamp = timestamp } in
        let seq = (s.base_sequence + length s.index) % u64_mod in
        let from : ltb seq s.base_sequence ≡ false = ground (arith, h.room) in
        let last : seq - s.base_sequence ≡ length s.index = omega (arith, h.room) in
        simp from (ap (get_elem? (s.index ++ e ∷ [])) last ∙ get_elem?-last s.index e)

    read-after :
        (read F after.1 after.0).0
        ≡ result_of F (read_record F (seek s.bytes_written after.1.file)).0
    unfolding read
    read-after = rw (entry-append, read) refl

    -- Let a segment have written as many bytes as its file holds, with a number left, and let the
    -- file stand at its end. A record that is appended, whose texts are UTF-8, whose lengths and
    -- numbers fit their widths and whose reply is not empty, is found under the number it was
    -- given. The file keeps to the laws of seeks, writes and reads.
    pub read-append :
        position s.file ≡ length (content s.file)
        → IsRecord new_record
        → (read F after.1 after.0).0 ≡ found new_record
    unfolding append
    read-append end good =
        let c = content s.file in
        let grown : content after.1.file ≡ c ++ encode new_record =
          laws.content-write_all (encode new_record) s.file (omega (arith, end))
          ∙ ap (λ p. take p c ++ (encode new_record ++ drop (p + length (encode new_record)) c)) end
          ∙ ap (λ l. l ++ (encode new_record ++ drop (length c + length (encode new_record)) c))
              (take-all c)
          ∙ ap (λ l. c ++ (encode new_record ++ l))
              (drop_all (length c + length (encode new_record)) c (omega arith))
          ∙ ap (λ l. c ++ l) (append-nil (encode new_record)) in
        let f = seek s.bytes_written after.1.file in
        let at : IsAt F laws (c ++ encode new_record) (length c) (encode new_record ++ []) f =
          record {
            holds = laws.content-seek s.bytes_written after.1.file ∙ grown;
            stands = laws.position-seek s.bytes_written after.1.file ∙ h.written;
            before = drop-append c (encode new_record) ∙ sym (append-nil (encode new_record));
            within = omega (arith, length-append c (encode new_record));
          } in
        read-after
        ∙ ap (result_of F)
            (read_record-encode F laws new_record (c ++ encode new_record) [] (length c) f good
              at).0

    -- Where the file stands further in front, by the size of the record or more, the record that is
    -- appended is written over others, and a read of its number meets the end of the file.
    pub read-overwritten :
        position s.file + length (encode new_record) ≤ length (content s.file)
        → (length (content after.1.file) ≡ length (content s.file))
          × ((read F after.1 after.0).0 ≡ cut_off)
    unfolding append
    read-overwritten front =
        let c = content s.file in
        let p = position s.file in
        let buf = encode new_record in
        let size : length (content after.1.file) ≡ length c =
          ap length (laws.content-write_all buf s.file (omega (arith, front)))
          ∙ length-append (take p c) (buf ++ drop (p + length buf) c)
          ∙ omega (
            arith,
            front,
            length-append buf (drop (p + length buf) c),
            length-take p c,
            length-drop (p + length buf) c,
          ) in
        let f = seek s.bytes_written after.1.file in
        let short = laws.read_exact-beyond 8 f (
          omega (
            arith,
            ap length (laws.content-seek s.bytes_written after.1.file),
            laws.position-seek s.bytes_written after.1.file,
            h.written,
            size,
          )) in
        (size, read-after ∙ ap (result_of F) (record_beyond f short))

  append-written :
      (s : Segment F) (subject : Str) (reply_to : Option Str) (payload : Bytes) (timestamp : ℕ)
      (c : Bytes) (p : ℕ) (rest : Bytes)
      → IsAt F laws c p rest s.file
      → length (encode (record_of F s subject reply_to payload timestamp)) ≤ length rest
      → content (append F s subject reply_to payload timestamp).1.file
        ≡ take p c
          ++ (encode (record_of F s subject reply_to payload timestamp)
              ++ drop (length (encode (record_of F s subject reply_to payload timestamp))) rest)
  unfolding append
  append-written s subject reply_to payload timestamp c p rest at fits =
      let buf = encode (record_of F s subject reply_to payload timestamp) in
      let behind : drop (p + length buf) c ≡ drop (length buf) rest =
        sym (drop-drop (length buf) p c) ∙ ap (drop (length buf)) at.before in
      laws.content-write_all buf s.file (omega (arith, at.stands, at.within, ap length at.holds))
      ∙ ap (λ l. take (position s.file) l ++ (buf ++ drop (position s.file + length buf) l))
          at.holds
      ∙ ap (λ p. take p c ++ (buf ++ drop (p + length buf) c)) at.stands
      ∙ ap (λ l. take p c ++ (buf ++ l)) behind

  pub read_found :
      (s : Segment F) (q : ℕ) (e : IndexEntry) (r : StoredRecord) (rest : Bytes)
      → entry_at F s q ≡ some e
      → e.offset ≤ length (content s.file)
      → drop e.offset (content s.file) ≡ encode r ++ rest
      → IsRecord r
      → ((read F s q).0 ≡ found r)
        × IsAt F laws (content s.file) (e.offset + length (encode r)) rest (read F s q).1.file
        × ((read F s q).1.bytes_written ≡ s.bytes_written)
        × ((read F s q).1.index ≡ s.index)
        × ((read F s q).1.base_sequence ≡ s.base_sequence)
  unfolding read
  read_found s q e r rest entry within here good =
      let f = seek e.offset s.file in
      let at : IsAt F laws (content s.file) e.offset (encode r ++ rest) f = record {
        holds = laws.content-seek e.offset s.file;
        stands = laws.position-seek e.offset s.file;
        before = here;
        within = within;
      } in
      let (got, behind) = read_record-encode F laws r (content s.file) rest e.offset f good at in
      rw (entry, read) (ap (result_of F) got, behind, refl, refl, refl)

  -- Let a segment have written as many bytes as its file holds, with a number left, let the index
  -- give for a number the offset of a good record in the file, and let a new record be no longer
  -- than what follows that record. Then a read of the number finds the record, but when the new
  -- record is appended behind this read, it is written over what follows the record that was read,
  -- and the rest of the file stays; a read of the number that the new record was given meets the
  -- end of the file. The file keeps to the laws of seeks, writes and reads.
  pub append_after_read :
      (s : Segment F) (q : ℕ) (e : IndexEntry) (r : StoredRecord) (rest : Bytes) (subject : Str)
      (reply_to : Option Str) (payload : Bytes) (timestamp : ℕ)
      → IsSegment s
      → entry_at F s q ≡ some e
      → e.offset ≤ length (content s.file)
      → drop e.offset (content s.file) ≡ encode r ++ rest
      → IsRecord r
      → length (encode (record_of F (read F s q).1 subject reply_to payload timestamp))
        ≤ length rest
      → ((read F s q).0 ≡ found r)
        × (content (append F (read F s q).1 subject reply_to payload timestamp).1.file
            ≡ take (e.offset + length (encode r)) (content s.file)
              ++ (encode (record_of F (read F s q).1 subject reply_to payload timestamp)
                  ++ drop
                      (length
                        (encode (record_of F (read F s q).1 subject reply_to payload timestamp)))
                      rest))
        × ((read F
              (append F (read F s q).1 subject reply_to payload timestamp).1
              (append F (read F s q).1 subject reply_to payload timestamp).0).0
            ≡ cut_off)
  append_after_read s q e r rest subject reply_to payload timestamp h entry within here good fits =
      let (got, at, written, index, base) = read_found s q e r rest entry within here good in
      let h' : IsSegment (read F s q).1 = record {
        written = written ∙ h.written ∙ sym (ap length at.holds);
        room = omega (arith, h.room, base, ap length index);
      } in
      let size = length-drop (e.offset + length (encode r)) (content s.file) in
      (
        got,
        append-written (read F s q).1 subject reply_to payload timestamp (content s.file)
            (e.offset + length (encode r)) rest at fits,
        (read-overwritten (read F s q).1 h' subject reply_to payload timestamp (
            omega (
              arith,
              at.stands,
              ap length at.holds,
              ap length at.before,
              size,
              at.within,
              fits,
            ))).1,
      )
