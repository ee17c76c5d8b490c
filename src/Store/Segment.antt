-- ===== src/Store/Segment.antt =====
-- crates/zetmq-store/src/segment.rs: an append-only log in a file with an index in memory. The file
-- of the asynchronous runtime is a parameter: its bytes, and the position at which it reads and
-- writes. The calls are those in which the operating system reports no error but the end of the file.
pub mod File
pub mod Reading
pub mod Overwrite
pub mod Scanning
pub mod Recovery
use zet_mq.Prelude.{
  ℕ, zero, suc, true, false, slice, ◌+◌, ◌-◌, Bool, List, [], ◌∷◌, ◌++◌, Option, none, some,
  if◌then◌else◌, ltb, length, is_empty, get_elem?, be_bytes, be_value,
}
use zet_mq.Text.{Str, from_utf8_lossy}
use zet_mq.Core.Delivery.{Bytes}
use zet_mq.Store.Segment.File.{FileApi}
use zet_mq.Store.Word.{add64}

pub record IndexEntry : Type 0 where
  pub offset : ℕ
  pub timestamp : ℕ

pub record StoredRecord : Type 0 where
  pub sequence : ℕ
  pub timestamp : ℕ
  pub subject : Str
  pub reply_to : Option Str
  pub payload : Bytes

abbrev pub reply_bytes : Option Str → Bytes
reply_bytes none = be_bytes 2 0
reply_bytes (some reply) = be_bytes 2 (length reply) ++ reply

-- The bytes of a record; a length is cut off at its width.
unfoldable pub encode : StoredRecord → Bytes
encode r =
    be_bytes 8 r.sequence
    ++ be_bytes 8 r.timestamp
    ++ be_bytes 2 (length r.subject)
    ++ r.subject
    ++ reply_bytes r.reply_to
    ++ be_bytes 4 (length r.payload)
    ++ r.payload

module _ (F : FileApi) where
  open F use {Handle, content, seek, skip, write_all, read_exact}

  pub record Segment : Type 0 where
    pub file : Handle
    pub index : List IndexEntry
    pub base_sequence : ℕ
    pub bytes_written : ℕ

  abbrev pub record_of : Segment → Str → Option Str → Bytes → ℕ → StoredRecord
  record_of s subject reply_to payload timestamp = record {
    sequence = add64 s.base_sequence (length s.index);
    timestamp = timestamp;
    subject = subject;
    reply_to = reply_to;
    payload = payload;
  }

  -- The record is written where the file stands, and the offset is that of the bytes written so far.
  unfoldable pub append : Segment → Str → Option Str → Bytes → ℕ → ℕ × Segment
  append s subject reply_to payload timestamp =
      let r = record_of s subject reply_to payload timestamp in
      let buf = encode r in
      (
        r.sequence,
        record s {
          file = write_all buf s.file;
          index = s.index ++ (record { offset = s.bytes_written; timestamp = timestamp }) ∷ [];
          bytes_written = add64 s.bytes_written (length buf);
        },
      )

  -- A read, with the file behind it; none at the end of the file.
  abbrev pub Reads : Type 0 → Type 0
  Reads A = Handle → Option A × Handle

  abbrev pub then_read : {A B : Type 0} → Option A × Handle → (A → Reads B) → Option B × Handle
  then_read (none, f) next = (none, f)
  then_read (some x, f) next = next x f

  unfoldable pub read_u : ℕ → Reads ℕ
  read_u width f = then_read (read_exact width f) (λ bytes f. (some (be_value bytes), f))

  unfoldable pub read_string : Reads Str
  unfolding read_u
  read_string f =
      then_read (read_u 2 f)
        (λ len f. then_read (read_exact len f) (λ bytes f. (some (from_utf8_lossy bytes), f)))

  unfoldable pub read_optional_string : Reads (Option Str)
  unfolding read_string
  read_optional_string f =
      then_read (read_string f) (λ s f. (some (if is_empty s then none else some s), f))

  -- The part of `read` behind the seek.
  unfoldable pub read_record : Reads StoredRecord
  unfolding read_optional_string
  read_record f = then_read (read_u 8 f) (λ seq f. then_read (read_u 8 f) (λ timestamp f.
      then_read (read_string f) (λ subject f. then_read (read_optional_string f) (λ reply_to f.
        then_read (read_u 4 f) (λ payload_len f. then_read (read_exact payload_len f) (λ payload f.
          (
            some (record {
              sequence = seq;
              timestamp = timestamp;
              subject = subject;
              reply_to = reply_to;
              payload = payload;
            }),
            f,
          )))))))

  abbrev pub entry_at : Segment → ℕ → Option IndexEntry
  entry_at s sequence =
      if ltb sequence s.base_sequence then none else get_elem? s.index (sequence - s.base_sequence)

  -- No record, the end of the file within a record, or a record.
  pub data ReadResult : Type 0 where
    missing cut_off : ReadResult
    found : StoredRecord → ReadResult

  abbrev pub result_of : Option StoredRecord → ReadResult
  result_of none = cut_off
  result_of (some r) = found r

  unfoldable pub read : Segment → ℕ → ReadResult × Segment
  unfolding read_record
  read s sequence = elim (entry_at s sequence) [
    | none ↦ (missing, s)
    | some e ↦
        let (r, f) = read_record (seek e.offset s.file) in (result_of r, record s { file = f })
  ]

  abbrev pub len : Segment → ℕ
  len s = length s.index

  abbrev pub last_sequence : Segment → Option ℕ
  last_sequence s = if is_empty s.index then none else some (s.base_sequence + length s.index - 1)

  -- One record that is passed over: its timestamp and its size.
  unfoldable pub scan_record : Reads (ℕ × ℕ)
  unfolding read_u
  scan_record f = then_read (read_exact 16 f) (λ header f. then_read (read_u 2 f) (λ subject_len f.
      then_read (read_u 2 (skip subject_len f)) (λ reply_len f.
        then_read (read_u 4 (if ltb 0 reply_len then skip reply_len f else f)) (λ payload_len f. (
          some (
            be_value (slice 8 16 header),
            8 + 8 + 2 + subject_len + 2 + reply_len + 4 + payload_len,
          ),
          skip payload_len f,
        )))))

  abbrev pub Scanned : Type 0
  Scanned = Option (List IndexEntry × ℕ × Handle)

  -- The loop of `rebuild_index`, on fuel: `none` means that the fuel ran out.
  unfoldable pub scan : ℕ → ℕ → List IndexEntry → Handle → Scanned
  unfolding scan_record
  scan zero offset index f = none
  scan (suc fuel) offset index f =
      let (r, f') = scan_record f in
      elim r [
        | none ↦ some (index, offset, f')
        | some (timestamp, size) ↦
            scan fuel (add64 offset size)
              (index ++ (record { offset = offset; timestamp = timestamp }) ∷ []) f'
      ]

  abbrev pub indexed : Segment → Scanned → Option Segment
  indexed s none = none
  indexed s (some (index, offset, f)) =
      some (record s { file = f; index = index; bytes_written = offset })

  -- A record is more than a byte, so that one round more than there are bytes is fuel enough.
  unfoldable pub rebuild_index : Segment → Option Segment
  unfolding scan
  rebuild_index s = indexed s (scan (suc (length (content s.file))) 0 s.index (seek 0 s.file))

  -- The file is open; `exists` tells whether it was there before.
  unfoldable pub open_segment : Handle → Bool → ℕ → Option Segment
  unfolding rebuild_index
  open_segment file exists base_sequence =
      let segment : Segment = record {
        file = file;
        index = [];
        base_sequence = base_sequence;
        bytes_written = 0;
      } in
      if exists then rebuild_index segment else some segment
