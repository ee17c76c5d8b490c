-- ===== src/Witness/Segments.antt =====
-- A segment on a file in memory.
use zet_mq.Prelude.{
  ℕ, max, ◌+◌, ◌≡◌, ◌≤◌, refl, true, false, [], ◌∷◌, ◌++◌, Option, none, some, arith, if◌then◌else◌,
  ltb, length, take, drop, be_bytes, get_elem?,
}
use zet_mq.Text.{is_utf8}
use zet_mq.Core.Delivery.{Bytes}
use zet_mq.Store.Segment.File.{FileApi, FileLaws}
use zet_mq.Store.Segment.{
  StoredRecord, IndexEntry, Segment, encode, append, read, record_of, found, cut_off, entry_at,
  open_segment,
}
use zet_mq.Store.Segment.Reading.{IsRecord}
use zet_mq.Store.Segment.Recovery.{joined, read-open_segment}
use zet_mq.Store.Segment.Overwrite.{IsSegment, read-append, append_after_read}

read_at : ℕ → Bytes × ℕ → Option Bytes × (Bytes × ℕ)
read_at n (c, p) =
    if ltb (length c) (p + n)
    then (none, (c, max p (length c)))
    else (some (take n (drop p c)), (c, p + n))

abbrev memory : FileApi
memory = record {
  Handle = Bytes × ℕ;
  content = λ f. f.0;
  position = λ f. f.1;
  seek = λ p f. (f.0, p);
  skip = λ n f. (f.0, f.1 + n);
  write_all = λ b f. (take f.1 f.0 ++ (b ++ drop (f.1 + length b) f.0), f.1 + length b);
  read_exact = read_at;
}

memory-laws : FileLaws memory
unfolding read_at
memory-laws = record {
  content-seek = λ p f. refl;
  position-seek = λ p f. refl;
  content-skip = λ n f. refl;
  position-skip = λ n f. refl;
  content-write_all = λ b f h. refl;
  position-write_all = λ b f. refl;
  read_exact-within = λ n f h.
      let fits : ltb (length f.0) (f.1 + n) ≡ false = ground arith in simp fits (refl, refl, refl);
  read_exact-beyond =
      λ n f h. let over : ltb (length f.0) (f.1 + n) ≡ true = ground arith in simp over refl;
  read_exact-end = λ n f h within.
      let over : ltb (length f.0) (f.1 + n) ≡ true = ground arith in
      simp over (refl, omega (arith, within));
}

abbrev empty_segment : Segment memory
empty_segment = record { file = ([], 0); index = []; base_sequence = 1; bytes_written = 0 }

empty_segment-IsSegment : IsSegment memory memory-laws empty_segment
empty_segment-IsSegment = record { written = refl; room = omega arith }

abbrev record_one : StoredRecord
record_one = record {
  sequence = 1;
  timestamp = 9;
  subject = 115 ∷ [];
  reply_to = none;
  payload = 1 ∷ [];
}

record_one-IsRecord : IsRecord record_one
unfolding is_utf8
record_one-IsRecord = record {
  sequence = omega arith;
  timestamp = omega arith;
  subject = (refl, omega arith);
  reply = tt;
  payload = omega arith;
}

read-append_example :
    (read memory
      (append memory empty_segment (115 ∷ []) none (1 ∷ []) 9).1
      (append memory empty_segment (115 ∷ []) none (1 ∷ []) 9).0).0
    ≡ found record_one
read-append_example =
    read-append memory memory-laws empty_segment empty_segment-IsSegment (115 ∷ []) none (1 ∷ []) 9
      refl record_one-IsRecord

-- Two records of the same size.
abbrev segment_two : Segment memory
segment_two =
    (append memory (append memory empty_segment (115 ∷ []) none (1 ∷ []) 9).1 (115 ∷ []) none
      (2 ∷ []) 9).1

abbrev record_two : StoredRecord
record_two = record {
  sequence = 2;
  timestamp = 9;
  subject = 115 ∷ [];
  reply_to = none;
  payload = 2 ∷ [];
}

abbrev first_entry : IndexEntry
first_entry = record { offset = 0; timestamp = 9 }

segment_two-IsSegment : IsSegment memory memory-laws segment_two
unfolding append encode be_bytes
segment_two-IsSegment = record { written = refl; room = omega arith }

entry_one : entry_at memory segment_two 1 ≡ some first_entry
unfolding append
entry_one = refl

content_two : drop 0 (memory.content segment_two.file) ≡ encode record_one ++ encode record_two
unfolding append encode be_bytes
content_two = refl

fits :
    length (encode (record_of memory (read memory segment_two 1).1 (115 ∷ []) none (3 ∷ []) 9))
    ≤ length (encode record_two)
unfolding encode be_bytes read append
fits = omega arith

-- The third record, which takes the place of the second.
abbrev record_new : StoredRecord
record_new = record {
  sequence = 3;
  timestamp = 9;
  subject = 115 ∷ [];
  reply_to = none;
  payload = 3 ∷ [];
}

append_after_read_example :
    ((read memory segment_two 1).0 ≡ found record_one)
    × (memory.content
          (append memory (read memory segment_two 1).1 (115 ∷ []) none (3 ∷ []) 9).1.file
        ≡ encode record_one ++ encode record_new)
    × ((read memory
          (append memory (read memory segment_two 1).1 (115 ∷ []) none (3 ∷ []) 9).1
          (append memory (read memory segment_two 1).1 (115 ∷ []) none (3 ∷ []) 9).0).0
        ≡ cut_off)
unfolding append encode be_bytes read
append_after_read_example =
    append_after_read memory memory-laws segment_two 1 first_entry record_one (encode record_two)
      (115 ∷ []) none (3 ∷ []) 9 segment_two-IsSegment entry_one (omega arith) content_two
      record_one-IsRecord fits

record_two-IsRecord : IsRecord record_two
unfolding is_utf8
record_two-IsRecord = record {
  sequence = omega arith;
  timestamp = omega arith;
  subject = (refl, omega arith);
  reply = tt;
  payload = omega arith;
}

-- The file of the two records, opened again.
read-open_segment_two :
    (s : Segment memory) × (open_segment memory segment_two.file true 1 ≡ some s)
    × (length s.index ≡ 2)
    × (s.bytes_written ≡ length s.file.0)
    × (s.file.1 ≡ length s.file.0)
    × ((i : ℕ) (r : StoredRecord)
        → get_elem? (record_one ∷ record_two ∷ []) i ≡ some r
        → (read memory s (1 + i)).0 ≡ found r)
unfolding append encode be_bytes joined
read-open_segment_two =
    read-open_segment memory memory-laws segment_two.file (record_one ∷ record_two ∷ []) 1 refl
      (record_one-IsRecord, (record_two-IsRecord, tt)) (omega arith)
