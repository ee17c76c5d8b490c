-- ===== src/Store/Segment/Reading.antt =====
-- A record that stands in the file of crates/zetmq-store/src/segment.rs is read as it was written.
use zet_mq.Prelude.{
  ℕ, ◌+◌, ◌^◌, ◌≡◌, ◌≤◌, ◌<◌, refl, ap, ◌∙◌, sym, subst, true, false, [], ◌++◌, append_assoc,
  Option, none, some, arith, if◌then◌else◌, is_empty, length, length-append, length-drop, take,
  drop, drop-drop, take-append, drop-append, be_bytes, be_value, length-be_bytes, be_value-be_bytes,
}
use zet_mq.Text.{Str, is_utf8, from_utf8_lossy}
use zet_mq.Text.Utf8.{from_utf8_lossy-utf8}
use zet_mq.Core.Delivery.{Bytes}
use zet_mq.Store.Segment.File.{FileApi, FileLaws}
use zet_mq.Store.Segment.{
  StoredRecord, encode, reply_bytes, Reads, then_read, read_u, read_string, read_optional_string,
  read_record,
}

pub cut_at :
    (k : ℕ) (xs ys : Bytes) → length xs ≡ k → (take k (xs ++ ys) ≡ xs) × (drop k (xs ++ ys) ≡ ys)
cut_at k xs ys e = rw (← e) (take-append xs ys, drop-append xs ys)

-- Texts are UTF-8, the lengths and the numbers fit their widths, and a reply is not empty.
abbrev pub IsReply : Option Str → Type 0
IsReply none = Unit
IsReply (some reply) = (is_empty reply ≡ false) × (is_utf8 reply ≡ true) × (length reply < 65536)

pub record IsRecord (r : StoredRecord) : Type 0 where
  pub sequence : r.sequence < 18446744073709551616
  pub timestamp : r.timestamp < 18446744073709551616
  pub subject : (is_utf8 r.subject ≡ true) × (length r.subject < 65536)
  pub reply : IsReply r.reply_to
  pub payload : length r.payload < 4294967296

module _ (F : FileApi) (laws : FileLaws F) where
  open F use {Handle, content, position, read_exact}

  -- The file holds `c`, and stands at `n`, before `rest`.
  pub record IsAt (c : Bytes) (n : ℕ) (rest : Bytes) (f : Handle) : Type 0 where
    pub holds : content f ≡ c
    pub stands : position f ≡ n
    pub before : drop n c ≡ rest
    pub within : n ≤ length c

  -- The read returns `x`, and leaves the file at `n`.
  abbrev pub Gives : {A : Type 0} → Option A × Handle → A → Bytes → ℕ → Bytes → Type 0
  Gives r x c n rest = (r.0 ≡ some x) × IsAt c n rest r.1

  pub then_read-some :
      {A B : Type 0} (r : Option A × Handle) (x : A) (next : A → Reads F B)
      → r.0 ≡ some x
      → then_read F r next ≡ next x r.1
  then_read-some (none, f) x next e = elim (none_some e) [ ]
    where
      none_some : none ≡ some x → ⊥
      none_some e = ground arith
  then_read-some (some y, f) x next e = let same : y ≡ x = cc in ap (λ z. next z f) same

  pub read_exact-part :
      (k : ℕ) (c part rest : Bytes) (n : ℕ) (f : Handle)
      → length part ≡ k
      → IsAt c n (part ++ rest) f
      → Gives (read_exact k f) part c (n + k) rest
  read_exact-part k c part rest n f e h =
      let size = length-drop n c in
      let size' = ap length h.before ∙ length-append part rest in
      let (bytes, same, moved) =
        laws.read_exact-within k f
          (omega (arith, ap length h.holds, h.stands, size, size', e, h.within)) in
      let here : drop (position f) (content f) ≡ part ++ rest = rw (h.holds, h.stands) h.before in
      (
        bytes ∙ ap some (ap (take k) here ∙ (cut_at k part rest e).0),
        record {
          holds = same ∙ h.holds;
          stands = omega (arith, moved, h.stands);
          before = sym (drop-drop k n c) ∙ ap (drop k) h.before ∙ (cut_at k part rest e).1;
          within = omega (arith, size, size', e, h.within);
        },
      )

  pub read_u-part :
      (k m : ℕ) (c rest : Bytes) (n : ℕ) (f : Handle)
      → m < 256 ^ k
      → IsAt c n (be_bytes k m ++ rest) f
      → Gives (read_u F k f) m c (n + k) rest
  unfolding read_u
  read_u-part k m c rest n f small h =
      let (bytes, at) = read_exact-part k c (be_bytes k m) rest n f (length-be_bytes k m) h in
      let eq =
        then_read-some (read_exact k f) (be_bytes k m) (λ bytes f. (some (be_value bytes), f))
          bytes in
      subst (λ (r : Option ℕ × Handle). Gives r m c (n + k) rest) (sym eq)
        (ap some (be_value-be_bytes k m small), at)

  read_string-part :
      (s : Str) (c rest : Bytes) (n : ℕ) (f : Handle)
      → is_utf8 s ≡ true
      → length s < 65536
      → IsAt c n (be_bytes 2 (length s) ++ (s ++ rest)) f
      → Gives (read_string F f) s c (n + 2 + length s) rest
  unfolding read_string
  read_string-part s c rest n f valid short h =
      let (len, at) = read_u-part 2 (length s) c (s ++ rest) n f (omega arith) h in
      let (bytes, at') = read_exact-part (length s) c s rest (n + 2) (read_u F 2 f).1 refl at in
      let inner : Bytes → Reads F Str = λ bytes f. (some (from_utf8_lossy bytes), f) in
      let eq =
        then_read-some (read_u F 2 f) (length s) (λ len f. then_read F (read_exact len f) inner)
          len in
      let eq' = then_read-some (read_exact (length s) (read_u F 2 f).1) s inner bytes in
      subst (λ (r : Option Str × Handle). Gives r s c (n + 2 + length s) rest) (sym (eq ∙ eq'))
        (ap some (from_utf8_lossy-utf8 s valid), at')

  abbrev pub reply_len : Option Str → ℕ
  reply_len none = 0
  reply_len (some reply) = length reply

  read_optional-part :
      (o : Option Str) (c rest : Bytes) (n : ℕ) (f : Handle)
      → IsReply o
      → IsAt c n (reply_bytes o ++ rest) f
      → Gives (read_optional_string F f) o c (n + 2 + reply_len o) rest
  unfolding read_optional_string
  read_optional-part none c rest n f good h =
      let (text, at) = read_string-part [] c rest n f (unfold is_utf8 in refl) (omega arith) h in
      let eq =
        then_read-some (read_string F f) [] (λ s f. (some (if is_empty s then none else some s), f))
          text in
      subst (λ (r : Option (Option Str) × Handle). Gives r none c (n + 2 + 0) rest) (sym eq)
        (refl, at)
  read_optional-part (some reply) c rest n f good h =
      let (text, at) =
        read_string-part reply c rest n f good.1 good.2
          (subst (λ l. IsAt c n l f) (append_assoc (be_bytes 2 (length reply)) reply rest) h) in
      let eq =
        then_read-some (read_string F f) reply
          (λ s f. (some (if is_empty s then none else some s), f)) text in
      subst
        (λ (r : Option (Option Str) × Handle). Gives r (some reply) c (n + 2 + length reply) rest)
        (sym eq) (ground (arith, good.0), at)

  -- The bytes of a record, nested to the right.
  unfoldable pub parts : StoredRecord → Bytes → Bytes
  parts r rest =
      be_bytes 8 r.sequence
      ++ (be_bytes 8 r.timestamp
          ++ (be_bytes 2 (length r.subject)
              ++ (r.subject
                  ++ (reply_bytes r.reply_to
                      ++ (be_bytes 4 (length r.payload) ++ (r.payload ++ rest))))))

  pub parts_lem : (r : StoredRecord) (rest : Bytes) → encode r ++ rest ≡ parts r rest
  unfolding encode parts
  parts_lem r rest = simp append_assoc refl

  length-reply_bytes : (o : Option Str) → length (reply_bytes o) ≡ 2 + reply_len o
  length-reply_bytes none = length-be_bytes 2 0
  length-reply_bytes (some reply) =
      omega
        (arith, length-append (be_bytes 2 (length reply)) reply, length-be_bytes 2 (length reply))

  pub length-encode :
      (r : StoredRecord)
      → length (encode r) ≡ 24 + length r.subject + reply_len r.reply_to + length r.payload
  unfolding encode
  length-encode r =
      simp (length-append, length-be_bytes) (omega (arith, length-reply_bytes r.reply_to))

  -- A record that stands at the position of the file is read back, and the file then stands behind it.
  pub read_record-encode :
      (r : StoredRecord) (c rest : Bytes) (n : ℕ) (f : Handle)
      → IsRecord r
      → IsAt c n (encode r ++ rest) f
      → Gives (read_record F f) r c (n + length (encode r)) rest
  unfolding read_record parts
  read_record-encode r c rest n f good h =
      let start = subst (λ l. IsAt c n l f) (parts_lem r rest) h in
      let (seq, at1) = read_u-part 8 r.sequence c _ n f (omega (arith, good.sequence)) start in
      let f1 = (read_u F 8 f).1 in
      let (time, at2) =
        read_u-part 8 r.timestamp c _ (n + 8) f1 (omega (arith, good.timestamp)) at1 in
      let f2 = (read_u F 8 f1).1 in
      let (subject, at3) =
        read_string-part r.subject c _ (n + 8 + 8) f2 good.subject.0 good.subject.1 at2 in
      let f3 = (read_string F f2).1 in
      let (reply, at4) =
        read_optional-part r.reply_to c _ (n + 8 + 8 + 2 + length r.subject) f3 good.reply at3 in
      let f4 = (read_optional_string F f3).1 in
      let (len, at5) =
        read_u-part 4 (length r.payload) c _ _ f4 (omega (arith, good.payload)) at4 in
      let f5 = (read_u F 4 f4).1 in
      let (payload, at6) = read_exact-part (length r.payload) c r.payload rest _ f5 refl at5 in
      let f6 = (read_exact (length r.payload) f5).1 in
      let result : read_record F f ≡ (some r, f6) =
        then_read-some (read_u F 8 f) r.sequence _ seq
        ∙ then_read-some (read_u F 8 f1) r.timestamp _ time
        ∙ then_read-some (read_string F f2) r.subject _ subject
        ∙ then_read-some (read_optional_string F f3) r.reply_to _ reply
        ∙ then_read-some (read_u F 4 f4) (length r.payload) _ len
        ∙ then_read-some (read_exact (length r.payload) f5) r.payload _ payload in
      let size : n + 8 + 8 + 2 + length r.subject + 2 + reply_len r.reply_to + 4 + length r.payload
          ≡ n + length (encode r) =
        omega (arith, length-encode r) in
      subst (λ (x : Option StoredRecord × Handle). Gives x r c (n + length (encode r)) rest)
        (sym result) (refl, subst (λ m. IsAt c m rest f6) size at6)
