-- ===== src/Protocol/Frame/RoundTrip.antt =====
-- Frames of crates/zetmq-protocol/src/frame/frame.rs on a byte stream: one that is complete is read
-- back, and one that is cut off waits.
use zet_mq.Prelude.{
  ℕ, zero, suc, ◌+◌, ◌-◌, ◌≡◌, ◌≢◌, ◌≤◌, ◌<◌, refl, ap, ◌∙◌, sym, true, false, [], ◌∷◌, ◌++◌,
  append_assoc, append-nil, none, some, arith, if◌then◌else◌, ltb, length, length-append, take,
  drop, slice, take-append, be_bytes, be_value, length-be_bytes, be_value-be_bytes, Bool-cases, inl,
  inr, take-append-drop,
}
use zet_mq.Core.Delivery.{Bytes}
use zet_mq.Protocol.Error.{ok, err, frame_too_large}
use zet_mq.Protocol.Header
use zet_mq.Protocol.Header.{FrameHeader, frame_header_size, decode, total_frame_size}
use zet_mq.Protocol.Header.RoundTrip.{IsHeader, take-drop_at, decode-encode, length-encode}
use zet_mq.Protocol.Frame.{Frame, encode, decode_from, frame_of, framed}

-- The header is good, and tells the lengths of the two parts.
pub record IsFrame (f : Frame) : Type 0 where
  pub header : IsHeader f.header
  pub header_len : f.header.header_len ≡ length f.headers
  pub payload_len : f.header.payload_len ≡ length f.payload

front : FrameHeader → Bytes
front h =
    be_bytes 2 h.magic
    ++ be_bytes 1 h.version
    ++ be_bytes 1 h.frame_type
    ++ be_bytes 2 h.flags
    ++ be_bytes 8 h.correlation_id

length-front : (h : FrameHeader) → length (front h) ≡ 14
unfolding front
length-front h = simp (length-append, length-be_bytes) refl

front_lem :
    (h : FrameHeader) (body : Bytes)
    → Header.encode h ++ body
      ≡ front h ++ (be_bytes 4 h.header_len ++ (be_bytes 4 h.payload_len ++ body))
unfolding front Header.encode
front_lem h body = simp append_assoc refl

-- The lengths are told by the bytes 14 to 17 and 18 to 21 of the buffer.
peeked :
    (h : FrameHeader) (body : Bytes)
    → IsHeader h
    → (be_value (slice 14 18 (Header.encode h ++ body)) ≡ h.header_len)
      × (be_value (slice 18 22 (Header.encode h ++ body)) ≡ h.payload_len)
peeked h body good =
    let hl = be_bytes 4 h.header_len in
    let pl = be_bytes 4 h.payload_len in
    let at14 =
      ap (drop 14) (front_lem h body)
      ∙ (take-drop_at 14 (front h) (hl ++ (pl ++ body)) (length-front h)).1 in
    let shape : Header.encode h ++ body ≡ (front h ++ hl) ++ (pl ++ body) =
      front_lem h body ∙ sym (append_assoc (front h) hl (pl ++ body)) in
    let size : length (front h ++ hl) ≡ 18 =
      omega (arith, length-append (front h) hl, length-front h, length-be_bytes 4 h.header_len) in
    let at18 = ap (drop 18) shape ∙ (take-drop_at 18 (front h ++ hl) (pl ++ body) size).1 in
    (
      ap (λ l. be_value (take 4 l)) at14
          ∙ ap be_value (take-drop_at 4 hl (pl ++ body) (length-be_bytes 4 h.header_len)).0
          ∙ be_value-be_bytes 4 h.header_len (omega (arith, good.header_len)),
      ap (λ l. be_value (take 4 l)) at18
          ∙ ap be_value (take-drop_at 4 pl body (length-be_bytes 4 h.payload_len)).0
          ∙ be_value-be_bytes 4 h.payload_len (omega (arith, good.payload_len)),
    )

-- A part is cut out by its length, and an empty one is not cut.
cut :
    (xs ys : Bytes) (n m : ℕ)
    → n ≡ length xs
    → m ≡ n
    → (if ltb 0 n then take m (xs ++ ys) else []) ≡ xs
cut [] ys n m e e' = rw e (ground arith)
cut (x ∷ xs) ys n m e e' =
    let positive : ltb 0 n ≡ true = ground arith in
    simp positive (ap (λ k. take k ((x ∷ xs) ++ ys)) (e' ∙ e) ∙ take-append (x ∷ xs) ys)

take-prefix : (k : ℕ) (xs ys : Bytes) → k ≤ length xs → take k (xs ++ ys) ≡ take k xs
take-prefix zero xs ys le = refl
take-prefix (suc k) [] ys le = ground arith
take-prefix (suc k) (x ∷ xs) ys le = ap (λ l. x ∷ l) (take-prefix k xs ys (omega arith))

nonempty : (q : Bytes) → q ≢ [] → 0 < length q
nonempty [] h = elim (h refl) [ ]
nonempty (x ∷ q) h = omega arith

module _ (f : Frame) (good : IsFrame f) (max_frame_size : ℕ)
    (fits : total_frame_size f.header ≤ max_frame_size) where
  length-encode_frame : length (encode f) ≡ total_frame_size f.header
  unfolding encode
  length-encode_frame = omega (
    arith,
    length-append (Header.encode f.header) (f.headers ++ f.payload),
    length-append f.headers f.payload,
    length-encode f.header,
    good.header_len,
    good.payload_len,
  )

  frame_of-encode : frame_of f.header.header_len f.header.payload_len (encode f) f.header ≡ f
  unfolding encode
  frame_of-encode =
      let h = f.header in
      let body =
        (take-drop_at frame_header_size (Header.encode h) (f.headers ++ f.payload)
          (length-encode h)).1 in
      let size : length (Header.encode h ++ f.headers) ≡ frame_header_size + h.header_len =
        omega
          (arith, length-append (Header.encode h) f.headers, length-encode h, good.header_len) in
      let tail =
        ap (drop (frame_header_size + h.header_len))
          (sym (append_assoc (Header.encode h) f.headers f.payload))
        ∙ (take-drop_at (frame_header_size + h.header_len) (Header.encode h ++ f.headers) f.payload
            size).1 in
      let headers =
        ap
          (λ b.
            if ltb 0 h.header_len
            then take (frame_header_size + h.header_len - frame_header_size) b
            else [])
          body
        ∙ cut f.headers f.payload h.header_len
            (frame_header_size + h.header_len - frame_header_size) good.header_len (omega arith) in
      let width =
        frame_header_size + h.header_len + h.payload_len - (frame_header_size + h.header_len) in
      let payload =
        ap (λ b. if ltb 0 h.payload_len then take width b else [])
          (tail ∙ sym (append-nil f.payload))
        ∙ cut f.payload [] h.payload_len width good.payload_len (omega arith) in
      cc

  -- A frame with a good header that tells the lengths of its parts, and whose size is within the
  -- limit, is read back by `decode_from` from a buffer that begins with its encoding, and what
  -- follows it is left in the buffer.
  pub decode_from-encode :
      (rest : Bytes) → decode_from (encode f ++ rest) max_frame_size ≡ (ok (some f), rest)
  unfolding decode_from encode
  decode_from-encode rest =
      let h = f.header in
      let buf = encode f ++ rest in
      let total = total_frame_size h in
      let shape = append_assoc (Header.encode h) (f.headers ++ f.payload) rest in
      let lens = peeked h ((f.headers ++ f.payload) ++ rest) good.header in
      let hl = ap (λ b. be_value (slice 14 18 b)) shape ∙ lens.0 in
      let pl = ap (λ b. be_value (slice 18 22 b)) shape ∙ lens.1 in
      let size = length-append (encode f) rest in
      let started : ltb (length buf) frame_header_size ≡ false =
        ground (arith, size, length-encode_frame) in
      let small : ltb max_frame_size total ≡ false = ground arith in
      let complete : ltb (length buf) total ≡ false = ground (arith, size, length-encode_frame) in
      let (whole, left) = take-drop_at total (encode f) rest length-encode_frame in
      let head =
        ap decode (
          (take-drop_at frame_header_size (Header.encode h) (f.headers ++ f.payload)
            (length-encode h)).0
          ∙ sym (append-nil (Header.encode h)))
        ∙ decode-encode h [] good.header in
      let result : framed h.header_len h.payload_len (encode f)
            (decode (slice 0 frame_header_size (encode f)))
          ≡ ok (some f) =
        ap (framed h.header_len h.payload_len (encode f)) head
        ∙ ap (λ g. ok (some g)) frame_of-encode in
      rw (hl, decode_from, pl, started, small, complete, whole, left) (ap (λ r. (r, rest)) result)

  -- A buffer that is a proper prefix of the encoding of such a frame, whose size is within the
  -- limit, makes `decode_from` wait: it returns no frame and no error, and leaves the buffer as it
  -- is.
  pub decode_from-prefix :
      (p q : Bytes) → q ≢ [] → p ++ q ≡ encode f → decode_from p max_frame_size ≡ (ok none, p)
  unfolding decode_from encode
  decode_from-prefix p q more whole = elim (Bool-cases (ltb (length p) frame_header_size)) [
    | inl early ↦ rw (early, decode_from) refl
    | inr started ↦
        let h = f.header in
        let total = total_frame_size h in
        let head : take frame_header_size p ≡ Header.encode h =
          sym (take-prefix frame_header_size p q (ground arith))
          ∙ ap (take frame_header_size) whole
          ∙ (take-drop_at frame_header_size (Header.encode h) (f.headers ++ f.payload)
              (length-encode h)).0 in
        let shape : p ≡ Header.encode h ++ drop frame_header_size p =
          sym (take-append-drop frame_header_size p)
          ∙ ap (λ l. l ++ drop frame_header_size p) head in
        let lens = peeked h (drop frame_header_size p) good.header in
        let hl = ap (λ b. be_value (slice 14 18 b)) shape ∙ lens.0 in
        let pl = ap (λ b. be_value (slice 18 22 b)) shape ∙ lens.1 in
        let small : ltb max_frame_size total ≡ false = ground arith in
        let cut_off : ltb (length p) total ≡ true =
          ground
            (arith, ap length whole, length-append p q, length-encode_frame, nonempty q more) in
        rw (started, decode_from, hl, pl, small, cut_off) refl
  ]

-- A buffer that begins with a good header whose lengths make a frame above the limit is refused by
-- `decode_from` whatever follows, with the size and the limit, and stays as it is.
pub decode_from-too_large :
    (h : FrameHeader) (body : Bytes) (max_frame_size : ℕ)
    → IsHeader h
    → max_frame_size < total_frame_size h
    → decode_from (Header.encode h ++ body) max_frame_size
      ≡ (err (frame_too_large (total_frame_size h) max_frame_size), Header.encode h ++ body)
unfolding decode_from
decode_from-too_large h body max_frame_size good large =
    let (hl, pl) = peeked h body good in
    let started : ltb (length (Header.encode h ++ body)) frame_header_size ≡ false =
      ground (arith, length-append (Header.encode h) body, length-encode h) in
    let over : ltb max_frame_size (total_frame_size h) ≡ true = ground arith in
    rw (started, decode_from, hl, pl, over) refl
