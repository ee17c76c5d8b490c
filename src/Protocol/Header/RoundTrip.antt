-- ===== src/Protocol/Header/RoundTrip.antt =====
-- A frame header of crates/zetmq-protocol/src/frame/header.rs is read back as it was written.
use zet_mq.Prelude.{
  ℕ, ◌^◌, ◌<◌, ◌≡◌, refl, ap, ◌∙◌, ◌++◌, append_assoc, arith, ltb, ◌==◌, true, false, length,
  length-append, take, drop, take-append, drop-append, be_bytes, length-be_bytes, be_value-be_bytes,
}
use zet_mq.Core.Delivery.{Bytes}
use zet_mq.Protocol.Error.{ok, current_version}
use zet_mq.Protocol.Header.{FrameHeader, zetmq_magic, frame_header_size, encode, decode, get_u}

-- The fields fit their widths, and the magic and the version are those that are accepted.
pub record IsHeader (h : FrameHeader) : Type 0 where
  pub magic : h.magic ≡ zetmq_magic
  pub version : h.version ≡ current_version
  pub frame_type : h.frame_type < 256
  pub flags : h.flags < 65536
  pub correlation_id : h.correlation_id < 18446744073709551616
  pub header_len : h.header_len < 4294967296
  pub payload_len : h.payload_len < 4294967296

pub take-drop_at :
    (k : ℕ) (xs ys : Bytes) → length xs ≡ k → (take k (xs ++ ys) ≡ xs) × (drop k (xs ++ ys) ≡ ys)
take-drop_at k xs ys e = rw (← e) (take-append xs ys, drop-append xs ys)

-- A number of `k` bytes is taken from the front.
pub get_u-be_bytes :
    (k n : ℕ) (rest : Bytes) → n < 256 ^ k → get_u k (be_bytes k n ++ rest) ≡ (n, rest)
unfolding get_u
get_u-be_bytes k n rest h =
    let (front, back) = take-drop_at k (be_bytes k n) rest (length-be_bytes k n) in
    rw (front, back, be_value-be_bytes k n h) refl

pub length-encode : (h : FrameHeader) → length (encode h) ≡ frame_header_size
unfolding encode
length-encode h = simp (length-append, length-be_bytes) refl

-- What is written, field by field, before the rest.
parts : FrameHeader → Bytes → Bytes
parts h rest =
    be_bytes 2 h.magic
    ++ (be_bytes 1 h.version
        ++ (be_bytes 1 h.frame_type
            ++ (be_bytes 2 h.flags
                ++ (be_bytes 8 h.correlation_id
                    ++ (be_bytes 4 h.header_len ++ (be_bytes 4 h.payload_len ++ rest))))))

parts_lem : (h : FrameHeader) (rest : Bytes) → encode h ++ rest ≡ parts h rest
unfolding encode parts
parts_lem h rest = simp append_assoc refl

decode-parts : (h : FrameHeader) (rest : Bytes) → IsHeader h → decode (parts h rest) ≡ ok (h, rest)
unfolding parts decode
decode-parts h rest good =
    let long : ltb (length (parts h rest)) frame_header_size ≡ false =
      ground
        (arith, ap length (parts_lem h rest), length-append (encode h) rest, length-encode h) in
    let b6 = be_bytes 4 h.payload_len ++ rest in
    let b5 = be_bytes 4 h.header_len ++ b6 in
    let b4 = be_bytes 8 h.correlation_id ++ b5 in
    let b3 = be_bytes 2 h.flags ++ b4 in
    let b2 = be_bytes 1 h.frame_type ++ b3 in
    let b1 = be_bytes 1 h.version ++ b2 in
    let m = get_u-be_bytes 2 h.magic b1 (omega (arith, good.magic)) in
    let v = get_u-be_bytes 1 h.version b2 (omega (arith, good.version)) in
    let t = get_u-be_bytes 1 h.frame_type b3 (omega (arith, good.frame_type)) in
    let f = get_u-be_bytes 2 h.flags b4 (omega (arith, good.flags)) in
    let c = get_u-be_bytes 8 h.correlation_id b5 (omega (arith, good.correlation_id)) in
    let hl = get_u-be_bytes 4 h.header_len b6 (omega (arith, good.header_len)) in
    let pl = get_u-be_bytes 4 h.payload_len rest (omega (arith, good.payload_len)) in
    let magic : (h.magic == zetmq_magic) ≡ true = ground (arith, good.magic) in
    let version : (h.version == current_version) ≡ true = ground (arith, good.version) in
    rw (long, decode, m, magic, v, version, t, f, c, hl, pl) refl

-- A header that is written and followed by anything is read back, and what follows is left.
pub decode-encode :
    (h : FrameHeader) (rest : Bytes) → IsHeader h → decode (encode h ++ rest) ≡ ok (h, rest)
decode-encode h rest good = ap decode (parts_lem h rest) ∙ decode-parts h rest good
