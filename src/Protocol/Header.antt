-- ===== src/Protocol/Header.antt =====
-- crates/zetmq-protocol/src/frame/header.rs
pub mod RoundTrip
use zet_mq.Prelude.{
  ℕ, ◌+◌, ◌≡◌, Bool, List, [], ◌∷◌, ◌++◌, if◌then◌else◌, ltb, ◌==◌, length, take, drop, be_bytes,
  be_value,
}
use zet_mq.Core.Delivery.{Bytes}
use zet_mq.Protocol.Error.{
  ProtocolError, Result, ok, err, incomplete_frame, invalid_magic, unsupported_version,
  current_version,
}

-- 0x5A4D, "ZM"
abbrev pub zetmq_magic : ℕ
zetmq_magic = 23117

abbrev pub frame_header_size : ℕ
frame_header_size = 22

pub record FrameHeader : Type 0 where
  pub magic : ℕ
  pub version : ℕ
  pub frame_type : ℕ
  pub flags : ℕ
  pub correlation_id : ℕ
  pub header_len : ℕ
  pub payload_len : ℕ

unfoldable pub new : ℕ → ℕ → FrameHeader
new frame_type correlation_id = record {
  magic = zetmq_magic;
  version = current_version;
  frame_type = frame_type;
  flags = 0;
  correlation_id = correlation_id;
  header_len = 0;
  payload_len = 0;
}

abbrev pub with_payload_size : FrameHeader → ℕ → ℕ → FrameHeader
with_payload_size h header_len payload_len = record h {
  header_len = header_len;
  payload_len = payload_len;
}

-- What `encode` puts at the end of the buffer.
unfoldable pub encode : FrameHeader → Bytes
encode h =
    be_bytes 2 h.magic
    ++ be_bytes 1 h.version
    ++ be_bytes 1 h.frame_type
    ++ be_bytes 2 h.flags
    ++ be_bytes 8 h.correlation_id
    ++ be_bytes 4 h.header_len
    ++ be_bytes 4 h.payload_len

-- `get_uN` of `k` bytes: the number, and what is left of the buffer.
unfoldable pub get_u : ℕ → Bytes → ℕ × Bytes
get_u k buf = (be_value (take k buf), drop k buf)

-- The header, and what is left of the buffer.
unfoldable pub decode : Bytes → Result (FrameHeader × Bytes)
decode buf =
    if ltb (length buf) frame_header_size
    then err (incomplete_frame frame_header_size (length buf))
    else let (magic, b1) = get_u 2 buf in
      if magic == zetmq_magic
      then (let (version, b2) = get_u 1 b1 in
          if version == current_version
          then (let (frame_type, b3) = get_u 1 b2 in
              let (flags, b4) = get_u 2 b3 in
              let (correlation_id, b5) = get_u 8 b4 in
              let (header_len, b6) = get_u 4 b5 in
              let (payload_len, b7) = get_u 4 b6 in
              ok (
                record {
                  magic = magic;
                  version = version;
                  frame_type = frame_type;
                  flags = flags;
                  correlation_id = correlation_id;
                  header_len = header_len;
                  payload_len = payload_len;
                },
                b7,
              ))
          else err (unsupported_version version))
      else err (invalid_magic zetmq_magic magic)

abbrev pub total_frame_size : FrameHeader → ℕ
total_frame_size h = frame_header_size + h.header_len + h.payload_len
