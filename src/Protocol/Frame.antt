-- ===== src/Protocol/Frame.antt =====
-- crates/zetmq-protocol/src/frame/frame.rs
pub mod RoundTrip
pub mod Consumed
use zet_mq.Prelude.{
  ℕ, ◌+◌, ◌%◌, Bool, List, [], ◌∷◌, ◌++◌, Option, none, some, if◌then◌else◌, ltb, length, take,
  drop, slice, be_value,
}
use zet_mq.Core.Delivery.{Bytes}
use zet_mq.Protocol.Error.{ProtocolError, Result, ok, err, frame_too_large}
use zet_mq.Protocol.FrameType
use zet_mq.Protocol.FrameType.{FrameType}
use zet_mq.Protocol.Header
use zet_mq.Protocol.Header.{FrameHeader, frame_header_size}

pub record Frame : Type 0 where
  pub header : FrameHeader
  pub headers : Bytes
  pub payload : Bytes

unfoldable pub new : FrameType → ℕ → Frame
new frame_type correlation_id = record {
  header = Header.new (FrameType.as_u8 frame_type) correlation_id;
  headers = [];
  payload = [];
}

-- `len() as u32`
abbrev pub len_u32 : Bytes → ℕ
len_u32 bytes = length bytes % 4294967296

unfoldable pub with_payload : Frame → Bytes → Frame
with_payload f payload = record f {
  header = record f.header { payload_len = len_u32 payload };
  payload = payload;
}

unfoldable pub with_headers : Frame → Bytes → Frame
with_headers f headers = record f {
  header = record f.header { header_len = len_u32 headers };
  headers = headers;
}

abbrev pub frame_type : Frame → Result FrameType
frame_type f = FrameType.from_u8 f.header.frame_type

unfoldable pub encode : Frame → Bytes
encode f = Header.encode f.header ++ (f.headers ++ f.payload)

-- A frame, cut from its bytes behind the header that has been read.
abbrev pub frame_of : ℕ → ℕ → Bytes → FrameHeader → Frame
frame_of header_len payload_len frame_bytes header = record {
  header = header;
  headers =
      if ltb 0 header_len
      then slice frame_header_size (frame_header_size + header_len) frame_bytes
      else [];
  payload =
      if ltb 0 payload_len
      then slice (frame_header_size + header_len) (frame_header_size + header_len + payload_len)
          frame_bytes
      else [];
}

abbrev pub framed : ℕ → ℕ → Bytes → Result (FrameHeader × Bytes) → Result (Option Frame)
framed header_len payload_len frame_bytes (ok (header, left)) =
    ok (some (frame_of header_len payload_len frame_bytes header))
framed header_len payload_len frame_bytes (err e) = err e

-- The result, and what is left in the buffer: a frame that is not there yet is left, and one whose
-- header is refused is taken out.
unfoldable pub decode_from : Bytes → ℕ → Result (Option Frame) × Bytes
decode_from buf max_frame_size =
    let header_len = be_value (slice 14 18 buf) in
    let payload_len = be_value (slice 18 22 buf) in
    let total = frame_header_size + header_len + payload_len in
    if ltb (length buf) frame_header_size
    then (ok none, buf)
    else if ltb max_frame_size total
    then (err (frame_too_large total max_frame_size), buf)
    else if ltb (length buf) total
    then (ok none, buf)
    else let frame_bytes = take total buf in
      (
        framed header_len payload_len frame_bytes
            (Header.decode (slice 0 frame_header_size frame_bytes)),
        drop total buf,
      )
