-- ===== src/Witness/Frames.antt =====
-- Frames on concrete bytes.
use zet_mq.Prelude.{ℕ, ◌≡◌, refl, List, [], ◌∷◌, ◌++◌, none, some, arith}
use zet_mq.Protocol.Error.{ok, err, frame_too_large}
use zet_mq.Protocol.Header
use zet_mq.Protocol.Header.{FrameHeader, zetmq_magic, total_frame_size}
use zet_mq.Protocol.Header.RoundTrip.{IsHeader, decode-encode}
use zet_mq.Protocol.Frame.{Frame, encode, decode_from}
use zet_mq.Protocol.Frame.RoundTrip.{
  IsFrame, decode_from-encode, decode_from-prefix, decode_from-too_large,
}
use zet_mq.Prelude.{be_bytes}

abbrev header_two : FrameHeader
header_two = record {
  magic = zetmq_magic;
  version = 1;
  frame_type = 32;
  flags = 0;
  correlation_id = 7;
  header_len = 0;
  payload_len = 2;
}

header_two-IsHeader : IsHeader header_two
header_two-IsHeader = record {
  magic = refl;
  version = refl;
  frame_type = omega arith;
  flags = omega arith;
  correlation_id = omega arith;
  header_len = omega arith;
  payload_len = omega arith;
}

abbrev frame_two : Frame
frame_two = record { header = header_two; headers = []; payload = 5 ∷ 6 ∷ [] }

frame_two-IsFrame : IsFrame frame_two
frame_two-IsFrame = record { header = header_two-IsHeader; header_len = refl; payload_len = refl }

decode-encode_example : Header.decode (Header.encode header_two ++ 9 ∷ []) ≡ ok (header_two, 9 ∷ [])
decode-encode_example = decode-encode header_two (9 ∷ []) header_two-IsHeader

decode_from-encode_example :
    decode_from (encode frame_two ++ 9 ∷ []) 100 ≡ (ok (some frame_two), 9 ∷ [])
decode_from-encode_example =
    decode_from-encode frame_two frame_two-IsFrame 100 (omega arith) (9 ∷ [])

-- The frame without its last byte.
abbrev part : List ℕ
part =
    90 ∷ 77 ∷ 1 ∷ 32 ∷ 0 ∷ 0 ∷ 0 ∷ 0 ∷ 0 ∷ 0 ∷ 0 ∷ 0 ∷ 0 ∷ 7 ∷ 0 ∷ 0 ∷ 0 ∷ 0 ∷ 0 ∷ 0 ∷ 0 ∷ 2 ∷ 5
    ∷ []

part_whole : part ++ 6 ∷ [] ≡ encode frame_two
unfolding encode Header.encode be_bytes
part_whole = refl

decode_from-prefix_example : decode_from part 100 ≡ (ok none, part)
decode_from-prefix_example =
    decode_from-prefix frame_two frame_two-IsFrame 100 (omega arith) part (6 ∷ []) (ground arith)
      part_whole

decode_from-too_large_example :
    decode_from (Header.encode header_two ++ []) 20
    ≡ (err (frame_too_large 24 20), Header.encode header_two ++ [])
decode_from-too_large_example =
    decode_from-too_large header_two [] 20 header_two-IsHeader (omega arith)
