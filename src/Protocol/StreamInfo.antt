-- ===== src/Protocol/StreamInfo.antt =====
-- `StreamInfoResponse` of crates/zetmq-protocol/src/command/stream_cmd.rs.
use zet_mq.Prelude.{
  ℕ, ◌+◌, ◌++◌, if◌then◌else◌, ltb, is_empty, length, get_or, drop, slice, be_bytes, be_value,
}
use zet_mq.Text.{Str, from_utf8_lossy}
use zet_mq.Core.Delivery.{Bytes}
use zet_mq.Protocol.Error.{empty_payload, payload_too_short}
use zet_mq.Protocol.Payload.{Decoded, decoded, invalid}

pub record StreamInfoResponse : Type 0 where
  pub name : Str
  pub messages : ℕ
  pub bytes : ℕ
  pub first_seq : ℕ
  pub last_seq : ℕ
  pub max_msgs : ℕ
  pub max_bytes : ℕ
  pub max_age_secs : ℕ

unfoldable pub encode_payload : StreamInfoResponse → Bytes
encode_payload r =
    be_bytes 1 (length r.name)
    ++ (r.name
        ++ (be_bytes 8 r.messages
            ++ (be_bytes 8 r.bytes
                ++ (be_bytes 8 r.first_seq
                    ++ (be_bytes 8 r.last_seq
                        ++ (be_bytes 8 r.max_msgs
                            ++ (be_bytes 8 r.max_bytes ++ be_bytes 8 r.max_age_secs)))))))

unfoldable pub decode : Bytes → Decoded StreamInfoResponse
decode payload =
    let name_len = get_or payload 0 0 in
    let rest = drop (1 + name_len) payload in
    if is_empty payload
    then invalid empty_payload
    else if ltb (length payload) (1 + name_len + 56)
    then invalid payload_too_short
    else decoded (record {
      name = from_utf8_lossy (slice 1 (1 + name_len) payload);
      messages = be_value (slice 0 8 rest);
      bytes = be_value (slice 8 16 rest);
      first_seq = be_value (slice 16 24 rest);
      last_seq = be_value (slice 24 32 rest);
      max_msgs = be_value (slice 32 40 rest);
      max_bytes = be_value (slice 40 48 rest);
      max_age_secs = be_value (slice 48 56 rest);
    })
