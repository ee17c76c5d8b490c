-- ===== src/Protocol/Error.antt =====
-- crates/zetmq-protocol/src/error.rs and version.rs. The texts of two errors are data.
use zet_mq.Prelude.{ℕ, Bool, ◌==◌}

pub data Reason : Type 0 where
  key_length_truncated key_data_truncated value_length_truncated value_data_truncated : Reason
  pub_too_short pub_subject_truncated sub_empty sub_pattern_truncated unsub_too_short : Reason
  pub_reply_missing pub_reply_truncated : Reason
  msg_too_short msg_subject_truncated msg_sub_id_truncated : Reason
  empty_payload payload_too_short : Reason
  token_too_short token_truncated : Reason
  userpass_too_short username_truncated password_truncated : Reason
  unknown_auth_type unexpected_frame_type : ℕ → Reason
  invalid_auth : Reason → Reason

pub data ProtocolError : Type 0 where
  invalid_magic : ℕ → ℕ → ProtocolError
  unsupported_version unknown_frame_type : ℕ → ProtocolError
  frame_too_large payload_too_large incomplete_frame : ℕ → ℕ → ProtocolError
  invalid_header_length : ℕ → ProtocolError
  encoding_error decoding_error : Reason → ProtocolError

pub data Result (A : Type 0) : Type 0 where
  ok : A → Result A
  err : ProtocolError → Result A

abbrev pub protocol_v1 : ℕ
protocol_v1 = 1

abbrev pub current_version : ℕ
current_version = protocol_v1

abbrev pub is_supported : ℕ → Bool
is_supported version = version == protocol_v1
