-- ===== src/Protocol/Payload.antt =====
-- crates/zetmq-protocol/src/command/connect.rs and stream_cmd.rs: the payloads of commands.
pub mod RoundTrip
use zet_mq.Prelude.{
  ℕ, ◌+◌, List, [], ◌∷◌, ◌++◌, Option, none, some, if◌then◌else◌, ◌==◌, ltb, is_empty, length,
  get_or, take, drop, slice, be_bytes, be_value,
}
use zet_mq.Text.{Str, from_utf8_lossy}
use zet_mq.Core.Delivery.{Bytes}
use zet_mq.Protocol.Error.{
  Reason, empty_payload, payload_too_short, token_too_short, token_truncated, userpass_too_short,
  username_truncated, password_truncated, unknown_auth_type,
}

pub data Decoded (A : Type 0) : Type 0 where
  decoded : A → Decoded A
  invalid : Reason → Decoded A

pub data AuthInfo : Type 0 where
  no_auth : AuthInfo
  token : Str → AuthInfo
  user_pass : Str → Str → AuthInfo

abbrev pub type_byte : AuthInfo → ℕ
type_byte no_auth = 0
type_byte (token t) = 1
type_byte (user_pass u p) = 2

unfoldable pub encode_fields : AuthInfo → Bytes
encode_fields no_auth = []
encode_fields (token t) = be_bytes 2 (length t) ++ t
encode_fields (user_pass u p) = be_bytes 2 (length u) ++ (u ++ (be_bytes 2 (length p) ++ p))

abbrev pub decode_token : Bytes → Decoded AuthInfo
decode_token bytes =
    let len = be_value (slice 0 2 bytes) in
    if ltb (length bytes) 2
    then invalid token_too_short
    else if ltb (length bytes) (2 + len)
    then invalid token_truncated
    else decoded (token (from_utf8_lossy (slice 2 (2 + len) bytes)))

abbrev pub decode_user_pass : Bytes → Decoded AuthInfo
decode_user_pass bytes =
    let u_len = be_value (slice 0 2 bytes) in
    let p_len = be_value (slice (2 + u_len) (4 + u_len) bytes) in
    if ltb (length bytes) 2
    then invalid userpass_too_short
    else if ltb (length bytes) (2 + u_len + 2)
    then invalid username_truncated
    else if ltb (length bytes) (4 + u_len + p_len)
    then invalid password_truncated
    else decoded (
        user_pass (from_utf8_lossy (slice 2 (2 + u_len) bytes))
          (from_utf8_lossy (slice (4 + u_len) (4 + u_len + p_len) bytes)))

unfoldable pub decode_auth : ℕ → Bytes → Decoded AuthInfo
decode_auth auth_type bytes =
    if auth_type == 0
    then decoded no_auth
    else if auth_type == 1
    then decode_token bytes
    else if auth_type == 2
    then decode_user_pass bytes
    else invalid (unknown_auth_type auth_type)

pub record ConnectCommand : Type 0 where
  pub client_name : Option Str
  pub protocol_version : ℕ
  pub auth : AuthInfo

abbrev pub new_connect : ℕ → ConnectCommand
new_connect protocol_version = record {
  client_name = none;
  protocol_version = protocol_version;
  auth = no_auth;
}

unfoldable pub encode_connect : ConnectCommand → Option Bytes
unfolding encode_fields
encode_connect c = elim c.auth [
  | no_auth ↦ none
  | token t ↦ some (1 ∷ encode_fields (token t))
  | user_pass u p ↦ some (2 ∷ encode_fields (user_pass u p))
]

pub record CreateStreamCommand : Type 0 where
  pub name : Str
  pub max_msgs : ℕ
  pub max_bytes : ℕ
  pub max_age_secs : ℕ

unfoldable pub encode_create : CreateStreamCommand → Bytes
encode_create c =
    be_bytes 1 (length c.name)
    ++ (c.name ++ (be_bytes 8 c.max_msgs ++ (be_bytes 8 c.max_bytes ++ be_bytes 8 c.max_age_secs)))

unfoldable pub decode_create : Bytes → Decoded CreateStreamCommand
decode_create payload =
    let name_len = get_or payload 0 0 in
    let rest = drop (1 + name_len) payload in
    if is_empty payload
    then invalid empty_payload
    else if ltb (length payload) (1 + name_len + 24)
    then invalid payload_too_short
    else decoded (record {
      name = from_utf8_lossy (slice 1 (1 + name_len) payload);
      max_msgs = be_value (slice 0 8 rest);
      max_bytes = be_value (slice 8 16 rest);
      max_age_secs = be_value (slice 16 24 rest);
    })

pub record DeleteStreamCommand : Type 0 where
  pub name : Str

unfoldable pub encode_delete : DeleteStreamCommand → Bytes
encode_delete c = be_bytes 1 (length c.name) ++ c.name

unfoldable pub decode_delete : Bytes → Decoded DeleteStreamCommand
decode_delete payload =
    let name_len = get_or payload 0 0 in
    if is_empty payload
    then invalid empty_payload
    else if ltb (length payload) (1 + name_len)
    then invalid payload_too_short
    else decoded (record { name = from_utf8_lossy (slice 1 (1 + name_len) payload) })

-- `AckCommand` and `NackCommand`, whose codecs are the same.
pub record AckCommand : Type 0 where
  pub stream : Str
  pub sequence : ℕ

unfoldable pub encode_ack : AckCommand → Bytes
encode_ack c = be_bytes 1 (length c.stream) ++ (c.stream ++ be_bytes 8 c.sequence)

unfoldable pub decode_ack : Bytes → Decoded AckCommand
decode_ack payload =
    let name_len = get_or payload 0 0 in
    if is_empty payload
    then invalid empty_payload
    else if ltb (length payload) (1 + name_len + 8)
    then invalid payload_too_short
    else decoded (record {
      stream = from_utf8_lossy (slice 1 (1 + name_len) payload);
      sequence = be_value (slice (1 + name_len) (1 + name_len + 8) payload);
    })
