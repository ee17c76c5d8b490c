-- ===== src/Protocol/Headers.antt =====
-- crates/zetmq-protocol/src/headers.rs. `iterate` is the order in which a hash map is iterated over.
use zet_mq.Prelude.{
  ℕ, zero, suc, ◌+◌, List, [], ◌∷◌, ◌++◌, if◌then◌else◌, ltb, length, take, drop, be_bytes,
  be_value,
}
use zet_mq.Text.{Str, from_utf8_lossy}
use zet_mq.Map
use zet_mq.Map.{Map, str_key}
use zet_mq.Core.Delivery.{HeaderMap, Bytes}
use zet_mq.Protocol.Error.{
  Result, ok, err, decoding_error, key_length_truncated, key_data_truncated, value_length_truncated,
  value_data_truncated,
}

unfoldable pub encode_each : List (Str × Str) → Bytes
encode_each [] = []
encode_each ((key, val) ∷ headers) =
    be_bytes 2 (length key) ++ key ++ be_bytes 2 (length val) ++ val ++ encode_each headers

unfoldable pub encode_headers : (List (Str × Str) → List (Str × Str)) → HeaderMap → Bytes
unfolding encode_each
encode_headers iterate headers =
    be_bytes 2 (length headers.entries) ++ encode_each (iterate headers.entries)

-- The loop over the headers that are still to come.
unfoldable pub decode_each : ℕ → Bytes → HeaderMap → Result HeaderMap
decode_each zero buf headers = ok headers
decode_each (suc n) buf headers =
    let key_len = be_value (take 2 buf) in
    let b1 = drop 2 buf in
    let key = from_utf8_lossy (take key_len b1) in
    let b2 = drop key_len b1 in
    let val_len = be_value (take 2 b2) in
    let b3 = drop 2 b2 in
    let val = from_utf8_lossy (take val_len b3) in
    let rest = decode_each n (drop val_len b3) (Map.insert key val headers) in
    if ltb (length buf) 2
    then err (decoding_error key_length_truncated)
    else if ltb (length b1) key_len
    then err (decoding_error key_data_truncated)
    else if ltb (length b2) 2
    then err (decoding_error value_length_truncated)
    else if ltb (length b3) val_len
    then err (decoding_error value_data_truncated)
    else rest

unfoldable pub decode_headers : Bytes → Result HeaderMap
unfolding decode_each
decode_headers bytes =
    if ltb (length bytes) 2
    then ok Map.empty
    else decode_each (be_value (take 2 bytes)) (drop 2 bytes) Map.empty

unfoldable pub len_each : List (Str × Str) → ℕ
len_each [] = 0
len_each ((key, val) ∷ headers) = 2 + length key + 2 + length val + len_each headers

unfoldable pub encoded_headers_len : (List (Str × Str) → List (Str × Str)) → HeaderMap → ℕ
unfolding len_each
encoded_headers_len iterate headers = 2 + len_each (iterate headers.entries)
