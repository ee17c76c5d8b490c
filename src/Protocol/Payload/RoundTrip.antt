-- ===== src/Protocol/Payload/RoundTrip.antt =====
-- The payloads of crates/zetmq-protocol/src/command/ are read back as they were written.
use zet_mq.Prelude.{
  ℕ, suc, ◌+◌, ◌-◌, ◌^◌, ◌%◌, ◌≡◌, ◌<◌, refl, ap, ◌∙◌, sym, true, false, [], ◌∷◌, ◌++◌,
  append_assoc, append-nil, arith, ltb, length, length-append, take, drop, slice, take-append,
  drop-append, be_bytes, be_value, length-be_bytes, be_value-be_bytes,
}
use zet_mq.Text.{Str, is_utf8, from_utf8_lossy}
use zet_mq.Text.Utf8.{from_utf8_lossy-utf8}
use zet_mq.Core.Delivery.{Bytes}
use zet_mq.Protocol.Payload.{
  decoded, AckCommand, encode_ack, decode_ack, CreateStreamCommand, encode_create, decode_create,
  DeleteStreamCommand, encode_delete, decode_delete, AuthInfo, no_auth, token, user_pass, type_byte,
  encode_fields, decode_auth,
}

-- A name is UTF-8 and its length fits a byte.
abbrev pub IsName : Str → Type 0
IsName name = (is_utf8 name ≡ true) × (length name < 256)

pub head_byte : (n : ℕ) (xs : Bytes) → n < 256 → be_bytes 1 n ++ xs ≡ n ∷ xs
unfolding be_bytes
head_byte n xs h = ap (λ m. m ∷ xs) (small n h)
  where
    small : (n : ℕ) → n < 256 → n % 256 ≡ n
    small n h = omega (arith, h)

pub cut_take : (k : ℕ) (xs ys : Bytes) → k ≡ length xs → take k (xs ++ ys) ≡ xs
cut_take k xs ys e = rw e (take-append xs ys)

pub cut_drop : (k : ℕ) (xs ys : Bytes) → k ≡ length xs → drop k (xs ++ ys) ≡ ys
cut_drop k xs ys e = rw e (drop-append xs ys)

-- A name behind its length, and what follows it.
pub named :
    (name rest : Bytes)
    → IsName name
    → (from_utf8_lossy (slice 1 (1 + length name) (length name ∷ (name ++ rest))) ≡ name)
      × (drop (1 + length name) (length name ∷ (name ++ rest)) ≡ rest)
named name rest good = (
  ap from_utf8_lossy (cut_take (1 + length name - 1) name rest (omega arith))
      ∙ from_utf8_lossy-utf8 name good.0,
  ap (λ k. drop k (length name ∷ (name ++ rest))) (one_more (length name)) ∙ drop-append name rest,
)
  where
    one_more : (n : ℕ) → 1 + n ≡ suc n
    one_more n = omega arith

pub number_at :
    (k n width : ℕ) (rest : Bytes)
    → width ≡ k
    → n < 256 ^ k
    → be_value (take width (be_bytes k n ++ rest)) ≡ n
number_at k n width rest e small =
    ap be_value (cut_take width (be_bytes k n) rest (e ∙ sym (length-be_bytes k n)))
    ∙ be_value-be_bytes k n small

-- A delete command is read back.
pub decode_delete-encode :
    (c : DeleteStreamCommand) → IsName c.name → decode_delete (encode_delete c) ≡ decoded c
unfolding decode_delete encode_delete
decode_delete-encode c good =
    let payload = length c.name ∷ (c.name ++ []) in
    let shape : encode_delete c ≡ payload =
      head_byte (length c.name) c.name good.1
      ∙ ap (λ l. length c.name ∷ l) (sym (append-nil c.name)) in
    let (name, rest) = named c.name [] good in
    let long : ltb (length payload) (1 + length c.name) ≡ false =
      ground (arith, length-append c.name []) in
    ap decode_delete shape ∙ rw (long, decode_delete, name) refl

-- The payload of an acknowledgement whose stream name is UTF-8 and shorter than 256 bytes, and
-- whose sequence fits 64 bits, is read back as that command.
pub decode_ack-encode :
    (c : AckCommand)
    → IsName c.stream
    → c.sequence < 18446744073709551616
    → decode_ack (encode_ack c) ≡ decoded c
unfolding decode_ack encode_ack
decode_ack-encode c good small =
    let rest = be_bytes 8 c.sequence in
    let payload = length c.stream ∷ (c.stream ++ rest) in
    let (name, behind) = named c.stream rest good in
    let long : ltb (length payload) (1 + length c.stream + 8) ≡ false =
      ground (arith, length-append c.stream rest, length-be_bytes 8 c.sequence) in
    let number : be_value (slice (1 + length c.stream) (1 + length c.stream + 8) payload)
        ≡ c.sequence =
      ap (λ l. be_value (take (1 + length c.stream + 8 - (1 + length c.stream)) l))
        (behind ∙ sym (append-nil rest))
      ∙ number_at 8 c.sequence (1 + length c.stream + 8 - (1 + length c.stream)) [] (omega arith)
          (omega (arith, small)) in
    ap decode_ack (head_byte (length c.stream) (c.stream ++ rest) good.1)
    ∙ rw (long, decode_ack, name, number) refl

-- The numbers fit their width.
abbrev pub IsCreate : CreateStreamCommand → Type 0
IsCreate c =
    IsName c.name
    × (c.max_msgs < 18446744073709551616)
    × (c.max_bytes < 18446744073709551616)
    × (c.max_age_secs < 18446744073709551616)

-- The payload of a create command whose name is UTF-8 and shorter than 256 bytes, and whose numbers
-- fit 64 bits, is read back as that command.
pub decode_create-encode :
    (c : CreateStreamCommand) → IsCreate c → decode_create (encode_create c) ≡ decoded c
unfolding decode_create encode_create
decode_create-encode c (good, msgs, size, age) =
    let b1 = be_bytes 8 c.max_msgs in
    let b2 = be_bytes 8 c.max_bytes in
    let b3 = be_bytes 8 c.max_age_secs in
    let rest = b1 ++ (b2 ++ b3) in
    let payload = length c.name ∷ (c.name ++ rest) in
    let (name, behind) = named c.name rest good in
    let size_b1 = length-be_bytes 8 c.max_msgs in
    let size_b2 = length-be_bytes 8 c.max_bytes in
    let size_b3 = length-be_bytes 8 c.max_age_secs in
    let long : ltb (length payload) (1 + length c.name + 24) ≡ false = ground (
      arith,
      length-append c.name rest,
      length-append b1 (b2 ++ b3),
      length-append b2 b3,
      size_b1,
      size_b2,
      size_b3,
    ) in
    let at8 = cut_drop 8 b1 (b2 ++ b3) (omega (arith, size_b1)) in
    let at16 =
      ap (drop 16) (sym (append_assoc b1 b2 b3))
      ∙ cut_drop 16 (b1 ++ b2) b3 (omega (arith, length-append b1 b2, size_b1, size_b2)) in
    let n1 = number_at 8 c.max_msgs 8 (b2 ++ b3) refl (omega (arith, msgs)) in
    let n2 =
      ap (λ l. be_value (take 8 l)) at8 ∙ number_at 8 c.max_bytes 8 b3 refl (omega (arith, size)) in
    let n3 =
      ap (λ l. be_value (take 8 l)) (at16 ∙ sym (append-nil b3))
      ∙ number_at 8 c.max_age_secs 8 [] refl (omega (arith, age)) in
    ap decode_create (head_byte (length c.name) (c.name ++ rest) good.1)
    ∙ rw (long, decode_create, name, behind, n1, n2, n3) refl

-- The texts are UTF-8, and their lengths fit two bytes.
abbrev pub IsAuth : AuthInfo → Type 0
IsAuth no_auth = Unit
IsAuth (token t) = (is_utf8 t ≡ true) × (length t < 65536)
IsAuth (user_pass u p) =
    (is_utf8 u ≡ true) × (length u < 65536) × (is_utf8 p ≡ true) × (length p < 65536)

-- Credentials whose texts are UTF-8 and shorter than 65536 bytes are read back by `decode` under
-- their type byte from the bytes that `encode_fields` writes.
pub decode_auth-encode :
    (a : AuthInfo) → IsAuth a → decode_auth (type_byte a) (encode_fields a) ≡ decoded a
unfolding decode_auth encode_fields
decode_auth-encode no_auth good = refl
decode_auth-encode (token t) (valid, short) =
    let bytes = be_bytes 2 (length t) ++ t in
    let size_l = length-be_bytes 2 (length t) in
    let len = number_at 2 (length t) 2 t refl (omega (arith, short)) in
    let long : ltb (length bytes) 2 ≡ false =
      ground (arith, length-append (be_bytes 2 (length t)) t, size_l) in
    let whole : ltb (length bytes) (2 + length t) ≡ false =
      ground (arith, length-append (be_bytes 2 (length t)) t, size_l) in
    let text : from_utf8_lossy (slice 2 (2 + length t) bytes) ≡ t =
      ap (λ l. from_utf8_lossy (take (2 + length t - 2) l))
        (cut_drop 2 (be_bytes 2 (length t)) t (sym size_l) ∙ sym (append-nil t))
      ∙ ap from_utf8_lossy (cut_take (2 + length t - 2) t [] (omega arith))
      ∙ from_utf8_lossy-utf8 t valid in
    rw (long, len, whole, text) refl
decode_auth-encode (user_pass u p) (valid_u, short_u, valid_p, short_p) =
    let lu = be_bytes 2 (length u) in
    let lp = be_bytes 2 (length p) in
    let bytes = lu ++ (u ++ (lp ++ p)) in
    let size_u = length-be_bytes 2 (length u) in
    let size_p = length-be_bytes 2 (length p) in
    let total : length bytes ≡ 4 + length u + length p = omega (
      arith,
      length-append lu (u ++ (lp ++ p)),
      length-append u (lp ++ p),
      length-append lp p,
      size_u,
      size_p,
    ) in
    let u_len = number_at 2 (length u) 2 (u ++ (lp ++ p)) refl (omega (arith, short_u)) in
    let at_p =
      ap (drop (2 + length u)) (sym (append_assoc lu u (lp ++ p)))
      ∙ cut_drop (2 + length u) (lu ++ u) (lp ++ p) (omega (arith, length-append lu u, size_u)) in
    let p_len : be_value (slice (2 + length u) (4 + length u) bytes) ≡ length p =
      ap (λ l. be_value (take (4 + length u - (2 + length u)) l)) at_p
      ∙ number_at 2 (length p) (4 + length u - (2 + length u)) p (omega arith)
          (omega (arith, short_p)) in
    let behind_p =
      ap (drop (4 + length u))
        (sym (append_assoc lu u (lp ++ p)) ∙ sym (append_assoc (lu ++ u) lp p))
      ∙ cut_drop (4 + length u) ((lu ++ u) ++ lp) p
          (omega (arith, length-append (lu ++ u) lp, length-append lu u, size_u, size_p)) in
    let text_u : from_utf8_lossy (slice 2 (2 + length u) bytes) ≡ u =
      ap (λ l. from_utf8_lossy (take (2 + length u - 2) l))
        (cut_drop 2 lu (u ++ (lp ++ p)) (sym size_u))
      ∙ ap from_utf8_lossy (cut_take (2 + length u - 2) u (lp ++ p) (omega arith))
      ∙ from_utf8_lossy-utf8 u valid_u in
    let text_p : from_utf8_lossy (slice (4 + length u) (4 + length u + length p) bytes) ≡ p =
      ap (λ l. from_utf8_lossy (take (4 + length u + length p - (4 + length u)) l))
        (behind_p ∙ sym (append-nil p))
      ∙ ap from_utf8_lossy (cut_take (4 + length u + length p - (4 + length u)) p [] (omega arith))
      ∙ from_utf8_lossy-utf8 p valid_p in
    let long : ltb (length bytes) 2 ≡ false = ground (arith, total) in
    let has_u : ltb (length bytes) (2 + length u + 2) ≡ false = ground (arith, total) in
    let has_p : ltb (length bytes) (4 + length u + length p) ≡ false = ground (arith, total) in
    rw (long, u_len, has_u, p_len, has_p, text_u, text_p) refl
