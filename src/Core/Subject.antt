-- ===== src/Core/Subject.antt =====
-- crates/zetmq-core/src/subject.rs, and the errors of error.rs that it raises.
pub mod Parsing
use zet_mq.Prelude.{
  ℕ, Bool, true, false, List, [], ◌∷◌, ◌||◌, leb, ltb, if◌then◌else◌, length, is_empty, any,
}
use zet_mq.Text.{Str, contains, split, trim}

-- What is wrong with a text: the messages of the error, as data.
pub data Reason : Type 0 where
  empty has_wildcards too_many_tokens too_long empty_token misplaced_wildcard : Reason

pub data CoreError : Type 0 where
  invalid_subject : Reason → CoreError
  invalid_subject_pattern : Reason → CoreError
  invalid_queue_group_name : Reason → CoreError
  subject_too_long : ℕ → ℕ → CoreError

pub data Result {ℓ} (A : Type ℓ) : Type ℓ where
  ok : A → Result A
  err : CoreError → Result A

abbrev pub max_subject_len : ℕ
max_subject_len = 512

abbrev pub max_tokens : ℕ
max_tokens = 32

abbrev pub dot : ℕ
dot = b'.'

abbrev pub star : Str
star = b'*' ∷ []

abbrev pub gt : Str
gt = b'>' ∷ []

pub record Subject : Type 0 where
  pub raw : Str
  pub tokens : List Str

unfoldable pub parse : Str → Result Subject
parse input =
    let trimmed = trim input in
    let tokens = split dot trimmed in
    if is_empty trimmed
    then err (invalid_subject empty)
    else if ltb max_subject_len (length trimmed)
    then err (subject_too_long (length trimmed) max_subject_len)
    else if contains b'*' trimmed || contains b'>' trimmed
    then err (invalid_subject has_wildcards)
    else if ltb max_tokens (length tokens)
    then err (invalid_subject too_many_tokens)
    else if any is_empty tokens
    then err (invalid_subject empty_token)
    else ok (record { raw = trimmed; tokens = tokens })
