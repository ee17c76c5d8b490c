-- ===== src/Core/Pattern.antt =====
-- crates/zetmq-core/src/subject_pattern.rs.
pub mod Parsing
use zet_mq.Prelude.{
  ℕ, suc, ◌-◌, Bool, true, false, List, [], ◌∷◌, ◌&&◌, ◌==◌, ltb, if◌then◌else◌, length, is_empty,
  str_eq,
}
use zet_mq.Text.{Str, split, trim}
use zet_mq.Core.Subject.{
  Subject, Result, ok, err, CoreError, invalid_subject_pattern, empty, too_many_tokens, too_long,
  empty_token, misplaced_wildcard, max_tokens, dot, star, gt,
}

pub data PatternToken : Type 0 where
  literal : Str → PatternToken
  single_wildcard multi_wildcard : PatternToken

pub record SubjectPattern : Type 0 where
  pub raw : Str
  pub tokens : List PatternToken

abbrev pub max_pattern_len : ℕ
max_pattern_len = 512

abbrev push_token : PatternToken → Result (List PatternToken) → Result (List PatternToken)
push_token t (ok ts) = ok (t ∷ ts)
push_token t (err e) = err e

-- The loop over the raw tokens. `i != raw_tokens.len() - 1` holds when a token is left behind `>`.
-- An error of a token is found before those of the tokens behind it.
unfoldable pub parse_tokens : List Str → Result (List PatternToken)
parse_tokens [] = ok []
parse_tokens (token_str ∷ rest) =
    let parsed = parse_tokens rest in
    if is_empty token_str
    then err (invalid_subject_pattern empty_token)
    else if str_eq token_str star
    then push_token single_wildcard parsed
    else if str_eq token_str gt
    then (if is_empty rest
        then push_token multi_wildcard parsed
        else err (invalid_subject_pattern misplaced_wildcard))
    else push_token (literal token_str) parsed

abbrev with_raw : Str → Result (List PatternToken) → Result SubjectPattern
with_raw trimmed (ok tokens) = ok (record { raw = trimmed; tokens = tokens })
with_raw trimmed (err e) = err e

unfoldable pub parse : Str → Result SubjectPattern
unfolding parse_tokens
parse input =
    let trimmed = trim input in
    let raw_tokens = split dot trimmed in
    if is_empty trimmed
    then err (invalid_subject_pattern empty)
    else if ltb max_pattern_len (length trimmed)
    then err (invalid_subject_pattern too_long)
    else if ltb max_tokens (length raw_tokens)
    then err (invalid_subject_pattern too_many_tokens)
    else with_raw trimmed (parse_tokens raw_tokens)

-- The loop of `matches`: both lists are what is left behind `pi` and `si`.
unfoldable pub matches_tokens : List PatternToken → List Str → Bool
matches_tokens [] [] = true
matches_tokens [] (s ∷ ss) = false
matches_tokens (p ∷ ps) [] = false
matches_tokens (literal lit ∷ ps) (s ∷ ss) =
    let rest = matches_tokens ps ss in if str_eq s lit then rest else false
matches_tokens (single_wildcard ∷ ps) (s ∷ ss) = matches_tokens ps ss
matches_tokens (multi_wildcard ∷ ps) (s ∷ ss) = true

unfoldable pub matches : SubjectPattern → Subject → Bool
unfolding matches_tokens
matches pattern subject = matches_tokens pattern.tokens subject.tokens

-- How routing sees the tokens: a pattern with `*` or `>` goes to the trie, under the texts of its
-- tokens, and `>` is told apart by a flag.
unfoldable pub has_wildcard : List PatternToken → Bool
has_wildcard [] = false
has_wildcard (literal lit ∷ ps) = has_wildcard ps
has_wildcard (_ ∷ ps) = true

unfoldable pub has_multi : List PatternToken → Bool
has_multi [] = false
has_multi (multi_wildcard ∷ ps) = true
has_multi (_ ∷ ps) = has_multi ps

abbrev pub token_str : PatternToken → Str
token_str (literal lit) = lit
token_str single_wildcard = star
token_str multi_wildcard = gt
