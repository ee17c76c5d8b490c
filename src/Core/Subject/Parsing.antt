-- ===== src/Core/Subject/Parsing.antt =====
-- What `Subject::parse` accepts.
use zet_mq.Prelude.{◌≡◌, sym, false, subst, ◌≤◌, length, arith, is_empty, any, All}
use zet_mq.Text.{Str, split, trim}
use zet_mq.Text.Split.{Lacks, split-Lacks}
use zet_mq.Core.Subject.{Subject, parse, ok, dot, max_tokens, max_subject_len}

-- The tokens are the pieces of the text, there are 1 to 32 of them, none is empty, and no token
-- holds a wildcard character.
pub record IsSubject (s : Subject) : Type 0 where
  pub split_raw : s.tokens ≡ split dot s.raw
  pub no_star : All (Lacks b'*') s.tokens
  pub no_gt : All (Lacks b'>') s.tokens
  pub nonempty : any is_empty s.tokens ≡ false
  pub few : length s.tokens ≤ max_tokens
  pub short : length s.raw ≤ max_subject_len

module _ (input : Str) {s : Subject} (parsed : parse input ≡ ok s) where
  pub raw-parse : s.raw ≡ trim input
  unfolding parse
  raw-parse = ground arith

  tokens-parse : s.tokens ≡ split dot s.raw
  unfolding parse
  tokens-parse = ground arith

  few-parse : (length s.tokens ≤ max_tokens) × (length s.raw ≤ max_subject_len)
  unfolding parse
  few-parse = ground arith

  nonempty-parse : any is_empty s.tokens ≡ false
  unfolding parse
  nonempty-parse = ground arith

  Lacks-parse : Lacks b'*' s.raw × Lacks b'>' s.raw
  unfolding parse
  Lacks-parse = ground arith

  -- A subject that `parse` returns is well formed: its tokens are the pieces of its text, none is
  -- empty or holds a wildcard character, and the text and the number of tokens are within their
  -- limits.
  pub parse-IsSubject : IsSubject s
  parse-IsSubject = record {
    split_raw = tokens-parse;
    no_star =
        subst (All (Lacks b'*')) (sym tokens-parse) (split-Lacks dot b'*' s.raw Lacks-parse.0);
    no_gt = subst (All (Lacks b'>')) (sym tokens-parse) (split-Lacks dot b'>' s.raw Lacks-parse.1);
    nonempty = nonempty-parse;
    few = few-parse.0;
    short = few-parse.1;
  }
