-- ===== src/Core/Pattern/Parsing.antt =====
-- What `SubjectPattern::parse` accepts.
use zet_mq.Prelude.{
  ◌≡◌, refl, sym, ap, ◌∙◌, false, ◌≤◌, length, arith, is_empty, List, [], ◌∷◌, map, suc, str_eq,
  str_eq→eq,
}
use zet_mq.Text.{Str, split, trim}
use zet_mq.Text.Split.{split-injective}
use zet_mq.Core.Subject.{ok, dot, star, gt, max_tokens}
use zet_mq.Core.Pattern.{
  PatternToken, literal, single_wildcard, multi_wildcard, SubjectPattern, parse_tokens, parse,
  token_str, max_pattern_len,
}

-- `>` stands at the end only, and no literal is spelled like a wildcard or is empty.
abbrev pub IsTokens : List PatternToken → Type 0
IsTokens [] = Unit
IsTokens (literal lit ∷ ts) =
    (is_empty lit ≡ false) × (str_eq lit star ≡ false) × (str_eq lit gt ≡ false) × IsTokens ts
IsTokens (single_wildcard ∷ ts) = IsTokens ts
IsTokens (multi_wildcard ∷ ts) = ts ≡ []

pub record IsPattern (p : SubjectPattern) : Type 0 where
  pub split_raw : map token_str p.tokens ≡ split dot p.raw
  pub shape : IsTokens p.tokens
  pub few : length p.tokens ≤ max_tokens
  pub short : length p.raw ≤ max_pattern_len

-- A pattern is told by its tokens.
pub raw-determined :
    {p q : SubjectPattern} → IsPattern p → IsPattern q → p.tokens ≡ q.tokens → p.raw ≡ q.raw
raw-determined {p} {q} hp hq e =
    split-injective dot p.raw q.raw (sym hp.split_raw ∙ ap (map token_str) e ∙ hq.split_raw)

parse_tokens-Parsed :
    (raws : List Str) (ts : List PatternToken)
    → parse_tokens raws ≡ ok ts
    → (map token_str ts ≡ raws) × IsTokens ts
unfolding parse_tokens
parse_tokens-Parsed [] [] e = (refl, tt)
parse_tokens-Parsed [] (t ∷ ts) e = cc
parse_tokens-Parsed (s ∷ raws) [] e = ground arith
parse_tokens-Parsed (s ∷ raws) (literal lit ∷ ts) e = ground (arith, parse_tokens-Parsed raws ts)
parse_tokens-Parsed (s ∷ raws) (single_wildcard ∷ ts) e =
    ground (arith, str_eq→eq s star, parse_tokens-Parsed raws ts)
parse_tokens-Parsed (s ∷ raws) (multi_wildcard ∷ ts) e =
    ground (arith, str_eq→eq s gt, parse_tokens-Parsed raws ts)

length-token_strs : (ts : List PatternToken) → length (map token_str ts) ≡ length ts
length-token_strs [] = refl
length-token_strs (t ∷ ts) = ap suc (length-token_strs ts)

module _ (input : Str) {p : SubjectPattern} (parsed : parse input ≡ ok p) where
  pub raw-parse : p.raw ≡ trim input
  unfolding parse
  raw-parse = ground arith

  tokens-parse : parse_tokens (split dot p.raw) ≡ ok p.tokens
  unfolding parse
  tokens-parse = ground arith

  bounds-parse : (length (split dot p.raw) ≤ max_tokens) × (length p.raw ≤ max_pattern_len)
  unfolding parse
  bounds-parse = ground arith

  -- A pattern that `parse` returns is well formed: its tokens, written as text, are the pieces of
  -- its text, `>` stands at the end only, no literal is empty or spelled like a wildcard, and the
  -- text and the number of tokens are within their limits.
  pub parse-IsPattern : IsPattern p
  parse-IsPattern =
      let (pieces, shape) = parse_tokens-Parsed (split dot p.raw) p.tokens tokens-parse in
      record {
        split_raw = pieces;
        shape = shape;
        few = omega (arith, length-token_strs p.tokens, ap length pieces, bounds-parse.0);
        short = bounds-parse.1;
      }
