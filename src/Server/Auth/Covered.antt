-- ===== src/Server/Auth/Covered.antt =====
-- What the permissions of crates/zetmq-server/src/session/auth.rs let through.
use zet_mq.Prelude.{
  ◌≡◌, ◌↔◌, refl, ap, true, false, List, [], ◌∷◌, arith, any, is_empty, length, str_eq, str_eq_iff,
  str_eq_refl, Bool-cases, inl, inr,
}
use zet_mq.Text.{Str}
use zet_mq.Core.Subject.{Subject}
use zet_mq.Core.Pattern.{
  SubjectPattern, PatternToken, literal, single_wildcard, multi_wildcard, matches, matches_tokens,
}
use zet_mq.Server.Auth.{AuthContext, covered_tokens, is_pattern_covered, can_subscribe}

covered_tokens_sound :
    (als rs : List PatternToken) (ts : List Str)
    → covered_tokens als rs ≡ true
    → matches_tokens rs ts ≡ true
    → matches_tokens als ts ≡ true
unfolding covered_tokens matches_tokens
covered_tokens_sound [] [] ts c m = m
covered_tokens_sound [] (r ∷ rs) ts c m = ground arith
covered_tokens_sound (a ∷ als) [] ts c m = ground arith
covered_tokens_sound (multi_wildcard ∷ als) (r ∷ rs) [] c m = m
covered_tokens_sound (multi_wildcard ∷ als) (r ∷ rs) (t ∷ ts) c m = refl
covered_tokens_sound (single_wildcard ∷ als) (literal lit ∷ rs) [] c m = m
covered_tokens_sound (single_wildcard ∷ als) (literal lit ∷ rs) (t ∷ ts) c m =
    covered_tokens_sound als rs ts c (ground arith)
covered_tokens_sound (single_wildcard ∷ als) (single_wildcard ∷ rs) [] c m = m
covered_tokens_sound (single_wildcard ∷ als) (single_wildcard ∷ rs) (t ∷ ts) c m =
    covered_tokens_sound als rs ts c m
covered_tokens_sound (single_wildcard ∷ als) (multi_wildcard ∷ rs) ts c m = ground arith
covered_tokens_sound (literal a ∷ als) (literal r ∷ rs) [] c m = m
covered_tokens_sound (literal a ∷ als) (literal r ∷ rs) (t ∷ ts) c m =
    ground (arith, covered_tokens_sound als rs ts, str_eq_iff a r, str_eq_iff t r, str_eq_iff t a)
covered_tokens_sound (literal a ∷ als) (single_wildcard ∷ rs) ts c m = ground arith
covered_tokens_sound (literal a ∷ als) (multi_wildcard ∷ rs) ts c m = ground arith

-- A list of tokens that a pattern matches.
sample : List PatternToken → List Str
sample [] = []
sample (literal lit ∷ ps) = lit ∷ sample ps
sample (single_wildcard ∷ ps) = [] ∷ sample ps
sample (multi_wildcard ∷ ps) = [] ∷ []

matches-sample : (ps : List PatternToken) → matches_tokens ps (sample ps) ≡ true
unfolding matches_tokens sample
matches-sample [] = refl
matches-sample (literal lit ∷ ps) = ground (arith, str_eq_refl lit, matches-sample ps)
matches-sample (single_wildcard ∷ ps) = matches-sample ps
matches-sample (multi_wildcard ∷ ps) = refl

longer : (a : Str) → str_eq (0 ∷ a) a ≡ false
longer a = elim (Bool-cases (str_eq (0 ∷ a) a)) [
  | inl same ↦ ground (arith, ap length ((str_eq_iff (0 ∷ a) a).0 same))
  | inr other ↦ other
]

covered_tokens_complete :
    (als rs : List PatternToken)
    → ((ts : List Str) → matches_tokens rs ts ≡ true → matches_tokens als ts ≡ true)
    → covered_tokens als rs ≡ true
unfolding covered_tokens matches_tokens sample
covered_tokens_complete [] [] h = refl
covered_tokens_complete [] (literal lit ∷ rs) h =
    h (sample (literal lit ∷ rs)) (matches-sample (literal lit ∷ rs))
covered_tokens_complete [] (single_wildcard ∷ rs) h =
    h (sample (single_wildcard ∷ rs)) (matches-sample (single_wildcard ∷ rs))
covered_tokens_complete [] (multi_wildcard ∷ rs) h = h ([] ∷ []) refl
covered_tokens_complete (a ∷ als) [] h = ground (arith, h [] refl)
covered_tokens_complete (multi_wildcard ∷ als) (r ∷ rs) h = refl
covered_tokens_complete (single_wildcard ∷ als) (literal lit ∷ rs) h =
    covered_tokens_complete als rs (λ ts m. h (lit ∷ ts) (ground (arith, str_eq_refl lit)))
covered_tokens_complete (single_wildcard ∷ als) (single_wildcard ∷ rs) h =
    covered_tokens_complete als rs (λ ts m. h ([] ∷ ts) m)
covered_tokens_complete (single_wildcard ∷ []) (multi_wildcard ∷ rs) h = h ([] ∷ [] ∷ []) refl
covered_tokens_complete (single_wildcard ∷ a ∷ als) (multi_wildcard ∷ rs) h = h ([] ∷ []) refl
covered_tokens_complete (literal a ∷ als) (literal r ∷ rs) h = elim (Bool-cases (str_eq a r)) [
  | inl same ↦
      let rest =
        covered_tokens_complete als rs (λ ts m. ground (arith, h (r ∷ ts), str_eq_refl r)) in
      ground arith
  | inr other ↦
      ground
        (arith, h (r ∷ sample rs), str_eq_refl r, matches-sample rs, str_eq_iff r a, str_eq_iff a r)
]
covered_tokens_complete (literal a ∷ als) (single_wildcard ∷ rs) h =
    ground (arith, h ((0 ∷ a) ∷ sample rs) (matches-sample rs), longer a)
covered_tokens_complete (literal a ∷ als) (multi_wildcard ∷ rs) h =
    ground (arith, h ((0 ∷ a) ∷ []) refl, longer a)

-- `is_pattern_covered` accepts a requested pattern under an allowed one exactly where the allowed
-- one matches every list of tokens that the requested one matches.
pub is_pattern_covered_iff :
    (requested allowed : SubjectPattern)
    → (is_pattern_covered requested allowed ≡ true) ↔ (
        (ts : List Str)
        → matches_tokens requested.tokens ts ≡ true
        → matches_tokens allowed.tokens ts ≡ true)
unfolding is_pattern_covered
is_pattern_covered_iff requested allowed = (
  λ c ts m. covered_tokens_sound allowed.tokens requested.tokens ts c m,
  covered_tokens_complete allowed.tokens requested.tokens,
)

any-covered :
    (alloweds : List SubjectPattern) (pattern : SubjectPattern) (s : Subject)
    → any (λ allowed. is_pattern_covered pattern allowed) alloweds ≡ true
    → matches pattern s ≡ true
    → any (λ p. matches p s) alloweds ≡ true
unfolding is_pattern_covered matches
any-covered [] pattern s c m = c
any-covered (a ∷ alloweds) pattern s c m =
    ground
      (arith, covered_tokens_sound a.tokens pattern.tokens s.tokens, any-covered alloweds pattern s)

-- Let a connection have restrictions on subscribing. If `can_subscribe` accepts a pattern, each
-- subject that the pattern matches is matched by one of the allowed patterns.
pub can_subscribe-matches :
    (ctx : AuthContext) (pattern : SubjectPattern) (s : Subject)
    → is_empty ctx.subscribe_patterns ≡ false
    → can_subscribe ctx pattern ≡ true
    → matches pattern s ≡ true
    → any (λ p. matches p s) ctx.subscribe_patterns ≡ true
unfolding can_subscribe
can_subscribe-matches ctx pattern s some_pattern allowed m =
    any-covered ctx.subscribe_patterns pattern s (ground arith) m
