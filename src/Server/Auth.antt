-- ===== src/Server/Auth.antt =====
-- crates/zetmq-server/src/session/auth.rs: what a connection may publish and subscribe to.
pub mod Covered
use zet_mq.Prelude.{
  Bool, true, false, List, [], ◌∷◌, Option, none, some, if◌then◌else◌, any, is_empty, str_eq,
}
use zet_mq.Text.{Str}
use zet_mq.Core.Subject
use zet_mq.Core.Subject.{Subject, CoreError}
use zet_mq.Core.Pattern
use zet_mq.Core.Pattern.{
  SubjectPattern, PatternToken, literal, single_wildcard, multi_wildcard, matches,
}

pub record PermissionsConfig : Type 0 where
  pub publish : List Str
  pub subscribe : List Str

pub record AuthContext : Type 0 where
  pub username : Option Str
  pub publish_patterns : List SubjectPattern
  pub subscribe_patterns : List SubjectPattern

-- The message of the error, as data: the pattern and what is wrong with it.
pub data AuthError : Type 0 where
  invalid_publish invalid_subscribe : Str → CoreError → AuthError

pub data Parsed : Type 0 where
  ok : List SubjectPattern → Parsed
  err : Str → CoreError → Parsed

abbrev with_pattern : Str → Subject.Result SubjectPattern → Parsed → Parsed
with_pattern p (Subject.err e) rest = err p e
with_pattern p (Subject.ok pattern) (ok patterns) = ok (pattern ∷ patterns)
with_pattern p (Subject.ok pattern) (err q e) = err q e

-- All patterns, or the first error.
unfoldable pub parse_all : List Str → Parsed
parse_all [] = ok []
parse_all (p ∷ ps) = with_pattern p (Pattern.parse p) (parse_all ps)

pub data AuthResult : Type 0 where
  accepted : AuthContext → AuthResult
  refused : AuthError → AuthResult

unfoldable pub unrestricted : AuthContext
unrestricted = record { username = none; publish_patterns = []; subscribe_patterns = [] }

unfoldable pub from_permissions : Str → PermissionsConfig → AuthResult
unfolding parse_all
from_permissions username perms = elim (parse_all perms.publish) [
  | err p e ↦ refused (invalid_publish p e)
  | ok publish ↦ elim (parse_all perms.subscribe) [
    | err p e ↦ refused (invalid_subscribe p e)
    | ok subscribe ↦ accepted (record {
      username = some username;
      publish_patterns = publish;
      subscribe_patterns = subscribe;
    })
  ]
]

unfoldable pub can_publish : AuthContext → Subject → Bool
can_publish ctx subject =
    if is_empty ctx.publish_patterns
    then true
    else any (λ p. matches p subject) ctx.publish_patterns

abbrev pub is_publish_unrestricted : AuthContext → Bool
is_publish_unrestricted ctx = is_empty ctx.publish_patterns

-- The loop of `is_pattern_covered`: what is left behind `ai` and `ri`.
unfoldable pub covered_tokens : List PatternToken → List PatternToken → Bool
covered_tokens [] [] = true
covered_tokens [] (r ∷ rs) = false
covered_tokens (a ∷ als) [] = false
covered_tokens (multi_wildcard ∷ als) (r ∷ rs) = true
covered_tokens (single_wildcard ∷ als) (literal lit ∷ rs) = covered_tokens als rs
covered_tokens (single_wildcard ∷ als) (single_wildcard ∷ rs) = covered_tokens als rs
covered_tokens (single_wildcard ∷ als) (multi_wildcard ∷ rs) = false
covered_tokens (literal a ∷ als) (literal r ∷ rs) =
    let rest = covered_tokens als rs in if str_eq a r then rest else false
covered_tokens (literal a ∷ als) (single_wildcard ∷ rs) = false
covered_tokens (literal a ∷ als) (multi_wildcard ∷ rs) = false

unfoldable pub is_pattern_covered : SubjectPattern → SubjectPattern → Bool
unfolding covered_tokens
is_pattern_covered requested allowed = covered_tokens allowed.tokens requested.tokens

unfoldable pub can_subscribe : AuthContext → SubjectPattern → Bool
unfolding is_pattern_covered
can_subscribe ctx pattern =
    if is_empty ctx.subscribe_patterns
    then true
    else any (λ allowed. is_pattern_covered pattern allowed) ctx.subscribe_patterns
