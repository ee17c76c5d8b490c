-- ===== src/Witness/Permissions.antt =====
-- Permissions on concrete patterns.
use zet_mq.Prelude.{◌≡◌, ◌↔◌, refl, true, List, [], ◌∷◌, none, any, str_eq}
use zet_mq.Text.{Str}
use zet_mq.Core.Pattern.{matches, matches_tokens}
use zet_mq.Server.Auth.{AuthContext, is_pattern_covered, can_subscribe}
use zet_mq.Server.Auth.Covered.{is_pattern_covered_iff, can_subscribe-matches}
use zet_mq.Witness.Data.{pattern_ab, pattern_star, subject_ab}

is_pattern_covered_iff_example : (is_pattern_covered pattern_ab pattern_star ≡ true) ↔ (
    (ts : List Str)
    → matches_tokens pattern_ab.tokens ts ≡ true
    → matches_tokens pattern_star.tokens ts ≡ true)
is_pattern_covered_iff_example = is_pattern_covered_iff pattern_ab pattern_star

-- A user who may subscribe to "a.*".
abbrev limited : AuthContext
limited = record { username = none; publish_patterns = []; subscribe_patterns = pattern_star ∷ [] }

allowed : can_subscribe limited pattern_ab ≡ true
unfolding can_subscribe str_eq
allowed = refl

ab_matches : matches pattern_ab subject_ab ≡ true
unfolding matches str_eq
ab_matches = refl

can_subscribe-matches_example : any (λ p. matches p subject_ab) limited.subscribe_patterns ≡ true
can_subscribe-matches_example =
    can_subscribe-matches limited pattern_ab subject_ab refl allowed ab_matches
