-- ===== src/Core/Engine.antt =====
-- crates/zetmq-core/src/routing/engine.rs. Each operation is one step here; `Race` takes `remove`
-- apart into the steps between which another thread may run.
pub mod Table
pub mod Routing
pub mod Matching
pub mod Race
use zet_mq.Prelude.{
  ℕ, zero, suc, Bool, true, false, List, [], ◌∷◌, ◌++◌, not, Option, none, some, ◌==◌,
  if◌then◌else◌, length, is_empty, map,
}
use zet_mq.Text.{Str}
use zet_mq.Map
use zet_mq.Map.{Map, str_key}
use zet_mq.Core.Subject.{Subject}
use zet_mq.Core.Pattern.{SubjectPattern, has_wildcard, has_multi, token_str}
use zet_mq.Core.Trie
use zet_mq.Core.Trie.{SubjectTrie, others}

pub record RoutingEngine : Type 0 where
  pub exact : Map Str (List ℕ)
  pub wildcard_trie : SubjectTrie
  pub has_wildcards : Bool

unfoldable pub new : RoutingEngine
new = record { exact = Map.empty; wildcard_trie = Trie.new; has_wildcards = false }

abbrev pub or_default : Option (List ℕ) → List ℕ
or_default none = []
or_default (some subs) = subs

-- `self.exact.get(text)`, with no ids where the text has no entry.
abbrev pub exact_subs : RoutingEngine → Str → List ℕ
exact_subs e text = or_default (Map.get text e.exact)

unfoldable pub insert : RoutingEngine → SubjectPattern → ℕ → RoutingEngine
insert e pattern sub_id =
    if not (has_wildcard pattern.tokens)
    then record e {
      exact = Map.insert pattern.raw (exact_subs e pattern.raw ++ sub_id ∷ []) e.exact;
    }
    else record e {
      wildcard_trie =
          Trie.insert e.wildcard_trie (map token_str pattern.tokens) sub_id
            (has_multi pattern.tokens);
      has_wildcards = true;
    }

-- The write under the lock of the trie, and the reset of the flag behind it.
unfoldable pub remove_from_trie : RoutingEngine → SubjectPattern → ℕ → RoutingEngine
remove_from_trie e pattern sub_id = record e {
  wildcard_trie =
      Trie.remove e.wildcard_trie (map token_str pattern.tokens) sub_id (has_multi pattern.tokens);
}

unfoldable pub reset_flag : RoutingEngine → RoutingEngine
reset_flag e = if Trie.is_empty_trie e.wildcard_trie then record e { has_wildcards = false } else e

unfoldable pub remove : RoutingEngine → SubjectPattern → ℕ → RoutingEngine
unfolding remove_from_trie reset_flag
remove e pattern sub_id =
    if not (has_wildcard pattern.tokens)
    then record e { exact = Map.update (others sub_id) pattern.raw e.exact }
    else reset_flag (remove_from_trie e pattern sub_id)

-- `match_wildcards`
unfoldable pub match_wildcards : RoutingEngine → Subject → List ℕ
match_wildcards e subject =
    if e.has_wildcards then Trie.match_subject e.wildcard_trie subject else []

unfoldable pub match_subject : RoutingEngine → Subject → List ℕ
unfolding match_wildcards
match_subject e subject = exact_subs e subject.raw ++ match_wildcards e subject

-- The exact matches of a text, and whether a subject is to be parsed for the wildcards.
unfoldable pub match_subject_str : RoutingEngine → Str → List ℕ × Bool
match_subject_str e subject_str = (exact_subs e subject_str, e.has_wildcards)

unfoldable pub exact_is_empty : RoutingEngine → Str → Bool
exact_is_empty e subject_str = is_empty (exact_subs e subject_str)

-- The id of the only exact subscriber, where there is one.
unfoldable pub exact_single_subscriber : RoutingEngine → Subject → Option ℕ
exact_single_subscriber e subject = elim (exact_subs e subject.raw) [
  | [] ↦ none
  | sub_id ∷ rest ↦ if is_empty rest then some sub_id else none
]
