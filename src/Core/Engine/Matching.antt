-- ===== src/Core/Engine/Matching.antt =====
-- `match_subject` of crates/zetmq-core/src/routing/engine.rs against `SubjectPattern::matches`, and
-- the runs of the engine.
use zet_mq.Prelude.{
  ℕ, ◌+◌, ◌≡◌, ◌↔◌, refl, ap, ◌∙◌, true, false, List, [], ◌∷◌, arith, All, count, count-append,
  str_eq, str_eq_iff, map, any, is_empty, Bool-cases, inl, inr,
}
use zet_mq.Text.{Str, split, contains}
use zet_mq.Text.Split.{Lacks, split-injective}
use zet_mq.Core.Subject.{Subject, dot, star, gt}
use zet_mq.Core.Subject.Parsing.{IsSubject}
use zet_mq.Core.Pattern.{
  SubjectPattern, PatternToken, literal, single_wildcard, multi_wildcard, has_wildcard,
  matches_tokens, matches, token_str,
}
use zet_mq.Core.Pattern.Parsing.{IsPattern}
use zet_mq.Core.Trie
use zet_mq.Core.Trie.Matching.{IsLiteral, match_recursive-gather}
use zet_mq.Core.Trie.Counting.{hits, count-gather}
use zet_mq.Core.Pattern.Parsing.{IsTokens}
use zet_mq.Core.Engine.{
  RoutingEngine, new, insert, remove, match_subject, match_wildcards, exact_subs,
}
use zet_mq.Core.Engine.Table.{Table, add, drop_entry, matching, wilds, exacts}
use zet_mq.Core.Engine.Routing.{Implements, new-Implements, insert-Implements, remove-Implements}

-- The tokens of a subject are literals.
literals :
    (ss : List Str)
    → All (Lacks b'*') ss
    → All (Lacks b'>') ss
    → any is_empty ss ≡ false
    → All IsLiteral ss
unfolding contains
literals [] h k e = tt
literals (s ∷ ss) h k e = (
  ground (arith, str_eq_iff s star, str_eq_iff s gt, h.0, k.0),
  literals ss h.1 k.1 (ground arith),
)

pub subject-literals : {s : Subject} → IsSubject s → All IsLiteral s.tokens
subject-literals {s} h = literals s.tokens h.no_star h.no_gt h.nonempty

-- A pattern with no wildcard matches the one list of tokens that it is spelled like.
matches_exact :
    (ps : List PatternToken) (ss : List Str)
    → has_wildcard ps ≡ false
    → (matches_tokens ps ss ≡ true) ↔ (map token_str ps ≡ ss)
unfolding matches_tokens has_wildcard
matches_exact [] [] h = (λ _. refl, λ _. refl)
matches_exact [] (s ∷ ss) h = ground arith
matches_exact (p ∷ ps) [] h = ground arith
matches_exact (literal a ∷ ps) (s ∷ ss) h = ground (arith, str_eq_iff s a, matches_exact ps ss h)
matches_exact (single_wildcard ∷ ps) (s ∷ ss) h = cc
matches_exact (multi_wildcard ∷ ps) (s ∷ ss) h = cc

matches-raw :
    {p : SubjectPattern} {s : Subject}
    → IsPattern p
    → IsSubject s
    → has_wildcard p.tokens ≡ false
    → matches p s ≡ str_eq p.raw s.raw
unfolding matches
matches-raw {p} {s} hp hs h = ground (
  arith,
  matches_exact p.tokens s.tokens h,
  str_eq_iff p.raw s.raw,
  ap (split dot),
  hp.split_raw,
  hs.split_raw,
  split-injective dot p.raw s.raw,
)

wilds-IsTokens : (t : Table) → All (λ e. IsPattern e.0) t → All (λ e. IsTokens e.0) (wilds t)
unfolding wilds
wilds-IsTokens [] w = tt
wilds-IsTokens ((p, id) ∷ t) w = elim (Bool-cases (has_wildcard p.tokens)) [
  | inl wild ↦ rw wild (w.0.shape, wilds-IsTokens t w.1)
  | inr exact ↦ rw exact (wilds-IsTokens t w.1)
]

-- The two tables hold each subscription once between them.
pub exacts-wilds-matching :
    (a : ℕ) {s : Subject} (t : Table)
    → IsSubject s
    → All (λ e. IsPattern e.0) t
    → count a (exacts s.raw t) + hits a s.tokens (wilds t) ≡ matching a s t
unfolding exacts hits wilds matching matches count
exacts-wilds-matching a [] hs w = refl
exacts-wilds-matching a {s} ((p, id) ∷ t) hs w =
    ground (arith, exacts-wilds-matching a {s = s} t hs w.1, matches-raw w.0 hs)

module _ {e : RoutingEngine} {t : Table} (i : Implements e t) {s : Subject} (good : IsSubject s)
    (a : ℕ) where
  count-match_wildcards : count a (match_wildcards e s) ≡ hits a s.tokens (wilds t)
  unfolding match_wildcards Trie.match_subject
  count-match_wildcards = elim (Bool-cases e.has_wildcards) [
    | inl up ↦
        rw (up, match_recursive-gather e.wildcard_trie.root s.tokens [] (subject-literals good))
          (count-gather a e.wildcard_trie.root (wilds t) s.tokens i.trie
            (wilds-IsTokens t i.patterns) (subject-literals good))
    | inr down ↦ rw (down, i.flag down) (unfold hits count in refl)
  ]

  -- An id is matched exactly as often as it is subscribed under patterns that match the subject.
  pub count-match_subject : count a (match_subject e s) ≡ matching a s t
  unfolding match_subject
  count-match_subject =
      count-append a (exact_subs e s.raw) (match_wildcards e s)
      ∙ rw (i.exact_lists s.raw, count-match_wildcards) (exacts-wilds-matching a t good i.patterns)

-- The calls that change the engine.
pub data Operation : Type 0 where
  inserts removes : SubjectPattern → ℕ → Operation

unfoldable pub run : RoutingEngine → List Operation → RoutingEngine
run e [] = e
run e (inserts p id ∷ ops) = run (insert e p id) ops
run e (removes p id ∷ ops) = run (remove e p id) ops

-- What the calls mean for the table of subscriptions.
unfoldable pub table : Table → List Operation → Table
table t [] = t
table t (inserts p id ∷ ops) = table (add t p id) ops
table t (removes p id ∷ ops) = table (drop_entry t p id) ops

abbrev pub pattern_of : Operation → SubjectPattern
pattern_of (inserts p id) = p
pattern_of (removes p id) = p

run-Implements :
    (ops : List Operation) (e : RoutingEngine) (t : Table)
    → Implements e t
    → All (λ op. IsPattern (pattern_of op)) ops
    → Implements (run e ops) (table t ops)
unfolding run table
run-Implements [] e t i w = i
run-Implements (inserts p id ∷ ops) e t i w =
    run-Implements ops (insert e p id) (add t p id) (insert-Implements i w.0 id) w.1
run-Implements (removes p id ∷ ops) e t i w =
    run-Implements ops (remove e p id) (drop_entry t p id) (remove-Implements i w.0 id) w.1

-- For every sequence of `insert` and `remove` of parsed patterns on a new engine, in which ids and
-- patterns may repeat: `match_subject` of a parsed subject returns each id exactly as often as the
-- remaining subscriptions hold it under a pattern whose `matches` accepts the subject.
pub match_subject-run :
    (ops : List Operation) (s : Subject) (a : ℕ)
    → All (λ op. IsPattern (pattern_of op)) ops
    → IsSubject s
    → count a (match_subject (run new ops) s) ≡ matching a s (table [] ops)
match_subject-run ops s a w good =
    count-match_subject (run-Implements ops new [] new-Implements w) good a
