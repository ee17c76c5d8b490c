-- ===== src/Core/Trie/Matching.antt =====
-- `match_recursive` of crates/zetmq-core/src/routing/trie.rs against the patterns that match the
-- subject, one after the other.
use zet_mq.Prelude.{
  ℕ, ◌≡◌, refl, sym, ap, ◌∙◌, Bool, false, List, [], ◌∷◌, ◌++◌, append-nil, append_assoc,
  if◌then◌else◌, is_empty, str_eq, map, All, Option, none, some,
}
use zet_mq.Text.{Str}
use zet_mq.Core.Subject.{star, gt}
use zet_mq.Core.Pattern.{PatternToken, literal, single_wildcard, multi_wildcard, has_multi}
use zet_mq.Core.Trie.{TrieNode, node, Children, default, get, subs_at, match_recursive}
use zet_mq.Core.Trie.Paths.{
  strs, subs_of, at, or_empty, subs_at-default, subs_at-step, multi-not_last,
}

-- Tokens as a subject has them: none empty, none a wildcard.
abbrev pub IsLiteral : Str → Type 0
IsLiteral s = (is_empty s ≡ false) × (str_eq s star ≡ false) × (str_eq s gt ≡ false)

-- All patterns that match the tokens of a subject.
unfoldable pub covers : List Str → List (List PatternToken)
covers [] = [] ∷ []
covers (s ∷ ss) =
    (multi_wildcard ∷ [])
    ∷ (map (λ p. literal s ∷ p) (covers ss) ++ map (λ p. single_wildcard ∷ p) (covers ss))

-- The ids at the places of the patterns, one after the other.
unfoldable pub gather : List (List PatternToken) → TrieNode → List ℕ
gather [] n = []
gather (p ∷ ps) n = subs_of p n ++ gather ps n

gather-append :
    (ps qs : List (List PatternToken)) (n : TrieNode)
    → gather (ps ++ qs) n ≡ gather ps n ++ gather qs n
unfolding gather
gather-append [] qs n = refl
gather-append (p ∷ ps) qs n = rw (gather-append ps qs n) (sym (append_assoc (subs_of p n) _ _))

gather-default : (ps : List (List PatternToken)) → gather ps default ≡ []
unfolding gather
gather-default [] = refl
gather-default (p ∷ ps) = rw (subs_at-default (strs p) (has_multi p)) (gather-default ps)

module _ (c : Children) (multi exact : List ℕ) where
  gather-literal :
      (s : Str) (ps : List (List PatternToken))
      → gather (map (λ p. literal s ∷ p) ps) (node c multi exact) ≡ gather ps (at s c)
  unfolding gather has_multi
  gather-literal s [] = refl
  gather-literal s (p ∷ ps) =
      rw (
        subs_at-step s (strs p) (has_multi p) c multi exact (multi-not_last p),
        gather-literal s ps,
      )

  gather-single :
      (ps : List (List PatternToken))
      → gather (map (λ p. single_wildcard ∷ p) ps) (node c multi exact) ≡ gather ps (at star c)
  unfolding gather has_multi
  gather-single [] = refl
  gather-single (p ∷ ps) =
      rw (
        subs_at-step star (strs p) (has_multi p) c multi exact (multi-not_last p),
        gather-single ps,
      )

extend :
    (multi results : List ℕ)
    → (if is_empty multi then results else results ++ multi) ≡ results ++ multi
extend [] results = sym (append-nil results)
extend (x ∷ multi) results = refl

-- What `match_recursive` does with a child, and with that of `*`.
module _ (ss : List Str)
    (walk : (n : TrieNode) (r : List ℕ) → match_recursive n ss r ≡ r ++ gather (covers ss) n) where
  visit :
      (o : Option TrieNode) (r : List ℕ)
      → elim o as (λ _. List ℕ) [ none ↦ r | some n ↦ match_recursive n ss r ]
        ≡ r ++ gather (covers ss) (or_empty o)
  visit none r = rw (gather-default (covers ss)) (sym (append-nil r))
  visit (some n) r = walk n r

  visit_star :
      (o : Option TrieNode) (b : Bool) (r : List ℕ)
      → b ≡ false
      → elim o as (λ _. List ℕ) [ none ↦ r | some n ↦ if b then r else match_recursive n ss r ]
        ≡ r ++ gather (covers ss) (or_empty o)
  visit_star none b r h = rw (gather-default (covers ss)) (sym (append-nil r))
  visit_star (some n) b r h = rw h (walk n r)

-- For a list of tokens none of which is empty or spelled like a wildcard, `match_recursive` appends
-- to the results the ids that stand in the trie under the patterns that match the tokens, pattern
-- by pattern.
pub match_recursive-gather :
    (n : TrieNode) (ss : List Str) (results : List ℕ)
    → All IsLiteral ss
    → match_recursive n ss results ≡ results ++ gather (covers ss) n
unfolding match_recursive covers gather subs_at has_multi
match_recursive-gather (node c multi exact) [] results h = rw (append-nil exact)
match_recursive-gather (node c multi exact) (s ∷ ss) results h =
    let walk = λ (n : TrieNode) (r : List ℕ). match_recursive-gather n ss r h.1 in
    visit_star ss walk (get star c) (str_eq s star) _ h.0.1
    ∙ ap (λ (l : List ℕ). l ++ gather (covers ss) (at star c))
        (visit ss walk (get s c) _
          ∙ ap (λ (l : List ℕ). l ++ gather (covers ss) (at s c)) (extend multi results))
    ∙ rw
        (
          gather-append,
          gather-literal c multi exact s (covers ss),
          gather-single c multi exact (covers ss),
        )
        (simp append_assoc)
