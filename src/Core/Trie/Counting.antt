-- ===== src/Core/Trie/Counting.antt =====
-- How often the walk of crates/zetmq-core/src/routing/trie.rs finds an id, when the places of the
-- trie hold what a list of subscriptions says.
use zet_mq.Prelude.{
  ℕ, suc, ◌+◌, ◌≡◌, refl, List, [], ◌∷◌, ◌++◌, arith, if◌then◌else◌, map, All, ◌==◌, count,
  count-append, ◌&&◌, str_eq_iff, ◌∙◌,
}
use zet_mq.Text.{Str}
use zet_mq.Core.Pattern.{PatternToken, literal, single_wildcard, multi_wildcard, matches_tokens}
use zet_mq.Core.Pattern.Parsing.{IsTokens}
use zet_mq.Core.Trie.{TrieNode}
use zet_mq.Core.Trie.Paths.{token_eq, tokens_eq, subs_of}
use zet_mq.Core.Trie.Matching.{IsLiteral, covers, gather}

-- A subscription as the trie knows it: the tokens of its pattern and its id.
abbrev pub Entry : Type 0
Entry = List PatternToken × ℕ

-- The ids that are subscribed under a pattern, oldest first.
unfoldable pub ids_of : List PatternToken → List Entry → List ℕ
ids_of p [] = []
ids_of p ((q, id) ∷ es) = let rest = ids_of p es in if tokens_eq q p then id ∷ rest else rest

-- How often an id is subscribed under patterns that match the tokens of a subject.
unfoldable pub hits : ℕ → List Str → List Entry → ℕ
hits a ss [] = 0
hits a ss ((q, id) ∷ es) =
    let rest = hits a ss es in if a == id && matches_tokens q ss then suc rest else rest

occurs : List PatternToken → List (List PatternToken) → ℕ
occurs q [] = 0
occurs q (p ∷ ps) = let rest = occurs q ps in if tokens_eq q p then suc rest else rest

occurs-append :
    (q : List PatternToken) (ps rs : List (List PatternToken))
    → occurs q (ps ++ rs) ≡ occurs q ps + occurs q rs
unfolding occurs
occurs-append q [] rs = omega arith
occurs-append q (p ∷ ps) rs = ground (arith, occurs-append q ps rs)

occurs_nil :
    (t : PatternToken) (ps : List (List PatternToken)) → occurs [] (map (λ p. t ∷ p) ps) ≡ 0
unfolding occurs tokens_eq
occurs_nil t [] = refl
occurs_nil t (p ∷ ps) = occurs_nil t ps

occurs_cons :
    (q : List PatternToken) (x t : PatternToken) (ps : List (List PatternToken))
    → occurs (x ∷ q) (map (λ p. t ∷ p) ps) ≡ (if token_eq x t then occurs q ps else 0)
unfolding occurs tokens_eq
occurs_cons q x t [] = ground arith
occurs_cons q x t (p ∷ ps) = ground (arith, occurs_cons q x t ps)

occurs_tail :
    (q : List PatternToken) (s : Str) (ss : List Str)
    → occurs q (map (λ p. literal s ∷ p) (covers ss) ++ map (λ p. single_wildcard ∷ p) (covers ss))
      ≡ occurs q (map (λ p. literal s ∷ p) (covers ss))
        + occurs q (map (λ p. single_wildcard ∷ p) (covers ss))
occurs_tail q s ss =
    occurs-append q (map (λ p. literal s ∷ p) (covers ss))
      (map (λ p. single_wildcard ∷ p) (covers ss))

-- A pattern stands among those that match the subject once, or not at all where it does not match.
occurs-covers :
    (q : List PatternToken) (ss : List Str)
    → IsTokens q
    → occurs q (covers ss) ≡ (if matches_tokens q ss then 1 else 0)
unfolding covers matches_tokens occurs tokens_eq
occurs-covers [] [] h = refl
occurs-covers (x ∷ q) [] h = refl
occurs-covers [] (s ∷ ss) h = ground (
  arith,
  occurs_tail [] s ss,
  occurs_nil (literal s) (covers ss),
  occurs_nil single_wildcard (covers ss),
)
occurs-covers (literal a ∷ q) (s ∷ ss) h = ground (
  arith,
  occurs_tail (literal a ∷ q) s ss,
  occurs_cons q (literal a) (literal s) (covers ss),
  occurs_cons q (literal a) single_wildcard (covers ss),
  occurs-covers q ss h.3,
  str_eq_iff a s,
  str_eq_iff s a,
)
occurs-covers (single_wildcard ∷ q) (s ∷ ss) h = ground (
  arith,
  occurs_tail (single_wildcard ∷ q) s ss,
  occurs_cons q single_wildcard (literal s) (covers ss),
  occurs_cons q single_wildcard single_wildcard (covers ss),
  occurs-covers q ss h,
)
occurs-covers (multi_wildcard ∷ x ∷ q) (s ∷ ss) h = cc
occurs-covers (multi_wildcard ∷ []) (s ∷ ss) h = ground (
  arith,
  occurs_tail (multi_wildcard ∷ []) s ss,
  occurs_cons [] multi_wildcard (literal s) (covers ss),
  occurs_cons [] multi_wildcard single_wildcard (covers ss),
)

spread : ℕ → List (List PatternToken) → List Entry → ℕ
spread a [] es = 0
spread a (p ∷ ps) es = count a (ids_of p es) + spread a ps es

spread-nil : (a : ℕ) (ps : List (List PatternToken)) → spread a ps [] ≡ 0
unfolding spread ids_of count
spread-nil a [] = refl
spread-nil a (p ∷ ps) = omega (arith, spread-nil a ps)

spread-cons :
    (a : ℕ) (ps : List (List PatternToken)) (q : List PatternToken) (id : ℕ) (es : List Entry)
    → spread a ps ((q, id) ∷ es) ≡ (if a == id then occurs q ps else 0) + spread a ps es
unfolding spread ids_of count occurs
spread-cons a [] q id es = ground arith
spread-cons a (p ∷ ps) q id es = ground (arith, spread-cons a ps q id es)

spread-hits :
    (a : ℕ) (ss : List Str) (es : List Entry)
    → All (λ e. IsTokens e.0) es
    → spread a (covers ss) es ≡ hits a ss es
unfolding hits
spread-hits a ss [] h = spread-nil a (covers ss)
spread-hits a ss ((q, id) ∷ es) h =
    ground
      (arith, spread-cons a (covers ss) q id es, occurs-covers q ss h.0, spread-hits a ss es h.1)

-- The trie holds the subscriptions of the list, each pattern at its place.
pub record Holds (n : TrieNode) (es : List Entry) : Type 0 where
  pub at_pattern : (p : List PatternToken) → IsTokens p → subs_of p n ≡ ids_of p es

gather-spread :
    (a : ℕ) (n : TrieNode) (es : List Entry) (ps : List (List PatternToken))
    → Holds n es
    → All IsTokens ps
    → count a (gather ps n) ≡ spread a ps es
unfolding gather spread count
gather-spread a n es [] h w = refl
gather-spread a n es (p ∷ ps) h w = ground (
  arith,
  count-append a (subs_of p n) (gather ps n),
  h.at_pattern p w.0,
  gather-spread a n es ps h w.1,
)

All-append :
    (P : List PatternToken → Type 0) (ps qs : List (List PatternToken))
    → All P ps
    → All P qs
    → All P (ps ++ qs)
All-append P [] qs h k = k
All-append P (p ∷ ps) qs h k = (h.0, All-append P ps qs h.1 k)

covers_literal :
    (s : Str) (ps : List (List PatternToken))
    → IsLiteral s
    → All IsTokens ps
    → All IsTokens (map (λ p. literal s ∷ p) ps)
covers_literal s [] l h = tt
covers_literal s (p ∷ ps) l h = ((l.0, l.1, l.2, h.0), covers_literal s ps l h.1)

covers_single :
    (ps : List (List PatternToken))
    → All IsTokens ps
    → All IsTokens (map (λ p. single_wildcard ∷ p) ps)
covers_single [] h = tt
covers_single (p ∷ ps) h = (h.0, covers_single ps h.1)

covers-IsTokens : (ss : List Str) → All IsLiteral ss → All IsTokens (covers ss)
unfolding covers
covers-IsTokens [] h = (tt, tt)
covers-IsTokens (s ∷ ss) h =
    let below = covers-IsTokens ss h.1 in
    (
      refl,
      All-append IsTokens _ _ (covers_literal s (covers ss) h.0 below)
          (covers_single (covers ss) below),
    )

-- The walk finds each id as often as it is subscribed under patterns that match.
pub count-gather :
    (a : ℕ) (n : TrieNode) (es : List Entry) (ss : List Str)
    → Holds n es
    → All (λ e. IsTokens e.0) es
    → All IsLiteral ss
    → count a (gather (covers ss) n) ≡ hits a ss es
count-gather a n es ss h w l =
    gather-spread a n es (covers ss) h (covers-IsTokens ss l) ∙ spread-hits a ss es w
