-- ===== src/Core/Trie/Paths.antt =====
-- The trie of crates/zetmq-core/src/routing/trie.rs as a table from patterns to lists of ids: what
-- `insert` and `remove` do to the list that stands at any pattern's place.
use zet_mq.Prelude.{
  ℕ, ◌≡◌, refl, Bool, true, false, List, [], ◌∷◌, ◌++◌, ◌&&◌, Option, none, some, arith,
  if◌then◌else◌, is_empty, str_eq, str_eq_refl, str_eq_iff, map,
}
use zet_mq.Text.{Str}
use zet_mq.Core.Subject.{star}
use zet_mq.Core.Pattern.{
  PatternToken, literal, single_wildcard, multi_wildcard, has_multi, token_str,
}
use zet_mq.Core.Pattern.Parsing.{IsTokens}
use zet_mq.Core.Trie.{
  TrieNode, node, Children, nil, child, default, get, or_default, get_mut, insert_at, remove_at,
  subs_at, others,
}

-- Equality of tokens, and of patterns by their tokens.
unfoldable pub token_eq : PatternToken → PatternToken → Bool
token_eq (literal a) (literal b) = str_eq a b
token_eq single_wildcard single_wildcard = true
token_eq multi_wildcard multi_wildcard = true
token_eq _ _ = false

unfoldable pub tokens_eq : List PatternToken → List PatternToken → Bool
unfolding token_eq
tokens_eq [] [] = true
tokens_eq (p ∷ ps) (q ∷ qs) = token_eq p q && tokens_eq ps qs
tokens_eq _ _ = false

abbrev pub strs : List PatternToken → List Str
strs = map token_str

-- The ids at the place of a pattern.
abbrev pub subs_of : List PatternToken → TrieNode → List ℕ
subs_of p n = subs_at (strs p) (has_multi p) n

-- A missing child holds what an empty node holds.
abbrev pub or_empty : Option TrieNode → TrieNode
or_empty none = default
or_empty (some n) = n

abbrev pub at : Str → Children → TrieNode
at token children = or_empty (get token children)

pub at-or_default :
    (t u : Str) (f : TrieNode → TrieNode) (c : Children)
    → at u (or_default t f c) ≡ (if str_eq t u then f (at t c) else at u c)
unfolding get or_default
at-or_default t u f nil = ground arith
at-or_default t u f (child key n rest) =
    ground (arith, at-or_default t u f rest, str_eq_iff key t, str_eq_iff key u, str_eq_iff t u)

at-get_mut :
    (t u : Str) (f : TrieNode → TrieNode) (c : Children)
    → f default ≡ default
    → at u (get_mut t f c) ≡ (if str_eq t u then f (at t c) else at u c)
unfolding get get_mut
at-get_mut t u f nil h = ground arith
at-get_mut t u f (child key n rest) h =
    ground (arith, at-get_mut t u f rest, str_eq_iff key t, str_eq_iff key u, str_eq_iff t u)

pub subs_at-default : (ts : List Str) (m : Bool) → subs_at ts m default ≡ []
unfolding subs_at
subs_at-default [] m = refl
subs_at-default (t ∷ ts) m = ground arith

pub subs_at-step :
    (t : Str) (ts : List Str) (m : Bool) (c : Children) (multi exact : List ℕ)
    → (m && is_empty ts) ≡ false
    → subs_at (t ∷ ts) m (node c multi exact) ≡ subs_at ts m (at t c)
unfolding subs_at
subs_at-step t ts m c multi exact h = ground (arith, subs_at-default ts m)

pub multi-not_last : (ps : List PatternToken) → (has_multi ps && is_empty (strs ps)) ≡ false
unfolding has_multi
multi-not_last [] = refl
multi-not_last (p ∷ ps) = ground arith

remove_at-default : (ts : List Str) (id : ℕ) (m : Bool) → remove_at ts id m default ≡ default
unfolding remove_at
remove_at-default [] id m = refl
remove_at-default (t ∷ ts) id m = ground arith

module _ (p q : List PatternToken) (id : ℕ) (c : Children) (multi exact : List ℕ) where
  insert_step :
      (t u : Str)
      → subs_at
          (u ∷ strs p)
          (has_multi p)
          (insert_at (t ∷ strs q) id (has_multi q) (node c multi exact))
        ≡ (if str_eq t u
            then subs_of p (insert_at (strs q) id (has_multi q) (at t c))
            else subs_of p (at u c))
  unfolding insert_at
  insert_step t u = ground (
    arith,
    multi-not_last q,
    multi-not_last p,
    subs_at-step u (strs p) (has_multi p) (or_default t (insert_at (strs q) id (has_multi q)) c)
        multi exact,
    at-or_default t u (insert_at (strs q) id (has_multi q)) c,
  )

  remove_step :
      (t u : Str)
      → subs_at
          (u ∷ strs p)
          (has_multi p)
          (remove_at (t ∷ strs q) id (has_multi q) (node c multi exact))
        ≡ (if str_eq t u
            then subs_of p (remove_at (strs q) id (has_multi q) (at t c))
            else subs_of p (at u c))
  unfolding remove_at
  remove_step t u = ground (
    arith,
    multi-not_last q,
    multi-not_last p,
    subs_at-step u (strs p) (has_multi p) (get_mut t (remove_at (strs q) id (has_multi q)) c) multi
        exact,
    at-get_mut t u (remove_at (strs q) id (has_multi q)) c,
    remove_at-default (strs q) id (has_multi q),
  )

  under-insert :
      (t u : Str)
      → subs_of p (insert_at (strs q) id (has_multi q) (at t c))
        ≡ (if tokens_eq q p then subs_of p (at t c) ++ id ∷ [] else subs_of p (at t c))
      → subs_at
          (u ∷ strs p)
          (has_multi p)
          (insert_at (t ∷ strs q) id (has_multi q) (node c multi exact))
        ≡ (if str_eq t u && tokens_eq q p
            then subs_at (u ∷ strs p) (has_multi p) (node c multi exact) ++ id ∷ []
            else subs_at (u ∷ strs p) (has_multi p) (node c multi exact))
  under-insert t u ih = ground (
    arith,
    ih,
    insert_step t u,
    str_eq_iff t u,
    subs_at-step u (strs p) (has_multi p) c multi exact (multi-not_last p),
  )

  under-insert_ne :
      (t u : Str)
      → str_eq t u ≡ false
      → subs_at
          (u ∷ strs p)
          (has_multi p)
          (insert_at (t ∷ strs q) id (has_multi q) (node c multi exact))
        ≡ subs_at (u ∷ strs p) (has_multi p) (node c multi exact)
  under-insert_ne t u ne = ground (
    arith,
    insert_step t u,
    subs_at-step u (strs p) (has_multi p) c multi exact (multi-not_last p),
  )

  under-remove :
      (t u : Str)
      → subs_of p (remove_at (strs q) id (has_multi q) (at t c))
        ≡ (if tokens_eq q p then others id (subs_of p (at t c)) else subs_of p (at t c))
      → subs_at
          (u ∷ strs p)
          (has_multi p)
          (remove_at (t ∷ strs q) id (has_multi q) (node c multi exact))
        ≡ (if str_eq t u && tokens_eq q p
            then others id (subs_at (u ∷ strs p) (has_multi p) (node c multi exact))
            else subs_at (u ∷ strs p) (has_multi p) (node c multi exact))
  under-remove t u ih = ground (
    arith,
    ih,
    remove_step t u,
    str_eq_iff t u,
    subs_at-step u (strs p) (has_multi p) c multi exact (multi-not_last p),
  )

  under-remove_ne :
      (t u : Str)
      → str_eq t u ≡ false
      → subs_at
          (u ∷ strs p)
          (has_multi p)
          (remove_at (t ∷ strs q) id (has_multi q) (node c multi exact))
        ≡ subs_at (u ∷ strs p) (has_multi p) (node c multi exact)
  under-remove_ne t u ne = ground (
    arith,
    remove_step t u,
    subs_at-step u (strs p) (has_multi p) c multi exact (multi-not_last p),
  )

other_list :
    (u : Str) (p : List PatternToken) (c : Children) (multi multi' exact : List ℕ)
    → subs_at (u ∷ strs p) (has_multi p) (node c multi' exact)
      ≡ subs_at (u ∷ strs p) (has_multi p) (node c multi exact)
other_list u p c multi multi' exact = ground (
  arith,
  subs_at-step u (strs p) (has_multi p) c multi exact (multi-not_last p),
  subs_at-step u (strs p) (has_multi p) c multi' exact (multi-not_last p),
)

str_ne_sym : (a b : Str) → str_eq a b ≡ false → str_eq b a ≡ false
str_ne_sym a b h = ground (arith, str_eq_iff a b, str_eq_iff b a)

and_of_true : {a : Bool} (b : Bool) → a ≡ true → (a && b) ≡ b
and_of_true b h = ground arith

-- For well-formed patterns `p` and `q`, inserting an id under `q` appends it to the ids that stand
-- under `p` if the two are the same pattern, and else leaves those as they were.
pub subs_of-insert :
    (p q : List PatternToken) (id : ℕ) (n : TrieNode)
    → IsTokens p
    → IsTokens q
    → subs_of p (insert_at (strs q) id (has_multi q) n)
      ≡ (if tokens_eq q p then subs_of p n ++ id ∷ [] else subs_of p n)
unfolding insert_at subs_at tokens_eq has_multi
subs_of-insert [] [] id (node c m e) hp hq = refl
subs_of-insert [] (y ∷ q) id (node c m e) hp hq = ground arith
subs_of-insert (x ∷ p) [] id (node c m e) hp hq = ground arith
subs_of-insert (multi_wildcard ∷ x ∷ p) q id n hp hq = cc
subs_of-insert p (multi_wildcard ∷ y ∷ q) id n hp hq = cc
subs_of-insert (multi_wildcard ∷ []) (multi_wildcard ∷ []) id (node c m e) hp hq = refl
subs_of-insert (multi_wildcard ∷ []) (literal a ∷ q) id (node c m e) hp hq =
    ground (arith, multi-not_last q)
subs_of-insert (multi_wildcard ∷ []) (single_wildcard ∷ q) id (node c m e) hp hq =
    ground (arith, multi-not_last q)
subs_of-insert (literal b ∷ p) (multi_wildcard ∷ []) id (node c m e) hp hq =
    other_list b p c m (m ++ id ∷ []) e
subs_of-insert (single_wildcard ∷ p) (multi_wildcard ∷ []) id (node c m e) hp hq =
    other_list star p c m (m ++ id ∷ []) e
subs_of-insert (literal b ∷ p) (literal a ∷ q) id (node c m e) hp hq =
    under-insert p q id c m e a b (subs_of-insert p q id (at a c) hp.3 hq.3)
subs_of-insert (literal b ∷ p) (single_wildcard ∷ q) id (node c m e) hp hq =
    under-insert_ne p q id c m e star b (str_ne_sym b star hp.1)
subs_of-insert (single_wildcard ∷ p) (literal a ∷ q) id (node c m e) hp hq =
    under-insert_ne p q id c m e a star hq.1
subs_of-insert (single_wildcard ∷ p) (single_wildcard ∷ q) id (node c m e) hp hq =
    rw (← and_of_true (tokens_eq q p) (str_eq_refl star))
      (under-insert p q id c m e star star (subs_of-insert p q id (at star c) hp hq))

-- For well-formed patterns `p` and `q`, removing an id under `q` drops all its entries from the ids
-- that stand under `p` if the two are the same pattern, and else leaves those as they were.
pub subs_of-remove :
    (p q : List PatternToken) (id : ℕ) (n : TrieNode)
    → IsTokens p
    → IsTokens q
    → subs_of p (remove_at (strs q) id (has_multi q) n)
      ≡ (if tokens_eq q p then others id (subs_of p n) else subs_of p n)
unfolding remove_at subs_at tokens_eq has_multi
subs_of-remove [] [] id (node c m e) hp hq = refl
subs_of-remove [] (y ∷ q) id (node c m e) hp hq = ground arith
subs_of-remove (x ∷ p) [] id (node c m e) hp hq = ground arith
subs_of-remove (multi_wildcard ∷ x ∷ p) q id n hp hq = cc
subs_of-remove p (multi_wildcard ∷ y ∷ q) id n hp hq = cc
subs_of-remove (multi_wildcard ∷ []) (multi_wildcard ∷ []) id (node c m e) hp hq = refl
subs_of-remove (multi_wildcard ∷ []) (literal a ∷ q) id (node c m e) hp hq =
    ground (arith, multi-not_last q)
subs_of-remove (multi_wildcard ∷ []) (single_wildcard ∷ q) id (node c m e) hp hq =
    ground (arith, multi-not_last q)
subs_of-remove (literal b ∷ p) (multi_wildcard ∷ []) id (node c m e) hp hq =
    other_list b p c m (others id (m)) e
subs_of-remove (single_wildcard ∷ p) (multi_wildcard ∷ []) id (node c m e) hp hq =
    other_list star p c m (others id (m)) e
subs_of-remove (literal b ∷ p) (literal a ∷ q) id (node c m e) hp hq =
    under-remove p q id c m e a b (subs_of-remove p q id (at a c) hp.3 hq.3)
subs_of-remove (literal b ∷ p) (single_wildcard ∷ q) id (node c m e) hp hq =
    under-remove_ne p q id c m e star b (str_ne_sym b star hp.1)
subs_of-remove (single_wildcard ∷ p) (literal a ∷ q) id (node c m e) hp hq =
    under-remove_ne p q id c m e a star hq.1
subs_of-remove (single_wildcard ∷ p) (single_wildcard ∷ q) id (node c m e) hp hq =
    rw (← and_of_true (tokens_eq q p) (str_eq_refl star))
      (under-remove p q id c m e star star (subs_of-remove p q id (at star c) hp hq))
