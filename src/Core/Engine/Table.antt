-- ===== src/Core/Engine/Table.antt =====
-- The routing table as a list of subscriptions, oldest first, which is what
-- crates/zetmq-core/src/routing/engine.rs has to implement.
use zet_mq.Prelude.{
  ℕ, suc, ◌+◌, ◌≡◌, ◌≤◌, refl, Bool, true, false, List, [], ◌∷◌, ◌++◌, arith, if◌then◌else◌, not,
  ◌==◌, ◌&&◌, str_eq, length, length-append, retain, All, str_eq_iff, append-nil, ◌↔◌, sym, ◌∙◌, ap,
  map, Bool-cases, inl, inr,
}
use zet_mq.Text.{Str}
use zet_mq.Text.{split}
use zet_mq.Core.Subject.{Subject, star, gt, dot}
use zet_mq.Core.Pattern.{
  SubjectPattern, PatternToken, literal, single_wildcard, multi_wildcard, has_wildcard, matches,
  token_str,
}
use zet_mq.Core.Pattern.Parsing.{IsTokens, IsPattern, raw-determined}
use zet_mq.Core.Trie.{others}
use zet_mq.Core.Trie.Paths.{token_eq, tokens_eq}
use zet_mq.Core.Trie.Counting.{Entry, ids_of}

abbrev pub Table : Type 0
Table = List (SubjectPattern × ℕ)

abbrev pub add : Table → SubjectPattern → ℕ → Table
add t pattern sub_id = t ++ (pattern, sub_id) ∷ []

abbrev pub is_entry : SubjectPattern → ℕ → SubjectPattern × ℕ → Bool
is_entry pattern sub_id (q, id) = str_eq q.raw pattern.raw && id == sub_id

abbrev pub drop_entry : Table → SubjectPattern → ℕ → Table
drop_entry t pattern sub_id = retain (λ e. not (is_entry pattern sub_id e)) t

-- How often an id is subscribed under patterns that match the subject.
unfoldable pub matching : ℕ → Subject → Table → ℕ
matching a subject [] = 0
matching a subject ((q, id) ∷ t) =
    let rest = matching a subject t in if a == id && matches q subject then suc rest else rest

-- The part of the table that goes to the trie, and the ids under an exact text.
unfoldable pub wilds : Table → List Entry
wilds [] = []
wilds ((q, id) ∷ t) =
    let rest = wilds t in if has_wildcard q.tokens then (q.tokens, id) ∷ rest else rest

unfoldable pub exacts : Str → Table → List ℕ
exacts text [] = []
exacts text ((q, id) ∷ t) =
    let rest = exacts text t in
    if not (has_wildcard q.tokens) && str_eq q.raw text then id ∷ rest else rest

token_eq_iff : (a b : PatternToken) → (token_eq a b ≡ true) ↔ (a ≡ b)
unfolding token_eq
token_eq_iff (literal a) (literal b) = ground (arith, str_eq_iff a b)
token_eq_iff single_wildcard (literal b) = ground arith
token_eq_iff multi_wildcard (literal b) = ground arith
token_eq_iff _ single_wildcard = ground arith
token_eq_iff _ multi_wildcard = ground arith

pub tokens_eq_iff : (p q : List PatternToken) → (tokens_eq p q ≡ true) ↔ (p ≡ q)
unfolding tokens_eq
tokens_eq_iff [] [] = (λ _. refl, λ _. refl)
tokens_eq_iff [] (y ∷ q) = ground arith
tokens_eq_iff (x ∷ p) [] = ground arith
tokens_eq_iff (x ∷ p) (y ∷ q) = ground (arith, token_eq_iff x y, tokens_eq_iff p q)

-- Well-formed tokens are told by their texts.
token_strs-injective :
    (p q : List PatternToken) → IsTokens p → IsTokens q → map token_str p ≡ map token_str q → p ≡ q
token_strs-injective [] [] h k e = refl
token_strs-injective [] (y ∷ q) h k e = cc
token_strs-injective (x ∷ p) [] h k e = cc
token_strs-injective (literal a ∷ p) (literal b ∷ q) h k e =
    cc (token_strs-injective p q h.3 k.3 (ground arith))
token_strs-injective (literal a ∷ p) (single_wildcard ∷ q) h k e = ground (arith, str_eq_iff a star)
token_strs-injective (literal a ∷ p) (multi_wildcard ∷ q) h k e = ground (arith, str_eq_iff a gt)
token_strs-injective (single_wildcard ∷ p) (literal b ∷ q) h k e = ground (arith, str_eq_iff b star)
token_strs-injective (single_wildcard ∷ p) (single_wildcard ∷ q) h k e =
    cc (token_strs-injective p q h k (ground arith))
token_strs-injective (single_wildcard ∷ p) (multi_wildcard ∷ q) h k e = ground arith
token_strs-injective (multi_wildcard ∷ p) (literal b ∷ q) h k e = ground (arith, str_eq_iff b gt)
token_strs-injective (multi_wildcard ∷ p) (single_wildcard ∷ q) h k e = ground arith
token_strs-injective (multi_wildcard ∷ p) (multi_wildcard ∷ q) h k e = ground arith

-- The text of a pattern tells its tokens, and they tell the text.
pub raw_eq-tokens_eq :
    {p q : SubjectPattern}
    → IsPattern p
    → IsPattern q
    → str_eq p.raw q.raw ≡ tokens_eq p.tokens q.tokens
raw_eq-tokens_eq {p} {q} hp hq = ground (
  arith,
  str_eq_iff p.raw q.raw,
  tokens_eq_iff p.tokens q.tokens,
  raw-determined hp hq,
  λ (e : p.raw ≡ q.raw).
      token_strs-injective p.tokens q.tokens hp.shape hq.shape
        (hp.split_raw ∙ ap (split dot) e ∙ sym hq.split_raw),
)

wilds-append : (t u : Table) → wilds (t ++ u) ≡ wilds t ++ wilds u
unfolding wilds
wilds-append [] u = refl
wilds-append ((q, id) ∷ t) u = ground (arith, wilds-append t u)

exacts-append : (text : Str) (t u : Table) → exacts text (t ++ u) ≡ exacts text t ++ exacts text u
unfolding exacts
exacts-append text [] u = refl
exacts-append text ((q, id) ∷ t) u = ground (arith, exacts-append text t u)

ids_of-append :
    (p : List PatternToken) (es fs : List Entry) → ids_of p (es ++ fs) ≡ ids_of p es ++ ids_of p fs
unfolding ids_of
ids_of-append p [] fs = refl
ids_of-append p ((q, id) ∷ es) fs = ground (arith, ids_of-append p es fs)

module _ (t : Table) (pattern : SubjectPattern) (sub_id : ℕ) where
  pub exacts-add :
      (text : Str)
      → exacts text (add t pattern sub_id) ≡ (
          if not (has_wildcard pattern.tokens) && str_eq pattern.raw text
          then exacts text t ++ sub_id ∷ []
          else exacts text t)
  unfolding exacts
  exacts-add text =
      ground (arith, exacts-append text t ((pattern, sub_id) ∷ []), append-nil (exacts text t))

  pub ids_of-add :
      (p : List PatternToken)
      → ids_of p (wilds (add t pattern sub_id)) ≡ (
          if has_wildcard pattern.tokens && tokens_eq pattern.tokens p
          then ids_of p (wilds t) ++ sub_id ∷ []
          else ids_of p (wilds t))
  unfolding wilds ids_of
  ids_of-add p = ground (
    arith,
    wilds-append t ((pattern, sub_id) ∷ []),
    ids_of-append p (wilds t) (wilds ((pattern, sub_id) ∷ [])),
    append-nil (ids_of p (wilds t)),
    append-nil (wilds t),
  )

module _ {pattern : SubjectPattern} (good : IsPattern pattern) (sub_id : ℕ) where
  pub exacts-drop :
      (text : Str) (t : Table)
      → All (λ e. IsPattern e.0) t
      → exacts text (drop_entry t pattern sub_id) ≡ (
          if not (has_wildcard pattern.tokens) && str_eq pattern.raw text
          then others sub_id (exacts text t)
          else exacts text t)
  unfolding exacts
  exacts-drop text [] w = ground arith
  exacts-drop text ((q, id) ∷ t) w = ground (
    arith,
    exacts-drop text t w.1,
    raw_eq-tokens_eq w.0 good,
    tokens_eq_iff q.tokens pattern.tokens,
    str_eq_iff q.raw pattern.raw,
    str_eq_iff q.raw text,
    str_eq_iff pattern.raw text,
  )

  pub ids_of-drop :
      (p : List PatternToken) (t : Table)
      → All (λ e. IsPattern e.0) t
      → ids_of p (wilds (drop_entry t pattern sub_id)) ≡ (
          if has_wildcard pattern.tokens && tokens_eq pattern.tokens p
          then others sub_id (ids_of p (wilds t))
          else ids_of p (wilds t))
  unfolding wilds ids_of
  ids_of-drop p [] w = ground arith
  ids_of-drop p ((q, id) ∷ t) w = ground (
    arith,
    ids_of-drop p t w.1,
    raw_eq-tokens_eq w.0 good,
    tokens_eq_iff q.tokens pattern.tokens,
    tokens_eq_iff q.tokens p,
    tokens_eq_iff pattern.tokens p,
  )

  -- The trie's part of the table shrinks by what the list of the pattern loses.
  pub length-drop_wilds :
      (t : Table)
      → All (λ e. IsPattern e.0) t
      → has_wildcard pattern.tokens ≡ true
      → length (wilds (drop_entry t pattern sub_id)) + length (ids_of pattern.tokens (wilds t))
        ≡ length (wilds t) + length (others sub_id (ids_of pattern.tokens (wilds t)))
  unfolding wilds ids_of
  length-drop_wilds [] w h = refl
  length-drop_wilds ((q, id) ∷ t) w h = ground (
    arith,
    length-drop_wilds t w.1 h,
    raw_eq-tokens_eq w.0 good,
    tokens_eq_iff q.tokens pattern.tokens,
  )

  pub drop_exact-wilds :
      (t : Table)
      → All (λ e. IsPattern e.0) t
      → has_wildcard pattern.tokens ≡ false
      → wilds (drop_entry t pattern sub_id) ≡ wilds t
  unfolding wilds
  drop_exact-wilds [] w h = refl
  drop_exact-wilds ((q, id) ∷ t) w h = ground (
    arith,
    drop_exact-wilds t w.1 h,
    raw_eq-tokens_eq w.0 good,
    tokens_eq_iff q.tokens pattern.tokens,
  )

pub drop_entry-All :
    (pattern : SubjectPattern) (sub_id : ℕ) (t : Table)
    → All (λ e. IsPattern e.0) t
    → All (λ e. IsPattern e.0) (drop_entry t pattern sub_id)
drop_entry-All pattern sub_id [] w = tt
drop_entry-All pattern sub_id (e ∷ t) w = elim (Bool-cases (is_entry pattern sub_id e)) [
  | inl dropped ↦ rw dropped (drop_entry-All pattern sub_id t w.1)
  | inr kept ↦ rw kept (w.0, drop_entry-All pattern sub_id t w.1)
]

pub add-All :
    (t : Table) (e : SubjectPattern × ℕ)
    → All (λ e. IsPattern e.0) t
    → IsPattern e.0
    → All (λ e. IsPattern e.0) (t ++ e ∷ [])
add-All [] e w h = (h, tt)
add-All (x ∷ t) e w h = (w.0, add-All t e w.1 h)

pub length-wilds-add :
    (t : Table) (pattern : SubjectPattern) (sub_id : ℕ)
    → length (wilds (add t pattern sub_id)) ≤ length (wilds t) + 1
unfolding wilds
length-wilds-add t pattern sub_id = ground (
  arith,
  wilds-append t ((pattern, sub_id) ∷ []),
  append-nil (wilds t),
  length-append (wilds t) ((pattern.tokens, sub_id) ∷ []),
)

pub add_exact-wilds :
    (t : Table) (pattern : SubjectPattern) (sub_id : ℕ)
    → has_wildcard pattern.tokens ≡ false
    → wilds (add t pattern sub_id) ≡ wilds t
unfolding wilds
add_exact-wilds t pattern sub_id h =
    ground (arith, wilds-append t ((pattern, sub_id) ∷ []), append-nil (wilds t))

pub add_wild-wilds :
    (t : Table) (pattern : SubjectPattern) (sub_id : ℕ)
    → has_wildcard pattern.tokens ≡ true
    → wilds (add t pattern sub_id) ≡ wilds t ++ (pattern.tokens, sub_id) ∷ []
unfolding wilds
add_wild-wilds t pattern sub_id h = ground (arith, wilds-append t ((pattern, sub_id) ∷ []))
