-- ===== src/Core/Trie.antt =====
-- crates/zetmq-core/src/routing/trie.rs. Subscription ids are numbers. A node owns its children: the
-- hash map of a node is an association list that holds no key twice and is never iterated over.
pub mod Paths
pub mod Matching
pub mod Counting
use zet_mq.Prelude.{
  ℕ, zero, suc, ◌+◌, ◌-◌, Bool, true, false, List, [], ◌∷◌, ◌++◌, ◌&&◌, not, Option, none, some,
  ◌==◌, ltb, if◌then◌else◌, length, is_empty, str_eq, retain,
}
use zet_mq.Text.{Str}
use zet_mq.Core.Subject.{Subject, star}

-- `node children multi_wildcard_subs exact_subs`
mutual
  pub data TrieNode : Type 0 where
    node : Children → List ℕ → List ℕ → TrieNode

  pub data Children : Type 0 where
    nil : Children
    child : Str → TrieNode → Children → Children

pub record SubjectTrie : Type 0 where
  pub root : TrieNode
  pub subscriber_count : ℕ

-- `TrieNode::default()` and `SubjectTrie::new()`
abbrev pub default : TrieNode
default = node nil [] []

abbrev pub new : SubjectTrie
new = record { root = default; subscriber_count = 0 }

unfoldable pub is_empty_trie : SubjectTrie → Bool
is_empty_trie t = t.subscriber_count == 0

-- `children.get(token)`
unfoldable pub get : Str → Children → Option TrieNode
get token nil = none
get token (child key n rest) =
    let more = get token rest in if str_eq key token then some n else more

-- `f` of the child at `token`, which `entry(token).or_default()` makes where there is none.
unfoldable pub or_default : Str → (TrieNode → TrieNode) → Children → Children
or_default token f nil = child token (f default) nil
or_default token f (child key n rest) =
    let more = or_default token f rest in
    if str_eq key token then child key (f n) rest else child key n more

-- `f` of the child that `get_mut(token)` finds.
unfoldable pub get_mut : Str → (TrieNode → TrieNode) → Children → Children
get_mut token f nil = nil
get_mut token f (child key n rest) =
    let more = get_mut token f rest in
    if str_eq key token then child key (f n) rest else child key n more

-- `i == tokens.len() - 1` holds when no token is left behind this one.
unfoldable pub insert_at : List Str → ℕ → Bool → TrieNode → TrieNode
unfolding or_default
insert_at [] sub_id has_multi (node children multi exact) =
    node children multi (exact ++ sub_id ∷ [])
insert_at (token ∷ rest) sub_id has_multi (node children multi exact) =
    let deeper = or_default token (insert_at rest sub_id has_multi) children in
    if has_multi && is_empty rest
    then node children (multi ++ sub_id ∷ []) exact
    else node deeper multi exact

unfoldable pub insert : SubjectTrie → List Str → ℕ → Bool → SubjectTrie
insert t tokens sub_id has_multi = record {
  root = insert_at tokens sub_id has_multi t.root;
  subscriber_count = t.subscriber_count + 1;
}

abbrev pub others : ℕ → List ℕ → List ℕ
others sub_id = retain (λ id. not (id == sub_id))

unfoldable pub remove_at : List Str → ℕ → Bool → TrieNode → TrieNode
unfolding get_mut
remove_at [] sub_id has_multi (node children multi exact) =
    node children multi (others sub_id exact)
remove_at (token ∷ rest) sub_id has_multi (node children multi exact) =
    let deeper = get_mut token (remove_at rest sub_id has_multi) children in
    if has_multi && is_empty rest
    then node children (others sub_id multi) exact
    else node deeper multi exact

-- The list at which the walk of `insert` and `remove` ends; a missing child has none.
unfoldable pub subs_at : List Str → Bool → TrieNode → List ℕ
unfolding get
subs_at [] has_multi (node children multi exact) = exact
subs_at (token ∷ rest) has_multi (node children multi exact) =
    let deeper : List ℕ = elim (get token children) [
      | none ↦ []
      | some n ↦ subs_at rest has_multi n
    ] in
    if has_multi && is_empty rest then multi else deeper

-- The count falls by one where the list at the end of the walk became shorter.
unfoldable pub remove : SubjectTrie → List Str → ℕ → Bool → SubjectTrie
remove t tokens sub_id has_multi =
    let before = subs_at tokens has_multi t.root in
    record {
      root = remove_at tokens sub_id has_multi t.root;
      subscriber_count =
          if ltb (length (others sub_id before)) (length before)
          then t.subscriber_count - 1
          else t.subscriber_count;
    }

-- `tokens` is what is left behind `index`.
unfoldable pub match_recursive : TrieNode → List Str → List ℕ → List ℕ
unfolding get
match_recursive (node children multi exact) [] results = results ++ exact
match_recursive (node children multi exact) (token ∷ rest) results =
    let results1 = if is_empty multi then results else results ++ multi in
    let results2 : List ℕ = elim (get token children) [
      | none ↦ results1
      | some n ↦ match_recursive n rest results1
    ] in
    elim (get star children) [
      | none ↦ results2
      | some n ↦
          let through = match_recursive n rest results2 in
          if str_eq token star then results2 else through
    ]

unfoldable pub match_subject : SubjectTrie → Subject → List ℕ
unfolding match_recursive
match_subject t subject = match_recursive t.root subject.tokens []
