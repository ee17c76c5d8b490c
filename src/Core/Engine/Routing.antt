-- ===== src/Core/Engine/Routing.antt =====
-- crates/zetmq-core/src/routing/engine.rs implements the table of subscriptions of `Table`.
use zet_mq.Prelude.{
  ℕ, ◌≡◌, ◌≤◌, refl, true, false, List, [], ◌∷◌, ◌++◌, not, arith, ◌==◌, length, All, str_eq_iff,
  Bool-cases, inl, inr, length-retain-le,
}
use zet_mq.Text.{Str}
use zet_mq.Map.{str_key, get-insert, get-update, get-empty}
use zet_mq.Core.Pattern.{SubjectPattern, has_wildcard, has_multi}
use zet_mq.Core.Pattern.Parsing.{IsPattern}
use zet_mq.Core.Trie
use zet_mq.Core.Trie.{SubjectTrie, others}
use zet_mq.Core.Trie.Paths.{subs_of-insert, subs_of-remove, subs_at-default, strs}
use zet_mq.Core.Trie.Counting.{Holds, ids_of}
use zet_mq.Core.Engine.{
  RoutingEngine, new, insert, remove, remove_from_trie, reset_flag, exact_subs,
}
use zet_mq.Core.Engine.Table.{
  Table, add, drop_entry, wilds, exacts, exacts-add, exacts-drop, ids_of-add, ids_of-drop,
  length-drop_wilds, drop_exact-wilds, drop_entry-All, add-All, length-wilds-add, add_exact-wilds,
}

pub record Implements (e : RoutingEngine) (t : Table) : Type 0 where
  pub exact_lists : (text : Str) → exact_subs e text ≡ exacts text t
  pub trie : Holds e.wildcard_trie.root (wilds t)
  -- A flag that is down means that the trie has nothing to find.
  pub flag : e.has_wildcards ≡ false → wilds t ≡ []
  pub counted : length (wilds t) ≤ e.wildcard_trie.subscriber_count
  pub patterns : All (λ e. IsPattern e.0) t

pub new-Implements : Implements new []
unfolding new wilds exacts ids_of
new-Implements = record {
  exact_lists = λ text. rw (get-empty {V = List ℕ} text);
  trie = record { at_pattern = λ p _. subs_at-default (strs p) (has_multi p) };
  flag = λ _. refl;
  counted = omega arith;
  patterns = tt;
}

module _ {e : RoutingEngine} {t : Table} (i : Implements e t) {pattern : SubjectPattern}
    (good : IsPattern pattern) (sub_id : ℕ) where
  insert_exact :
      has_wildcard pattern.tokens ≡ false
      → Implements (insert e pattern sub_id) (add t pattern sub_id)
  unfolding insert
  insert_exact h = rw h (record {
    exact_lists = λ text. ground (
      arith,
      get-insert pattern.raw text (exact_subs e pattern.raw ++ sub_id ∷ []) e.exact,
      exacts-add t pattern sub_id text,
      i.exact_lists text,
      i.exact_lists pattern.raw,
      str_eq_iff pattern.raw text,
    );
    trie = rw (add_exact-wilds t pattern sub_id h) i.trie;
    flag = rw (add_exact-wilds t pattern sub_id h) i.flag;
    counted = rw (add_exact-wilds t pattern sub_id h) i.counted;
    patterns = add-All t _ i.patterns good;
  })

  insert_wild :
      has_wildcard pattern.tokens ≡ true
      → Implements (insert e pattern sub_id) (add t pattern sub_id)
  unfolding insert Trie.insert
  insert_wild h = rw h (record {
    exact_lists = λ text. ground (arith, exacts-add t pattern sub_id text, i.exact_lists text);
    trie = record {
      at_pattern = λ p w. ground (
        arith,
        subs_of-insert p pattern.tokens sub_id e.wildcard_trie.root w good.shape,
        ids_of-add t pattern sub_id p,
        i.trie.at_pattern p w,
      );
    };
    flag = λ down. cc;
    counted = omega (arith, length-wilds-add t pattern sub_id, i.counted);
    patterns = add-All t _ i.patterns good;
  })

  pub insert-Implements : Implements (insert e pattern sub_id) (add t pattern sub_id)
  insert-Implements = elim (Bool-cases (has_wildcard pattern.tokens)) [
    | inl wild ↦ insert_wild wild
    | inr exact ↦ insert_exact exact
  ]

  remove_exact :
      has_wildcard pattern.tokens ≡ false
      → Implements (remove e pattern sub_id) (drop_entry t pattern sub_id)
  unfolding remove
  remove_exact h = rw h (record {
    exact_lists = λ text. ground (
      arith,
      get-update (others sub_id) pattern.raw text e.exact,
      exacts-drop good sub_id text t i.patterns,
      i.exact_lists text,
    );
    trie = rw (drop_exact-wilds good sub_id t i.patterns h) i.trie;
    flag = rw (drop_exact-wilds good sub_id t i.patterns h) i.flag;
    counted = rw (drop_exact-wilds good sub_id t i.patterns h) i.counted;
    patterns = drop_entry-All pattern sub_id t i.patterns;
  })

  pub remove_from_trie-Implements :
      has_wildcard pattern.tokens ≡ true
      → Implements (remove_from_trie e pattern sub_id) (drop_entry t pattern sub_id)
  unfolding remove_from_trie Trie.remove
  remove_from_trie-Implements h = record {
    exact_lists =
        λ text. ground (arith, exacts-drop good sub_id text t i.patterns, i.exact_lists text);
    trie = record {
      at_pattern = λ p w. ground (
        arith,
        subs_of-remove p pattern.tokens sub_id e.wildcard_trie.root w good.shape,
        ids_of-drop good sub_id p t i.patterns,
        i.trie.at_pattern p w,
      );
    };
    flag = λ down. ground (
      arith,
      length-drop_wilds good sub_id t i.patterns h,
      length-retain-le (λ id. not (id == sub_id)) (ids_of pattern.tokens (wilds t)),
      i.flag down,
    );
    counted = ground (
      arith,
      length-drop_wilds good sub_id t i.patterns h,
      i.trie.at_pattern pattern.tokens good.shape,
      length-retain-le (λ id. not (id == sub_id)) (ids_of pattern.tokens (wilds t)),
      i.counted,
    );
    patterns = drop_entry-All pattern sub_id t i.patterns;
  }

pub reset_flag-Implements :
    {e : RoutingEngine} {t : Table} → Implements e t → Implements (reset_flag e) t
unfolding reset_flag Trie.is_empty_trie
reset_flag-Implements {e} {t} i = elim (Bool-cases (e.wildcard_trie.subscriber_count == 0)) [
  | inl none_left ↦ rw none_left (record {
    exact_lists = i.exact_lists;
    trie = i.trie;
    flag = λ _. ground (arith, i.counted);
    counted = i.counted;
    patterns = i.patterns;
  })
  | inr some_left ↦ rw some_left i
]

module _ {e : RoutingEngine} {t : Table} (i : Implements e t) {pattern : SubjectPattern}
    (good : IsPattern pattern) (sub_id : ℕ) where
  pub remove-Implements : Implements (remove e pattern sub_id) (drop_entry t pattern sub_id)
  remove-Implements = elim (Bool-cases (has_wildcard pattern.tokens)) [
    | inl wild ↦
        unfold remove in
        rw wild (reset_flag-Implements (remove_from_trie-Implements i good sub_id wild))
    | inr exact ↦ remove_exact i good sub_id exact
  ]
