-- ===== src/Core/Engine/Race.antt =====
-- `remove` and `insert` of crates/zetmq-core/src/routing/engine.rs on two threads. The trie is
-- changed under its lock; the flag is written behind it, with no lock held: in `remove` the guard of
-- the read in the `if` is gone before the body runs.
use zet_mq.Prelude.{
  ℕ, ◌≡◌, ◌≤◌, Bool, true, false, List, [], ◌∷◌, ◌++◌, arith, map, append-nil, ==_refl, ◌<◌, count,
  ap,
}
use zet_mq.Core.Subject.{Subject}
use zet_mq.Core.Pattern.{
  SubjectPattern, PatternToken, has_wildcard, has_multi, matches, matches_tokens, token_str,
}
use zet_mq.Core.Trie
use zet_mq.Core.Engine.{RoutingEngine, match_subject, match_wildcards, exact_subs, remove_from_trie}
use zet_mq.Core.Engine.Table.{
  Table, add, drop_entry, matching, wilds, exacts, exacts-add, exacts-drop, add-All, drop_entry-All,
  add_wild-wilds,
}
use zet_mq.Core.Engine.Routing.{Implements}
use zet_mq.Core.Engine.Matching.{exacts-wilds-matching}
use zet_mq.Core.Trie.Counting.{hits, Entry}
use zet_mq.Core.Pattern.Parsing.{IsPattern}
use zet_mq.Core.Subject.Parsing.{IsSubject}
use zet_mq.Text.{Str}

-- What a thread still has to do in a call for a pattern with a wildcard.
pub data Remover : Type 0 where
  removing : SubjectPattern → ℕ → Remover
  checking resetting removed : Remover

pub data Inserter : Type 0 where
  inserting : SubjectPattern → ℕ → Inserter
  raising inserted : Inserter

pub record System : Type 0 where
  pub engine : RoutingEngine
  pub remover : Remover
  pub inserter : Inserter

-- The write of `insert` under the lock.
unfoldable pub insert_in_trie : RoutingEngine → SubjectPattern → ℕ → RoutingEngine
insert_in_trie e pattern sub_id = record e {
  wildcard_trie =
      Trie.insert e.wildcard_trie (map token_str pattern.tokens) sub_id (has_multi pattern.tokens);
}

abbrev pub with_flag : Bool → RoutingEngine → RoutingEngine
with_flag b e = record e { has_wildcards = b }

-- One atomic step of either thread.
pub data Step : System → System → Type 0 where
  remove_write :
      {e : RoutingEngine} {p : SubjectPattern} {id : ℕ} {i : Inserter}
      → Step
          (record { engine = e; remover = removing p id; inserter = i })
          (record { engine = remove_from_trie e p id; remover = checking; inserter = i })
  see_empty :
      {e : RoutingEngine} {i : Inserter}
      → Trie.is_empty_trie e.wildcard_trie ≡ true
      → Step
          (record { engine = e; remover = checking; inserter = i })
          (record { engine = e; remover = resetting; inserter = i })
  see_used :
      {e : RoutingEngine} {i : Inserter}
      → Trie.is_empty_trie e.wildcard_trie ≡ false
      → Step
          (record { engine = e; remover = checking; inserter = i })
          (record { engine = e; remover = removed; inserter = i })
  reset :
      {e : RoutingEngine} {i : Inserter}
      → Step
          (record { engine = e; remover = resetting; inserter = i })
          (record { engine = with_flag false e; remover = removed; inserter = i })
  insert_write :
      {e : RoutingEngine} {r : Remover} {p : SubjectPattern} {id : ℕ}
      → Step
          (record { engine = e; remover = r; inserter = inserting p id })
          (record { engine = insert_in_trie e p id; remover = r; inserter = raising })
  raise :
      {e : RoutingEngine} {r : Remover}
      → Step
          (record { engine = e; remover = r; inserter = raising })
          (record { engine = with_flag true e; remover = r; inserter = inserted })

pub data Steps (s : System) : System → Type 0 where
  here : Steps s s
  next : {t u : System} → Steps s t → Step t u → Steps s u

abbrev pub both_start : RoutingEngine → SubjectPattern → ℕ → SubjectPattern → ℕ → System
both_start e p a q b = record { engine = e; remover = removing p a; inserter = inserting q b }

abbrev pub both_done : RoutingEngine → System
both_done e = record { engine = e; remover = removed; inserter = inserted }

hits-snoc :
    (b : ℕ) (ss : List Str) (es : List Entry) (q : List PatternToken)
    → matches_tokens q ss ≡ true
    → 1 ≤ hits b ss (es ++ (q, b) ∷ [])
unfolding hits
hits-snoc b ss [] q h = ground (arith, ==_refl b)
hits-snoc b ss (x ∷ es) q h = ground (arith, hits-snoc b ss es q h)

module _ {e : RoutingEngine} {t : Table} (i : Implements e t) {p q : SubjectPattern}
    (good_p : IsPattern p) (good_q : IsPattern q) (wild_p : has_wildcard p.tokens ≡ true)
    (wild_q : has_wildcard q.tokens ≡ true) (a b : ℕ) {s : Subject} (good_s : IsSubject s) where
  wildcards_missing :
      matches q s ≡ true → count b (exact_subs e s.raw) < matching b s (add (drop_entry t p a) q b)
  unfolding matches
  wildcards_missing h =
      let t' = drop_entry t p a in
      let wf = drop_entry-All p a t i.patterns in
      omega (
        arith,
        exacts-wilds-matching b {s = s} (add t' q b) good_s (add-All t' (q, b) wf good_q),
        ap (count b) (i.exact_lists s.raw),
        ap (count b) (kept_exacts),
        ap (hits b s.tokens) (kept_wilds),
        hits-snoc b s.tokens (wilds t') q.tokens h,
      )
    where
      kept_exacts : exacts s.raw (add (drop_entry t p a) q b) ≡ exacts s.raw t
      kept_exacts =
          ground (
            arith,
            exacts-add (drop_entry t p a) q b s.raw,
            exacts-drop good_p a s.raw t i.patterns,
          )

      kept_wilds :
          wilds (add (drop_entry t p a) q b) ≡ wilds (drop_entry t p a) ++ (q.tokens, b) ∷ []
      kept_wilds = add_wild-wilds (drop_entry t p a) q b wild_q

  -- Let an engine implement a table, let a parsed wildcard pattern `p` be removed for the id `a` on
  -- one thread while a parsed wildcard pattern `q` is inserted for `b` on another, let that removal
  -- leave the trie empty, and let `q` match a parsed subject. The steps of the two calls can
  -- interleave so that both finish and `match_subject` of the subject then returns `b` less often
  -- than the remaining subscriptions hold it under patterns that match.
  pub insert_lost :
      Trie.is_empty_trie (remove_from_trie e p a).wildcard_trie ≡ true
      → matches q s ≡ true
      → (e' : RoutingEngine) × Steps (both_start e p a q b) (both_done e')
        × (count b (match_subject e' s) < matching b s (add (drop_entry t p a) q b))
  unfolding match_subject match_wildcards remove_from_trie insert_in_trie
  insert_lost last h = (
    with_flag false (with_flag true (insert_in_trie (remove_from_trie e p a) q b)),
    next (next (next (next (next here remove_write) (see_empty last)) insert_write) raise) reset,
    rw (append-nil (exact_subs e s.raw)) (wildcards_missing h),
  )
