-- ===== src/Store/Stream/Deque.antt =====
-- What the retention of crates/zetmq-store/src/stream.rs does to the messages and their counters:
-- it takes messages from the front, a number of times.
use zet_mq.Prelude.{
  ℕ, zero, suc, ◌+◌, ◌%◌, ◌≡◌, ◌<◌, refl, ap, ◌∙◌, Bool, true, false, List, [], ◌∷◌, arith,
  if◌then◌else◌, ltb, ◌&&◌, Bool-cases, inl, inr, length, drop,
}
use zet_mq.Core.Metrics.{u64_mod}
use zet_mq.Store.Stream.{
  Deque, StoredMessage, StreamState, StreamConfig, remove_front, drop_aged, drop_excess, drop_heavy,
  apply_retention, by_age, by_count, cutoff_of,
}

unfoldable pub pops : ℕ → Deque → Deque
pops zero d = d
pops (suc k) d = pops k (remove_front d)

suc_add : (k n : ℕ) → suc (k + n) ≡ k + suc n
suc_add k n = omega arith

pops_add : (k n : ℕ) (d : Deque) → pops k (pops n d) ≡ pops (k + n) d
unfolding pops
pops_add k zero d = ground arith
pops_add k (suc n) d = pops_add k n (remove_front d) ∙ ap (λ j. pops j d) (suc_add k n)

Popped : Deque → Deque → Type 0
Popped d d' = (k : ℕ) × (d' ≡ pops k d)

drop_aged-Popped :
    (cutoff : ℕ) (msgs : List StoredMessage) (st : StreamState)
    → Popped (msgs, st) (drop_aged cutoff msgs st)
unfolding drop_aged pops Popped
drop_aged-Popped cutoff [] st = (0, refl)
drop_aged-Popped cutoff (m ∷ msgs) st = elim (Bool-cases (ltb m.timestamp cutoff)) [
  | inl old ↦
      let (k, h) = drop_aged-Popped cutoff msgs (remove_front (m ∷ msgs, st)).1 in
      rw (old, drop_aged) (suc k, h)
  | inr new ↦ rw (new, drop_aged) (0, refl)
]

drop_excess-Popped :
    (max : ℕ) (msgs : List StoredMessage) (st : StreamState)
    → Popped (msgs, st) (drop_excess max msgs st)
unfolding drop_excess pops Popped
drop_excess-Popped max [] st = (0, refl)
drop_excess-Popped max (m ∷ msgs) st = elim (Bool-cases (ltb max (length (m ∷ msgs)))) [
  | inl over ↦
      let (k, h) = drop_excess-Popped max msgs (remove_front (m ∷ msgs, st)).1 in
      rw (over, drop_excess) (suc k, h)
  | inr fits ↦ rw (fits, drop_excess) (0, refl)
]

drop_heavy-Popped :
    (max : ℕ) (msgs : List StoredMessage) (st : StreamState)
    → Popped (msgs, st) (drop_heavy max msgs st)
unfolding drop_heavy pops Popped
drop_heavy-Popped max [] st = (0, refl)
drop_heavy-Popped max (m ∷ msgs) st =
    elim (Bool-cases (ltb max st.bytes && ltb 1 (length (m ∷ msgs)))) [
      | inl over ↦
          let (k, h) = drop_heavy-Popped max msgs (remove_front (m ∷ msgs, st)).1 in
          rw (over, drop_heavy) (suc k, h)
      | inr fits ↦ rw (fits, drop_heavy) (0, refl)
    ]

Popped-trans : (d d' d'' : Deque) → Popped d d' → Popped d' d'' → Popped d d''
unfolding Popped
Popped-trans d d' d'' (n, h) (k, h') = (k + n, h' ∙ ap (pops k) h ∙ pops_add k n d)

if-Popped : (d d' : Deque) (c : Bool) → Popped d d' → Popped d (if c then d' else d)
unfolding Popped pops
if-Popped d d' true h = h
if-Popped d d' false h = (0, refl)

-- The retention takes a number of messages from the front, whatever the limits and the clock are.
pub retention-pops :
    (config : StreamConfig) (now : ℕ) (d : Deque)
    → (k : ℕ) × (apply_retention config now d ≡ pops k d)
unfolding apply_retention Popped
retention-pops config now d =
    let d1 = by_age config now d in
    let d2 = by_count config d1 in
    Popped-trans _ _ _
      (Popped-trans _ _ _
        (if-Popped _ _ (ltb 0 config.max_age_secs)
          (drop_aged-Popped (cutoff_of config now) d.0 d.1))
        (if-Popped _ _ (ltb 0 config.max_msgs) (drop_excess-Popped config.max_msgs d1.0 d1.1)))
      (if-Popped _ _ (ltb 0 config.max_bytes) (drop_heavy-Popped config.max_bytes d2.0 d2.1))

unfoldable pub total : List StoredMessage → ℕ
total [] = 0
total (m ∷ msgs) = length m.payload + total msgs

-- The messages have the sequence numbers from `first` on.
abbrev pub IsNumbered : ℕ → List StoredMessage → Type 0
IsNumbered first [] = Unit
IsNumbered first (m ∷ msgs) = (m.sequence ≡ first) × IsNumbered (first + 1) msgs

pub record IsDeque (d : Deque) : Type 0 where
  pub counted : d.1.messages ≡ length d.0
  pub sized : d.1.bytes ≡ total d.0 % u64_mod
  pub numbered : IsNumbered d.1.first_seq d.0
  pub ends : d.1.first_seq + length d.0 ≡ d.1.last_seq + 1
  pub bounded : d.1.last_seq + 1 < u64_mod

remove_front-IsDeque :
    (msgs : List StoredMessage) (st : StreamState)
    → IsDeque (msgs, st)
    → IsDeque (remove_front (msgs, st))
unfolding remove_front total
remove_front-IsDeque [] st h = h
remove_front-IsDeque (m ∷ msgs) st h =
    let next : (st.first_seq + 1) % u64_mod ≡ st.first_seq + 1 = omega (arith, h.ends, h.bounded) in
    record {
      counted = omega (arith, h.counted, h.ends, h.bounded);
      sized = omega (arith, h.sized);
      numbered = rw next h.numbered.1;
      ends = omega (arith, h.ends, next);
      bounded = h.bounded;
    }

pub pops-IsDeque : (k : ℕ) (d : Deque) → IsDeque d → IsDeque (pops k d)
unfolding pops
pops-IsDeque zero d h = h
pops-IsDeque (suc k) d h = pops-IsDeque k (remove_front d) (remove_front-IsDeque d.0 d.1 h)

drop-remove_front :
    (k : ℕ) (msgs : List StoredMessage) (st : StreamState)
    → drop k (remove_front (msgs, st)).0 ≡ drop (suc k) msgs
unfolding remove_front
drop-remove_front zero [] st = refl
drop-remove_front (suc k) [] st = refl
drop-remove_front k (m ∷ msgs) st = refl

pub pops-messages : (k : ℕ) (d : Deque) → (pops k d).0 ≡ drop k d.0
unfolding pops
pops-messages zero d = refl
pops-messages (suc k) d = pops-messages k (remove_front d) ∙ drop-remove_front k d.0 d.1

pub remove_front-last_seq :
    (msgs : List StoredMessage) (st : StreamState)
    → (remove_front (msgs, st)).1.last_seq ≡ st.last_seq
unfolding remove_front
remove_front-last_seq [] st = refl
remove_front-last_seq (m ∷ msgs) st = refl

pub pops-last_seq : (k : ℕ) (d : Deque) → (pops k d).1.last_seq ≡ d.1.last_seq
unfolding pops
pops-last_seq zero d = refl
pops-last_seq (suc k) d = pops-last_seq k (remove_front d) ∙ remove_front-last_seq d.0 d.1
