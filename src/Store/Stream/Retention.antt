-- ===== src/Store/Stream/Retention.antt =====
-- The limits of a stream, as apply_retention of crates/zetmq-store/src/stream.rs keeps them.
use zet_mq.Prelude.{
  ℕ, suc, ◌-◌, ◌*◌, ◌≡◌, ◌⊎◌, ◌≤◌, ◌<◌, refl, ap, ◌∙◌, true, false, List, [], ◌∷◌, ◌++◌, ◌&&◌, not,
  Option, arith, if◌then◌else◌, ltb, Bool-cases, inl, inr, length, retain, min, All,
}
use zet_mq.Text.{Str}
use zet_mq.Core.Delivery.{Bytes}
use zet_mq.Core.Metrics.{u64_mod}
use zet_mq.Store.Stream.{
  Stream, StreamConfig, StreamState, StoredMessage, Deque, store, stored, push_back, remove_front,
  drop_aged, drop_excess, drop_heavy, apply_retention, by_age, by_count, by_bytes, cutoff_of,
}

length-drop_excess :
    (max : ℕ) (msgs : List StoredMessage) (st : StreamState)
    → length (drop_excess max msgs st).0 ≡ min max (length msgs)
unfolding drop_excess remove_front
length-drop_excess max [] st = omega arith
length-drop_excess max (m ∷ msgs) st =
    ground (arith, length-drop_excess max msgs (remove_front (m ∷ msgs, st)).1)

length-drop_heavy :
    (max : ℕ) (msgs : List StoredMessage) (st : StreamState)
    → length (drop_heavy max msgs st).0 ≤ length msgs
unfolding drop_heavy remove_front
length-drop_heavy max [] st = omega arith
length-drop_heavy max (m ∷ msgs) st =
    ground (arith, length-drop_heavy max msgs (remove_front (m ∷ msgs, st)).1)

drop_heavy-bound :
    (max : ℕ) (msgs : List StoredMessage) (st : StreamState)
    → (length (drop_heavy max msgs st).0 ≤ 1) ⊎ ((drop_heavy max msgs st).1.bytes ≤ max)
unfolding drop_heavy remove_front
drop_heavy-bound max [] st = inl (omega arith)
drop_heavy-bound max (m ∷ msgs) st =
    elim (Bool-cases (ltb max st.bytes && ltb 1 (length (m ∷ msgs)))) [
      | inl over ↦ rw (over, drop_heavy) (drop_heavy-bound max msgs (remove_front (m ∷ msgs, st)).1)
      | inr fits ↦ rw (fits, drop_heavy) (ground arith)
    ]

length-by_bytes : (config : StreamConfig) (d : Deque) → length (by_bytes config d).0 ≤ length d.0
length-by_bytes config d = elim (Bool-cases (ltb 0 config.max_bytes)) [
  | inl limited ↦ simp limited (length-drop_heavy config.max_bytes d.0 d.1)
  | inr free ↦ simp free (omega arith)
]

-- After `apply_retention` no more messages are kept than a limit on their number allows; under a
-- limit on their size, the size counted is within it or at most one message is kept; and without
-- limits nothing is changed.
pub retention-bounds :
    (config : StreamConfig) (now : ℕ) (d : Deque)
    → (0 < config.max_msgs → length (apply_retention config now d).0 ≤ config.max_msgs)
      × (0 < config.max_bytes
          → (length (apply_retention config now d).0 ≤ 1)
            ⊎ ((apply_retention config now d).1.bytes ≤ config.max_bytes))
      × (config.max_msgs ≡ 0
          → config.max_bytes ≡ 0
          → config.max_age_secs ≡ 0
          → apply_retention config now d ≡ d)
unfolding apply_retention
retention-bounds config now d =
    let d1 = by_age config now d in
    let d2 = by_count config d1 in
    let limited : (n : ℕ) → 0 < n → ltb 0 n ≡ true = λ n h. ground arith in
    let free : (n : ℕ) → n ≡ 0 → ltb 0 n ≡ false = λ n h. ground arith in
    (
      λ h. ground (
        arith,
        length-by_bytes config d2,
        length-drop_excess config.max_msgs d1.0 d1.1,
        ap (λ c. length (if c then drop_excess config.max_msgs d1.0 d1.1 else d1).0)
            (limited config.max_msgs h),
      ),
      λ h. simp (limited config.max_bytes h) (drop_heavy-bound config.max_bytes d2.0 d2.1),
      λ a b c. simp (free config.max_msgs a, free config.max_bytes b, free config.max_age_secs c),
    )

-- The times of the messages do not go back.
abbrev pub IsOrdered : ℕ → List StoredMessage → Type 0
IsOrdered time [] = Unit
IsOrdered time (m ∷ msgs) = (time ≤ m.timestamp) × IsOrdered m.timestamp msgs

retain-recent :
    (time cutoff : ℕ) (msgs : List StoredMessage)
    → IsOrdered time msgs
    → cutoff ≤ time
    → retain (λ (m : StoredMessage). not (ltb m.timestamp cutoff)) msgs ≡ msgs
retain-recent time cutoff [] h recent = refl
retain-recent time cutoff (m ∷ msgs) h recent =
    ground (arith, h.0, retain-recent m.timestamp cutoff msgs h.1)

drop_aged-retain :
    (time cutoff : ℕ) (msgs : List StoredMessage) (st : StreamState)
    → IsOrdered time msgs
    → (drop_aged cutoff msgs st).0
      ≡ retain (λ (m : StoredMessage). not (ltb m.timestamp cutoff)) msgs
unfolding drop_aged remove_front
drop_aged-retain time cutoff [] st h = refl
drop_aged-retain time cutoff (m ∷ msgs) st h = ground (
  arith,
  drop_aged-retain m.timestamp cutoff msgs (remove_front (m ∷ msgs, st)).1 h.1,
  retain-recent m.timestamp cutoff msgs h.1,
)

age_limit : (config : StreamConfig) → 0 < config.max_age_secs → ltb 0 config.max_age_secs ≡ true
age_limit config h = ground arith

-- With a limit on the age alone, which in milliseconds is at most the time of the retention, a time
-- below 2^64, and with message times that do not go back, `apply_retention` keeps exactly the
-- messages that are not older than the limit.
pub retention-age :
    (config : StreamConfig) (now : ℕ) (d : Deque)
    → 0 < config.max_age_secs
    → config.max_msgs ≡ 0
    → config.max_bytes ≡ 0
    → config.max_age_secs * 1000 ≤ now
    → now < u64_mod
    → IsOrdered 0 d.0
    → (apply_retention config now d).0
      ≡ retain (λ (m : StoredMessage). not (ltb m.timestamp (now - config.max_age_secs * 1000))) d.0
unfolding apply_retention
retention-age config now d aged a b back word order =
    let free : (n : ℕ) → n ≡ 0 → ltb 0 n ≡ false = λ n h. ground arith in
    let cutoff : cutoff_of config now ≡ now - config.max_age_secs * 1000 =
      omega (arith, back, word) in
    simp (free config.max_msgs a, free config.max_bytes b, age_limit config aged)
      (drop_aged-retain 0 (cutoff_of config now) d.0 d.1 order
        ∙ ap (λ c. retain (λ (m : StoredMessage). not (ltb m.timestamp c)) d.0) cutoff)

drop_aged-All :
    (cutoff : ℕ) (msgs : List StoredMessage) (st : StreamState)
    → All (λ (m : StoredMessage). m.timestamp < cutoff) msgs
    → (drop_aged cutoff msgs st).0 ≡ []
unfolding drop_aged remove_front
drop_aged-All cutoff [] st h = refl
drop_aged-All cutoff (m ∷ msgs) st h =
    ground (arith, h.0, drop_aged-All cutoff msgs (remove_front (m ∷ msgs, st)).1 h.1)

length-by_count : (config : StreamConfig) (d : Deque) → length (by_count config d).0 ≤ length d.0
length-by_count config d = elim (Bool-cases (ltb 0 config.max_msgs)) [
  | inl limited ↦ simp limited (omega (arith, length-drop_excess config.max_msgs d.0 d.1))
  | inr free ↦ simp free (omega arith)
]

length_zero : (msgs : List StoredMessage) → length msgs ≡ 0 → msgs ≡ []
length_zero [] h = refl
length_zero (m ∷ msgs) h = elim (absurd h) [ ]
  where
    absurd : suc (length msgs) ≡ 0 → ⊥
    absurd e = omega (arith, e)

All-snoc :
    (P : StoredMessage → Type 0) (msgs : List StoredMessage) (m : StoredMessage)
    → All P msgs
    → P m
    → All P (msgs ++ m ∷ [])
All-snoc P [] m h good = (good, tt)
All-snoc P (x ∷ msgs) m h good = (h.0, All-snoc P msgs m h.1 good)

All-mono :
    (P Q : StoredMessage → Type 0) (msgs : List StoredMessage)
    → ((m : StoredMessage) → P m → Q m)
    → All P msgs
    → All Q msgs
All-mono P Q [] f h = tt
All-mono P Q (x ∷ msgs) f h = (f x h.0, All-mono P Q msgs f h.1)

-- Let the limit on the age, in milliseconds, be above the time of the retention and below 2^64, and
-- let no message be from later than that time. Then `store` leaves the stream without messages: the
-- subtraction wraps to a cutoff in the future, and the message that was stored is dropped too.
pub store-lost :
    (s : Stream) (timestamp now : ℕ) (subject : Str) (reply_to : Option Str) (payload : Bytes)
    (headers : Option (List (Str × Str)))
    → now < s.config.max_age_secs * 1000
    → s.config.max_age_secs * 1000 < u64_mod
    → timestamp ≤ now
    → All (λ (m : StoredMessage). m.timestamp ≤ now) s.messages
    → (store s timestamp now subject reply_to payload headers).1.messages ≡ []
unfolding store apply_retention
store-lost s timestamp now subject reply_to payload headers early word new past =
    let d = push_back s (stored s timestamp subject reply_to payload headers) in
    let future : now < cutoff_of s.config now = omega (arith, early, word) in
    let old =
      All-mono _ (λ (m : StoredMessage). m.timestamp < cutoff_of s.config now) d.0
        (λ m h. omega (arith, h, future))
        (All-snoc (λ (m : StoredMessage). m.timestamp ≤ now) s.messages
          (stored s timestamp subject reply_to payload headers) past new) in
    let d1 = by_age s.config now d in
    let gone : d1.0 ≡ [] =
      simp (age_limit s.config (omega (arith, early)))
        (drop_aged-All (cutoff_of s.config now) d.0 d.1 old) in
    length_zero _ (
      omega (
        arith,
        ap length gone,
        length-by_bytes s.config (by_count s.config d1),
        length-by_count s.config d1,
      ))
