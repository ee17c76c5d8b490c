-- ===== src/Store/Stream/Log.antt =====
-- The stream of crates/zetmq-store/src/stream.rs as a log: each message keeps its number, and a read
-- finds what has been stored under it until the retention takes it away.
use zet_mq.Prelude.{
  ℕ, zero, suc, ◌+◌, ◌-◌, ◌%◌, ◌≡◌, ◌⊎◌, ◌≤◌, ◌<◌, refl, ap, ◌∙◌, sym, subst, false, List, [], ◌∷◌,
  ◌++◌, Option, none, some, arith, if◌then◌else◌, ltb, ◌==◌, Bool-cases, inl, inr, length, drop,
  get_elem?, length-append, length-drop,
}
use zet_mq.Text.{Str}
use zet_mq.Core.Delivery.{Bytes}
use zet_mq.Core.Metrics.{u64_mod}
use zet_mq.Store.Stream.{
  Stream, StreamConfig, StoredMessage, Deque, new, store, stored, push_back, read,
}
use zet_mq.Store.Stream.Deque.{
  IsDeque, IsNumbered, total, pops-IsDeque, pops-messages, pops-last_seq, retention-pops,
}

-- The counters tell the number and the size of the messages kept, which are numbered without gaps
-- up to the last, and a next number is left.
abbrev pub IsStream : Stream → Type 0
IsStream s = IsDeque (s.messages, s.state)

pub new-IsStream : (name : Str) (config : StreamConfig) → IsStream (new name config)
unfolding new total
new-IsStream name config = record {
  counted = refl;
  sized = refl;
  numbered = tt;
  ends = refl;
  bounded = omega arith;
}

suc_plus : (k i : ℕ) → suc (k + i) ≡ suc k + i
suc_plus k i = omega arith

get_elem?-drop {ℓ} :
    {A : Type ℓ} → (k : ℕ) (xs : List A) (i : ℕ) → get_elem? (drop k xs) i ≡ get_elem? xs (k + i)
get_elem?-drop zero xs i = ap (get_elem? xs) (omega arith)
get_elem?-drop (suc k) [] i = refl
get_elem?-drop (suc k) (x ∷ xs) i = get_elem?-drop k xs i ∙ ap (get_elem? (x ∷ xs)) (suc_plus k i)

get_elem?-snoc {ℓ} :
    {A : Type ℓ}
    → (xs : List A) (x : A) (i : ℕ)
    → get_elem? (xs ++ x ∷ []) i ≡ (if i == length xs then some x else get_elem? xs i)
get_elem?-snoc [] x zero = ground arith
get_elem?-snoc [] x (suc i) = ground arith
get_elem?-snoc (y ∷ xs) x zero = ground arith
get_elem?-snoc (y ∷ xs) x (suc i) = ground (arith, get_elem?-snoc xs x i)

get_elem?-none {ℓ} : {A : Type ℓ} → (xs : List A) (i : ℕ) → length xs ≤ i → get_elem? xs i ≡ none
get_elem?-none [] i h = refl
get_elem?-none (x ∷ xs) zero h = ground arith
get_elem?-none (x ∷ xs) (suc i) h = get_elem?-none xs i (omega arith)

total-snoc :
    (msgs : List StoredMessage) (m : StoredMessage)
    → total (msgs ++ m ∷ []) ≡ total msgs + length m.payload
unfolding total
total-snoc [] m = omega arith
total-snoc (x ∷ msgs) m = omega (arith, total-snoc msgs m)

IsNumbered-snoc :
    (first : ℕ) (msgs : List StoredMessage) (m : StoredMessage)
    → IsNumbered first msgs
    → m.sequence ≡ first + length msgs
    → IsNumbered first (msgs ++ m ∷ [])
IsNumbered-snoc first [] m h next = (omega arith, tt)
IsNumbered-snoc first (x ∷ msgs) m h next =
    (h.0, IsNumbered-snoc (first + 1) msgs m h.1 (omega arith))

push_back-IsDeque :
    (s : Stream) (timestamp : ℕ) (subject : Str) (reply_to : Option Str) (payload : Bytes)
    (headers : Option (List (Str × Str)))
    → IsStream s
    → s.state.last_seq + 2 < u64_mod
    → IsDeque (push_back s (stored s timestamp subject reply_to payload headers))
push_back-IsDeque s timestamp subject reply_to payload headers h room =
    let m = stored s timestamp subject reply_to payload headers in
    let size = length-append s.messages (m ∷ []) in
    record {
      counted = omega (arith, size, h.counted, h.ends, room);
      sized = omega (arith, h.sized, total-snoc s.messages m);
      numbered =
          IsNumbered-snoc s.state.first_seq s.messages m h.numbered (omega (arith, h.ends, room));
      ends = omega (arith, size, h.ends, room);
      bounded = omega (arith, room);
    }

module _ (s : Stream) (h : IsStream s) where
  -- Below the first number kept there is nothing, and from it on the messages stand in order.
  read_lem :
      (q : ℕ)
      → read s q
        ≡ (if ltb q s.state.first_seq then none else get_elem? s.messages (q - s.state.first_seq))
  unfolding read
  read_lem q = elim (Bool-cases (ltb q s.state.first_seq)) [
    | inl below ↦ simp below
    | inr from ↦ elim (Bool-cases (ltb s.state.last_seq q)) [
      | inl beyond ↦
          let missing =
            get_elem?-none s.messages (q - s.state.first_seq) (ground (arith, h.ends)) in
          simp (from, beyond, missing)
      | inr within ↦ simp (from, within, ap (get_elem? s.messages) (index from within))
    ]
  ]
    where
      index :
          ltb q s.state.first_seq ≡ false
          → ltb s.state.last_seq q ≡ false
          → (q + (u64_mod - s.state.first_seq % u64_mod)) % u64_mod ≡ q - s.state.first_seq
      index a b = ground (arith, h.ends, h.bounded)

  numbered-get :
      (msgs : List StoredMessage) (first i : ℕ)
      → IsNumbered first msgs
      → i < length msgs
      → (m : StoredMessage) × (get_elem? msgs i ≡ some m) × (m.sequence ≡ first + i)
  numbered-get [] first i n lt = elim lt [ ]
  numbered-get (m ∷ msgs) first zero n lt = (m, refl, omega (arith, n.0))
  numbered-get (m ∷ msgs) first (suc i) n lt =
      let (m', found, seq) = numbered-get msgs (first + 1) i n.1 (omega arith) in
      (m', found, omega (arith, seq))

  -- In a stream that satisfies its invariant, a read from the first number kept up to the last
  -- finds a message, which has that number, and a read of any other number finds none.
  pub read-number :
      (q : ℕ)
      → (s.state.first_seq ≤ q
          → q ≤ s.state.last_seq
          → (m : StoredMessage) × (read s q ≡ some m) × (m.sequence ≡ q))
        × ((q < s.state.first_seq) ⊎ (s.state.last_seq < q) → read s q ≡ none)
  read-number q = (
    λ lo hi.
        let (m, found, seq) =
          numbered-get s.messages s.state.first_seq (q - s.state.first_seq) h.numbered
            (omega (arith, h.ends)) in
        (m, ground (arith, read_lem q, found), omega (arith, seq)),
    λ out.
        ground (arith, read_lem q, out, h.ends, get_elem?-none s.messages (q - s.state.first_seq)),
  )

module _ (s : Stream) (h : IsStream s) (room : s.state.last_seq + 2 < u64_mod) (timestamp now : ℕ)
    (subject : Str) (reply_to : Option Str) (payload : Bytes)
    (headers : Option (List (Str × Str))) where
  abbrev after : ℕ × Stream
  after = store s timestamp now subject reply_to payload headers

  -- `store` on a stream that satisfies its invariant, with two more numbers left, keeps the
  -- invariant: the counters tell the number and, modulo 2^64, the size of the messages kept, which
  -- are numbered without gaps from the first number to the last. It returns the last number plus
  -- one, which becomes the last number.
  pub store-IsStream :
      IsStream after.1
      × (after.0 ≡ s.state.last_seq + 1)
      × (after.1.state.last_seq ≡ s.state.last_seq + 1)
  unfolding store
  store-IsStream =
      let m = stored s timestamp subject reply_to payload headers in
      let (k, popped) = retention-pops s.config now (push_back s m) in
      let pushed = push_back-IsDeque s timestamp subject reply_to payload headers h room in
      let number : m.sequence ≡ s.state.last_seq + 1 = omega (arith, room) in
      (
        subst IsDeque (sym popped) (pops-IsDeque k (push_back s m) pushed),
        number,
        ap (λ (d : Deque). d.1.last_seq) popped ∙ pops-last_seq k (push_back s m) ∙ number,
      )

  after-messages :
      (k : ℕ) × (after.1.messages
        ≡ drop k (s.messages ++ stored s timestamp subject reply_to payload headers ∷ []))
  unfolding store
  after-messages =
      let m = stored s timestamp subject reply_to payload headers in
      let (k, popped) = retention-pops s.config now (push_back s m) in
      (k, ap (λ (d : Deque). d.0) popped ∙ pops-messages k (push_back s m))

  -- Let a stream satisfy its invariant and let two more sequence numbers be left. After `store`, a
  -- read below the first number kept finds nothing, a read of the number that `store` returned
  -- finds the message stored, and every other read finds what it found before, whatever the limits
  -- and the clock are.
  pub read-store :
      (q : ℕ)
      → read after.1 q ≡ (
          if ltb q after.1.state.first_seq
          then none
          else if q == after.0
          then some (stored s timestamp subject reply_to payload headers)
          else read s q)
  read-store q =
      let m = stored s timestamp subject reply_to payload headers in
      let (good, number, last) = store-IsStream in
      let (k, kept) = after-messages in
      let first' = after.1.state.first_seq in
      let before = read_lem s h q in
      let found =
        read_lem after.1 good q
        ∙ ap (λ msgs. if ltb q first' then none else get_elem? msgs (q - first')) kept
        ∙ ap (λ o. if ltb q first' then none else o)
            (get_elem?-drop k (s.messages ++ m ∷ []) (q - first')
              ∙ get_elem?-snoc s.messages m (k + (q - first'))) in
      let size = ap length kept ∙ length-drop k (s.messages ++ m ∷ []) in
      let size' = length-append s.messages (m ∷ []) in
      elim (Bool-cases (ltb q first')) [
        | inl below ↦ found ∙ simp below
        | inr from ↦
            let beyond = get_elem?-none s.messages (k + (q - first')) in
            let beyond' = get_elem?-none s.messages (q - s.state.first_seq) in
            elim (Bool-cases (ltb (s.state.last_seq + 1) q)) [
              | inl new ↦ ground (
                arith, found, before, beyond, beyond', size, size', good.ends, last, number, h.ends,
              )
              | inr old ↦
                  let same : k + (q - first') ≡ q - s.state.first_seq =
                    ground (arith, size, size', good.ends, last, h.ends) in
                  let lower : s.state.first_seq ≤ q =
                    ground (arith, size, size', good.ends, last, h.ends) in
                  let found' =
                    found
                    ∙ ap
                        (λ i.
                          if ltb q first'
                          then none
                          else if i == length s.messages
                          then some m
                          else get_elem? s.messages i)
                        same in
                  ground (arith, found', before, lower, number, h.ends)
            ]
      ]

  pub store-first_seq-le : s.state.first_seq ≤ after.1.state.first_seq
  store-first_seq-le =
      let m = stored s timestamp subject reply_to payload headers in
      let (good, number, last) = store-IsStream in
      let (k, kept) = after-messages in
      let size = ap length kept ∙ length-drop k (s.messages ++ m ∷ []) in
      omega (arith, size, length-append s.messages (m ∷ []), good.ends, last, h.ends)
