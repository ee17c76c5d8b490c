-- ===== src/Client/Replay.antt =====
-- The subscriptions that crates/zetmq-client/src/client.rs makes again behind a reconnection.
use zet_mq.Prelude.{
  ℕ, ◌≡◌, ◌≤◌, refl, ap, ◌∙◌, true, false, List, [], ◌∷◌, ◌++◌, Option, none, some, if◌then◌else◌,
  arith, ◌==◌, ==_refl, length, length-append, All,
}
use zet_mq.Map
use zet_mq.Map.{Map, mapped, nat_key, get-insert, get-update, get-remove}
use zet_mq.Client.{unsubscribe_frame}
use zet_mq.Client.Connection.{
  Receivers, Link, next_sub_id, subscribe_send, subscribe_answered, remove_subscription, send_frame,
}
use zet_mq.Client.Reconnect.{
  ActiveSubscription, with_server_id, remap, Client, resubscribe, unsubscribe, with_first,
  replay_each, replayed, replay_subscriptions, or_own,
}

-- A number that is not among others.
abbrev pub Absent : ℕ → List ℕ → Type 0
Absent n xs = All (λ (x : ℕ). (x == n) ≡ false) xs

-- The ids of subscriptions with the answers for them.
unfoldable pub paired : List (ℕ × ActiveSubscription) → List ℕ → List (ℕ × ℕ)
paired [] answers = []
paired (a ∷ more) [] = []
paired (a ∷ more) (n ∷ answers) = (a.0, n) ∷ paired more answers

abbrev pub AbsentKey : {A : Type 0} → ℕ → List (ℕ × A) → Type 0
AbsentKey {A} k xs = All (λ (x : ℕ × A). (x.0 == k) ≡ false) xs

get-remap_other :
    (k : ℕ) (ids : List (ℕ × ℕ)) (m : Map ℕ ActiveSubscription)
    → AbsentKey k ids
    → Map.get k (remap ids m) ≡ Map.get k m
unfolding remap
get-remap_other k [] m absent = refl
get-remap_other k ((j, n) ∷ ids) m (other, absent) =
    get-remap_other k ids (Map.update (with_server_id n) j m) absent
    ∙ get-update (with_server_id n) j k m
    ∙ ap (λ b. if b then mapped (with_server_id n) (Map.get k m) else Map.get k m) other

get-remap :
    (k n : ℕ) (before after : List (ℕ × ℕ)) (m : Map ℕ ActiveSubscription)
    → AbsentKey k before
    → AbsentKey k after
    → Map.get k (remap (before ++ ((k, n) ∷ after)) m) ≡ mapped (with_server_id n) (Map.get k m)
unfolding remap
get-remap k n [] after m early late =
    get-remap_other k after (Map.update (with_server_id n) k m) late
    ∙ get-update (with_server_id n) k k m
    ∙ ap (λ b. if b then mapped (with_server_id n) (Map.get k m) else Map.get k m) (==_refl k)
get-remap k n ((j, i) ∷ before) after m (other, early) late =
    get-remap k n before after (Map.update (with_server_id i) j m) early late
    ∙ ap (mapped (with_server_id n)) (
        get-update (with_server_id i) j k m
        ∙ ap (λ b. if b then mapped (with_server_id i) (Map.get k m) else Map.get k m) other)

paired-append :
    (before after : List (ℕ × ActiveSubscription)) (k : ℕ) (a : ActiveSubscription) (xs ys : List ℕ)
    (n : ℕ)
    → length xs ≡ length before
    → paired (before ++ ((k, a) ∷ after)) (xs ++ (n ∷ ys))
      ≡ paired before xs ++ ((k, n) ∷ paired after ys)
unfolding paired
paired-append [] after k a [] ys n e = refl
paired-append [] after k a (x ∷ xs) ys n e = absurd (omega arith)
paired-append (b ∷ before) after k a [] ys n e = absurd (omega arith)
paired-append (b ∷ before) after k a (x ∷ xs) ys n e =
    ap (λ l. (b.0, x) ∷ l) (paired-append before after k a xs ys n (omega arith))

paired-AbsentKey :
    (k : ℕ) (subs : List (ℕ × ActiveSubscription)) (xs : List ℕ)
    → AbsentKey k subs
    → AbsentKey k (paired subs xs)
unfolding paired
paired-AbsentKey k [] xs absent = tt
paired-AbsentKey k (a ∷ subs) [] absent = tt
paired-AbsentKey k (a ∷ subs) (x ∷ xs) (other, absent) = (other, paired-AbsentKey k subs xs absent)

module _ (R : Receivers) where
  replay_each-paired :
      (subs : List (ℕ × ActiveSubscription)) (xs : List ℕ) (c : Link R)
      → length subs ≤ length xs
      → (replay_each R subs xs c).0 ≡ some (paired subs xs)
  unfolding replay_each paired resubscribe
  replay_each-paired [] xs c le = refl
  replay_each-paired (a ∷ subs) [] c le = absurd (omega arith)
  replay_each-paired ((k, a) ∷ subs) (x ∷ xs) c le =
      ap (with_first R (k, x)) (replay_each-paired subs xs _ (omega arith))

  -- Later answers leave a registration as it is.
  get-replay_each-Absent :
      (n : ℕ) (subs : List (ℕ × ActiveSubscription)) (xs : List ℕ) (c : Link R)
      → Absent n xs
      → Map.get n (replay_each R subs xs c).1.state.subscriptions ≡ Map.get n c.state.subscriptions
  unfolding replay_each resubscribe subscribe_send next_sub_id subscribe_answered
  get-replay_each-Absent n [] xs c absent = refl
  get-replay_each-Absent n ((k, a) ∷ subs) [] c absent = refl
  get-replay_each-Absent n ((k, a) ∷ subs) (x ∷ xs) c (other, absent) =
      get-replay_each-Absent n subs xs _ absent
      ∙ get-insert x n a.tx c.state.subscriptions
      ∙ ap (λ b. if b then some a.tx else Map.get n c.state.subscriptions) other

  get-replay_each :
      (k n : ℕ) (a : ActiveSubscription) (before after : List (ℕ × ActiveSubscription))
      (xs ys : List ℕ) (c : Link R)
      → length xs ≡ length before
      → Absent n ys
      → Map.get n
          (replay_each R (before ++ ((k, a) ∷ after)) (xs ++ (n ∷ ys)) c).1.state.subscriptions
        ≡ some a.tx
  unfolding replay_each resubscribe subscribe_send next_sub_id subscribe_answered
  get-replay_each k n a [] after [] ys c e absent =
      get-replay_each-Absent n after ys _ absent
      ∙ get-insert n n a.tx c.state.subscriptions
      ∙ ap (λ b. if b then some a.tx else Map.get n c.state.subscriptions) (==_refl n)
  get-replay_each k n a [] after (x ∷ xs) ys c e absent = absurd (omega arith)
  get-replay_each k n a (b ∷ before) after [] ys c e absent = absurd (omega arith)
  get-replay_each k n a ((j, b) ∷ before) after (x ∷ xs) ys c e absent =
      get-replay_each k n a before after xs ys _ (omega arith) absent

  -- Let a client keep a subscription under the id `k`, let the hash map hand it out once, and let
  -- the server answer all SUB frames that are sent again, this one with `n` and no later one with
  -- `n`. Behind `replay_subscriptions` messages for `n` go to the subscriber, the subscription
  -- stands under `k` with `n` as the id of the server, and `unsubscribe` of `k` sends the UNSUB
  -- frame for `n` and ends the registration of `n`.
  pub replay-unsubscribe :
      (iterate : List (ℕ × ActiveSubscription) → List (ℕ × ActiveSubscription)) (k n : ℕ)
      (a : ActiveSubscription) (before after : List (ℕ × ActiveSubscription)) (xs ys : List ℕ)
      (client : Client R)
      → iterate client.subscriptions.entries ≡ before ++ ((k, a) ∷ after)
      → Map.get k client.subscriptions ≡ some a
      → AbsentKey k before
      → AbsentKey k after
      → length xs ≡ length before
      → length after ≤ length ys
      → Absent n ys
      → (client' : Client R) × (replay_subscriptions R iterate (xs ++ (n ∷ ys)) client
          ≡ (true, client'))
        × (Map.get n client'.conn.state.subscriptions ≡ some a.tx)
        × (Map.get k client'.subscriptions ≡ some (with_server_id n a))
        × ((unsubscribe R k client').conn.written
            ≡ client'.conn.written ++ (unsubscribe_frame n ∷ []))
        × (Map.get n (unsubscribe R k client').conn.state.subscriptions ≡ none)
  unfolding replay_subscriptions unsubscribe send_frame remove_subscription
  replay-unsubscribe iterate k n a before after xs ys client order there early late e enough
        absent =
      let subs = before ++ ((k, a) ∷ after) in
      let answers = xs ++ (n ∷ ys) in
      let r = replay_each R subs answers client.conn in
      let ids = paired before xs ++ ((k, n) ∷ paired after ys) in
      let client' : Client R = record {
        conn = r.1;
        subscriptions = remap ids client.subscriptions;
      } in
      let all : r.0 ≡ some ids =
        replay_each-paired subs answers client.conn
          (omega (arith, length-append before ((k, a) ∷ after), length-append xs (n ∷ ys)))
        ∙ ap some (paired-append before after k a xs ys n e) in
      let done : replay_subscriptions R iterate answers client ≡ (true, client') =
        ap (λ l. replayed R (replay_each R l answers client.conn) client) order
        ∙ ap (λ (o : Option (List (ℕ × ℕ))). replayed R (o, r.1) client) all in
      let moved : Map.get k (remap ids client.subscriptions) ≡ some (with_server_id n a) =
        get-remap k n (paired before xs) (paired after ys) client.subscriptions
          (paired-AbsentKey k before xs early) (paired-AbsentKey k after ys late)
        ∙ ap (mapped (with_server_id n)) there in
      (
        client',
        done,
        get-replay_each k n a before after xs ys client.conn e absent,
        moved,
        ap (λ (o : Option ActiveSubscription). r.1.written ++ (unsubscribe_frame (or_own k o) ∷ []))
            moved,
        ap
              (λ (o : Option ActiveSubscription).
                Map.get n (Map.remove (or_own k o) r.1.state.subscriptions))
              moved
            ∙ get-remove n n r.1.state.subscriptions
            ∙ ap (λ b. if b then none else Map.get n r.1.state.subscriptions) (==_refl n),
      )
