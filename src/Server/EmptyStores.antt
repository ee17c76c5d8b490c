-- ===== src/Server/EmptyStores.antt =====
-- The stores of crates/zetmq-server/src/store.rs without messages and without consumers.
use zet_mq.Prelude.{
  ℕ, ◌≡◌, refl, ap, ◌∙◌, sym, subst, Bool, true, false, List, [], Option, none, some, arith,
  Option-cases, inl, inr, if◌then◌else◌,
}
use zet_mq.Text.{Str}
use zet_mq.Map
use zet_mq.Map.{Map, str_key, get-insert, get-remove, get-empty}
use zet_mq.Store.Stream
use zet_mq.Store.Stream.{Stream, StreamConfig}
use zet_mq.Store.Memory
use zet_mq.Store.Memory.{MemoryStore}
use zet_mq.Store.Consumer.{ack_message, consumer_key}
use zet_mq.Server.StoreManager
use zet_mq.Server.StoreManager.{StoreManager}

-- Every stream is without messages.
abbrev pub AllEmpty : MemoryStore → Type 0
AllEmpty streams =
    (name : Str) (s : Stream)
    → Map.get name streams ≡ some s
    → (s.messages ≡ []) × (s.state.messages ≡ 0)

-- No consumer is there, and every stream is without messages.
abbrev pub IsIdle : StoreManager → Type 0
IsIdle store = (store.consumers ≡ Map.empty) × AllEmpty store.store

pub create_stream-AllEmpty :
    (streams : MemoryStore) (name : Str) (config : StreamConfig)
    → AllEmpty streams
    → AllEmpty (Memory.create_stream streams name config).1
unfolding Memory.create_stream Stream.new
create_stream-AllEmpty streams name config empty other s found =
    elim (Option-cases (Map.get name streams)) [
      | inr (s', there) ↦
          empty other s (subst (λ x. Map.get other x ≡ some s) (kept s' there) found)
      | inl missing ↦ made (subst (λ x. Map.get other x ≡ some s) (added missing) found)
    ]
  where
    kept :
        (s' : Stream)
        → Map.get name streams ≡ some s'
        → (Memory.create_stream streams name config).1 ≡ streams
    kept s' there = rw (there, Memory.create_stream) refl

    added :
        Map.get name streams ≡ none
        → (Memory.create_stream streams name config).1
          ≡ Map.insert name (Stream.new name config) streams
    added missing = rw (missing, Memory.create_stream) refl

    made :
        Map.get other (Map.insert name (Stream.new name config) streams) ≡ some s
        → (s.messages ≡ []) × (s.state.messages ≡ 0)
    made h =
        of_if (str_key.eq name other)
          (sym (get-insert name other (Stream.new name config) streams) ∙ h)
      where
        of_if :
            (b : Bool)
            → (if b then some (Stream.new name config) else Map.get other streams) ≡ some s
            → (s.messages ≡ []) × (s.state.messages ≡ 0)
        of_if true e = (sym (ap messages_of e), sym (ap count_of e))
          where
            messages_of : Option Stream → List Stream.StoredMessage
            messages_of none = []
            messages_of (some x) = x.messages

            count_of : Option Stream → ℕ
            count_of none = 0
            count_of (some x) = x.state.messages
        of_if false e = empty other s e

pub remove-AllEmpty :
    (streams : MemoryStore) (name : Str) → AllEmpty streams → AllEmpty (Map.remove name streams)
remove-AllEmpty streams name empty other s found =
    of_if (str_key.eq name other) (sym (get-remove name other streams) ∙ found)
  where
    of_if :
        (b : Bool)
        → (if b then none else Map.get other streams) ≡ some s
        → (s.messages ≡ []) × (s.state.messages ≡ 0)
    of_if true e = absurd (none_some e)
      where
        none_some : none ≡ some s → ⊥
        none_some h = ground arith
    of_if false e = empty other s e

pub ack-idle :
    (store : StoreManager) (stream consumer : Str) (n : ℕ)
    → store.consumers ≡ Map.empty
    → StoreManager.ack store stream consumer n ≡ (false, store)
unfolding StoreManager.ack ack_message
ack-idle store stream consumer n empty =
    let missing : Map.get (consumer_key stream consumer) store.consumers ≡ none =
      ap (Map.get (consumer_key stream consumer)) empty
      ∙ get-empty (consumer_key stream consumer) in
    rw (StoreManager.ack, ack_message, missing) refl
