-- ===== src/Core/Delivery.antt =====
-- crates/zetmq-core/src/delivery.rs and message.rs. What a handle does with a message is up to the
-- crate that implements the trait: it is a parameter, a function on the state of all channels.
use zet_mq.Prelude.{ℕ, suc, List, [], ◌∷◌, Option}
use zet_mq.Text.{Str}
use zet_mq.Map.{Map}
use zet_mq.Core.Subject.{Subject}

abbrev pub HeaderMap : Type 0
HeaderMap = Map Str Str

abbrev pub Bytes : Type 0
Bytes = List ℕ

pub record PublishItem : Type 0 where
  pub subject : Subject
  pub payload : Bytes
  pub reply_to : Option Subject
  pub headers : Option HeaderMap

pub record Message : Type 0 where
  pub id : ℕ
  pub subject : Subject
  pub payload : Bytes
  pub headers : Option HeaderMap
  pub reply_to : Option Subject
  pub timestamp_ns : ℕ

-- `Message { id: MessageId::new(0), .., timestamp_ns: 0 }` of an item.
abbrev pub message_of : PublishItem → Message
message_of item = record {
  id = 0;
  subject = item.subject;
  payload = item.payload;
  headers = item.headers;
  reply_to = item.reply_to;
  timestamp_ns = 0;
}

pub record DeliveryMessage : Type 0 where
  pub subscription_id : ℕ
  pub connection_id : ℕ
  pub subject : Subject
  pub payload : Bytes
  pub reply_to : Option Subject
  pub headers : Option HeaderMap

pub data DeliveryStatus : Type 0 where
  delivered channel_full : DeliveryStatus
  failed : Str → DeliveryStatus

-- `deliver channels handle message`
pub record DeliveryHandle : Type 1 where
  pub Channels : Type 0
  pub deliver : Channels → ℕ → DeliveryMessage → DeliveryStatus × Channels

module _ (D : DeliveryHandle) where
  open D use {Channels, deliver}

  abbrev next_accepted : DeliveryStatus → ℕ × Channels → Channels → ℕ × Channels
  next_accepted delivered (accepted, c) stopped = (suc accepted, c)
  next_accepted _ _ stopped = (0, stopped)

  -- The default `deliver_batch`: up to the first message that is not accepted.
  unfoldable pub deliver_batch : Channels → ℕ → List DeliveryMessage → ℕ × Channels
  deliver_batch c handle [] = (0, c)
  deliver_batch c handle (msg ∷ msgs) =
      let (status, c') = deliver c handle msg in
      let rest = deliver_batch c' handle msgs in next_accepted status rest c'
