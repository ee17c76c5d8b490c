-- ===== src/Witness/Data.antt =====
-- Concrete subjects, patterns and messages, as the parsers return them.
use zet_mq.Prelude.{ℕ, ◌≡◌, refl, List, [], ◌∷◌, ◌++◌, none, true, str_eq}
use zet_mq.Text.{Str, trim, strip_any, strip_prefix, contains, split}
use zet_mq.Core.Subject
use zet_mq.Core.Subject.{Subject}
use zet_mq.Core.Subject.Parsing.{IsSubject, parse-IsSubject}
use zet_mq.Core.Pattern
use zet_mq.Core.Pattern.{SubjectPattern, literal, single_wildcard}
use zet_mq.Core.Pattern.Parsing.{IsPattern, parse-IsPattern}
use zet_mq.Core.Registry.{Subscription, QueueGroupKey}
use zet_mq.Core.Delivery.{DeliveryHandle, DeliveryMessage, PublishItem, delivered}
use zet_mq.Core.Broker
use zet_mq.Server.Outbound.{OutboundFrame, Host}
use zet_mq.Server.StoreManager
use zet_mq.Server.Dispatcher.{World}

-- "a.b"
abbrev pub text_ab : Str
text_ab = 97 ∷ 46 ∷ 98 ∷ []

-- "a.*"
abbrev pub text_star : Str
text_star = 97 ∷ 46 ∷ 42 ∷ []

abbrev pub subject_ab : Subject
subject_ab = record { raw = text_ab; tokens = (97 ∷ []) ∷ (98 ∷ []) ∷ [] }

pub parsed_ab : Subject.parse text_ab ≡ Subject.ok subject_ab
unfolding Subject.parse trim strip_any strip_prefix contains split
parsed_ab = refl

pub good_ab : IsSubject subject_ab
good_ab = parse-IsSubject text_ab parsed_ab

abbrev pub pattern_ab : SubjectPattern
pattern_ab = record { raw = text_ab; tokens = literal (97 ∷ []) ∷ literal (98 ∷ []) ∷ [] }

abbrev pub pattern_star : SubjectPattern
pattern_star = record { raw = text_star; tokens = literal (97 ∷ []) ∷ single_wildcard ∷ [] }

pub parsed_pattern_ab : Pattern.parse text_ab ≡ Subject.ok pattern_ab
unfolding Pattern.parse trim strip_any strip_prefix split str_eq
parsed_pattern_ab = refl

pub parsed_star : Pattern.parse text_star ≡ Subject.ok pattern_star
unfolding Pattern.parse trim strip_any strip_prefix split str_eq
parsed_star = refl

pub good_pattern_ab : IsPattern pattern_ab
good_pattern_ab = parse-IsPattern text_ab parsed_pattern_ab

pub good_star : IsPattern pattern_star
good_star = parse-IsPattern text_star parsed_star

-- A subscription of a connection to "a.*", in no queue group.
abbrev pub subscribed : ℕ → ℕ → Subscription
subscribed id connection_id = record {
  id = id;
  connection_id = connection_id;
  pattern = pattern_star;
  queue_group = none;
  queue_group_key = none;
  delivery = 0;
}

-- A handle that accepts every message and keeps it.
abbrev pub mailbox : DeliveryHandle
mailbox = record {
  Channels = List DeliveryMessage;
  deliver = λ inbox handle message. (delivered, inbox ++ message ∷ []);
}

abbrev pub item_ab : PublishItem
item_ab = record { subject = subject_ab; payload = 1 ∷ []; reply_to = none; headers = none }

-- The group "g" on "a.b".
abbrev pub group_g : QueueGroupKey
group_g = (text_ab, 103 ∷ [])

-- Channels that keep what is sent.
abbrev pub outbox : Host
outbox = record {
  Channels = List (ℕ × OutboundFrame);
  try_send = λ c conn_id frame. (true, c ++ ((conn_id, frame) ∷ []));
  iterate = λ groups. groups;
  text = λ notice. [];
}

abbrev pub empty_world : World outbox.Channels
empty_world = record { broker = Broker.new; channels = []; store = StoreManager.new; tasks = [] }
