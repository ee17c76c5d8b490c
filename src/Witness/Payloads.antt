-- ===== src/Witness/Payloads.antt =====
-- The payloads of commands on concrete texts.
use zet_mq.Prelude.{none, some, ◌≡◌, refl, [], ◌∷◌, arith}
use zet_mq.Text.{Str, is_utf8}
use zet_mq.Protocol.Payload.{AuthInfo, user_pass, CreateStreamCommand, AckCommand}
use zet_mq.Protocol.Error.{ok}
use zet_mq.Protocol.Command.{subscribe, publish, from_frame}
use zet_mq.Client.{publish_frame, build_sub_frame}
use zet_mq.Client.Understood.{from_frame-build_sub_frame}
use zet_mq.Client.Publishing.{from_frame-publish_frame}
use zet_mq.Protocol.Payload.{ConnectCommand}

abbrev ann : Str
ann = 97 ∷ 110 ∷ 110 ∷ []

abbrev ann_secret : AuthInfo
ann_secret = user_pass ann (115 ∷ 51 ∷ [])

abbrev stream_ann : CreateStreamCommand
stream_ann = record { name = ann; max_msgs = 1000; max_bytes = 0; max_age_secs = 70000 }

abbrev ack_ann : AckCommand
ack_ann = record { stream = ann; sequence = 300 }

abbrev connect_ann : ConnectCommand
connect_ann = record { client_name = none; protocol_version = 1; auth = ann_secret }

from_frame-build_sub_frame_example :
    from_frame (build_sub_frame ann (some ann) 4)
    ≡ ok (subscribe (record { subject_pattern = ann; queue_group = some ann }))
unfolding is_utf8
from_frame-build_sub_frame_example =
    from_frame-build_sub_frame ann (some ann) 4 (refl, omega arith)
      ((refl, omega arith), omega arith)

from_frame-publish_frame_example :
    from_frame (publish_frame (λ l. l) ann (some (98 ∷ [])) (1 ∷ 2 ∷ []) none)
    ≡ ok (
        publish (record {
          subject = ann;
          payload = 1 ∷ 2 ∷ [];
          reply_to = some (98 ∷ []);
          headers = none;
        }))
from_frame-publish_frame_example =
    from_frame-publish_frame (λ l. l) ann (some (98 ∷ [])) (1 ∷ 2 ∷ []) (omega arith)
      (omega arith, omega arith)
