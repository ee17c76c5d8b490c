-- ===== src/Client.antt =====
-- crates/zetmq-client/src/client.rs and connection.rs: the frames that the client sends.
pub mod Understood
pub mod Publishing
pub mod Connection
pub mod Messages
pub mod Finishing
pub mod Stalled
pub mod Flushes
pub mod Reconnect
pub mod Replay
use zet_mq.Prelude.{ℕ, List, [], ◌++◌, Option, none, some, length, be_bytes}
use zet_mq.Text.{Str}
use zet_mq.Core.Delivery.{Bytes, HeaderMap}
use zet_mq.Protocol.Frame
use zet_mq.Protocol.Frame.{Frame}
use zet_mq.Protocol.FrameType
use zet_mq.Protocol.Headers.{encode_headers}
use zet_mq.Protocol.Payload.{ConnectCommand, encode_connect}

-- The frame that opens a connection.
unfoldable pub connect_frame : ConnectCommand → Frame
unfolding Frame.new Frame.with_payload
connect_frame c = elim (encode_connect c) [
  | none ↦ Frame.new FrameType.connect 0
  | some payload ↦ Frame.with_payload (Frame.new FrameType.connect 0) payload
]

abbrev pub reply_bytes : Option Str → Bytes
reply_bytes none = be_bytes 2 0
reply_bytes (some reply) = be_bytes 2 (length reply) ++ reply

-- The frame that `publish_with_reply` sends.
unfoldable pub publish_frame :
    (List (Str × Str) → List (Str × Str)) → Str → Option Str → Bytes → Option HeaderMap → Frame
unfolding Frame.new Frame.with_payload
publish_frame iterate subject reply_to payload headers =
    let bytes = be_bytes 2 (length subject) ++ (subject ++ (reply_bytes reply_to ++ payload)) in
    let frame = Frame.with_payload (Frame.new FrameType.pub_frame 0) bytes in
    elim headers [
      | none ↦ frame
      | some hdrs ↦ Frame.with_headers frame (encode_headers iterate hdrs)
    ]

abbrev pub group_bytes : Option Str → Bytes
group_bytes none = []
group_bytes (some group) = be_bytes 1 (length group) ++ group

unfoldable pub build_sub_frame : Str → Option Str → ℕ → Frame
unfolding Frame.new Frame.with_payload
build_sub_frame subject queue_group corr_id =
    Frame.with_payload (Frame.new FrameType.sub corr_id)
      (be_bytes 1 (length subject) ++ (subject ++ group_bytes queue_group))

unfoldable pub unsubscribe_frame : ℕ → Frame
unfolding Frame.new Frame.with_payload
unsubscribe_frame server_sub_id =
    Frame.with_payload (Frame.new FrameType.unsub server_sub_id) (be_bytes 8 server_sub_id)
