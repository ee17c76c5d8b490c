-- ===== src/Protocol/FrameType.antt =====
-- crates/zetmq-protocol/src/frame/frame_type.rs
use zet_mq.Prelude.{ℕ, ◌≡◌, ◌↔◌, refl, if◌then◌else◌, ◌==◌, arith}
use zet_mq.Protocol.Error.{Result, ok, err, unknown_frame_type}

pub data FrameType : Type 0 where
  connect connack ping pong drain drainack pub_frame msg sub : FrameType
  suback unsub unsuback create_stream stream_info delete_stream ack nack error : FrameType

unfoldable pub from_u8 : ℕ → Result FrameType
from_u8 value =
    if value == 1
    then ok connect
    else if value == 2
    then ok connack
    else if value == 16
    then ok ping
    else if value == 17
    then ok pong
    else if value == 64
    then ok drain
    else if value == 65
    then ok drainack
    else if value == 32
    then ok pub_frame
    else if value == 33
    then ok msg
    else if value == 48
    then ok sub
    else if value == 49
    then ok suback
    else if value == 50
    then ok unsub
    else if value == 51
    then ok unsuback
    else if value == 96
    then ok create_stream
    else if value == 97
    then ok stream_info
    else if value == 98
    then ok delete_stream
    else if value == 80
    then ok ack
    else if value == 81
    then ok nack
    else if value == 224
    then ok error
    else err (unknown_frame_type value)

unfoldable pub as_u8 : FrameType → ℕ
as_u8 connect = 1
as_u8 connack = 2
as_u8 ping = 16
as_u8 pong = 17
as_u8 drain = 64
as_u8 drainack = 65
as_u8 pub_frame = 32
as_u8 msg = 33
as_u8 sub = 48
as_u8 suback = 49
as_u8 unsub = 50
as_u8 unsuback = 51
as_u8 create_stream = 96
as_u8 stream_info = 97
as_u8 delete_stream = 98
as_u8 ack = 80
as_u8 nack = 81
as_u8 error = 224

pub from-as_u8 : (t : FrameType) → from_u8 (as_u8 t) ≡ ok t
unfolding from_u8 as_u8
from-as_u8 connect = refl
from-as_u8 connack = refl
from-as_u8 ping = refl
from-as_u8 pong = refl
from-as_u8 drain = refl
from-as_u8 drainack = refl
from-as_u8 pub_frame = refl
from-as_u8 msg = refl
from-as_u8 sub = refl
from-as_u8 suback = refl
from-as_u8 unsub = refl
from-as_u8 unsuback = refl
from-as_u8 create_stream = refl
from-as_u8 stream_info = refl
from-as_u8 delete_stream = refl
from-as_u8 ack = refl
from-as_u8 nack = refl
from-as_u8 error = refl

as-from_u8 : (value : ℕ) (t : FrameType) → from_u8 value ≡ ok t → as_u8 t ≡ value
unfolding from_u8 as_u8
as-from_u8 value t h = ground arith

-- `from_u8` reads a byte as a frame type exactly if `as_u8` writes that type as that byte.
pub from_u8_iff : (value : ℕ) (t : FrameType) → (from_u8 value ≡ ok t) ↔ (as_u8 t ≡ value)
from_u8_iff value t = (as-from_u8 value t, λ e. rw (← e) (from-as_u8 t))
