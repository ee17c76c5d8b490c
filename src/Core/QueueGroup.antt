-- ===== src/Core/QueueGroup.antt =====
-- crates/zetmq-core/src/queue_group.rs: the name of a queue group.
use zet_mq.Prelude.{ℕ, if◌then◌else◌, is_empty, ltb, length}
use zet_mq.Text.{Str, trim}
use zet_mq.Core.Subject.{Result, ok, err, empty, too_long, invalid_queue_group_name}

abbrev pub max_queue_group_name : ℕ
max_queue_group_name = 128

unfoldable pub new : Str → Result Str
new name =
    let trimmed = trim name in
    if is_empty trimmed
    then err (invalid_queue_group_name empty)
    else if ltb max_queue_group_name (length trimmed)
    then err (invalid_queue_group_name too_long)
    else ok trimmed
