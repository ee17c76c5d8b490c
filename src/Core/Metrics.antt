-- ===== src/Core/Metrics.antt =====
-- crates/zetmq-core/src/metrics.rs: counters of 64 bits, which wrap as `fetch_add` and `fetch_sub` do.
use zet_mq.Prelude.{ℕ, ◌+◌, ◌-◌, ◌%◌, ◌^◌}

abbrev pub u64_mod : ℕ
u64_mod = 2 ^ 64

pub record CoreMetrics : Type 0 where
  pub active_connections : ℕ
  pub total_connections : ℕ
  pub active_subscriptions : ℕ
  pub messages_published : ℕ
  pub messages_delivered : ℕ
  pub messages_dropped : ℕ
  pub protocol_errors : ℕ

abbrev pub fetch_add : ℕ → ℕ → ℕ
fetch_add counter n = (counter + n) % u64_mod

abbrev pub fetch_sub : ℕ → ℕ → ℕ
fetch_sub counter n = (counter + u64_mod - n) % u64_mod

abbrev pub new : CoreMetrics
new = record {
  active_connections = 0;
  total_connections = 0;
  active_subscriptions = 0;
  messages_published = 0;
  messages_delivered = 0;
  messages_dropped = 0;
  protocol_errors = 0;
}

unfoldable pub inc_active_connections : CoreMetrics → CoreMetrics
inc_active_connections m = record m {
  active_connections = fetch_add m.active_connections 1;
  total_connections = fetch_add m.total_connections 1;
}

unfoldable pub dec_active_connections : CoreMetrics → CoreMetrics
dec_active_connections m = record m { active_connections = fetch_sub m.active_connections 1 }

unfoldable pub inc_subscriptions : CoreMetrics → CoreMetrics
inc_subscriptions m = record m { active_subscriptions = fetch_add m.active_subscriptions 1 }

unfoldable pub dec_subscriptions : CoreMetrics → CoreMetrics
dec_subscriptions m = record m { active_subscriptions = fetch_sub m.active_subscriptions 1 }

-- `inc_published_by`, and `inc_published` for 1.
unfoldable pub inc_published_by : ℕ → CoreMetrics → CoreMetrics
inc_published_by n m = record m { messages_published = fetch_add m.messages_published n }

-- `inc_delivered` and `inc_dropped` for 1.
unfoldable pub add_delivered : ℕ → CoreMetrics → CoreMetrics
add_delivered n m = record m { messages_delivered = fetch_add m.messages_delivered n }

unfoldable pub add_dropped : ℕ → CoreMetrics → CoreMetrics
add_dropped n m = record m { messages_dropped = fetch_add m.messages_dropped n }

unfoldable pub inc_protocol_errors : CoreMetrics → CoreMetrics
inc_protocol_errors m = record m { protocol_errors = fetch_add m.protocol_errors 1 }
