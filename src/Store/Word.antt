-- ===== src/Store/Word.antt =====
-- Unsigned 64-bit arithmetic of a release build, which wraps.
use zet_mq.Prelude.{ℕ, ◌+◌, ◌-◌, ◌*◌, ◌%◌}
use zet_mq.Core.Metrics.{u64_mod}

abbrev pub add64 : ℕ → ℕ → ℕ
add64 a b = (a + b) % u64_mod

abbrev pub sub64 : ℕ → ℕ → ℕ
sub64 a b = (a + (u64_mod - b % u64_mod)) % u64_mod

abbrev pub mul64 : ℕ → ℕ → ℕ
mul64 a b = (a * b) % u64_mod
