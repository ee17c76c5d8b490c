-- ===== src/Store/Segment/File.antt =====
-- The file that crates/zetmq-store/src/segment.rs writes to, as the operating system documents it.
use zet_mq.Prelude.{ℕ, ◌+◌, ◌≡◌, ◌≤◌, ◌<◌, ◌++◌, Option, none, some, length, take, drop}
use zet_mq.Core.Delivery.{Bytes}

pub record FileApi : Type 1 where
  pub Handle : Type 0
  pub content : Handle → Bytes
  pub position : Handle → ℕ
  -- `seek(SeekFrom::Start(offset))`
  pub seek : ℕ → Handle → Handle
  -- `seek(SeekFrom::Current(distance))` to the front
  pub skip : ℕ → Handle → Handle
  pub write_all : Bytes → Handle → Handle
  pub read_exact : ℕ → Handle → Option Bytes × Handle

module _ (F : FileApi) where
  open F use {Handle, content, position, seek, skip, write_all, read_exact}

  -- A seek moves the position alone; a write puts the bytes over those at the position, and moves the
  -- position behind them; a read that the file is long enough for returns the bytes at the position,
  -- and moves the position behind them; and a longer one fails, at
  -- the end of the file.
  pub record FileLaws : Type 0 where
    pub content-seek : (p : ℕ) (f : Handle) → content (seek p f) ≡ content f
    pub position-seek : (p : ℕ) (f : Handle) → position (seek p f) ≡ p
    pub content-skip : (n : ℕ) (f : Handle) → content (skip n f) ≡ content f
    pub position-skip : (n : ℕ) (f : Handle) → position (skip n f) ≡ position f + n
    pub content-write_all :
        (b : Bytes) (f : Handle)
        → position f ≤ length (content f)
        → content (write_all b f)
          ≡ take (position f) (content f) ++ (b ++ drop (position f + length b) (content f))
    pub position-write_all :
        (b : Bytes) (f : Handle) → position (write_all b f) ≡ position f + length b
    pub read_exact-within :
        (n : ℕ) (f : Handle)
        → position f + n ≤ length (content f)
        → ((read_exact n f).0 ≡ some (take n (drop (position f) (content f))))
          × (content (read_exact n f).1 ≡ content f)
          × (position (read_exact n f).1 ≡ position f + n)
    pub read_exact-beyond :
        (n : ℕ) (f : Handle) → length (content f) < position f + n → (read_exact n f).0 ≡ none
    pub read_exact-end :
        (n : ℕ) (f : Handle)
        → length (content f) < position f + n
        → position f ≤ length (content f)
        → (content (read_exact n f).1 ≡ content f)
          × (position (read_exact n f).1 ≡ length (content f))
