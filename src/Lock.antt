-- ===== src/Lock.antt =====
-- utils/lock.ts: a task under an advisory lock of PostgreSQL.
use quipay_backend.Prelude.{Bool, true, false, ◌&&◌}

-- The answer to `pg_try_advisory_lock`: the lock, its refusal, or an error that the statement throws.
pub data LockAnswer : Type 0 where
  acquired held : LockAnswer
  lock_throws : LockAnswer

-- A promise: whether it resolves, and the state that it leaves.
abbrev pub Run : Type 0 → Type 0
Run W = Bool × W

-- `finally` releases the lock; where that statement throws, so does the call.
unfoldable pub with_advisory_lock : {W : Type 0} → LockAnswer → Bool → (W → Run W) → W → Run W
with_advisory_lock acquired unlocks task w = ((task w).0 && unlocks, (task w).1)
with_advisory_lock held unlocks task w = (true, w)
with_advisory_lock lock_throws unlocks task w = (false, w)
