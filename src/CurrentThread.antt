-- ===== src/CurrentThread.antt =====
-- CurrentThread.h and CurrentThread.cc: the number of the running thread, kept in the thread.
use moduo_write.Common.{ℕ, ◌==◌, if◌then◌else◌}

-- `t_cachedTid` afterwards; `gettid` is what the system call returns.
unfoldable pub cache_tid : ℕ → ℕ → ℕ
cache_tid gettid cached = if cached == 0 then gettid else cached

-- The result and `t_cachedTid` afterwards.
unfoldable pub tid : ℕ → ℕ → ℕ × ℕ
tid gettid cached =
    let cached' = if cached == 0 then cache_tid gettid cached else cached in (cached', cached')
