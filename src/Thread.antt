-- ===== src/Thread.antt =====
-- Thread.h and Thread.cc: a thread with its name and the flags that say what becomes of it.
pub mod Names
mod Tests
use moduo_write.Common.{
  ℕ, ◌+◌, Bool, true, false, not, ◌&&◌, List, [], ◌∷◌, ◌++◌, take, length, ◌==◌, if◌then◌else◌,
}

-- `class Thread`, less the function that it runs. A name is a list of character codes.
pub record Thread : Type 0 where
  pub started : Bool
  pub joined : Bool
  pub tid : ℕ
  pub name : List ℕ

-- "Thread"
abbrev pub prefix : List ℕ
prefix = 84 ∷ 104 ∷ 114 ∷ 101 ∷ 97 ∷ 100 ∷ []

-- `decimal` is what `%d` prints. The buffer holds 32 bytes, the last of them zero.
module _ (decimal : ℕ → List ℕ) where
  -- With `numCreated_`, before and after.
  unfoldable pub set_default_name : ℕ → Thread → Thread × ℕ
  set_default_name num_created t =
      let num = num_created + 1 in
      (if length t.name == 0 then record t { name = take 31 (prefix ++ decimal num) } else t, num)

  -- The constructor.
  unfoldable pub new : List ℕ → ℕ → Thread × ℕ
  new name num_created =
      set_default_name num_created
        (record { started = false; joined = false; tid = 0; name = name })

-- What `start` and `join` set before they wait, and the new thread as it begins.
unfoldable pub set_started : Thread → Thread
set_started t = record t { started = true }

unfoldable pub set_joined : Thread → Thread
set_joined t = record t { joined = true }

unfoldable pub set_tid : ℕ → Thread → Thread
set_tid tid t = record t { tid = tid }

-- Whether the destructor detaches the thread.
unfoldable pub detaches : Thread → Bool
detaches t = t.started && not t.joined
