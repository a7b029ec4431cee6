-- ===== src/TsQueue.antt =====
-- Pthread NTHU-OS-Pthreads/ts_queue.hpp: a bounded queue in a ring buffer. The mutex makes each
-- operation one step, so threads that share a queue are a sequence of steps; `none` is a thread that
-- waits on the condition, with the mutex released and the queue as it was, and tries again when it is
-- signalled. An item is a pointer, a number here. `head` is the slot before the first item.
pub mod Ring
pub mod Fifo
pub mod Examples
use nthu_operating_system_er.Base.{
  ℕ, zero, suc, ◌+◌, ◌-◌, ◌%◌, Bool, List, [], ◌∷◌, Option, none, some, ◌==◌, if◌then◌else◌, get_or,
  set, replicate,
}

abbrev pub default_buffer_size : ℕ
default_buffer_size = 200

pub record TsQueue : Type 0 where
  pub buffer_size : ℕ
  pub buffer : List ℕ
  pub size : ℕ
  pub head : ℕ
  pub tail : ℕ

-- The slots are not initialized; `content` is what they hold.
unfoldable pub new : ℕ → ℕ → TsQueue
new content buffer_size = record {
  buffer_size = buffer_size;
  buffer = replicate buffer_size content;
  size = 0;
  head = buffer_size - 1;
  tail = 0;
}

unfoldable pub enqueue : TsQueue → ℕ → Option TsQueue
enqueue q item =
    if q.size == q.buffer_size
    then none
    else some (record q {
      buffer = set q.buffer q.tail item;
      tail = (q.tail + 1) % q.buffer_size;
      size = q.size + 1;
    })

unfoldable pub dequeue : TsQueue → Option (ℕ × TsQueue)
dequeue q =
    if q.size == 0
    then none
    else some (
      get_or q.buffer ((q.head + 1) % q.buffer_size) 0,
      record q { head = (q.head + 1) % q.buffer_size; size = q.size - 1 },
    )

unfoldable pub get_size : TsQueue → ℕ
get_size q = q.size
