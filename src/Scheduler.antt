-- ===== src/Scheduler.antt =====
-- MP3 code/threads/scheduler.cc and thread.cc: the three-level ready queue and the thread states.
pub mod Thread
pub mod Queues
pub mod Examples
