-- ===== src/Sched.antt =====
-- src/kernel/sched.c over src/kernel/queue.h and src/kernel/thread.h: threads, processor contexts,
-- blockers, and the step that the timer interrupt takes.
pub mod Queue
pub mod State
pub mod Context
pub mod Blocker
pub mod Schedule
pub mod Weight
pub mod Balance
pub mod Sane
pub mod Push
pub mod Wake
mod Tests
pub mod Deadlines
pub mod Process
