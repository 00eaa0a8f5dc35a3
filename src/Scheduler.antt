-- ===== src/Scheduler.antt =====
-- engine/bjvm/vm/roundrobin_scheduler.c and roundrobin_scheduler.h: the round robin of threads, what
-- each waits for, and the queue of calls that each has to run.
pub mod Types
pub mod Handles
pub mod Notify
pub mod Sleep
pub mod Step
