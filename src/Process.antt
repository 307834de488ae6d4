-- ===== src/Process.antt =====
-- kernel/src/process: the tasks and the scheduler.
pub mod Task
pub mod Ready
pub mod Sleep
pub mod Family
pub mod Signal
pub mod Switch
