-- ===== src/Workers.antt =====
-- Threads that wait and threads that work, of dev-utils/cpp_utils: the wait handlers and the pool that
-- runs the tasks of the bridges.
pub mod WaitHandler
pub mod Consumer
pub mod SlotThreadPool
