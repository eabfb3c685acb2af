-- ===== src/ThreadPool.antt =====
-- The pool of src/threadpool.c: its job queue, and its workers as a step relation.
pub mod Queue
pub mod Pool
pub mod Destroy
