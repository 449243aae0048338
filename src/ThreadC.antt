-- ===== src/ThreadC.antt =====
-- features/thread_c_inl.h, where the system has no <threads.h>.
pub mod Once
