-- ===== src/DirectoryCopy.antt =====
-- Homework4 and Homework5: copying a directory with a manager, workers and a bounded buffer. The two
-- programs are the same but for a barrier at the end of Homework5.
pub mod Buffer
pub mod Pool
pub mod Traversal
